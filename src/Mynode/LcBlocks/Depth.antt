-- ===== src/Mynode/LcBlocks/Depth.antt =====
-- `k_deep`, `higher_of` and `height_honest` of mynode/src/lcblocks.rs in a well-formed tree.
use accountability_gadget_pr.Base.{
  ℕ, zero, suc, ◌-◌, ◌≤◌, ◌≡◌, refl, sym, ◌∙◌, ap, subst, inl, inr, Option, none, some, leb, ok,
  arith, Bool-cases, Option-cases, if◌then◌else◌,
}
use accountability_gadget_pr.Base.Dict.{contains_key-lookup}
use accountability_gadget_pr.Crypto.{Digest}
use accountability_gadget_pr.Mynode.LcBlocks.{LcBlock, LcBlockTree, k_deep, higher_of}
use accountability_gadget_pr.Mynode.LcBlocks.Invariant.{IsBlock, IsHeight, IsLinked, IsTree}
use accountability_gadget_pr.Mynode.LcBlocks.Ancestors.{
  Ancestor, here, below, Ancestor-trans, Ancestor-cases, Ancestor-height, Ancestor-IsBlock_first,
  IsBlock-IsHeight, parent-IsHeight,
}

same_parent : {o : Option Digest} {q p : Digest} → o ≡ some q → o ≡ some p → q ≡ p
same_parent e f = cc

module _ {root : Digest} {t : LcBlockTree} (i : IsTree root t) where
  k_deep_root :
      (k : ℕ) (d : Digest) (b : LcBlock)
      → IsBlock t d b
      → b.parent ≡ none
      → k_deep t (suc k) d ≡ ok d
  unfolding k_deep
  k_deep_root k d b e none_e = ground arith

  k_deep_parent :
      (k : ℕ) (d p : Digest) (b : LcBlock)
      → IsBlock t d b
      → b.parent ≡ some p
      → k_deep t (suc k) d ≡ k_deep t k p
  unfolding k_deep
  k_deep_parent k d p b e parent = ground arith

  -- In a well-formed tree `k_deep` returns an ancestor, `k` below the block or the root if that is
  -- nearer.
  pub k_deep-Ancestor :
      (k : ℕ) (d : Digest) (b : LcBlock) (h : ℕ)
      → IsBlock t d b
      → IsHeight t d h
      → (r : Digest) × (k_deep t k d ≡ ok r) × Ancestor t r d × IsHeight t r (h - k)
  unfolding k_deep
  k_deep-Ancestor zero d b h e high =
      let same : h - 0 ≡ h = omega arith in (d, refl, here b e, rw same high)
  k_deep-Ancestor (suc k) d b h e high = elim (Option-cases b.parent) [
    | inl none_e ↦
        let (same, high0) = subst (λ o. IsLinked root t d o) none_e (i.linked d b e) in
        let z : h - suc k ≡ 0 = ground arith in
        (d, k_deep_root k d b e none_e, here b e, rw z high0)
    | inr (p, parent) ↦
        let (k', bp, eq, high_p, at_p) = parent-IsHeight i d p b h e parent high in
        let (r, f, a, high_r) = k_deep-Ancestor k p bp k' at_p high_p in
        let z : h - suc k ≡ k' - k = omega arith in
        (
          r,
          k_deep_parent k d p b e parent ∙ f,
          Ancestor-trans a (below b e parent (here bp at_p)),
          rw z high_r,
        )
  ]

  -- The ancestors of a block lie on one chain.
  pub Ancestor-chain :
      {a b d : Digest} (x y : ℕ)
      → Ancestor t a d
      → Ancestor t b d
      → IsHeight t a x
      → IsHeight t b y
      → x ≤ y
      → Ancestor t a b
  Ancestor-chain {a} {b} x y (here p e) s ha hb le = elim (Ancestor-height i y x s hb ha) [
    | inl same ↦ subst (λ z. Ancestor t a z) (sym same) (here p e)
    | inr less ↦ absurd (omega arith)
  ]
  Ancestor-chain {a} {b} x y (below {p = p} q e parent r) s ha hb le = elim (Ancestor-cases q e s) [
    | inl same ↦ subst (λ z. Ancestor t a z) (sym same) (below q e parent r)
    | inr (p', parent', s') ↦
        Ancestor-chain x y r (subst (λ z. Ancestor t b z) (same_parent parent' parent) s') ha hb le
  ]

  higher_of_lem :
      (a b : Digest) (p q : LcBlock) (x y : ℕ)
      → IsBlock t a p
      → IsBlock t b q
      → IsHeight t a x
      → IsHeight t b y
      → higher_of t a b ≡ ok (if leb y x then a else b)
  unfolding higher_of
  higher_of_lem a b p q x y ea eb ha hb =
      rw (contains_key-lookup a p _ ea, contains_key-lookup b q _ eb, ha, hb) refl

  -- In a well-formed tree: of two ancestors of one block, `higher_of` returns the one that descends from the other.
  pub higher_of-Ancestor :
      (a b d : Digest)
      → Ancestor t a d
      → Ancestor t b d
      → (r : Digest) × (higher_of t a b ≡ ok r) × Ancestor t a r × Ancestor t b r × Ancestor t r d
  higher_of-Ancestor a b d u v =
      let (p, ea) = Ancestor-IsBlock_first u in
      let (q, eb) = Ancestor-IsBlock_first v in
      let (x, ha) = IsBlock-IsHeight i a p ea in
      let (y, hb) = IsBlock-IsHeight i b q eb in
      let e = higher_of_lem a b p q x y ea eb ha hb in
      elim (Bool-cases (leb y x)) [
        | inl ge ↦ (
          a,
          e ∙ ap ok (ap (λ w. if w then a else b) ge),
          here p ea,
          Ancestor-chain y x v u hb ha (ground arith),
          u,
        )
        | inr lt ↦ (
          b,
          e ∙ ap ok (ap (λ w. if w then a else b) lt),
          Ancestor-chain x y u v ha hb (ground arith),
          here q eb,
          v,
        )
      ]
