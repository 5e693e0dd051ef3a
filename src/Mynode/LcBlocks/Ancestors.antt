-- ===== src/Mynode/LcBlocks/Ancestors.antt =====
-- `is_prefix_of` of mynode/src/lcblocks.rs decides ancestry in the tree.
use accountability_gadget_pr.Base.{
  ℕ, zero, suc, ◌<◌, ◌≡◌, refl, ◌∙◌, ap, subst, ◌⊎◌, inl, inr, ◌↔◌, Option, none, some, Bool, true,
  false, ◌==◌, ltb, ok, arith, Bool-cases, Option-cases,
}
use accountability_gadget_pr.Base.Dict.{lookup_or, contains_key}
use accountability_gadget_pr.Crypto.{Digest}
use accountability_gadget_pr.Mynode.LcBlocks.{
  LcBlock, LcBlockTree, TreeResult, prefix_walk, is_prefix_of,
}
use accountability_gadget_pr.Mynode.LcBlocks.Invariant.{IsBlock, IsHeight, IsLinked, IsTree}

-- `a` is `d`, or an ancestor of it.
pub data Ancestor (t : LcBlockTree) (a : Digest) : Digest → Type 0 where
  here : (b : LcBlock) → IsBlock t a b → Ancestor t a a
  below :
      {d p : Digest} (b : LcBlock)
      → IsBlock t d b
      → b.parent ≡ some p
      → Ancestor t a p
      → Ancestor t a d

same_some : {o : Option Digest} {q p : Digest} → o ≡ some q → o ≡ some p → q ≡ p
same_some e f = cc

pub Ancestor-trans :
    {t : LcBlockTree} {a b d : Digest} → Ancestor t a b → Ancestor t b d → Ancestor t a d
Ancestor-trans x (here b e) = x
Ancestor-trans x (below b e p y) = below b e p (Ancestor-trans x y)

pub Ancestor-cases :
    {t : LcBlockTree} {a d : Digest} (b : LcBlock)
    → IsBlock t d b
    → Ancestor t a d
    → (a ≡ d) ⊎ ((p : Digest) × (b.parent ≡ some p) × Ancestor t a p)
Ancestor-cases b e (here b' e') = inl refl
Ancestor-cases b e (below {p = p} b' e' parent x) =
    let eq : b' ≡ b = ground (arith, e, e') in inr (p, rw (← eq) parent, x)

pub Ancestor-IsBlock :
    {t : LcBlockTree} {a d : Digest} → Ancestor t a d → (b : LcBlock) × IsBlock t d b
Ancestor-IsBlock (here b e) = (b, e)
Ancestor-IsBlock (below b e p x) = (b, e)

pub Ancestor-IsBlock_first :
    {t : LcBlockTree} {a d : Digest} → Ancestor t a d → (b : LcBlock) × IsBlock t a b
Ancestor-IsBlock_first (here b e) = (b, e)
Ancestor-IsBlock_first (below b e p x) = Ancestor-IsBlock_first x

module _ {root : Digest} {t : LcBlockTree} (i : IsTree root t) where
  IsLinked-IsHeight :
      (d : Digest) (o : Option Digest) → IsLinked root t d o → (h : ℕ) × IsHeight t d h
  IsLinked-IsHeight d none l = (0, l.1)
  IsLinked-IsHeight d (some p) l = let (h, bp, at_p, high_p, high_d) = l in (suc h, high_d)

  pub IsBlock-IsHeight : (d : Digest) (b : LcBlock) → IsBlock t d b → (h : ℕ) × IsHeight t d h
  IsBlock-IsHeight d b e = IsLinked-IsHeight d b.parent (i.linked d b e)

  -- A block whose parent is `p` stands one above it.
  pub parent-IsHeight :
      (d p : Digest) (b : LcBlock) (h : ℕ)
      → IsBlock t d b
      → b.parent ≡ some p
      → IsHeight t d h
      → (k : ℕ) × (bp : LcBlock) × (h ≡ suc k) × IsHeight t p k × IsBlock t p bp
  parent-IsHeight d p b h e parent high =
      let (k, bp, at_p, high_p, high_d) =
        subst (λ o. IsLinked root t d o) parent (i.linked d b e) in
      (k, bp, ground arith, high_p, at_p)

  pub Ancestor-height :
      {a d : Digest} (x y : ℕ)
      → Ancestor t a d
      → IsHeight t a x
      → IsHeight t d y
      → (a ≡ d) ⊎ (x < y)
  Ancestor-height x y (here b e) ha hd = inl refl
  Ancestor-height x y (below {d = d} {p = p} b e parent r) ha hd =
      let (k, bp, eq, high_p, at_p) = parent-IsHeight d p b y e parent hd in
      elim (Ancestor-height x k r ha high_p) [
        | inl same ↦ let xk : x ≡ k = ground (arith, same) in inr (omega arith)
        | inr less ↦ inr (omega arith)
      ]

  -- A result that says whether `a` is an ancestor of `d`.
  abbrev pub Decides : Digest → Digest → TreeResult Bool → Type 0
  Decides a d r = (v : Bool) × (r ≡ ok v) × ((v ≡ true) ↔ Ancestor t a d)

  module _ (fuel : ℕ) (a d : Digest) (ba b : LcBlock) (x y : ℕ) (ea : IsBlock t a ba)
      (ed : IsBlock t d b) (ha : IsHeight t a x) (hd : IsHeight t d y) where
    walk_above : ltb y x ≡ true → prefix_walk (suc fuel) t a d ≡ ok false
    unfolding prefix_walk contains_key
    walk_above above = ground arith

    walk_same : ltb y x ≡ false → (d == a) ≡ true → prefix_walk (suc fuel) t a d ≡ ok true
    unfolding prefix_walk contains_key
    walk_same level same = ground arith

    walk_root :
        ltb y x ≡ false
        → (d == a) ≡ false
        → b.parent ≡ none
        → prefix_walk (suc fuel) t a d ≡ ok false
    unfolding prefix_walk contains_key
    walk_root level other e = ground arith

    walk_parent :
        (p : Digest)
        → ltb y x ≡ false
        → (d == a) ≡ false
        → b.parent ≡ some p
        → prefix_walk (suc fuel) t a d ≡ prefix_walk fuel t a p
    unfolding prefix_walk contains_key
    walk_parent p level other e = ground arith

  prefix_walk-Decides :
      (fuel : ℕ) (a d : Digest) (ba b : LcBlock) (x y : ℕ)
      → IsBlock t a ba
      → IsBlock t d b
      → IsHeight t a x
      → IsHeight t d y
      → y < fuel
      → Decides a d (prefix_walk fuel t a d)
  prefix_walk-Decides zero a d ba b x y ea ed ha hd f = absurd (omega arith)
  prefix_walk-Decides (suc fuel) a d ba b x y ea ed ha hd f = elim (Bool-cases (ltb y x)) [
    | inl above ↦ (
      false,
      walk_above fuel a d ba b x y ea ed ha hd above,
      (
        λ e. cc,
        λ r. elim (Ancestor-height x y r ha hd) [
          | inl same ↦ let xy : x ≡ y = ground (arith, same) in absurd (ground arith)
          | inr less ↦ absurd (ground arith)
        ],
      ),
    )
    | inr level ↦ elim (Bool-cases (d == a)) [
      | inl same ↦
          let eq : a ≡ d = ground arith in
          (
            true,
            walk_same fuel a d ba b x y ea ed ha hd level same,
            (λ _. subst (λ z. Ancestor t a z) eq (here ba ea), λ _. refl),
          )
      | inr other ↦ elim (Option-cases b.parent) [
        | inl none_e ↦ (
          false,
          walk_root fuel a d ba b x y ea ed ha hd level other none_e,
          (
            λ e. cc,
            λ r. elim (Ancestor-cases b ed r) [
              | inl same ↦ absurd (ground arith)
              | inr (p, parent, _) ↦ cc
            ],
          ),
        )
        | inr (p, parent) ↦
            let (k, bp, eq, high_p, at_p) = parent-IsHeight d p b y ed parent hd in
            let (v, e, iff) =
              prefix_walk-Decides fuel a p ba bp x k ea at_p ha high_p (omega arith) in
            (
              v,
              walk_parent fuel a d ba b x y ea ed ha hd p level other parent ∙ e,
              (
                λ t. below b ed parent (iff.0 t),
                λ r. elim (Ancestor-cases b ed r) [
                  | inl same ↦ absurd (ground arith)
                  | inr (q, parent', r') ↦
                      iff.1 (subst (λ z. Ancestor t a z) (same_some parent' parent) r')
                ],
              ),
            )
      ]
    ]
  ]

  -- In a well-formed tree that holds both blocks, `is_prefix_of` returns, and says whether the first is
  -- the second or an ancestor of it.
  pub is_prefix_of-Decides :
      (a d : Digest) (ba b : LcBlock)
      → IsBlock t a ba
      → IsBlock t d b
      → Decides a d (is_prefix_of t a d)
  unfolding is_prefix_of lookup_or
  is_prefix_of-Decides a d ba b ea ed =
      let (x, ha) = IsBlock-IsHeight a ba ea in
      let (y, hd) = IsBlock-IsHeight d b ed in
      prefix_walk-Decides (suc (lookup_or d 0 t.precomputed_height)) a d ba b x y ea ed ha hd
        (ground (arith, hd))

  -- For an ancestor it returns true.
  pub is_prefix_of-Ancestor : {a d : Digest} → Ancestor t a d → is_prefix_of t a d ≡ ok true
  is_prefix_of-Ancestor {a} {d} r =
      let (ba, ea) = Ancestor-IsBlock_first r in
      let (b, ed) = Ancestor-IsBlock r in
      let (v, e, iff) = is_prefix_of-Decides a d ba b ea ed in e ∙ ap ok (iff.1 r)
