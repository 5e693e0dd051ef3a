-- ===== src/Mynode/LcBlocks/Tips.antt =====
-- `leading_tip_extending` of mynode/src/lcblocks.rs: the tip that comes out is the best in the order of
-- `tie_break`, so the order in which the set of tips is walked does not matter.
use accountability_gadget_pr.Base.{ℕ, ◌≡◌, refl, sym, ◌∙◌, ap, subst, ◌⊎◌, inl, inr, ◌≢◌, ok, arith}
use accountability_gadget_pr.Base.Dict.{contains_key-lookup}
use native.Mathlib.Decide.{ℕ_discrete}
use accountability_gadget_pr.Crypto.{Digest}
use accountability_gadget_pr.Mynode.LcBlocks.{LcBlock, LcBlockTree, TreeResult, choose, tie_break}
use accountability_gadget_pr.Mynode.LcBlocks.Invariant.{IsBlock, IsHeight, IsTree}
use accountability_gadget_pr.Mynode.LcBlocks.Ancestors.{IsBlock-IsHeight}

-- The first digest wins the tie.
abbrev pub Leads : LcBlockTree → Digest → Digest → Type 0
Leads t a b = tie_break t a b ≡ ok a

same_ok : {r : TreeResult Digest} {a b : Digest} → r ≡ ok a → r ≡ ok b → a ≡ b
same_ok e f = cc

choose_cases :
    (a x : ℕ) (p : LcBlock) (b y : ℕ) (q : LcBlock)
    → (choose a x p b y q ≡ a) ⊎ (choose a x p b y q ≡ b)
unfolding choose
choose_cases a x p b y q = ground arith

choose_comm :
    (a x : ℕ) (p : LcBlock) (b y : ℕ) (q : LcBlock)
    → a ≢ b
    → choose a x p b y q ≡ choose b y q a x p
unfolding choose
choose_comm a x p b y q h = ground arith

choose_trans :
    (a x : ℕ) (p : LcBlock) (b y : ℕ) (q : LcBlock) (d z : ℕ) (r : LcBlock)
    → a ≢ b
    → b ≢ d
    → choose a x p b y q ≡ a
    → choose b y q d z r ≡ b
    → choose a x p d z r ≡ a
unfolding choose
choose_trans a x p b y q d z r ab bd h k = ground arith

tie_break-choose :
    (t : LcBlockTree) (a x : ℕ) (p : LcBlock) (b y : ℕ) (q : LcBlock)
    → IsBlock t a p
    → IsHeight t a x
    → IsBlock t b q
    → IsHeight t b y
    → tie_break t a b ≡ ok (choose a x p b y q)
unfolding tie_break
tie_break-choose t a x p b y q ea ha eb hb =
    rw (contains_key-lookup a p _ ea, contains_key-lookup b q _ eb, ha, hb, ea, eb) refl

choose-Leads :
    (t : LcBlockTree) (a x : ℕ) (p : LcBlock) (b y : ℕ) (q : LcBlock)
    → IsBlock t a p
    → IsHeight t a x
    → IsBlock t b q
    → IsHeight t b y
    → Leads t a b
    → choose a x p b y q ≡ a
choose-Leads t a x p b y q ea ha eb hb l = same_ok (tie_break-choose t a x p b y q ea ha eb hb) l

module _ {root : Digest} {t : LcBlockTree} (i : IsTree root t) where
  pub Leads-refl : (a : Digest) (p : LcBlock) → IsBlock t a p → Leads t a a
  Leads-refl a p ea =
      let (x, ha) = IsBlock-IsHeight i a p ea in
      elim (choose_cases a x p a x p) [
        | inl e ↦ tie_break-choose t a x p a x p ea ha ea ha ∙ ap ok e
        | inr e ↦ tie_break-choose t a x p a x p ea ha ea ha ∙ ap ok e
      ]

  pub Leads-trans :
      (a b d : Digest) (p q r : LcBlock)
      → IsBlock t a p
      → IsBlock t b q
      → IsBlock t d r
      → Leads t a b
      → Leads t b d
      → Leads t a d
  Leads-trans a b d p q r ea eb ed l k = elim (ℕ_discrete a b) [
    | yes ab ↦ subst (λ z. Leads t z d) (sym ab) k
    | no ab ↦ elim (ℕ_discrete b d) [
      | yes bd ↦ subst (λ z. Leads t a z) bd l
      | no bd ↦
          let (x, ha) = IsBlock-IsHeight i a p ea in
          let (y, hb) = IsBlock-IsHeight i b q eb in
          let (z, hd) = IsBlock-IsHeight i d r ed in
          tie_break-choose t a x p d z r ea ha ed hd
          ∙ ap ok (
              choose_trans a x p b y q d z r ab bd (choose-Leads t a x p b y q ea ha eb hb l)
                (choose-Leads t b y q d z r eb hb ed hd k))
    ]
  ]

  -- Of two blocks in the tree one leads, and it is the one that comes out.
  pub Leads-total :
      (a b : Digest) (p q : LcBlock)
      → IsBlock t a p
      → IsBlock t b q
      → Leads t a b ⊎ ((tie_break t a b ≡ ok b) × (a ≢ b) × Leads t b a)
  Leads-total a b p q ea eb = elim (ℕ_discrete a b) [
    | yes ab ↦ inl (subst (λ z. Leads t a z) ab (Leads-refl a p ea))
    | no ab ↦
        let (x, ha) = IsBlock-IsHeight i a p ea in
        let (y, hb) = IsBlock-IsHeight i b q eb in
        let e = tie_break-choose t a x p b y q ea ha eb hb in
        let e' = tie_break-choose t b y q a x p eb hb ea ha in
        elim (choose_cases a x p b y q) [
          | inl w ↦ inl (e ∙ ap ok w)
          | inr w ↦ inr (e ∙ ap ok w, ab, e' ∙ ap ok (sym (choose_comm a x p b y q ab) ∙ w))
        ]
  ]

  -- So two blocks that lead one another are one.
  pub Leads-antisym :
      (a b : Digest) (p q : LcBlock)
      → IsBlock t a p
      → IsBlock t b q
      → Leads t a b
      → Leads t b a
      → a ≡ b
  Leads-antisym a b p q ea eb l k = elim (Leads-total a b p q ea eb) [
    | inl _ ↦ elim (ℕ_discrete a b) [
      | yes ab ↦ ab
      | no ab ↦
          let (x, ha) = IsBlock-IsHeight i a p ea in
          let (y, hb) = IsBlock-IsHeight i b q eb in
          sym (choose-Leads t a x p b y q ea ha eb hb l)
          ∙ choose_comm a x p b y q ab
          ∙ choose-Leads t b y q a x p eb hb ea ha k
    ]
    | inr (e, _, _) ↦ same_ok l e
  ]
