-- ===== src/Mynode/LcBlocks/Invariant.antt =====
-- The tree of mynode/src/lcblocks.rs is well formed after any additions.
use accountability_gadget_pr.Base.{
  ℕ, suc, ◌+◌, ◌%◌, ◌≤◌, ◌<◌, ◌≡◌, refl, sym, ◌∙◌, ap, subst, ◌⊎◌, inl, inr, List, Option, none,
  some, true, contains, length, ok, err, arith, Option-cases, contains-set_insert,
  contains-set_remove, set_remove, >>=-eq-ok, ok_or,
}
use accountability_gadget_pr.Base.Dict.{
  lookup, lookup-insert, length-insert, length-insert_new, length-insert_le,
}
use accountability_gadget_pr.Crypto.{Digest, Primitives}
use accountability_gadget_pr.Consensus.Messages.{u64_mod}
use accountability_gadget_pr.Mynode.LcBlocks.{
  LcBlock, LcBlockTree, digest, genesis, new_tree, add_below, add, parent_is_none,
  parent_is_unknown,
}

-- A block stands under a digest.
abbrev pub IsBlock : LcBlockTree → Digest → LcBlock → Type 0
IsBlock t d b = lookup d t.lcblocks ≡ some b

abbrev pub IsHeight : LcBlockTree → Digest → ℕ → Type 0
IsHeight t d h = lookup d t.precomputed_height ≡ some h

-- A block without a parent is the root, at height 0; any other stands one above its parent, which is
-- in the tree.
abbrev pub IsLinked : Digest → LcBlockTree → Digest → Option Digest → Type 0
IsLinked root t d none = (d ≡ root) × IsHeight t d 0
IsLinked root t d (some p) =
    (h : ℕ) × (bp : LcBlock) × IsBlock t p bp × IsHeight t p h × IsHeight t d (suc h)

pub record IsTree (root : Digest) (t : LcBlockTree) : Type 0 where
  pub linked : (d : Digest) (b : LcBlock) → IsBlock t d b → IsLinked root t d b.parent
  pub known : (d : Digest) (h : ℕ) → IsHeight t d h → (b : LcBlock) × IsBlock t d b
  pub bounded : (d : Digest) (h : ℕ) → IsHeight t d h → h < length t.lcblocks
  pub tips_known : (d : Digest) → contains d t.idx_tips ≡ true → (b : LcBlock) × IsBlock t d b
  pub rooted : (b : LcBlock) × IsBlock t root b

module _ (c : Primitives) (serialize : LcBlock → List ℕ) where
  abbrev pub root : Digest
  root = digest c serialize genesis

  pub new_tree-IsTree : IsTree root (new_tree c serialize)
  unfolding new_tree lookup genesis
  new_tree-IsTree = record {
    linked = λ d b e. ground arith;
    known = λ d h e. (genesis, ground arith);
    bounded = λ d h e. ground arith;
    tips_known = λ d e. (genesis, ground arith);
    rooted = (genesis, ground arith);
  }

  linked-IsHeight :
      (t : LcBlockTree) (d : Digest) (o : Option Digest)
      → IsLinked root t d o
      → (h : ℕ) × IsHeight t d h
  linked-IsHeight t d none l = (0, l.1)
  linked-IsHeight t d (some p) l = let (h, bp, at_p, high_p, high_d) = l in (suc h, high_d)

  -- A block is added below its parent; a block of the same digest that is there already is that block.
  module _ (t : LcBlockTree) (b : LcBlock) (p : Digest) (h : ℕ) (i : IsTree root t)
      (parent : b.parent ≡ some p) (at_p : IsHeight t p h)
      (same : (b' : LcBlock) → IsBlock t (digest c serialize b) b' → b' ≡ b)
      (room : length t.lcblocks < u64_mod) where
    abbrev d : Digest
    d = digest c serialize b

    abbrev t' : LcBlockTree
    t' = add_below c serialize t b p h

    no_wrap : (h + 1) % u64_mod ≡ suc h
    no_wrap = omega (arith, i.bounded p h at_p)

    old_height : (k : ℕ) → IsHeight t d k → k ≡ suc h
    old_height k e =
        let (b', e') = i.known d k e in
        let link =
          subst (λ o. IsLinked root t d o) (ap (λ (x : LcBlock). x.parent) (same b' e') ∙ parent)
            (i.linked d b' e') in
        ground (arith, link)

    keeps_block : (x : Digest) (b' : LcBlock) → IsBlock t x b' → IsBlock t' x b'
    unfolding add_below
    keeps_block x b' e = ground (arith, lookup-insert d x b t.lcblocks, same b')

    keeps_IsHeight : (x : Digest) (k : ℕ) → IsHeight t x k → IsHeight t' x k
    unfolding add_below
    keeps_IsHeight x k e =
        ground
          (arith, no_wrap, lookup-insert d x ((h + 1) % u64_mod) t.precomputed_height, old_height k)

    keeps_link : (x : Digest) (o : Option Digest) → IsLinked root t x o → IsLinked root t' x o
    keeps_link x none l = (l.0, keeps_IsHeight x 0 l.1)
    keeps_link x (some q) l =
        let (k, bq, at_q, high_q, high_x) = l in
        (k, bq, keeps_block q bq at_q, keeps_IsHeight q k high_q, keeps_IsHeight x (suc k) high_x)

    new-IsHeight : IsHeight t' d (suc h)
    unfolding add_below
    new-IsHeight =
        ground (arith, no_wrap, lookup-insert d d ((h + 1) % u64_mod) t.precomputed_height)

    new_block : IsBlock t' d b
    unfolding add_below
    new_block = ground (arith, lookup-insert d d b t.lcblocks)

    new_link : IsLinked root t' d b.parent
    new_link =
        let (bp, at) = i.known p h at_p in
        subst (λ o. IsLinked root t' d o) (sym parent)
          (h, bp, keeps_block p bp at, keeps_IsHeight p h at_p, new-IsHeight)

    -- A block of the new tree is the added one or an old one; so for heights and tips.
    block_cases :
        (x : Digest) (b' : LcBlock) → IsBlock t' x b' → ((x ≡ d) × (b' ≡ b)) ⊎ IsBlock t x b'
    unfolding add_below
    block_cases x b' e = ground (arith, lookup-insert d x b t.lcblocks)

    IsHeight-cases :
        (x : Digest) (k : ℕ) → IsHeight t' x k → ((x ≡ d) × (k ≡ suc h)) ⊎ IsHeight t x k
    unfolding add_below
    IsHeight-cases x k e =
        ground (arith, no_wrap, lookup-insert d x ((h + 1) % u64_mod) t.precomputed_height)

    tip_cases :
        (x : Digest) → contains x t'.idx_tips ≡ true → (x ≡ d) ⊎ (contains x t.idx_tips ≡ true)
    unfolding add_below
    tip_cases x e = ground (
      arith,
      contains-set_insert x d (set_remove p t.idx_tips),
      contains-set_remove x p t.idx_tips,
    )

    grows : length t.lcblocks ≤ length t'.lcblocks
    unfolding add_below
    grows = length-insert d b t.lcblocks

    below_new : suc h < length t'.lcblocks
    unfolding add_below
    below_new = elim (Option-cases (lookup d t.lcblocks)) [
      | inl e ↦ omega (arith, length-insert_new d b t.lcblocks e, i.bounded p h at_p)
      | inr (b', e) ↦
          let link =
            subst (λ o. IsLinked root t d o) (ap (λ (x : LcBlock). x.parent) (same b' e) ∙ parent)
              (i.linked d b' e) in
          let (k, bq, at_q, high_q, high_d) = link in
          let eq = old_height (suc k) high_d in
          omega (arith, length-insert d b t.lcblocks, i.bounded d (suc k) high_d)
    ]

    pub add_below-IsTree : IsTree root t'
    add_below-IsTree = record {
      linked = λ x b' e. elim (block_cases x b' e) [
        | inl (here, this) ↦ rw (here, this) new_link
        | inr old ↦ keeps_link x b'.parent (i.linked x b' old)
      ];
      known = λ x k e. elim (IsHeight-cases x k e) [
        | inl (here, this) ↦ (b, rw here new_block)
        | inr old ↦ let (b', e') = i.known x k old in (b', keeps_block x b' e')
      ];
      bounded = λ x k e. elim (IsHeight-cases x k e) [
        | inl (here, this) ↦ rw this below_new
        | inr old ↦ omega (arith, i.bounded x k old, grows)
      ];
      tips_known = λ x e. elim (tip_cases x e) [
        | inl here ↦ (b, rw here new_block)
        | inr old ↦ let (b', e') = i.tips_known x old in (b', keeps_block x b' e')
      ];
      rooted = let (b', e) = i.rooted in (b', keeps_block root b' e);
    }

  -- An addition that succeeds keeps the tree well formed and every block of it, and adds the new one, if
  -- a block that the tree holds under the digest of the new one is the new one itself, and the tree has
  -- less than 2^64 blocks.
  pub add-IsTree :
      (t t' : LcBlockTree) (b : LcBlock)
      → IsTree root t
      → ((b' : LcBlock) → IsBlock t (digest c serialize b) b' → b' ≡ b)
      → length t.lcblocks < u64_mod
      → add c serialize t b ≡ ok t'
      → IsTree root t'
        × IsBlock t' (digest c serialize b) b
        × ((x : Digest) (b' : LcBlock) → IsBlock t x b' → IsBlock t' x b')
  unfolding add
  add-IsTree t t' b i same room e =
      let (p, parent, rest) = >>=-eq-ok (ok_or b.parent parent_is_none) _ e in
      let (h, high, done) =
        >>=-eq-ok (ok_or (lookup p t.precomputed_height) parent_is_unknown) _ rest in
      let has_parent : b.parent ≡ some p = ground arith in
      let at_p : IsHeight t p h = ground arith in
      let made : add_below c serialize t b p h ≡ t' = ground arith in
      subst
        (λ s.
          IsTree root s
          × IsBlock s (digest c serialize b) b
          × ((x : Digest) (b' : LcBlock) → IsBlock t x b' → IsBlock s x b'))
        made
        (
          add_below-IsTree t b p h i has_parent at_p same room,
          new_block t b p h i has_parent at_p same room,
          keeps_block t b p h i has_parent at_p same room,
        )

  -- A block with a known parent is added.
  pub add-ok :
      (t : LcBlockTree) (b : LcBlock) (p : Digest) (bp : LcBlock)
      → IsTree root t
      → b.parent ≡ some p
      → IsBlock t p bp
      → (t' : LcBlockTree) × (add c serialize t b ≡ ok t')
        × (length t'.lcblocks ≤ suc (length t.lcblocks))
  unfolding add add_below
  add-ok t b p bp i parent at_p =
      let (h, high) = linked-IsHeight t p bp.parent (i.linked p bp at_p) in
      (
        add_below c serialize t b p h,
        rw (parent, high, add) refl,
        length-insert_le (digest c serialize b) b t.lcblocks,
      )

  -- What `add` refuses: a block without a parent, and a block whose parent is not in the tree.
  pub add_errors :
      (t : LcBlockTree) (b : LcBlock)
      → ((b.parent ≡ none → add c serialize t b ≡ err parent_is_none))
        × ((p : Digest)
            → b.parent ≡ some p
            → lookup p t.precomputed_height ≡ none
            → add c serialize t b ≡ err parent_is_unknown)
  unfolding add
  add_errors t b = (λ e. rw e refl, λ p e n. rw (e, n) refl)
