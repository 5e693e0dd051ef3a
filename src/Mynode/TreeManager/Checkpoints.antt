-- ===== src/Mynode/TreeManager/Checkpoints.antt =====
-- How the state of mynode/src/lcblocktreemanager.rs evolves: the tree grows, the checkpoints follow one
-- chain.
use accountability_gadget_pr.Base.{
  All, All_of_contains, ◌⊎◌, inl, inr, ℕ, suc, ◌<◌, ◌≡◌, refl, sym, subst, List, [], ◌∷◌, ◌++◌,
  none, some, Bool, true, ok, err, panic, arith, length, Option,
}
use accountability_gadget_pr.Base.Dict.{lookup, contains_key-lookup, contains_key-none}
use accountability_gadget_pr.Crypto.{Digest, Primitives}
use accountability_gadget_pr.Consensus.Messages.{u64_mod}
use accountability_gadget_pr.Mynode.LcBlocks.{
  LcBlock, LcBlockTree, digest, height, block, leading_tip_extending, best_tip, consider, tie_break,
  unknown_block, TreeResult, genesis,
}
use accountability_gadget_pr.Mynode.LcBlocks.Invariant.{IsBlock, add-IsTree, add-ok}
use accountability_gadget_pr.Mynode.LcBlocks.Ancestors.{Ancestor, here, below, IsBlock-IsHeight}
use accountability_gadget_pr.Mynode.TreeManager.{
  Manager, Depths, last_or, latest, announce, on_block, on_checkpoint, validate,
}
use accountability_gadget_pr.Mynode.TreeManager.Safety.{IsManager}
use accountability_gadget_pr.Mynode.TreeManager.Events.{announce_ok, validate_iff}

last_or-append : (d x : Digest) (xs : List Digest) → last_or d (xs ++ x ∷ []) ≡ x
unfolding last_or
last_or-append d x [] = refl
last_or-append d x (y ∷ xs) = last_or-append y x xs

same_verdict : {r : TreeResult Bool} {v w : Bool} → r ≡ ok v → r ≡ ok w → v ≡ w
same_verdict e f = cc

-- Ancestry is kept where blocks are kept.
Ancestor-mono :
    {t t' : LcBlockTree} {a d : Digest}
    → ((x : Digest) (b : LcBlock) → IsBlock t x b → IsBlock t' x b)
    → Ancestor t a d
    → Ancestor t' a d
Ancestor-mono keep (here b e) = here b (keep _ b e)
Ancestor-mono keep (below b e p r) = below b (keep _ b e) p (Ancestor-mono keep r)

-- Every relation of ancestry in the first tree holds in the second.
pub record Grows (t t' : LcBlockTree) : Type 0 where
  pub ancestors : (a d : Digest) → Ancestor t a d → Ancestor t' a d

module _ (c : Primitives) (serialize : LcBlock → List ℕ) (params : Depths) (m : Manager)
    (i : IsManager c serialize params m) where
  -- In a state that is well formed, a new block whose parent is in the tree is taken without a panic: the
  -- state stays well formed, holds the block, keeps its checkpoints and every relation of ancestry. The
  -- block's digest must not be that of another block of the tree, and there must be room for it.
  pub on_block-IsManager :
      (b : LcBlock) (p : Digest) (bp : LcBlock)
      → b.parent ≡ some p
      → IsBlock m.tree p bp
      → ((b' : LcBlock) → IsBlock m.tree (digest c serialize b) b' → b' ≡ b)
      → suc (length m.tree.lcblocks) < u64_mod
      → (m' : Manager) × (message : Digest × ℕ) × (on_block c serialize params m b
          ≡ ok (m', message))
        × IsManager c serialize params m'
        × IsBlock m'.tree (digest c serialize b) b
        × (m'.checkpoints ≡ m.checkpoints)
        × Grows m.tree m'.tree
  unfolding on_block latest
  on_block-IsManager b p bp parent known same room =
      let (t', added, grows) = add-ok c serialize m.tree b p bp i.tree parent known in
      let (tree', new, keep) = add-IsTree c serialize m.tree t' b i.tree same i.room added in
      let m' : Manager = record m { tree = t' } in
      let (bc, ec) = i.checkpoint_known in
      let i' : IsManager c serialize params m' = record {
        tree = tree';
        room = omega arith;
        checkpoint_known = (bc, keep _ bc ec);
      } in
      let (tip, bt, lead, et, announced) = announce_ok c serialize params m' i' in
      (
        m',
        (tip, bt.slot),
        rw (added, announced) refl,
        i',
        new,
        refl,
        record { ancestors = λ a d r. Ancestor-mono keep r },
      )

  -- In a state that is well formed, a checkpoint that the tree holds becomes the latest one without a
  -- panic: the state stays well formed, its tree unchanged.
  pub on_checkpoint-IsManager :
      (n : ℕ) (d : Digest) (b : LcBlock)
      → IsBlock m.tree d b
      → (m' : Manager) × (message : Digest × ℕ) × (on_checkpoint c serialize params m n (some d)
          ≡ ok (m', some message))
        × IsManager c serialize params m'
        × (m'.tree ≡ m.tree)
        × (latest c serialize params m' ≡ d)
  unfolding on_checkpoint
  on_checkpoint-IsManager n d b e =
      let m' : Manager = record m {
        checkpoints = m.checkpoints ++ d ∷ [];
        checkpoints_iterations = m.checkpoints_iterations ++ n ∷ [];
      } in
      let now : latest c serialize params m' ≡ d =
        unfold latest in last_or-append (digest c serialize genesis) d m.checkpoints in
      let i' : IsManager c serialize params m' = record {
        tree = i.tree;
        room = i.room;
        checkpoint_known = (b, subst (λ z. IsBlock m.tree z b) (sym now) e);
      } in
      let (tip, bt, lead, et, announced) = announce_ok c serialize params m' i' in
      (m', (tip, bt.slot), rw announced refl, i', refl, now)

  -- In a state that is well formed: if the state accepted a block of its tree as a proposal, and the
  -- decision for that block is then taken in, the new latest checkpoint descends from the one before.
  pub on_checkpoint-descends :
      (n : ℕ) (d : Digest) (b : LcBlock) (m' : Manager) (message : Option (Digest × ℕ))
      → IsBlock m.tree d b
      → validate c serialize params m d ≡ ok true
      → on_checkpoint c serialize params m n (some d) ≡ ok (m', message)
      → Ancestor m'.tree (latest c serialize params m) (latest c serialize params m')
  on_checkpoint-descends n d b m' message e h r =
      let (tip, v, lead, valid, iff) = validate_iff c serialize params m i d b e in
      let (m'', message', r', i', same, now) = on_checkpoint-IsManager n d b e in
      let eq : m'' ≡ m' = ground (arith, r, r') in
      subst (λ z. Ancestor z.tree (latest c serialize params m) (latest c serialize params z)) eq
        (rw (same, now) ((iff.0 (same_verdict valid h)).0))

  height_unknown :
      (d : Digest) → lookup d m.tree.lcblocks ≡ none → height m.tree d ≡ err unknown_block
  unfolding height
  height_unknown d e = rw (contains_key-none d _ e) refl

  height_known :
      (d : Digest) (b : LcBlock) → IsBlock m.tree d b → (h : ℕ) × (height m.tree d ≡ ok h)
  unfolding height
  height_known d b e =
      let (h, hd) = IsBlock-IsHeight i.tree d b e in (h, rw (contains_key-lookup d b _ e, hd) refl)

  tie_break_unknown :
      (a d : Digest) (b : LcBlock)
      → IsBlock m.tree a b
      → lookup d m.tree.lcblocks ≡ none
      → tie_break m.tree a d ≡ panic
  unfolding tie_break
  tie_break_unknown a d b known e = rw ((height_known a b known).1, height_unknown d e) refl

  -- The walk over the tips stops at the first of them, or returns the unknown block itself.
  best_tip_unknown :
      (d : Digest) (tips : List Digest)
      → lookup d m.tree.lcblocks ≡ none
      → All (λ x. (b : LcBlock) × IsBlock m.tree x b) tips
      → (best_tip m.tree d d tips ≡ panic) ⊎ (best_tip m.tree d d tips ≡ ok d)
  unfolding best_tip consider
  best_tip_unknown d [] e known = inr refl
  best_tip_unknown d (tip ∷ tips) e known =
      inl (rw (tie_break_unknown tip d known.0.0 known.0.1 e, consider) refl)

  block_unknown :
      (d : Digest) → lookup d m.tree.lcblocks ≡ none → block m.tree d ≡ err unknown_block
  unfolding block
  block_unknown d e = rw (contains_key-none d _ e) refl

  -- In a state that is well formed, the decision for a checkpoint that the tree does not hold (yet) ends
  -- the task with a panic.
  pub on_checkpoint_unknown :
      (n : ℕ) (d : Digest)
      → lookup d m.tree.lcblocks ≡ none
      → on_checkpoint c serialize params m n (some d) ≡ panic
  unfolding on_checkpoint announce leading_tip_extending latest
  on_checkpoint_unknown n d e =
      let now = last_or-append (digest c serialize genesis) d m.checkpoints in
      let known = All_of_contains m.tree.idx_tips i.tree.tips_known in
      elim (best_tip_unknown d m.tree.idx_tips e known) [
        | inl stops ↦ rw (now, stops) refl
        | inr same ↦ rw (now, same, block_unknown d e) refl
      ]
