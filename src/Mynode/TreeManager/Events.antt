-- ===== src/Mynode/TreeManager/Events.antt =====
-- The events of mynode/src/lcblocktreemanager.rs: new blocks, new checkpoints and validations.
use accountability_gadget_pr.Base.{
  ℕ, ◌≡◌, refl, ◌↔◌, List, none, Bool, true, false, ◌&&◌, ok, err, arith,
}
use accountability_gadget_pr.Base.Dict.{lookup, contains_key-lookup, contains_key-none}
use accountability_gadget_pr.Crypto.{Digest, Primitives}
use accountability_gadget_pr.Mynode.LcBlocks.{
  LcBlock, is_prefix_of, height, block, height_honest, leading_tip_extending, prefix_walk,
  unknown_short, unknown_long,
}
use accountability_gadget_pr.Mynode.LcBlocks.Invariant.{IsBlock}
use accountability_gadget_pr.Mynode.LcBlocks.Ancestors.{
  Ancestor, Ancestor-IsBlock, IsBlock-IsHeight, is_prefix_of-Decides,
}
use accountability_gadget_pr.Mynode.LcBlocks.Honest.{height_honest-HonestPath}
use accountability_gadget_pr.Mynode.TreeManager.{Manager, Depths, latest, announce, validate}
use accountability_gadget_pr.Mynode.TreeManager.Safety.{IsManager, leading, confirmed-between}

module _ (c : Primitives) (serialize : LcBlock → List ℕ) (params : Depths) where
  module _ (m : Manager) (i : IsManager c serialize params m) where
    abbrev last : Digest
    last = latest c serialize params m

    -- In a state that is well formed, the validation of a block of the tree returns, and accepts the block
    -- exactly if it lies between the latest checkpoint and the leading tip.
    pub validate_iff :
        (d : Digest) (b : LcBlock)
        → IsBlock m.tree d b
        → (tip : Digest) × (v : Bool) × (leading_tip_extending m.tree last ≡ ok tip)
          × (validate c serialize params m d ≡ ok v)
          × ((v ≡ true) ↔ (Ancestor m.tree last d × Ancestor m.tree d tip))
    unfolding validate
    validate_iff d b e =
        let (tip, lead, descends) = leading c serialize params m i in
        let (bt, et) = Ancestor-IsBlock descends in
        let (bc, ec) = i.checkpoint_known in
        let (v, f, iff) = is_prefix_of-Decides i.tree last d bc b ec e in
        let (w, g, iff') = is_prefix_of-Decides i.tree d tip b bt e et in
        (
          tip,
          v && w,
          lead,
          rw (f, lead, g, validate) refl,
          (
            λ h. (iff.0 (ground arith), iff'.0 (ground arith)),
            λ (x, y). ground (arith, iff.1 x, iff'.1 y),
          ),
        )

    prefix_unknown_long :
        (a d : Digest) (b : LcBlock)
        → IsBlock m.tree a b
        → lookup d m.tree.lcblocks ≡ none
        → is_prefix_of m.tree a d ≡ err unknown_long
    unfolding is_prefix_of prefix_walk
    prefix_unknown_long a d b e n = rw (contains_key-lookup a b _ e, contains_key-none d _ n) refl

    prefix_unknown_short :
        (a d : Digest)
        → lookup a m.tree.lcblocks ≡ none
        → is_prefix_of m.tree a d ≡ err unknown_short
    unfolding is_prefix_of prefix_walk
    prefix_unknown_short a d n = rw (contains_key-none a _ n) refl

    -- In a state that is well formed, a block that the tree does not hold is refused, without a panic.
    pub validate_unknown :
        (d : Digest) → lookup d m.tree.lcblocks ≡ none → validate c serialize params m d ≡ ok false
    unfolding validate
    validate_unknown d e =
        let (tip, lead, descends) = leading c serialize params m i in
        let (bc, ec) = i.checkpoint_known in
        rw (prefix_unknown_long last d bc ec e, lead, prefix_unknown_short d tip e, validate) refl

    block_of : (d : Digest) (b : LcBlock) → IsBlock m.tree d b → block m.tree d ≡ ok b
    unfolding block
    block_of d b e = rw (contains_key-lookup d b _ e, e) refl

    height_ok : (d : Digest) (b : LcBlock) → IsBlock m.tree d b → (h : ℕ) × (height m.tree d ≡ ok h)
    unfolding height
    height_ok d b e =
        let (h, hd) = IsBlock-IsHeight i.tree d b e in
        (h, rw (contains_key-lookup d b _ e, hd) refl)

    honest_ok :
        (d : Digest) (b : LcBlock) → IsBlock m.tree d b → (n : ℕ) × (height_honest m.tree d ≡ ok n)
    honest_ok d b e =
        let (h, hd) = IsBlock-IsHeight i.tree d b e in
        let r = height_honest-HonestPath i.tree i.room d b h e hd in (r.0, r.1)

    -- In a state that is well formed the tip is announced without a panic.
    pub announce_ok :
        (tip : Digest) × (b : LcBlock) × (leading_tip_extending m.tree last ≡ ok tip)
        × IsBlock m.tree tip b
        × (announce c serialize params m ≡ ok (m, (tip, b.slot)))
    unfolding announce
    announce_ok =
        let (tip, r, lead, e, above, under) =
          confirmed-between c serialize params m i params.lctree_logava_k_deep in
        let (bt, et) = Ancestor-IsBlock under in
        let (br, er) = Ancestor-IsBlock above in
        let (bc, ec) = i.checkpoint_known in
        (
          tip,
          bt,
          lead,
          et,
          rw
              (
                lead,
                block_of tip bt et,
                e,
                (honest_ok last bc ec).1,
                (height_ok last bc ec).1,
                (honest_ok r br er).1,
                (height_ok r br er).1,
                announce,
              )
              refl,
        )
