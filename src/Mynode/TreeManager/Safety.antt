-- ===== src/Mynode/TreeManager/Safety.antt =====
-- What the task of mynode/src/lcblocktreemanager.rs keeps, and what its replies mean.
use accountability_gadget_pr.Base.{ℕ, ◌<◌, ◌≡◌, refl, List, true, ok, arith, length}
use accountability_gadget_pr.Base.Dict.{lookup}
use accountability_gadget_pr.Crypto.{Digest, Primitives}
use accountability_gadget_pr.Consensus.Messages.{u64_mod}
use accountability_gadget_pr.Mynode.LcBlocks.{LcBlock, genesis, new_tree, leading_tip_extending}
use accountability_gadget_pr.Mynode.LcBlocks.Invariant.{IsBlock, IsTree, root, new_tree-IsTree}
use accountability_gadget_pr.Mynode.LcBlocks.Ancestors.{
  Ancestor, Ancestor-IsBlock, IsBlock-IsHeight, is_prefix_of-Ancestor,
}
use accountability_gadget_pr.Mynode.LcBlocks.Leading.{leading_tip_extending-IsLeading}
use accountability_gadget_pr.Mynode.LcBlocks.Depth.{k_deep-Ancestor, higher_of-Ancestor}
use accountability_gadget_pr.Mynode.TreeManager.{
  Manager, Depths, get_current_proposal, validate_proposal, digest_reply, valid_reply, new_manager,
  latest, confirmed, on_command,
}

module _ (c : Primitives) (serialize : LcBlock → List ℕ) (params : Depths) where
  -- The tree is well formed, of less than 2^64 blocks, and holds the latest checkpoint.
  pub record IsManager (m : Manager) : Type 0 where
    pub tree : IsTree (root c serialize) m.tree
    pub room : length m.tree.lcblocks < u64_mod
    pub checkpoint_known : (b : LcBlock) × IsBlock m.tree (latest c serialize params m) b

  pub new_manager-IsManager : IsManager (new_manager c serialize params)
  unfolding new_manager latest new_tree lookup
  new_manager-IsManager = record {
    tree = new_tree-IsTree c serialize;
    room = omega arith;
    checkpoint_known = (genesis, ground arith);
  }

  module _ (m : Manager) (i : IsManager m) where
    abbrev pub cp : Digest
    cp = latest c serialize params m

    -- The leading tip exists and descends from the latest checkpoint.
    pub leading :
        (tip : Digest) × (leading_tip_extending m.tree cp ≡ ok tip) × Ancestor m.tree cp tip
    leading =
        let (b, e) = i.checkpoint_known in
        let best = leading_tip_extending-IsLeading i.tree cp b e in (best.0, best.1, best.2.extends)

    -- In a state that is well formed: the block that is proposed (or logged as available) lies between
    -- the latest checkpoint and the leading tip, for every depth `k`.
    pub confirmed-between :
        (k : ℕ)
        → (tip r : Digest) × (leading_tip_extending m.tree cp ≡ ok tip)
          × (confirmed c serialize params k m ≡ ok r)
          × Ancestor m.tree cp r
          × Ancestor m.tree r tip
    unfolding confirmed
    confirmed-between k =
        let (tip, lead, descends) = leading in
        let (bt, et) = Ancestor-IsBlock descends in
        let (h, ht) = IsBlock-IsHeight i.tree tip bt et in
        let (deep, e, deep_under, _) = k_deep-Ancestor i.tree k tip bt h et ht in
        let (r, f, above, _, under) = higher_of-Ancestor i.tree cp deep tip descends deep_under in
        (tip, r, lead, rw (lead, e, f) refl, above, under)

    -- In a state that is well formed, `GetCurrentProposal` replies with a block that descends from the
    -- latest checkpoint, and `ValidateProposal` of that block, asked in the same state, replies true.
    pub proposal_is_valid :
        (d : Digest) × (on_command c serialize params m get_current_proposal ≡ ok (digest_reply d))
        × Ancestor m.tree cp d
        × (on_command c serialize params m (validate_proposal d) ≡ ok (valid_reply true))
    unfolding on_command
    proposal_is_valid =
        let (tip, r, lead, e, above, under) = confirmed-between params.propose_k_deep in
        (
          r,
          rw (e, on_command) refl,
          above,
          rw
              (
                is_prefix_of-Ancestor i.tree above,
                lead,
                is_prefix_of-Ancestor i.tree under,
                on_command,
              )
              refl,
        )
