-- ===== src/Tests/Tree.antt =====
-- mynode/src/lcblocks.rs and lcblocktreemanager.rs on a tree of the genesis block and one above it.
use accountability_gadget_pr.Base.{
  ℕ, suc, ◌≡◌, refl, ◌↔◌, ◌<◌, ◌≤◌, List, [], ◌∷◌, ◌++◌, Option, none, some, Bool, true, length, ok,
  panic, set_insert, set_remove, arith,
}
use accountability_gadget_pr.Base.Dict.{insert, lookup, lookup_or, contains_key}
use accountability_gadget_pr.Crypto.{Digest}
use accountability_gadget_pr.Consensus.Messages.{u64_mod}
use accountability_gadget_pr.Mynode.LcBlocks.{
  LcBlock, LcBlockTree, digest, genesis, new_tree, add, add_below, best_tip, leading_tip_extending,
  k_deep, higher_of, height_honest, is_prefix_of, prefix_walk, consider, tie_break, height, choose,
  is_adversarial, honest_walk, block,
}
use accountability_gadget_pr.Mynode.LcBlocks.Invariant.{
  IsBlock, IsHeight, IsTree, root, new_tree-IsTree, add-IsTree,
}
use accountability_gadget_pr.Mynode.LcBlocks.Ancestors.{
  Ancestor, here, below, Decides, is_prefix_of-Decides,
}
use accountability_gadget_pr.Mynode.LcBlocks.Leading.{IsLeading, leading_tip_extending-IsLeading}
use accountability_gadget_pr.Mynode.LcBlocks.Honest.{HonestPath, height_honest-HonestPath}
use accountability_gadget_pr.Mynode.TreeManager.{
  Manager, Depths, new_manager, latest, last_or, validate, on_block, on_checkpoint, on_command,
  get_current_proposal, announce, tip_to_mine, report_heights, confirmed, validate_proposal,
  digest_reply, valid_reply,
}
use accountability_gadget_pr.Mynode.TreeManager.Safety.{
  IsManager, new_manager-IsManager, proposal_is_valid,
}
use accountability_gadget_pr.Mynode.TreeManager.Events.{validate_iff}
use accountability_gadget_pr.Mynode.TreeManager.Checkpoints.{
  Grows, on_block-IsManager, on_checkpoint-IsManager, on_checkpoint-descends, on_checkpoint_unknown,
}
use accountability_gadget_pr.Tests.Toy.{toy, toy_hash}

abbrev parent_bytes : Option Digest → List ℕ
parent_bytes none = []
parent_bytes (some d) = d ∷ []

-- What stands for bincode: the slot, the text and the parent.
abbrev serialize : LcBlock → List ℕ
serialize b = b.slot ∷ (b.payload.text ++ parent_bytes b.parent)

abbrev root_digest : Digest
root_digest = digest toy serialize genesis

unfoldable child : LcBlock
child = record { parent = some root_digest; payload = record { text = []; filler = [] }; slot = 3 }

abbrev child_digest : Digest
child_digest = digest toy serialize child

-- A tree of two blocks.
abbrev two_blocks : LcBlockTree
two_blocks = add_below toy serialize (new_tree toy serialize) child root_digest 0

added : add toy serialize (new_tree toy serialize) child ≡ ok two_blocks
unfolding add new_tree child lookup
added = ground arith

new_child : lookup child_digest (new_tree toy serialize).lcblocks ≡ none
unfolding new_tree digest genesis child toy_hash lookup
new_child = refl

child_same : (b : LcBlock) → IsBlock (new_tree toy serialize) child_digest b → b ≡ child
child_same b e = ground (arith, new_child, e)

two_blocks-IsTree : IsTree (root toy serialize) two_blocks
unfolding new_tree
two_blocks-IsTree =
    (add-IsTree toy serialize (new_tree toy serialize) two_blocks child
      (new_tree-IsTree toy serialize) child_same (omega arith) added).0

child-IsBlock : IsBlock two_blocks child_digest child
unfolding add_below new_tree digest genesis child toy_hash lookup insert
child-IsBlock = refl

root-IsBlock : IsBlock two_blocks root_digest genesis
unfolding add_below new_tree digest genesis child toy_hash lookup insert
root-IsBlock = refl

child-IsHeight : IsHeight two_blocks child_digest 1
unfolding add_below new_tree digest genesis child toy_hash lookup insert
child-IsHeight = refl

child-Ancestor : Ancestor two_blocks root_digest child_digest
unfolding child
child-Ancestor = below child child-IsBlock refl (here genesis root-IsBlock)

child_self : Ancestor two_blocks child_digest child_digest
child_self = here child child-IsBlock

is_prefix_of-Decides_example :
    Decides two_blocks-IsTree root_digest child_digest
      (is_prefix_of two_blocks root_digest child_digest)
is_prefix_of-Decides_example =
    is_prefix_of-Decides two_blocks-IsTree root_digest child_digest genesis child root-IsBlock
      child-IsBlock

leading_tip_extending-IsLeading_example :
    (r : Digest) × (leading_tip_extending two_blocks root_digest ≡ ok r)
    × IsLeading two_blocks-IsTree root_digest genesis root-IsBlock r
leading_tip_extending-IsLeading_example =
    leading_tip_extending-IsLeading two_blocks-IsTree root_digest genesis root-IsBlock

abbrev known_tips : List Digest
known_tips = root_digest ∷ child_digest ∷ []

abbrev turned_tips : List Digest
turned_tips = child_digest ∷ root_digest ∷ []

two_blocks-room : length two_blocks.lcblocks < u64_mod
unfolding add_below new_tree digest genesis child toy_hash insert
two_blocks-room = omega arith

height_honest-HonestPath_example :
    (n : ℕ) × (height_honest two_blocks child_digest ≡ ok n)
    × HonestPath two_blocks child_digest n
    × (n ≤ 1)
height_honest-HonestPath_example =
    height_honest-HonestPath two_blocks-IsTree two_blocks-room child_digest child 1 child-IsBlock
      child-IsHeight

abbrev params : Depths
params = record { propose_k_deep = 0; lctree_logava_k_deep = 1 }

abbrev manager : Manager
manager = record { tree = two_blocks; checkpoints = []; checkpoints_iterations = [] }

manager-IsManager : IsManager toy serialize params manager
unfolding latest last_or
manager-IsManager = record {
  tree = two_blocks-IsTree;
  room = two_blocks-room;
  checkpoint_known = (genesis, root-IsBlock);
}

proposal_is_valid_example :
    (d : Digest) × (on_command toy serialize params manager get_current_proposal
      ≡ ok (digest_reply d))
    × Ancestor two_blocks (latest toy serialize params manager) d
    × (on_command toy serialize params manager (validate_proposal d) ≡ ok (valid_reply true))
proposal_is_valid_example = proposal_is_valid toy serialize params manager manager-IsManager

validate_iff_example :
    (tip : Digest) × (v : Bool) × (leading_tip_extending two_blocks
        (latest toy serialize params manager)
      ≡ ok tip)
    × (validate toy serialize params manager child_digest ≡ ok v)
    × ((v ≡ true) ↔ (
        Ancestor two_blocks (latest toy serialize params manager) child_digest
        × Ancestor two_blocks child_digest tip))
validate_iff_example =
    validate_iff toy serialize params manager manager-IsManager child_digest child child-IsBlock

absent : lookup 70_000 two_blocks.lcblocks ≡ none
unfolding add_below new_tree digest genesis child toy_hash lookup insert
absent = refl

on_checkpoint_unknown_example : on_checkpoint toy serialize params manager 0 (some 70_000) ≡ panic
on_checkpoint_unknown_example =
    on_checkpoint_unknown toy serialize params manager manager-IsManager 0 70_000 absent

on_checkpoint-IsManager_example :
    (m' : Manager) × (message : Digest × ℕ) × (on_checkpoint toy serialize params manager 0
        (some child_digest)
      ≡ ok (m', some message))
    × IsManager toy serialize params m'
    × (m'.tree ≡ two_blocks)
    × (latest toy serialize params m' ≡ child_digest)
on_checkpoint-IsManager_example =
    on_checkpoint-IsManager toy serialize params manager manager-IsManager 0 child_digest child
      child-IsBlock

abbrev start : Manager
start = new_manager toy serialize params

start-IsBlock : IsBlock start.tree root_digest genesis
unfolding new_manager new_tree lookup
start-IsBlock = ground arith

start-room : suc (length start.tree.lcblocks) < u64_mod
unfolding new_manager new_tree
start-room = omega arith

on_block-IsManager_example :
    (m' : Manager) × (message : Digest × ℕ) × (on_block toy serialize params start child
      ≡ ok (m', message))
    × IsManager toy serialize params m'
    × IsBlock m'.tree child_digest child
    × (m'.checkpoints ≡ start.checkpoints)
    × Grows start.tree m'.tree
unfolding new_manager child
on_block-IsManager_example =
    on_block-IsManager toy serialize params start (new_manager-IsManager toy serialize params) child
      root_digest genesis refl start-IsBlock child_same start-room

child_valid : validate toy serialize params manager child_digest ≡ ok true
unfolding add_below new_tree digest genesis child toy_hash lookup insert latest last_or validate
    is_prefix_of prefix_walk contains_key leading_tip_extending best_tip consider tie_break height
    choose is_adversarial lookup_or set_insert set_remove
child_valid = refl

abbrev advanced : Manager
advanced = record {
  tree = two_blocks;
  checkpoints = child_digest ∷ [];
  checkpoints_iterations = 0 ∷ [];
}

child_decided :
    on_checkpoint toy serialize params manager 0 (some child_digest)
    ≡ ok (advanced, some (child_digest, 3))
unfolding add_below new_tree digest genesis child toy_hash lookup insert latest last_or
    on_checkpoint announce tip_to_mine report_heights block confirmed k_deep higher_of height_honest
    honest_walk is_prefix_of prefix_walk contains_key leading_tip_extending best_tip consider
    tie_break height choose is_adversarial lookup_or set_insert set_remove
child_decided = refl

on_checkpoint-descends_example :
    Ancestor two_blocks (latest toy serialize params manager) (latest toy serialize params advanced)
on_checkpoint-descends_example =
    on_checkpoint-descends toy serialize params manager manager-IsManager 0 child_digest child
      advanced (some (child_digest, 3)) child-IsBlock child_valid child_decided
