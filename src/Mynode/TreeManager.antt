-- ===== src/Mynode/TreeManager.antt =====
-- mynode/src/lcblocktreemanager.rs: the task that owns the tree and the checkpoints. Each arm of its
-- `select!` is a function of the state and of what was received; `panic` ends the task. The channels
-- to the miner and to the callers are part of the result; the log, and the dump of the tree for it,
-- are left out, but the heights that the log line asks for are computed, since they may panic.
pub mod Safety
pub mod Events
pub mod Checkpoints
use accountability_gadget_pr.Base.{
  ℕ, List, [], ◌∷◌, ◌++◌, Option, none, some, Bool, true, false, ◌&&◌, Outcome, ok, err, panic,
  out_of_fuel, ◌>>=◌, unwrap,
}
use accountability_gadget_pr.Crypto.{Digest, Primitives}
use accountability_gadget_pr.Mynode.LcBlocks.{
  LcBlock, LcBlockTree, TreeResult, TreeError, digest, genesis, new_tree, add, is_prefix_of,
  leading_tip_extending, k_deep, higher_of, height, height_honest, parent_of, block,
}

-- `MyLcBlockTreeManagerCmd`, without the channels for the replies.
pub data Cmd : Type 0 where
  get_current_proposal get_current_tip : Cmd
  validate_proposal get_height_of_block get_parent_of_block get_block : Digest → Cmd

pub data Reply : Type 0 where
  digest_reply : Digest → Reply
  valid_reply : Bool → Reply
  height_reply : Option ℕ → Reply
  parent_reply : Option (Option Digest) → Reply
  block_reply : Option LcBlock → Reply

-- The parameters of the task that its arms read.
pub record Depths : Type 0 where
  pub propose_k_deep : ℕ
  pub lctree_logava_k_deep : ℕ

-- Newest checkpoint last, each with its iteration.
pub record Manager : Type 0 where
  pub tree : LcBlockTree
  pub checkpoints : List Digest
  pub checkpoints_iterations : List ℕ

-- `last().unwrap_or(..)`
unfoldable pub last_or : Digest → List Digest → Digest
last_or d [] = d
last_or d (x ∷ xs) = last_or x xs

-- `ok()` of a result: its error is `None`; a panic stays one.
abbrev pub to_option {ℓ} : {A : Type ℓ} → TreeResult A → TreeResult (Option A)
to_option (ok a) = ok (some a)
to_option (err e) = ok none
to_option panic = panic
to_option out_of_fuel = out_of_fuel

-- Both conditions, if neither is an error.
abbrev pub both : Option Bool → Option Bool → Bool
both (some a) (some b) = a && b
both (some a) none = false
both none b = false

module _ (c : Primitives) (serialize : LcBlock → List ℕ) (params : Depths) where
  -- The state at the start of the task.
  unfoldable pub new_manager : Manager
  new_manager = record {
    tree = new_tree c serialize;
    checkpoints = [];
    checkpoints_iterations = [];
  }

  -- The latest checkpoint, or the genesis block.
  unfoldable pub latest : Manager → Digest
  unfolding last_or
  latest m = last_or (digest c serialize genesis) m.checkpoints

  -- The tip to mine on and its slot, for the miner.
  unfoldable pub tip_to_mine : Manager → TreeResult (Digest × ℕ)
  tip_to_mine m = do
    tip ← leading_tip_extending m.tree (latest m)
    b ← unwrap (block m.tree tip)
    ok (tip, b.slot)

  -- The higher of the latest checkpoint and the block `k` below the leading tip.
  unfoldable pub confirmed : ℕ → Manager → TreeResult Digest
  confirmed k m = do
    tip ← leading_tip_extending m.tree (latest m)
    deep ← k_deep m.tree k tip
    unwrap (higher_of m.tree (latest m) deep)

  -- The heights of the two logs that are printed.
  unfoldable pub report_heights : Manager → TreeResult (ℕ × ℕ × ℕ × ℕ)
  report_heights m = do
    log_ava ← confirmed params.lctree_logava_k_deep m
    honest_acc ← unwrap (height_honest m.tree (latest m))
    height_acc ← unwrap (height m.tree (latest m))
    honest_ava ← unwrap (height_honest m.tree log_ava)
    height_ava ← unwrap (height m.tree log_ava)
    ok (honest_acc, height_acc, honest_ava, height_ava)

  -- What follows every change of the state: the message to the miner, and the log line.
  unfoldable pub announce : Manager → TreeResult (Manager × (Digest × ℕ))
  unfolding tip_to_mine report_heights
  announce m = do message ← tip_to_mine m; _ ← report_heights m; ok (m, message)

  -- A block from the network. (What bincode cannot read is a panic before this point.)
  unfoldable pub on_block : Manager → LcBlock → TreeResult (Manager × (Digest × ℕ))
  unfolding announce
  on_block m b = do tree ← unwrap (add c serialize m.tree b); announce (record m { tree = tree })

  -- A decision of the checkpoint extractor; `none` is an iteration without a checkpoint.
  unfoldable pub on_checkpoint :
      Manager → ℕ → Option Digest → TreeResult (Manager × Option (Digest × ℕ))
  unfolding announce
  on_checkpoint m i none = ok (m, none)
  on_checkpoint m i (some cp) = do
    (m', message) ← announce (record m {
      checkpoints = m.checkpoints ++ cp ∷ [];
      checkpoints_iterations = m.checkpoints_iterations ++ i ∷ [];
    })
    ok (m', some message)

  -- The two conditions of `ValidateProposal`.
  unfoldable pub validate : Manager → Digest → TreeResult Bool
  validate m d = do
    condition_1 ← to_option (is_prefix_of m.tree (latest m) d)
    tip ← leading_tip_extending m.tree (latest m)
    condition_2 ← to_option (is_prefix_of m.tree d tip)
    ok (both condition_1 condition_2)

  -- A command of another task, and its reply.
  unfoldable pub on_command : Manager → Cmd → TreeResult Reply
  unfolding validate confirmed
  on_command m get_current_proposal = do d ← confirmed params.propose_k_deep m; ok (digest_reply d)
  on_command m (validate_proposal d) = do v ← validate m d; ok (valid_reply v)
  on_command m (get_height_of_block d) = do h ← to_option (height m.tree d); ok (height_reply h)
  on_command m get_current_tip = do d ← leading_tip_extending m.tree (latest m); ok (digest_reply d)
  on_command m (get_parent_of_block d) = do p ← to_option (parent_of m.tree d); ok (parent_reply p)
  on_command m (get_block d) = do b ← to_option (block m.tree d); ok (block_reply b)
