-- ===== src/Mynode/Miner.antt =====
-- mynode/src/miner.rs: which block is mined on. An input is what one round of a `select!` yields. A slot
-- that begins comes with the number that the clock gives for it, and with the draw of the lottery, which
-- the generator of rand makes; the text "By {} at {}" is the formatter's.
pub mod Slots
use accountability_gadget_pr.Base.{
  ℕ, leb, List, [], ◌∷◌, ◌++◌, Option, some, Bool, true, false, if◌then◌else◌,
}
use accountability_gadget_pr.Crypto.{Digest}
use accountability_gadget_pr.Mynode.LcBlocks.{LcBlock, new_payload, adversarial_mark}

pub record Env : Type 0 where
  pub genesis_digest : Digest
  pub describe : ℕ → List ℕ
  pub produce_adversarial_blocks : Bool

pub data Input : Type 0 where
  tip : Digest → ℕ → Input
  tick : ℕ → Bool → Input

-- The variables of the task, and the blocks that it sent out, newest first.
pub record Miner : Type 0 where
  pub current_parent : Digest
  pub accept_blocks_for_slot : ℕ
  pub blocks_from_future_slots : List (Digest × ℕ)
  pub mined : List LcBlock

module _ (env : Env) where
  unfoldable pub new_miner : Miner
  new_miner = record {
    current_parent = env.genesis_digest;
    accept_blocks_for_slot = 0;
    blocks_from_future_slots = [];
    mined = [];
  }

  -- " [adv]" marks the blocks of an adversary.
  unfoldable pub payload_text : ℕ → List ℕ
  payload_text t =
      if env.produce_adversarial_blocks
      then env.describe t ++ b' ' ∷ adversarial_mark
      else env.describe t

  unfoldable pub mine : ℕ → Digest → LcBlock
  unfolding payload_text
  mine t parent = record { parent = some parent; payload = new_payload (payload_text t); slot = t }

  -- The loop over the blocks that were deferred: the new parent, and those that stay deferred.
  unfoldable pub settle : ℕ → List (Digest × ℕ) → Digest → Digest × List (Digest × ℕ)
  settle accept [] parent = (parent, [])
  settle accept ((d, slot) ∷ ds) parent =
      let due = settle accept ds d in
      let later = settle accept ds parent in
      if leb slot accept then due else (later.0, (d, slot) ∷ later.1)

  unfoldable pub on_tip : Digest → ℕ → Miner → Miner
  on_tip d slot s = record s {
    current_parent = if leb slot s.accept_blocks_for_slot then d else s.current_parent;
    blocks_from_future_slots =
        if leb slot s.accept_blocks_for_slot
        then s.blocks_from_future_slots
        else s.blocks_from_future_slots ++ (d, slot) ∷ [];
  }

  unfoldable pub on_tick : ℕ → Bool → Miner → Miner
  unfolding mine settle
  on_tick t won s =
      let settled = settle t s.blocks_from_future_slots s.current_parent in
      record {
        current_parent = settled.0;
        accept_blocks_for_slot = t;
        blocks_from_future_slots = settled.1;
        mined = if won then mine t s.current_parent ∷ s.mined else s.mined;
      }

  unfoldable pub run_miner : List Input → Miner → Miner
  unfolding on_tip on_tick
  run_miner [] s = s
  run_miner (tip d slot ∷ is) s = run_miner is (on_tip d slot s)
  run_miner (tick t won ∷ is) s = run_miner is (on_tick t won s)
