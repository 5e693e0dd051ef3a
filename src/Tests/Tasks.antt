-- ===== src/Tests/Tasks.antt =====
-- Runs of the miner, of the synchronizer of the mempool, and of the check of proposals.
use accountability_gadget_pr.Base.{
  ℕ, ◌+◌, ◌≡◌, ◌<◌, refl, ◌⊎◌, ◌↔◌, List, [], ◌∷◌, none, some, true, false, ok, All, arith,
}
use accountability_gadget_pr.Base.Dict.{lookup, insert}
use accountability_gadget_pr.Crypto.{Digest}
use accountability_gadget_pr.Consensus.Messages.{Block, new_block, qc_genesis, block_digest}
use accountability_gadget_pr.Mempool.Config
use accountability_gadget_pr.Mempool.Core.{sync, clean}
use accountability_gadget_pr.Mempool.Synchronizer
use accountability_gadget_pr.Mempool.Synchronizer.{told, finished, timer}
use accountability_gadget_pr.Mempool.Synchronizer.Cleaning.{AuthorsKnown, run_events-cleaned}
use accountability_gadget_pr.Mynode.Actions.{
  CheckpointAction, CheckpointTransaction, new_proposal, new_transaction, verify_signature,
}
use accountability_gadget_pr.Mynode.Config.{CheckpointCommittee, new_committee}
use accountability_gadget_pr.Mynode.Miner
use accountability_gadget_pr.Mynode.Miner.{Input, tip, tick, run_miner, new_miner}
use accountability_gadget_pr.Mynode.Miner.Slots.{TicksRise, TipsHave, IsMiner, run_miner-IsDue}
use accountability_gadget_pr.Mynode.Proposer.{admit}
use accountability_gadget_pr.Mynode.Proposer.Admission.{admit_iff}
use accountability_gadget_pr.Tests.Toy.{toy}

abbrev env : Miner.Env
env = record { genesis_digest = 7; describe = λ t. t ∷ []; produce_adversarial_blocks = false }

-- The tip of slot 3 comes a slot early.
abbrev inputs : List Input
inputs =
    tip 20 0 ∷ tick 1 true ∷ tip 21 1 ∷ tip 23 3 ∷ tick 2 true ∷ tick 3 false ∷ tick 4 true ∷ []

-- The digests of these tips tell their slots.
abbrev HasSlot : Digest → ℕ → Type 0
HasSlot d slot = d ≡ 20 + slot

slots_rise : TicksRise 0 inputs
unfolding TicksRise
slots_rise = (omega arith, (omega arith, (omega arith, (omega arith, tt))))

tips_known : TipsHave HasSlot inputs
unfolding TipsHave
tips_known = (refl, (refl, (refl, tt)))

run_miner-IsDue_example : IsMiner env HasSlot (run_miner env inputs (new_miner env))
run_miner-IsDue_example = run_miner-IsDue env HasSlot inputs slots_rise tips_known

abbrev sync_env : Synchronizer.Env
sync_env = record {
  primitives = toy;
  name = 1;
  committee = Config.new_committee ((1, 11, 21) ∷ (2, 12, 22) ∷ []) 1;
  sync_retry_delay = 100;
}

abbrev early : Block
early = new_block toy qc_genesis none 2 1 (31 ∷ [])

abbrev late : Block
late = new_block toy qc_genesis none 2 5 (32 ∷ 33 ∷ [])

abbrev events : List Synchronizer.Event
events = told (sync (31 ∷ []) early) 10 ∷ told (sync (32 ∷ 33 ∷ []) late) 20 ∷ timer 200 ∷ []

known : AuthorsKnown sync_env events
unfolding AuthorsKnown new_block Config.mempool_address Config.new_committee Config.collect lookup
    insert
known = ((22, refl), ((22, refl), tt))

run_events-cleaned_example :
    (s s' : Synchronizer.Synchronizer) × (Synchronizer.run_events sync_env events
        Synchronizer.new_synchronizer
      ≡ ok s)
    × (Synchronizer.on_event sync_env (told (clean 3) 210) s ≡ ok s')
    × All
        (λ w.
          (w.told_to_stop ≡ true)
          ⊎ ((r : ℕ) × (lookup (block_digest toy w.deliver) s'.pending ≡ some r) × (3 < r)))
        s'.waiting
run_events-cleaned_example = run_events-cleaned sync_env events 3 210 known

abbrev members : CheckpointCommittee
members = new_committee ((3, 1) ∷ (4, 1) ∷ []) 1

abbrev serialize : CheckpointTransaction → List ℕ
serialize tx = tx.author ∷ []

abbrev proposal : CheckpointTransaction
proposal = new_transaction toy serialize 3 (CheckpointAction.propose 0 8)

admit_iff_example : (admit toy serialize members (λ i. 3) proposal ≡ some (new_proposal 0 8)) ↔ (
    (i : ℕ) × (b : Digest) × (new_proposal 0 8 ≡ new_proposal i b)
    × (proposal.action ≡ CheckpointAction.propose i b)
    × (proposal.author ≡ 3)
    × (verify_signature toy serialize members proposal ≡ ok tt))
admit_iff_example = admit_iff toy serialize members (λ i. 3) proposal (new_proposal 0 8)
