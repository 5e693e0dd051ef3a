-- ===== src/Mynode/Extractor.antt =====
-- mynode/src/cpextractor.rs: checkpoints are read off the ledger, iteration by iteration. The hash map
-- of votes is an association list; the theorems hold whatever its order.
pub mod Decision
pub mod Ledger
pub mod Events
use accountability_gadget_pr.Base.{
  ℕ, suc, List, [], ◌∷◌, ◌++◌, Option, none, some, Bool, true, false, ◌==◌, ◌&&◌, not, filter,
  contains, length, Outcome, ok, err, panic, out_of_fuel, if◌then◌else◌,
}
use accountability_gadget_pr.Base.Dict.{Dict, insert, values}
use accountability_gadget_pr.Crypto.{Digest, PublicKey, Primitives}
use accountability_gadget_pr.Mynode.Config.{CheckpointCommittee, size}
use accountability_gadget_pr.Mynode.Actions.{
  CheckpointAction, CheckpointTransaction, CheckpointEvent, new_checkpoint, verify_signature,
}
use accountability_gadget_pr.Mynode.F32.{above_two_thirds, at_least_third}

pub data Vote : Type 0 where
  reject : Vote
  accept : Digest → Vote

-- `(**v) == Vote::Accept(b)`
abbrev pub is_accept_of : Digest → Vote → Bool
is_accept_of b reject = false
is_accept_of b (accept d) = d == b

-- `(**v) == Vote::Reject`
abbrev pub is_reject : Vote → Bool
is_reject reject = true
is_reject (accept d) = false

unfoldable pub count_accept : Digest → List Vote → ℕ
count_accept b votes = length (filter (is_accept_of b) votes)

unfoldable pub count_reject : List Vote → ℕ
count_reject votes = length (filter is_reject votes)

-- The digests that are accepted by some vote, each once (`filter_map`, `unique`).
unfoldable pub accepted_from : List Digest → List Vote → List Digest
accepted_from seen [] = []
accepted_from seen (reject ∷ votes) = accepted_from seen votes
accepted_from seen (accept d ∷ votes) = elim (contains d seen) [
  | true ↦ accepted_from seen votes
  | false ↦ d ∷ accepted_from (d ∷ seen) votes
]

-- The loop over the accepted digests: the first with enough votes.
unfoldable pub first_accepted : ℕ → List Vote → List Digest → Option Digest
first_accepted n votes [] = none
first_accepted n votes (b ∷ bs) =
    if above_two_thirds (count_accept b votes) n then some b else first_accepted n votes bs

-- Is the iteration over? `some none` is a decision without a checkpoint.
unfoldable pub decide_votes : ℕ → List Vote → Option (Option Digest)
unfolding accepted_from first_accepted
decide_votes n votes = elim (first_accepted n votes (accepted_from [] votes)) [
  | some b ↦ some (some b)
  | none ↦ if at_least_third (count_reject votes) n then some none else none
]

pub record Extractor : Type 0 where
  pub current_iteration : ℕ
  pub current_votes : Dict Vote

abbrev pub new_extractor : Extractor
new_extractor = record { current_iteration = 0; current_votes = [] }

-- The `match` on a vote's action: only a vote of the current iteration counts, and a later vote of an
-- author replaces the earlier one.
unfoldable pub note_vote : ℕ → PublicKey → CheckpointAction → Dict Vote → Dict Vote
note_vote i author (CheckpointAction.accept j b) votes =
    if j == i then insert author (accept b) votes else votes
note_vote i author (CheckpointAction.reject j) votes =
    if j == i then insert author reject votes else votes
note_vote i author (CheckpointAction.propose j b) votes = votes

-- The end of a round of the loop over the ledger: the state, and the event if the iteration is over.
unfoldable pub conclude : ℕ → Extractor → Extractor × Option CheckpointEvent
unfolding decide_votes
conclude n x = elim (decide_votes n (values x.current_votes)) [
  | none ↦ (x, none)
  | some decision ↦ (
    record { current_iteration = suc x.current_iteration; current_votes = [] },
    some (new_checkpoint x.current_iteration decision),
  )
]

module _ (c : Primitives) (serialize : CheckpointTransaction → List ℕ)
    (deserialize : List ℕ → Option CheckpointTransaction) (committee : CheckpointCommittee) where
  -- A vote whose signature holds is noted and the iteration checked; any other is skipped.
  unfoldable pub on_transaction :
      CheckpointTransaction → Extractor → Extractor × Option CheckpointEvent
  unfolding note_vote conclude
  on_transaction tx x = elim (verify_signature c serialize committee tx) [
    | ok _ ↦ conclude (size committee) (record x {
      current_votes = note_vote x.current_iteration tx.author tx.action x.current_votes;
    })
    | _ ↦ (x, none)
  ]

  -- One entry of the ledger.
  unfoldable pub on_ledger : List ℕ → Extractor → Extractor × Option CheckpointEvent
  unfolding on_transaction
  on_ledger entry x = elim (deserialize entry) [ none ↦ (x, none) | some tx ↦ on_transaction tx x ]

  -- A stretch of the ledger: the state afterwards and the events in order.
  unfoldable pub run_ledger : List (List ℕ) → Extractor → Extractor × List CheckpointEvent
  run_ledger [] x = (x, [])
  run_ledger (entry ∷ entries) x =
      let (x', event) = on_ledger entry x in
      let (x'', events) = run_ledger entries x' in
      (x'', elim event [ none ↦ events | some e ↦ e ∷ events ])
