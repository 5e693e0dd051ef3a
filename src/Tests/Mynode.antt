-- ===== src/Tests/Mynode.antt =====
-- mynode/src/cpextractor.rs on a committee of four, and its thresholds.
use accountability_gadget_pr.Base.{
  ℕ, zero, suc, ◌+◌, ◌*◌, ◌≡◌, refl, ◌↔◌, ◌<◌, ◌≤◌, List, [], ◌∷◌, Option, none, some, true, All,
  arith,
}
use accountability_gadget_pr.Base.Dict.{insert}
use accountability_gadget_pr.Mynode.Config.{CheckpointCommittee, new_committee, collect, size}
use accountability_gadget_pr.Mynode.Actions.{
  CheckpointAction, CheckpointTransaction, new_transaction,
}
use accountability_gadget_pr.Mynode.F32.{above_two_thirds}
use accountability_gadget_pr.Mynode.F32.Thresholds.{above_two_thirds_iff}
use accountability_gadget_pr.Mynode.Extractor.{
  Vote, reject, accept, count_accept, count_reject, decide_votes, new_extractor, run_ledger,
}
use accountability_gadget_pr.Mynode.Extractor.Decision.{
  IsAccepted, decide_votes-accept_iff, decide_votes-reject_iff,
}
use accountability_gadget_pr.Mynode.Extractor.Events.{
  AreNumbered, IsJustified, run_ledger-AreNumbered,
}
use accountability_gadget_pr.Tests.Toy.{toy}

above_two_thirds_iff_example : (above_two_thirds 67 100 ≡ true) ↔ (2 * 100 < 3 * 67)
above_two_thirds_iff_example = above_two_thirds_iff 67 100 (omega arith) (omega arith)

abbrev mixed : List Vote
mixed = accept 8 ∷ reject ∷ accept 8 ∷ accept 8 ∷ []

decide_votes-accept_iff_example : (decide_votes 4 mixed ≡ some (some 8)) ↔ IsAccepted 4 mixed 8
decide_votes-accept_iff_example = decide_votes-accept_iff 4 mixed (omega arith) (omega arith) 8

abbrev split : List Vote
split = accept 8 ∷ reject ∷ accept 9 ∷ reject ∷ []

decide_votes-reject_iff_example : (decide_votes 4 split ≡ some none) ↔ (4 ≤ 3 * count_reject split)
decide_votes-reject_iff_example = decide_votes-reject_iff 4 split (omega arith) (omega arith)

all_voted : count_accept 8 mixed + count_reject mixed ≡ 4
unfolding count_accept count_reject
all_voted = refl

abbrev pub members : CheckpointCommittee
members = new_committee ((1, 1) ∷ (2, 1) ∷ (3, 1) ∷ (4, 1) ∷ []) 1

pub members_small : size members < 1024
unfolding size new_committee collect insert
members_small = omega arith

abbrev action_bytes : CheckpointAction → List ℕ
action_bytes (CheckpointAction.propose i d) = 0 ∷ i ∷ d ∷ []
action_bytes (CheckpointAction.accept i d) = 1 ∷ i ∷ d ∷ []
action_bytes (CheckpointAction.reject i) = 2 ∷ i ∷ []

abbrev pub serialize : CheckpointTransaction → List ℕ
serialize tx = tx.author ∷ action_bytes tx.action

abbrev pub deserialize : List ℕ → Option CheckpointTransaction
deserialize (author ∷ zero ∷ i ∷ d ∷ _) =
    some (new_transaction toy serialize author (CheckpointAction.propose i d))
deserialize (author ∷ suc zero ∷ i ∷ d ∷ _) =
    some (new_transaction toy serialize author (CheckpointAction.accept i d))
deserialize (author ∷ suc (suc zero) ∷ i ∷ _) =
    some (new_transaction toy serialize author (CheckpointAction.reject i))
deserialize _ = none

-- Iteration 0: one proposal, three acceptances; then two rejections in iteration 1, and noise.
abbrev pub ledger : List (List ℕ)
ledger =
    (1 ∷ 0 ∷ 0 ∷ 8 ∷ [])
    ∷ (1 ∷ 1 ∷ 0 ∷ 8 ∷ [])
    ∷ (2 ∷ 1 ∷ 0 ∷ 8 ∷ [])
    ∷ (7 ∷ 1 ∷ 0 ∷ 8 ∷ [])
    ∷ (3 ∷ 1 ∷ 0 ∷ 8 ∷ [])
    ∷ []
    ∷ (4 ∷ 2 ∷ 1 ∷ [])
    ∷ (1 ∷ 2 ∷ 1 ∷ [])
    ∷ []

run_ledger-AreNumbered_example :
    let es = (run_ledger toy serialize deserialize members ledger new_extractor).1 in
    AreNumbered 0 es × All (IsJustified toy serialize deserialize members ledger) es
run_ledger-AreNumbered_example =
    run_ledger-AreNumbered toy serialize deserialize members ledger members_small
