-- ===== src/Tests/Proposer.antt =====
-- A run of mynode/src/cpproposer.rs on a node that leads every iteration.
use accountability_gadget_pr.Base.{
  suc, ◌≡◌, refl, List, [], ◌∷◌, ◌++◌, none, some, true, false, ok, Distinct, length,
}
use accountability_gadget_pr.Base.Falling.{Falls}
use accountability_gadget_pr.Mynode.Actions.{new_checkpoint, new_proposal}
use accountability_gadget_pr.Mynode.Proposer.{
  Env, Proposer, Input, elapsed, to_act, event, new_proposer, run_inputs,
}
use accountability_gadget_pr.Mynode.Proposer.Fresh.{accepted}
use accountability_gadget_pr.Mynode.Proposer.Votes.{run_inputs-accepted}
use accountability_gadget_pr.Mynode.Proposer.Progress.{decisions, IsOpen, Answers, run_inputs-live}
use accountability_gadget_pr.Mynode.Extractor.Events.{AreNumbered}
use accountability_gadget_pr.Mynode.Proposer.Validated.{AreBacked, run_inputs-AreBacked}
use accountability_gadget_pr.Mynode.Proposer.Decisions.{run_inputs-run_ledger}
use accountability_gadget_pr.Mynode.Extractor.{
  new_extractor, run_ledger, on_ledger, on_transaction, note_vote, conclude, decide_votes,
  first_accepted, accepted_from, count_accept, count_reject,
}
use accountability_gadget_pr.Mynode.F32.{above_two_thirds, at_least_third}
use accountability_gadget_pr.Mynode.Config.{stake, size, new_committee, collect}
use accountability_gadget_pr.Mynode.Actions.{verify_signature, transaction_digest, new_transaction}
use accountability_gadget_pr.Crypto.{verify, flatten, be_bytes}
use accountability_gadget_pr.Base.Dict.{lookup, insert, lookup_or}
use accountability_gadget_pr.Tests.Mynode.{members, members_small, serialize, deserialize, ledger}
use accountability_gadget_pr.Tests.Toy.{toy, toy_strict, toy_hash}

abbrev env : Env
env = record {
  primitives = toy;
  serialize = λ tx. tx.author ∷ [];
  name = 2;
  get_leader = λ i. 2;
  boycott_proposals = false;
  get_current_proposal = λ effects. 8;
  tree_answers = λ effects. true;
  validate_proposal = λ effects b. true;
}

-- Iteration 0 accepts and ends with a checkpoint; in iteration 1 the proposal comes during the delay.
abbrev inputs : List Input
inputs =
    event (new_proposal 0 8)
    ∷ event (new_proposal 0 9)
    ∷ to_act
    ∷ event (new_checkpoint 0 (some 8))
    ∷ event (new_proposal 1 9)
    ∷ elapsed
    ∷ to_act
    ∷ elapsed
    ∷ elapsed
    ∷ event (new_checkpoint 1 none)
    ∷ []

tree_there : Answers env
tree_there effects = refl

inputs_open : IsOpen inputs
unfolding IsOpen
inputs_open = tt

inputs_numbered : AreNumbered 0 (decisions inputs)
unfolding decisions
inputs_numbered = (refl, (refl, tt))

heard :
    (run_ledger toy serialize deserialize members ledger new_extractor).1 ≡ decisions inputs ++ []
unfolding run_ledger on_ledger on_transaction note_vote conclude decide_votes first_accepted
    accepted_from count_accept count_reject above_two_thirds at_least_third verify_signature
    transaction_digest verify flatten be_bytes toy_strict toy_hash stake size new_committee collect
    lookup insert decisions new_transaction lookup_or
heard = refl

run_inputs-run_ledger_example :
    (s : Proposer) × (run_inputs env inputs (new_proposer env) ≡ ok s)
    × (s.current_iteration ≡ length (decisions inputs))
run_inputs-run_ledger_example =
    run_inputs-run_ledger env inputs members toy serialize deserialize ledger [] members_small
      tree_there inputs_open heard

run_inputs-accepted_example :
    let s = (run_inputs-live env inputs tree_there inputs_open inputs_numbered).0 in
    Falls (suc s.current_iteration) (accepted s.effects) × Distinct (accepted s.effects)
run_inputs-accepted_example =
    run_inputs-accepted env inputs
      (run_inputs-live env inputs tree_there inputs_open inputs_numbered).0
      (run_inputs-live env inputs tree_there inputs_open inputs_numbered).1

run_inputs-AreBacked_example :
    AreBacked (run_inputs-live env inputs tree_there inputs_open inputs_numbered).0.effects
run_inputs-AreBacked_example =
    run_inputs-AreBacked env inputs
      (run_inputs-live env inputs tree_there inputs_open inputs_numbered).0
      (run_inputs-live env inputs tree_there inputs_open inputs_numbered).1
