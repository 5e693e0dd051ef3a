-- ===== src/Mynode/Proposer/Validated.antt =====
-- What stands behind the acceptances of mynode/src/cpproposer.rs.
use accountability_gadget_pr.Base.{
  ℕ, suc, ◌≡◌, refl, subst, inl, inr, List, [], ◌∷◌, Option, none, some, Bool, true, false, ◌==◌,
  ok, Option-cases, >>=-eq-ok, ok_injective, assert-eq-ok, if◌then◌else◌,
}
use accountability_gadget_pr.Crypto.{Digest}
use accountability_gadget_pr.Mynode.Actions.{
  CheckpointAction, CheckpointTransaction, new_checkpoint, new_proposal, new_transaction,
}
use accountability_gadget_pr.Mynode.Proposer.Fresh.{take_input-on_input}
use accountability_gadget_pr.Mynode.Proposer.{
  Effect, submitted, proposed, proposal_asked, validated, paused, resumed, Env, Phase, inter_delay,
  waiting, rejecting, Proposer, Input, elapsed, to_act, event, closed, resume, blank,
  start_iteration, new_proposer, on_elapsed, act_on, on_to_act, on_new_proposal, on_decision,
  on_input, take_input, run_inputs,
}

-- The block that the tree just found valid.
unfoldable pub found_valid : List Effect → Option Digest
found_valid (validated b true ∷ es) = some b
found_valid _ = none

abbrev pub IsBacked : CheckpointAction → List Effect → Type 0
IsBacked (CheckpointAction.accept i b) es = found_valid es ≡ some b
IsBacked (CheckpointAction.propose i b) es = Unit {0}
IsBacked (CheckpointAction.reject i) es = Unit {0}

-- Each vote for a block comes right after the tree found this block valid.
unfoldable pub AreBacked : List Effect → Type 0
AreBacked [] = Unit {0}
AreBacked (submitted tx ∷ es) = IsBacked tx.action es × AreBacked es
AreBacked (proposed tx ∷ es) = AreBacked es
AreBacked (proposal_asked ∷ es) = AreBacked es
AreBacked (validated b v ∷ es) = AreBacked es
AreBacked (paused ∷ es) = AreBacked es
AreBacked (resumed ∷ es) = AreBacked es

abbrev VotesBacked : Proposer → Type 0
VotesBacked s = AreBacked s.effects

resumed-AreBacked :
    (c : Bool) (es : List Effect) → AreBacked es → AreBacked (if c then resumed ∷ es else es)
unfolding AreBacked
resumed-AreBacked true es h = h
resumed-AreBacked false es h = h

proposed-AreBacked :
    (c : Bool) (tx : CheckpointTransaction) (es : List Effect)
    → AreBacked es
    → AreBacked (if c then proposed tx ∷ proposal_asked ∷ es else es)
unfolding AreBacked
proposed-AreBacked true tx es h = h
proposed-AreBacked false tx es h = h

module _ (env : Env) where
  start_iteration-VotesBacked : (s : Proposer) → VotesBacked s → VotesBacked (start_iteration env s)
  unfolding start_iteration AreBacked
  start_iteration-VotesBacked s h = elim (Option-cases s.last_checkpoint) [
    | inl e ↦ rw (e, start_iteration) (proposed-AreBacked _ _ (paused ∷ s.effects) h)
    | inr (b, e) ↦ rw (e, start_iteration) h
  ]

  vote-AreBacked :
      (b : Digest) (i : ℕ) (v : Bool) (es : List Effect)
      → AreBacked es
      → IsBacked
          (if v then CheckpointAction.accept i b else CheckpointAction.reject i)
          (validated b v ∷ es)
        × AreBacked es
  unfolding found_valid
  vote-AreBacked b i true es h = (refl, h)
  vote-AreBacked b i false es h = (tt, h)

  act_on-VotesBacked : (b : Digest) (s : Proposer) → VotesBacked s → VotesBacked (act_on env b s)
  unfolding act_on AreBacked new_transaction
  act_on-VotesBacked b s h =
      vote-AreBacked b s.current_iteration (env.validate_proposal (resume s).effects b)
        (resume s).effects (resumed-AreBacked s.is_paused s.effects h)

  on_elapsed-VotesBacked :
      (p : Phase) (s : Proposer) → VotesBacked s → VotesBacked (on_elapsed env p s)
  unfolding on_elapsed AreBacked new_transaction
  on_elapsed-VotesBacked inter_delay s h = proposed-AreBacked _ _ s.effects h
  on_elapsed-VotesBacked waiting s h = (tt, resumed-AreBacked s.is_paused s.effects h)
  on_elapsed-VotesBacked rejecting s h = (tt, h)

  on_to_act-VotesBacked :
      (p : Phase) (bs : List Digest) (s : Proposer)
      → VotesBacked s
      → VotesBacked (on_to_act env p bs s)
  unfolding on_to_act
  on_to_act-VotesBacked waiting [] s h = h
  on_to_act-VotesBacked waiting (b ∷ bs) s h =
      act_on-VotesBacked b (record s { proposal_to_act_on = bs }) h
  on_to_act-VotesBacked inter_delay bs s h = h
  on_to_act-VotesBacked rejecting bs s h = h

  on_new_proposal-VotesBacked :
      (p : Phase) (i : ℕ) (b : Digest) (s : Proposer)
      → VotesBacked s
      → VotesBacked (on_new_proposal env p i b s)
  unfolding on_new_proposal
  on_new_proposal-VotesBacked waiting i b s h = h
  on_new_proposal-VotesBacked inter_delay i b s h = h
  on_new_proposal-VotesBacked rejecting i b s h = h

  on_input-VotesBacked :
      (i : Input) (s s' : Proposer) → on_input env i s ≡ ok s' → VotesBacked s → VotesBacked s'
  unfolding on_input on_decision
  on_input-VotesBacked elapsed s s' e h =
      subst VotesBacked (ok_injective e) (on_elapsed-VotesBacked s.phase s h)
  on_input-VotesBacked to_act s s' e h =
      subst VotesBacked (ok_injective e) (on_to_act-VotesBacked s.phase s.proposal_to_act_on s h)
  on_input-VotesBacked (event (new_checkpoint i b)) s s' e h =
      subst VotesBacked (assert-eq-ok (i == s.current_iteration) e).1 (
        start_iteration-VotesBacked
          (record (resume s) { current_iteration = suc s.current_iteration; last_checkpoint = b })
          (resumed-AreBacked s.is_paused s.effects h))
  on_input-VotesBacked (event (new_proposal i b)) s s' e h =
      subst VotesBacked (ok_injective e) (on_new_proposal-VotesBacked s.phase i b s h)
  on_input-VotesBacked closed s s' e h = cc

  run_inputs-VotesBacked :
      (is : List Input) (s s' : Proposer)
      → run_inputs env is s ≡ ok s'
      → VotesBacked s
      → VotesBacked s'
  unfolding run_inputs
  run_inputs-VotesBacked [] s s' e h = subst VotesBacked (ok_injective e) h
  run_inputs-VotesBacked (i ∷ is) s s' e h =
      let (s1, e1, e2) = >>=-eq-ok (take_input env i s) (run_inputs env is) e in
      run_inputs-VotesBacked is s1 s' e2
        (on_input-VotesBacked i s s1 (take_input-on_input env i s s1 e1) h)

-- Whatever comes in, in whatever order, up to a panic: each acceptance that the task submits comes
-- right after the block tree found the accepted block valid.
pub run_inputs-AreBacked :
    (env : Env) (is : List Input) (s : Proposer)
    → run_inputs env is (new_proposer env) ≡ ok s
    → AreBacked s.effects
unfolding new_proposer
run_inputs-AreBacked env is s e =
    run_inputs-VotesBacked env is (new_proposer env) s e
      (start_iteration-VotesBacked env blank (unfold AreBacked in tt))
