-- ===== src/Mynode/Proposer/Votes.antt =====
-- The acceptances of mynode/src/cpproposer.rs, iteration by iteration.
use accountability_gadget_pr.Base.{
  ℕ, suc, ◌≡◌, refl, sym, subst, inl, inr, List, [], ◌∷◌, Option, ◌==◌, ok, arith, Distinct,
  Option-cases, >>=-eq-ok, ok_injective, assert-eq-ok, if◌then◌else◌,
}
use accountability_gadget_pr.Base.Falling.{Falls, Falls-Distinct}
use accountability_gadget_pr.Base.Dict.{lookup}
use accountability_gadget_pr.Crypto.{Digest}
use accountability_gadget_pr.Mynode.Actions.{
  CheckpointAction, new_checkpoint, new_proposal, new_transaction,
}
use accountability_gadget_pr.Mynode.Proposer.{
  resumed, Env, Phase, inter_delay, waiting, rejecting, Proposer, Input, elapsed, to_act, event,
  closed, resume, note_proposal, broadcast_proposal, blank, open_iteration, enter_waiting,
  start_iteration, new_proposer, on_decision, on_proposal, on_elapsed, on_to_act, on_new_proposal,
  on_input, take_input, run_inputs,
}
use accountability_gadget_pr.Mynode.Proposer.Fresh.{
  take_input-on_input, accepted_by, accepted, IsFresh, VotesOnce, IsFresh-Falls, accepted_if,
  accepted-resume, act_on-IsFresh, proposal-IsFresh, later-IsFresh,
}

module _ (env : Env) where
  -- On entry to the wait, with no acceptance in this iteration yet.
  enter_waiting-VotesOnce :
      (s : Proposer)
      → Falls s.current_iteration (accepted s.effects)
      → VotesOnce (enter_waiting env s)
  unfolding VotesOnce enter_waiting broadcast_proposal IsFresh accepted
  enter_waiting-VotesOnce s f = elim (Option-cases (lookup s.current_iteration s.proposals)) [
    | inl e ↦ ground (arith, e, f)
    | inr (b, e) ↦ ground (arith, e, f)
  ]

  start_iteration-VotesOnce :
      (s : Proposer)
      → Falls s.current_iteration (accepted s.effects)
      → VotesOnce (start_iteration env s)
  unfolding start_iteration
  start_iteration-VotesOnce s f = elim (Option-cases s.last_checkpoint) [
    | inl e ↦
        rw (e, start_iteration) (enter_waiting-VotesOnce (open_iteration s) (unfold accepted in f))
    | inr (b, e) ↦ rw (e, start_iteration) (unfold VotesOnce IsFresh accepted in f)
  ]

  new_proposer-VotesOnce : VotesOnce (new_proposer env)
  unfolding new_proposer
  new_proposer-VotesOnce = start_iteration-VotesOnce blank (unfold accepted Falls in tt)

  decision-VotesOnce :
      (b : Option Digest) (s : Proposer)
      → VotesOnce s
      → VotesOnce (
          start_iteration env (record (resume s) {
            current_iteration = suc s.current_iteration;
            last_checkpoint = b;
          }))
  unfolding VotesOnce
  decision-VotesOnce b s v =
      start_iteration-VotesOnce _
        (rw (accepted-resume s) (IsFresh-Falls s.phase s.proposal_to_act_on _ _ _ v))

  elapsed-VotesOnce :
      (p : Phase) (s : Proposer) → s.phase ≡ p → VotesOnce s → VotesOnce (on_elapsed env p s)
  unfolding VotesOnce IsFresh on_elapsed new_transaction
  elapsed-VotesOnce inter_delay s e v = enter_waiting-VotesOnce s (
      subst
        (λ z.
          IsFresh z s.proposal_to_act_on (lookup s.current_iteration s.proposals)
            s.current_iteration (accepted s.effects))
        e v)
  elapsed-VotesOnce waiting s e v =
      unfold IsFresh accepted in
      (rw (accepted_if s.is_paused s.effects) (IsFresh-Falls s.phase s.proposal_to_act_on _ _ _ v))
  elapsed-VotesOnce rejecting s e v = unfold accepted in v

  to_act-VotesOnce :
      (p : Phase) (bs : List Digest) (s : Proposer)
      → s.phase ≡ p
      → s.proposal_to_act_on ≡ bs
      → VotesOnce s
      → VotesOnce (on_to_act env p bs s)
  unfolding VotesOnce on_to_act accepted new_transaction
  to_act-VotesOnce waiting [] s e q v = v
  to_act-VotesOnce inter_delay bs s e q v = v
  to_act-VotesOnce rejecting bs s e q v = v
  to_act-VotesOnce waiting (b ∷ bs) s e q v = rw (accepted_if s.is_paused s.effects) (
      subst
        (λ z. IsFresh z bs (lookup s.current_iteration s.proposals) s.current_iteration (
          accepted_by
            (if env.validate_proposal (if s.is_paused then resumed ∷ s.effects else s.effects) b
              then CheckpointAction.accept s.current_iteration b
              else CheckpointAction.reject s.current_iteration)
            (accepted s.effects)))
        (sym e)
        (act_on-IsFresh b bs _ s.current_iteration (accepted s.effects) _ (rw (sym e, sym q) v)))

  on_new_proposal-VotesOnce :
      (p : Phase) (i : ℕ) (b : Digest) (s : Proposer)
      → s.phase ≡ p
      → VotesOnce s
      → VotesOnce (on_new_proposal env p i b s)
  unfolding VotesOnce on_new_proposal on_proposal note_proposal
  on_new_proposal-VotesOnce inter_delay i b s e v = later-IsFresh s.phase _ _ _ _ _ (rw e cc) v
  on_new_proposal-VotesOnce rejecting i b s e v = later-IsFresh s.phase _ _ _ _ _ (rw e cc) v
  on_new_proposal-VotesOnce waiting i b s e v =
      rw e
        (proposal-IsFresh s.current_iteration i b s.proposal_to_act_on s.proposals _ (rw (sym e) v))

  on_input-VotesOnce :
      (i : Input) (s s' : Proposer) → on_input env i s ≡ ok s' → VotesOnce s → VotesOnce s'
  unfolding on_input on_decision
  on_input-VotesOnce elapsed s s' e v =
      subst VotesOnce (ok_injective e) (elapsed-VotesOnce s.phase s refl v)
  on_input-VotesOnce to_act s s' e v =
      subst VotesOnce (ok_injective e) (to_act-VotesOnce s.phase s.proposal_to_act_on s refl refl v)
  on_input-VotesOnce (event (new_checkpoint i b)) s s' e v =
      subst VotesOnce (assert-eq-ok (i == s.current_iteration) e).1 (decision-VotesOnce b s v)
  on_input-VotesOnce (event (new_proposal i b)) s s' e v =
      subst VotesOnce (ok_injective e) (on_new_proposal-VotesOnce s.phase i b s refl v)
  on_input-VotesOnce closed s s' e v = cc

  run_inputs-VotesOnce :
      (is : List Input) (s s' : Proposer) → run_inputs env is s ≡ ok s' → VotesOnce s → VotesOnce s'
  unfolding run_inputs
  run_inputs-VotesOnce [] s s' e v = subst VotesOnce (ok_injective e) v
  run_inputs-VotesOnce (i ∷ is) s s' e v =
      let (s1, e1, e2) = >>=-eq-ok (take_input env i s) (run_inputs env is) e in
      run_inputs-VotesOnce is s1 s' e2
        (on_input-VotesOnce i s s1 (take_input-on_input env i s s1 e1) v)

-- Whatever comes in, in whatever order, the task accepts at most one proposal in each iteration, and the
-- accepted iterations rise; this is up to a panic, where the task is gone.
pub run_inputs-accepted :
    (env : Env) (is : List Input) (s : Proposer)
    → run_inputs env is (new_proposer env) ≡ ok s
    → Falls (suc s.current_iteration) (accepted s.effects) × Distinct (accepted s.effects)
run_inputs-accepted env is s e =
    let v : VotesOnce s =
      run_inputs-VotesOnce env is (new_proposer env) s e (new_proposer-VotesOnce env) in
    let f : Falls (suc s.current_iteration) (accepted s.effects) =
      IsFresh-Falls s.phase s.proposal_to_act_on (lookup s.current_iteration s.proposals) _ _
        (unfold VotesOnce in v) in
    (f, Falls-Distinct _ _ f)
