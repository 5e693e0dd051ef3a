-- ===== src/Mynode/Proposer/Progress.antt =====
-- How mynode/src/cpproposer.rs goes from iteration to iteration, with the numbers of the decisions.
use accountability_gadget_pr.Base.{
  ℕ, suc, ◌≡◌, refl, ◌∙◌, sym, List, [], ◌∷◌, Option, ==_refl, true, ok, arith, ap, length, ◌+◌,
}
use accountability_gadget_pr.Crypto.{Digest}
use accountability_gadget_pr.Mynode.Actions.{CheckpointEvent, new_checkpoint, new_proposal}
use accountability_gadget_pr.Mynode.Extractor.Events.{AreNumbered}
use accountability_gadget_pr.Mynode.Proposer.{
  Env, Phase, inter_delay, waiting, rejecting, Proposer, Input, elapsed, to_act, event, closed,
  start_iteration, new_proposer, resume, on_elapsed, on_to_act, on_new_proposal, on_decision,
  on_input, take_input, run_inputs, blank, Effect,
}

-- The decisions among the inputs, in the order in which they come in.
unfoldable pub decisions : List Input → List CheckpointEvent
decisions [] = []
decisions (elapsed ∷ is) = decisions is
decisions (to_act ∷ is) = decisions is
decisions (event (new_checkpoint i b) ∷ is) = new_checkpoint i b ∷ decisions is
decisions (event (new_proposal i b) ∷ is) = decisions is
decisions (closed ∷ is) = decisions is

-- The stream of events stays open.
unfoldable pub IsOpen : List Input → Type 0
IsOpen [] = Unit {0}
IsOpen (elapsed ∷ is) = IsOpen is
IsOpen (to_act ∷ is) = IsOpen is
IsOpen (event e ∷ is) = IsOpen is
IsOpen (closed ∷ is) = ⊥

module _ (env : Env) where
  -- The task of the block tree answers each request.
  abbrev pub Answers : Type 0
  Answers = (log : List Effect) → env.tree_answers log ≡ true

  start_iteration-current :
      (s : Proposer) → (start_iteration env s).current_iteration ≡ s.current_iteration
  unfolding start_iteration
  start_iteration-current s = ground arith

  on_elapsed-current :
      (p : Phase) (s : Proposer) → (on_elapsed env p s).current_iteration ≡ s.current_iteration
  unfolding on_elapsed
  on_elapsed-current inter_delay s = refl
  on_elapsed-current waiting s = refl
  on_elapsed-current rejecting s = refl

  on_to_act-current :
      (p : Phase) (bs : List Digest) (s : Proposer)
      → (on_to_act env p bs s).current_iteration ≡ s.current_iteration
  unfolding on_to_act
  on_to_act-current waiting [] s = refl
  on_to_act-current waiting (b ∷ bs) s = refl
  on_to_act-current inter_delay bs s = refl
  on_to_act-current rejecting bs s = refl

  on_new_proposal-current :
      (p : Phase) (i : ℕ) (b : Digest) (s : Proposer)
      → (on_new_proposal env p i b s).current_iteration ≡ s.current_iteration
  unfolding on_new_proposal
  on_new_proposal-current waiting i b s = refl
  on_new_proposal-current inter_delay i b s = refl
  on_new_proposal-current rejecting i b s = refl

  on_decision-current :
      (i : ℕ) (b : Option Digest) (s : Proposer)
      → i ≡ s.current_iteration
      → (s' : Proposer) × (on_decision env i b s ≡ ok s')
        × (s'.current_iteration ≡ suc s.current_iteration)
  unfolding on_decision
  on_decision-current i b s e =
      let s1 : Proposer = record (resume s) {
        current_iteration = suc s.current_iteration;
        last_checkpoint = b;
      } in
      (start_iteration env s1, rw (e, ==_refl s.current_iteration) refl, start_iteration-current s1)

  -- Where the block tree answers, a round ends as it does.
  take_input-answered : (i : Input) (s : Proposer) → Answers → take_input env i s ≡ on_input env i s
  unfolding take_input
  take_input-answered i s answers = rw (answers s.effects) (ground (arith))

  -- From any state whose iteration is the number of the next decision.
  run_inputs-open :
      (is : List Input) (s : Proposer) (i : ℕ)
      → s.current_iteration ≡ i
      → Answers
      → IsOpen is
      → AreNumbered i (decisions is)
      → (s' : Proposer) × (run_inputs env is s ≡ ok s')
        × (s'.current_iteration ≡ i + length (decisions is))
  unfolding run_inputs IsOpen decisions on_input
  run_inputs-open [] s i e a o n = (s, refl, omega (arith, e))
  run_inputs-open (elapsed ∷ is) s i e a o n =
      rw (take_input-answered (elapsed) s a)
        (run_inputs-open is (on_elapsed env s.phase s) i (on_elapsed-current s.phase s ∙ e) a o n)
  run_inputs-open (to_act ∷ is) s i e a o n = rw (take_input-answered (to_act) s a) (
      run_inputs-open is (on_to_act env s.phase s.proposal_to_act_on s) i
        (on_to_act-current s.phase s.proposal_to_act_on s ∙ e) a o n)
  run_inputs-open (event (new_checkpoint j b) ∷ is) s i e a o n =
      let (s1, e1, q1) = on_decision-current j b s (n.0 ∙ sym e) in
      let (s2, e2, q2) = run_inputs-open is s1 (suc i) (q1 ∙ ap suc e) a o n.1 in
      (s2, rw (take_input-answered (event (new_checkpoint j b)) s a, e1) e2, omega (arith, q2))
  run_inputs-open (event (new_proposal j b) ∷ is) s i e a o n =
      run_inputs-open is (on_new_proposal env s.phase j b s) i
        (on_new_proposal-current s.phase j b s ∙ e) a o n
  run_inputs-open (closed ∷ is) s i e a o n = elim o [ ]

-- Where the block tree answers and the decisions that come in are numbered from 0, as the extractor numbers them, the task runs on
-- for ever: its `assert!` holds each time, and its iteration is the number of decisions so far. The
-- proposals and the delays may come in any order between them.
pub run_inputs-live :
    (env : Env) (is : List Input)
    → Answers env
    → IsOpen is
    → AreNumbered 0 (decisions is)
    → (s : Proposer) × (run_inputs env is (new_proposer env) ≡ ok s)
      × (s.current_iteration ≡ length (decisions is))
unfolding new_proposer
run_inputs-live env is a o n =
    let (s, e, q) =
      run_inputs-open env is (new_proposer env) 0 (start_iteration-current env blank) a o n in
    (s, e, omega (arith, q))
