-- ===== src/Consensus/Core/Run.antt =====
-- The loop `run` of consensus/src/core.rs. Which of the channels and the timer comes next is given as
-- a list; the command `Pause` delays the timer and changes nothing else, so it is not among them.
use accountability_gadget_pr.Base.{
  ℕ, ◌≡◌, refl, sym, subst, List, [], ◌∷◌, ok, err, panic, out_of_fuel,
}
use accountability_gadget_pr.Consensus.Error.{ConsensusResult}
use accountability_gadget_pr.Consensus.Core.Monad.{ConsensusMessage, Env, State, M, ◌>>◌, pure}
use accountability_gadget_pr.Consensus.Core.Handlers.{on_message, local_timeout_round, boot}
use accountability_gadget_pr.Consensus.Core.Keeps.{Keeps, Post-then}
use accountability_gadget_pr.Consensus.Core.Invariant.{Kinds, IsInvariant}
use accountability_gadget_pr.Consensus.Core.Dispatch.{
  on_message-Keeps, local_timeout_round-Keeps, boot-Keeps,
}

pub data Event : Type 0 where
  received : ConsensusMessage → Event
  timer_fired : Event

-- The `match result` at the end of the loop: an error is logged.
unfoldable pub logged : ConsensusResult (Unit {0}) → ConsensusResult (Unit {0})
logged (ok u) = ok u
logged (err e) = ok tt
logged panic = panic
logged out_of_fuel = out_of_fuel

-- The `expect` on the first proposal.
unfoldable pub expected : ConsensusResult (Unit {0}) → ConsensusResult (Unit {0})
expected (ok u) = ok u
expected (err e) = panic
expected panic = panic
expected out_of_fuel = out_of_fuel

-- A handler's result replaced by another, its state kept.
unfoldable pub with_result :
    (ConsensusResult (Unit {0}) → ConsensusResult (Unit {0})) → M (Unit {0}) → M (Unit {0})
with_result f m s = (f (m s).0, (m s).1)

module _ (env : Env) (fuel : ℕ) where
  unfoldable pub on_event : Event → M (Unit {0})
  unfolding on_message local_timeout_round
  on_event (received m) = on_message env fuel m
  on_event timer_fired = local_timeout_round env fuel

  unfoldable pub run_loop : List Event → M (Unit {0})
  unfolding on_event with_result logged
  run_loop [] = pure tt
  run_loop (e ∷ es) = do with_result logged (on_event e); run_loop es

  -- `run`
  unfoldable pub run : List Event → M (Unit {0})
  unfolding boot run_loop with_result expected
  run es = do with_result expected (boot env fuel); run_loop es

  -- What is asked of the messages that come in holds of each, in the state in which it is handled.
  unfoldable pub AreTold : (ConsensusMessage → State → Type 0) → List Event → State → Type 0
  AreTold E [] s = Unit {0}
  AreTold E (received m ∷ es) s =
      E m s × AreTold E es (with_result logged (on_event (received m)) s).1
  AreTold E (timer_fired ∷ es) s = AreTold E es (with_result logged (on_event timer_fired) s).1

  pub AreTold-all :
      (E : ConsensusMessage → State → Type 0)
      → ((m : ConsensusMessage) (s : State) → E m s)
      → (es : List Event) (s : State) → AreTold E es s
  unfolding AreTold
  AreTold-all E h [] s = tt
  AreTold-all E h (received m ∷ es) s = (h m s, AreTold-all E h es _)
  AreTold-all E h (timer_fired ∷ es) s = AreTold-all E h es _

  -- The state after the first proposal.
  abbrev pub booted : State → State
  booted s = (with_result expected (boot env fuel) s).1

  module _ (P : State → Type 0) (k : Kinds) (i : IsInvariant env P k) where
    with_result-Keeps :
        (f : ConsensusResult (Unit {0}) → ConsensusResult (Unit {0})) (m : M (Unit {0})) (s : State)
        → P (m s).1
        → P (with_result f m s).1
    unfolding with_result
    with_result-Keeps f m s p = p

    -- A handler whose result is replaced, and what follows it.
    then-Keeps :
        (f : ConsensusResult (Unit {0}) → ConsensusResult (Unit {0})) (m rest : M (Unit {0}))
        (s : State)
        → P (m s).1
        → (P (with_result f m s).1 → P (rest (with_result f m s).1).1)
        → P ((with_result f m >> rest) s).1
    then-Keeps f m rest s p next =
        Post-then P (with_result f m) (λ _. rest) (λ _ s'. s' ≡ (with_result f m s).1) s
          (with_result-Keeps f m s p, λ _ _. refl)
          (λ _ s' p' e. subst (λ s. P s → P (rest s).1) (sym e) next p')

    run_loop-Keeps :
        (es : List Event) (s : State) → AreTold k.on_message es s → P s → P (run_loop es s).1
    unfolding run_loop on_event AreTold pure Keeps
    run_loop-Keeps [] s a p = p
    run_loop-Keeps (received m ∷ es) s a p =
        then-Keeps logged _ (run_loop es) s (on_message-Keeps env P k i fuel m s a.0 p)
          (run_loop-Keeps es _ a.1)
    run_loop-Keeps (timer_fired ∷ es) s a p =
        then-Keeps logged _ (run_loop es) s (local_timeout_round-Keeps env P k i fuel s p)
          (run_loop-Keeps es _ a)

    pub run-Keeps :
        (es : List Event) (s : State) → AreTold k.on_message es (booted s) → P s → P (run es s).1
    unfolding run Keeps
    run-Keeps es s a p =
        then-Keeps expected _ (run_loop es) s (boot-Keeps env P k i fuel s p)
          (run_loop-Keeps es _ a)
