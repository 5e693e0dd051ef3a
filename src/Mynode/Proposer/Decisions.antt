-- ===== src/Mynode/Proposer/Decisions.antt =====
-- mynode/src/cpextractor.rs and cpproposer.rs together: the proposer of a node hears the decisions that
-- the extractor of the node makes of the ledger.
use accountability_gadget_pr.Base.{ℕ, ◌≡◌, ◌<◌, subst, List, [], ◌∷◌, ◌++◌, Option, ok, length}
use accountability_gadget_pr.Crypto.{Primitives}
use accountability_gadget_pr.Mynode.Config.{CheckpointCommittee, size}
use accountability_gadget_pr.Mynode.Actions.{
  CheckpointTransaction, CheckpointEvent, new_checkpoint, new_proposal,
}
use accountability_gadget_pr.Mynode.Extractor.{new_extractor, run_ledger}
use accountability_gadget_pr.Mynode.Extractor.Events.{AreNumbered, run_ledger-AreNumbered}
use accountability_gadget_pr.Mynode.Proposer.{Env, Proposer, Input, new_proposer, run_inputs}
use accountability_gadget_pr.Mynode.Proposer.Progress.{decisions, IsOpen, Answers, run_inputs-live}

AreNumbered-append :
    (i : ℕ) (es later : List CheckpointEvent) → AreNumbered i (es ++ later) → AreNumbered i es
AreNumbered-append i [] later h = tt
AreNumbered-append i (new_checkpoint j b ∷ es) later h = (h.0, AreNumbered-append _ es later h.1)
AreNumbered-append i (new_proposal j b ∷ es) later h = h

-- For a committee below 1024 and whatever the ledger holds: where the block tree answers each request, the stream of events stays open and the
-- decisions that have come in so far are the first ones of the extractor, the proposer runs on without a
-- panic, and its iteration is the number of those decisions.
pub run_inputs-run_ledger :
    (env : Env) (is : List Input) (committee : CheckpointCommittee) (c : Primitives)
    (serialize : CheckpointTransaction → List ℕ)
    (deserialize : List ℕ → Option CheckpointTransaction) (entries : List (List ℕ))
    (later : List CheckpointEvent)
    → size committee < 1024
    → Answers env
    → IsOpen is
    → (run_ledger c serialize deserialize committee entries new_extractor).1 ≡ decisions is ++ later
    → (s : Proposer) × (run_inputs env is (new_proposer env) ≡ ok s)
      × (s.current_iteration ≡ length (decisions is))
run_inputs-run_ledger env is committee c serialize deserialize entries later small a o e =
    run_inputs-live env is a o (
      AreNumbered-append 0 (decisions is) later (
        subst (AreNumbered 0) e
          (run_ledger-AreNumbered c serialize deserialize committee entries small).0))
