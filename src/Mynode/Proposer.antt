-- ===== src/Mynode/Proposer.antt =====
-- mynode/src/cpproposer.rs: proposing and voting, iteration by iteration. An input is what one round of
-- a `select!` yields. A delay that is over ends its loop, also where the `while` finds it over before
-- `select!` does, so both are the input `elapsed`.
-- The task that resumes consensus is taken to act as soon as it is told to: consensus is resumed by the
-- first message to it, or at the end of the iteration, when its channel closes.
pub mod Fresh
pub mod Votes
pub mod Progress
pub mod Admission
pub mod Decisions
pub mod Validated
use accountability_gadget_pr.Base.{
  ℕ, zero, suc, ◌-◌, List, [], ◌∷◌, ◌++◌, Option, none, some, Bool, true, false, ◌&&◌, not, ◌==◌,
  ltb, leb, Outcome, ok, err, panic, out_of_fuel, ◌>>=◌, if◌then◌else◌,
}
use accountability_gadget_pr.Base.Dict.{Dict, lookup, insert, retain_keys, contains_key}
use accountability_gadget_pr.Crypto.{Digest, PublicKey, Primitives}
use accountability_gadget_pr.Mynode.Config.{CheckpointCommittee}
use accountability_gadget_pr.Mynode.Actions.{
  CheckpointAction, CheckpointTransaction, CheckpointEvent, CheckpointError, new_checkpoint,
  new_proposal, new_transaction, verify_signature,
}

-- What the task does to others: the votes for the ledger, the proposal for the other nodes, the requests
-- to the block tree, and the pauses of consensus.
pub data Effect : Type 0 where
  submitted : CheckpointTransaction → Effect
  proposed : CheckpointTransaction → Effect
  proposal_asked : Effect
  validated : Digest → Bool → Effect
  paused resumed : Effect

-- What the task is made with; the replies of the block tree may depend on all that went before, also
-- whether its task is still there to answer.
pub record Env : Type 0 where
  pub primitives : Primitives
  pub serialize : CheckpointTransaction → List ℕ
  pub name : PublicKey
  pub get_leader : ℕ → PublicKey
  pub boycott_proposals : Bool
  pub tree_answers : List Effect → Bool
  pub get_current_proposal : List Effect → Digest
  pub validate_proposal : List Effect → Digest → Bool

-- The three loops of an iteration: the delay between checkpoints, the wait for a proposal to act on, and
-- the repeated rejection.
pub data Phase : Type 0 where
  inter_delay waiting rejecting : Phase

-- `proposal_to_act_on` is the channel of that name, and `is_paused` whether consensus waits for this
-- iteration. The effects are newest first.
pub record Proposer : Type 0 where
  pub current_iteration : ℕ
  pub last_checkpoint : Option Digest
  pub proposals : Dict Digest
  pub phase : Phase
  pub proposal_to_act_on : List Digest
  pub is_paused : Bool
  pub effects : List Effect

pub data Input : Type 0 where
  elapsed to_act : Input
  event : CheckpointEvent → Input
  closed : Input

abbrev pub ProposerResult : Type 0
ProposerResult = Outcome CheckpointError Proposer

abbrev pub emit : Effect → Proposer → Proposer
emit e s = record s { effects = e ∷ s.effects }

-- `tx_trigger_resume.send(())`, or the end of the channel.
unfoldable pub resume : Proposer → Proposer
resume s = record s {
  is_paused = false;
  effects = if s.is_paused then resumed ∷ s.effects else s.effects;
}

-- The test and the insertion that each loop makes for a proposal.
abbrev pub is_new : ℕ → Proposer → Bool
is_new i s = leb s.current_iteration i && not (contains_key i s.proposals)

unfoldable pub note_proposal : ℕ → Digest → Proposer → Proposer
note_proposal i b s = record s {
  proposals = if is_new i s then insert i b s.proposals else s.proposals;
}

-- The variables at the start of the task.
abbrev pub blank : Proposer
blank = record {
  current_iteration = 0;
  last_checkpoint = none;
  proposals = [];
  phase = waiting;
  proposal_to_act_on = [];
  is_paused = false;
  effects = [];
}

-- The head of an iteration: old proposals go, and consensus is paused.
unfoldable pub open_iteration : Proposer → Proposer
open_iteration s = emit paused (record s {
  proposals = retain_keys (λ i. not (suc i == s.current_iteration)) s.proposals;
  proposal_to_act_on = [];
  is_paused = true;
})

module _ (env : Env) where
  abbrev pub signed : CheckpointAction → CheckpointTransaction
  signed = new_transaction env.primitives env.serialize env.name

  -- `submit_vote`
  unfoldable pub submit_vote : CheckpointAction → Proposer → Proposer
  submit_vote action s = emit (submitted (signed action)) s

  -- `broadcast_proposal`, of the block that the tree suggests.
  unfoldable pub broadcast_proposal : ℕ → List Effect → List Effect
  broadcast_proposal i effects =
      let b = env.get_current_proposal effects in
      proposed (signed (CheckpointAction.propose i b)) ∷ proposal_asked ∷ effects

  abbrev is_empty : List Digest → Bool
  is_empty [] = true
  is_empty (b ∷ bs) = false

  abbrev pub queue_of : Option Digest → List Digest
  queue_of none = []
  queue_of (some b) = b ∷ []

  -- Is it this node's turn to propose?
  abbrev pub leads : ℕ → Bool
  leads i = env.get_leader i == env.name && not env.boycott_proposals

  -- From the line "Checkpoint leader" on: propose, if it is this node's turn, and wait.
  unfoldable pub enter_waiting : Proposer → Proposer
  unfolding broadcast_proposal
  enter_waiting s = record s {
    phase = waiting;
    proposal_to_act_on = queue_of (lookup s.current_iteration s.proposals);
    effects =
        if leads s.current_iteration
        then broadcast_proposal s.current_iteration s.effects
        else s.effects;
  }

  -- After a checkpoint there is a delay.
  unfoldable pub start_iteration : Proposer → Proposer
  unfolding enter_waiting open_iteration
  start_iteration s = elim s.last_checkpoint [
    | none ↦ enter_waiting (open_iteration s)
    | some _ ↦ record (open_iteration s) { phase = inter_delay }
  ]

  -- The state at the start of the task, which the block tree answers: it was made just before.
  unfoldable pub new_proposer : Proposer
  unfolding start_iteration
  new_proposer = start_iteration blank

  -- A decision ends the iteration, if it is the decision of this one (`assert!`).
  unfoldable pub on_decision : ℕ → Option Digest → Proposer → ProposerResult
  unfolding start_iteration resume
  on_decision i b s =
      if i == s.current_iteration
      then ok (
          start_iteration (record (resume s) {
            current_iteration = suc s.current_iteration;
            last_checkpoint = b;
          }))
      else panic

  -- A proposal during the wait: the first one for this iteration is acted on.
  unfoldable pub on_proposal : ℕ → Digest → Proposer → Proposer
  unfolding note_proposal
  on_proposal i b s =
      let bs = s.proposal_to_act_on in
      record (note_proposal i b s) {
        proposal_to_act_on = if is_new i s && i == s.current_iteration then bs ++ b ∷ [] else bs;
      }

  -- The vote on a proposal.
  unfoldable pub act_on : Digest → Proposer → Proposer
  unfolding resume submit_vote
  act_on b s =
      let s' = resume s in
      let v = env.validate_proposal s'.effects b in
      let i = s.current_iteration in
      submit_vote (if v then CheckpointAction.accept i b else CheckpointAction.reject i)
        (emit (validated b v) s')

  -- A delay is over.
  unfoldable pub on_elapsed : Phase → Proposer → Proposer
  unfolding enter_waiting resume submit_vote
  on_elapsed inter_delay s = enter_waiting s
  on_elapsed waiting s =
      submit_vote (CheckpointAction.reject s.current_iteration)
        (record (resume s) { phase = rejecting })
  on_elapsed rejecting s = submit_vote (CheckpointAction.reject s.current_iteration) s

  -- A proposal is taken from the channel, which only the wait reads.
  unfoldable pub on_to_act : Phase → List Digest → Proposer → Proposer
  unfolding act_on
  on_to_act waiting (b ∷ bs) s = act_on b (record s { proposal_to_act_on = bs })
  on_to_act waiting [] s = s
  on_to_act inter_delay bs s = s
  on_to_act rejecting bs s = s

  unfoldable pub on_new_proposal : Phase → ℕ → Digest → Proposer → Proposer
  unfolding on_proposal note_proposal
  on_new_proposal waiting i b s = on_proposal i b s
  on_new_proposal inter_delay i b s = note_proposal i b s
  on_new_proposal rejecting i b s = note_proposal i b s

  -- One round of a `select!`, where the block tree answers.
  unfoldable pub on_input : Input → Proposer → ProposerResult
  unfolding on_elapsed on_to_act on_decision on_new_proposal
  on_input elapsed s = ok (on_elapsed s.phase s)
  on_input to_act s = ok (on_to_act s.phase s.proposal_to_act_on s)
  on_input (event (new_checkpoint i b)) s = on_decision i b s
  on_input (event (new_proposal i b)) s = ok (on_new_proposal s.phase i b s)
  on_input closed s = panic

  -- Does the round ask the block tree?
  unfoldable pub asks_tree : Input → Phase → Proposer → Bool
  asks_tree elapsed inter_delay s = leads s.current_iteration
  asks_tree elapsed waiting s = false
  asks_tree elapsed rejecting s = false
  asks_tree to_act waiting s = not (is_empty s.proposal_to_act_on)
  asks_tree to_act inter_delay s = false
  asks_tree to_act rejecting s = false
  asks_tree (event (new_checkpoint i none)) phase s = leads (suc s.current_iteration)
  asks_tree (event (new_checkpoint i (some b))) phase s = false
  asks_tree (event (new_proposal i b)) phase s = false
  asks_tree closed phase s = false

  -- The `expect` of a call of the block tree: a request that is not answered is a panic.
  unfoldable pub take_input : Input → Proposer → ProposerResult
  unfolding asks_tree on_input
  take_input i s =
      if asks_tree i s.phase s && not (env.tree_answers s.effects) then panic else on_input i s

  unfoldable pub run_inputs : List Input → Proposer → ProposerResult
  unfolding take_input
  run_inputs [] s = ok s
  run_inputs (i ∷ is) s = do s' ← take_input i s; run_inputs is s'

-- The task in front: a proposal from the network is passed on if its signature holds and it is of the
-- leader of its iteration; what bincode cannot read is a panic before this point.
unfoldable pub offer : (ℕ → PublicKey) → PublicKey → CheckpointAction → Option CheckpointEvent
offer get_leader author (CheckpointAction.propose i b) =
    if author == get_leader i then some (new_proposal i b) else none
offer get_leader author (CheckpointAction.accept i b) = none
offer get_leader author (CheckpointAction.reject i) = none

abbrev pub if_signed :
    Outcome CheckpointError (Unit {0}) → Option CheckpointEvent → Option CheckpointEvent
if_signed (ok tt) offered = offered
if_signed (err e) offered = none
if_signed panic offered = none
if_signed out_of_fuel offered = none

unfoldable pub admit :
    Primitives
    → (CheckpointTransaction → List ℕ)
    → CheckpointCommittee
    → (ℕ → PublicKey)
    → CheckpointTransaction
    → Option CheckpointEvent
unfolding offer
admit c serialize committee get_leader tx =
    if_signed (verify_signature c serialize committee tx) (offer get_leader tx.author tx.action)
