-- ===== src/Consensus/Core/Monad.antt =====
-- The state of consensus/src/core.rs, what its task does to others, and the calls of a handler: each
-- ends with a result and a state, also where the result is an error.
use accountability_gadget_pr.Base.{ℕ, List, [], ◌∷◌, Option, Bool, ok, err, panic, out_of_fuel}
use accountability_gadget_pr.Base.Dict.{Dict}
use accountability_gadget_pr.Crypto.{Digest, PublicKey, Primitives}
use accountability_gadget_pr.Consensus.Config.{Committee, Parameters}
use accountability_gadget_pr.Consensus.Error.{ConsensusResult}
use accountability_gadget_pr.Consensus.Messages.{Qc, Tc, Block, Vote, Timeout, qc_genesis}
use accountability_gadget_pr.Consensus.Aggregator.{Aggregator, new_aggregator}

pub data ConsensusMessage : Type 0 where
  propose_message loop_back : Block → ConsensusMessage
  vote_message : Vote → ConsensusMessage
  timeout_message : Timeout → ConsensusMessage
  tc_message : Tc → ConsensusMessage
  sync_request : Digest → PublicKey → ConsensusMessage

-- consensus/src/mempool.rs
pub data PayloadStatus : Type 0 where
  accept reject wait : PayloadStatus

-- What the task sends to other tasks, and its log line for a vote that it makes.
pub data Effect : Type 0 where
  timer_reset : Effect
  slept : ℕ → Effect
  transmitted : ConsensusMessage → List ℕ → Effect
  committed : Block → Effect
  sync_asked : Block → Effect
  payload_asked : ℕ → Effect
  payload_checked : Block → Effect
  mempool_cleaned : List Digest → ℕ → Effect
  created_vote : Vote → Effect

-- What the task is made with, and what answers it: the replies of the mempool may depend on all that
-- went before. The mempool writes to the same store: what a read of a key returns may depend on all that
-- went before and on what the core wrote there last, and it may be an error. bincode, which is not part
-- of the repository, is `encode` and `decode`.
pub record Env : Type 0 where
  pub primitives : Primitives
  pub name : PublicKey
  pub committee : Committee
  pub parameters : Parameters
  pub get_leader : ℕ → PublicKey
  pub boycott_proposals : Bool
  pub mempool_get : List Effect → ℕ → List Digest
  pub mempool_verify : List Effect → Block → PayloadStatus
  pub store_read : List Effect → Digest → Option (List ℕ) → ConsensusResult (Option (List ℕ))
  pub encode : Block → List ℕ
  pub decode : List ℕ → Option Block

-- The fields of `Core` that change; what the core wrote to the store; the effects, newest first.
pub record State : Type 0 where
  pub round : ℕ
  pub last_voted_round : ℕ
  pub high_qc : Qc
  pub aggregator : Aggregator
  pub store : Dict (List ℕ)
  pub effects : List Effect

-- `Core::new`
unfoldable pub new_core : Env → Dict (List ℕ) → State
new_core env store = record {
  round = 1;
  last_voted_round = 0;
  high_qc = qc_genesis;
  aggregator = new_aggregator env.committee;
  store = store;
  effects = [];
}

abbrev pub M : Type 0 → Type 0
M A = State → ConsensusResult A × State

-- `?` and `.await`: an error ends the handler, with the state as it then is.
abbrev pub after :
    {A B : Type 0} → (A → M B) → ConsensusResult A × State → ConsensusResult B × State
after f (ok a, s) = f a s
after f (err e, s) = (err e, s)
after f (panic, s) = (panic, s)
after f (out_of_fuel, s) = (out_of_fuel, s)

infixl 5 ◌>>=◌ ◌>>◌
unfoldable pub ◌>>=◌ : {A B : Type 0} → M A → (A → M B) → M B
◌>>=◌ m f s = after f (m s)

abbrev pub ◌>>◌ : {B : Type 0} → M (Unit {0}) → M B → M B
m >> k = m >>= λ _. k

unfoldable pub pure : {A : Type 0} → A → M A
pure a s = (ok a, s)

unfoldable pub lift : {A : Type 0} → ConsensusResult A → M A
lift r s = (r, s)

unfoldable pub gets : {A : Type 0} → (State → A) → M A
gets f s = (ok (f s), s)

unfoldable pub modify : (State → State) → M (Unit {0})
modify f s = (ok tt, f s)

unfoldable pub emit : Effect → M (Unit {0})
unfolding modify
emit e = modify (λ s. record s { effects = e ∷ s.effects })
