-- ===== src/Consensus/Core/Invariant.antt =====
-- What a predicate of the state of consensus/src/core.rs has to withstand so that every handler keeps it.
use accountability_gadget_pr.Base.{ℕ, ◌+◌, ◌%◌, ◌≤◌, ◌≡◌, ◌⊎◌, List, Option, none, some, true, ok}
use accountability_gadget_pr.Base.Dict.{lookup}
use accountability_gadget_pr.Crypto.{Digest}
use accountability_gadget_pr.Consensus.Messages.{
  Qc, Tc, Block, Vote, Timeout, u64_mod, qc_eq, qc_genesis, block_genesis, new_block, verify_block,
  verify_vote, verify_timeout,
}
use accountability_gadget_pr.Consensus.Core.Monad.{
  ConsensusMessage, tc_message, loop_back, timeout_message, Effect, transmitted, committed,
  sync_asked, payload_checked, created_vote, Env, State, emit,
}
use accountability_gadget_pr.Consensus.Core.Handlers
use accountability_gadget_pr.Consensus.Core.Keeps.{Keeps}

-- The effects that say nothing of a vote, of a timeout, of a commit or of a block that may come back.
abbrev pub IsQuiet : Effect → Type 0
IsQuiet (created_vote v) = ⊥
IsQuiet (transmitted (timeout_message t) to) = ⊥
IsQuiet (committed b) = ⊥
IsQuiet (sync_asked b) = ⊥
IsQuiet (payload_checked b) = ⊥
IsQuiet e = Unit {0}

-- A block that is handed to the synchronizer or to the mempool driver, and may come back.
abbrev pub IsAsked : Effect → Block → Type 0
IsAsked e b = (e ≡ sync_asked b) ⊎ (e ≡ payload_checked b)

abbrev pub IsGood {ℓ} : {A : Type ℓ} → (A → Type 0) → Option A → Type 0
IsGood G none = Unit {0}
IsGood G (some a) = G a

-- What is known of the certificates that are adopted and of the TCs that are proposed with, of the
-- blocks that are processed and of those that the store returns under a digest; the least round of the
-- highest certificate once a block is processed; and what is asked of a message that comes in.
pub record Kinds : Type 1 where
  pub on_qc : Qc → Type 0
  pub on_tc : Tc → Type 0
  pub on_block : Block → Type 0
  pub on_loaded : Digest → Block → Type 0
  pub rank : Block → ℕ
  pub on_message : ConsensusMessage → State → Type 0

-- Nothing but this of the certificates that are adopted.
abbrev pub adopting : (Qc → Type 0) → Kinds
adopting G = record {
  on_qc = G;
  on_tc = λ tc. Unit {0};
  on_block = λ b. Unit {0};
  on_loaded = λ d b. Unit {0};
  rank = λ b. 0;
  on_message = λ m s. Unit {0};
}

pub IsGood-Unit {ℓ} : {A : Type ℓ} (o : Option A) → IsGood (λ (a : A). Unit {0}) o
IsGood-Unit none = tt
IsGood-Unit (some a) = tt

-- `P`, and the round of the highest certificate is at least `n`.
abbrev pub At : ℕ → (State → Type 0) → State → Type 0
At n P s = P s × (n ≤ s.high_qc.round)

module _ (env : Env) (P : State → Type 0) (k : Kinds) where
  -- The block whose certificate is the genesis one has the genesis block as parent, another the block
  -- that the store returns.
  abbrev pub IsParent : Block → Block → Type 0
  IsParent b' b = ((qc_eq b.qc qc_genesis ≡ true) × (b' ≡ block_genesis)) ⊎ k.on_loaded b.qc.hash b'

  -- What `process_block` may rely on.
  abbrev pub IsReady : Block → State → Type 0
  IsReady b s = k.on_block b × (k.rank b ≤ s.high_qc.round)

  pub record IsInvariant : Type 0 where
    pub emits : (e : Effect) → IsQuiet e → Keeps P (emit e)
    pub asks :
        (e : Effect) (b : Block) (s : State) → IsAsked e b → IsReady b s → P s → P (emit e s).1
    pub sends :
        (t : Timeout) (to : List ℕ) (s : State)
        → t.round ≤ s.last_voted_round
        → t.high_qc_round ≡ s.high_qc.round
        → P s
        → P (emit (transmitted (timeout_message t) to) s).1
    pub commits :
        (b0 b1 b : Block)
        → k.on_block b
        → IsParent b1 b
        → IsParent b0 b1
        → (b0.round + 1) % u64_mod ≡ b1.round
        → Keeps P (emit (committed b0))
    pub raises : (n : ℕ) → Keeps P (Handlers.increase_last_voted_round n)
    pub advances : (n : ℕ) → Keeps P (Handlers.advance_round n)
    pub adopts : (qc : Qc) → k.on_qc qc → Keeps P (Handlers.update_high_qc qc)
    pub stores : (b : Block) (s : State) → IsReady b s → P s → P (Handlers.store_block env b s).1
    pub creates : (b : Block) (s : State) → IsReady b s → P s → P (Handlers.create_vote env b s).1
    pub loads :
        (s : State) (d : Digest) (bytes : List ℕ) (b : Block)
        → P s
        → env.store_read s.effects d (lookup d s.store) ≡ ok (some bytes)
        → env.decode bytes ≡ some b
        → IsReady b s × k.on_loaded d b
    pub ranks : (b : Block) → k.rank b ≤ b.qc.round
    pub starts : k.on_block block_genesis
    pub checked :
        (b : Block)
        → verify_block env.primitives env.committee b ≡ ok tt
        → k.on_qc b.qc × k.on_block b
    pub proposes :
        (s : State) (tc : Option Tc) (payload : List Digest)
        → P s
        → IsGood k.on_tc tc
        → k.on_block (new_block env.primitives s.high_qc tc env.name s.round payload)
    pub counts :
        (v : Vote) (s : State)
        → verify_vote env.primitives env.committee v ≡ ok tt
        → P s
        → P (Handlers.aggregate_vote env v s).1
          × ((o : Option Qc) → (Handlers.aggregate_vote env v s).0 ≡ ok o → IsGood k.on_qc o)
    pub times :
        (t : Timeout) (s : State)
        → verify_timeout env.primitives env.committee t ≡ ok tt
        → P s
        → P (Handlers.aggregate_timeout env t s).1
          × ((o : Option Tc) → (Handlers.aggregate_timeout env t s).0 ≡ ok o → IsGood k.on_tc o)
    pub tells_tc : (tc : Tc) (s : State) → k.on_message (tc_message tc) s → k.on_tc tc
    pub tells_block : (b : Block) (s : State) → k.on_message (loop_back b) s → P s → IsReady b s
