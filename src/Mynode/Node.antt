-- ===== src/Mynode/Node.antt =====
-- mynode/src/mynode.rs (and, word for word, myadversarialnode.rs): the blocks that consensus commits go,
-- with their ancestors, to the ledger. The rest of these files starts the tasks.
-- The store is a map that does not fail; bincode, which is not part of the repository, is the two
-- decoders. The walk to the genesis block is not bounded in the source, so it is on fuel.
pub mod Ledger
pub mod Walk
use accountability_gadget_pr.Base.{
  ℕ, zero, suc, ◌+◌, ◌%◌, ◌==◌, leb, List, [], ◌∷◌, ◌++◌, Option, none, some, Outcome, ok, err,
  panic, out_of_fuel, ◌>>=◌, expect, unwrap, ok_or, if◌then◌else◌, map,
}
use accountability_gadget_pr.Base.Dict.{Dict, lookup}
use accountability_gadget_pr.Crypto.{Digest, Primitives}
use accountability_gadget_pr.Consensus.Messages.{
  Block, u64_mod, block_genesis, qc_genesis, qc_eq, parent, block_digest,
}
use accountability_gadget_pr.Mempool.Payload.{Payload, Transaction}

-- As far as `get_parent_block` raises it, of a store that does not fail.
pub data NodeError : Type 0 where
  serialization_error : NodeError

pub record Env : Type 0 where
  pub primitives : Primitives
  pub decode_block : List ℕ → Option Block
  pub decode_payload : List ℕ → Option Payload

abbrev pub BlockStore : Type 0
BlockStore = Dict (List ℕ)

-- The variable of `analyze_block`, what went to the ledger, and the rounds of the log lines
-- "PROCESSING BLOCK", newest first.
pub record Analyzer : Type 0 where
  pub smallest_unprocessed_round : ℕ
  pub ledger : List Transaction
  pub processed : List ℕ

abbrev pub new_analyzer : Analyzer
new_analyzer = record { smallest_unprocessed_round = 0; ledger = []; processed = [] }

abbrev pub NodeResult {ℓ} : Type ℓ → Type ℓ
NodeResult A = Outcome NodeError A

module _ (env : Env) (store : BlockStore) where
  -- The `match` of `get_parent_block`: a parent that is not stored is a panic.
  unfoldable pub load_stored : Option (List ℕ) → NodeResult (Option Block)
  load_stored none = panic
  load_stored (some bytes) = do b ← ok_or (env.decode_block bytes) serialization_error; ok (some b)

  -- `Node::get_parent_block`
  unfoldable pub node_parent : Block → NodeResult (Option Block)
  unfolding load_stored
  node_parent block =
      if block_digest env.primitives block == block_digest env.primitives block_genesis
      then ok none
      else if qc_eq block.qc qc_genesis
      then ok (some block_genesis)
      else load_stored (lookup (parent block) store)

  -- The inner `loop` of `analyze_block`, which pushes the blocks up to the genesis block; here the oldest
  -- comes first, as `iter().rev()` has them.
  unfoldable pub collect_from : ℕ → NodeResult (Option Block) → List Block → NodeResult (List Block)
  unfolding node_parent
  collect_from fuel (ok none) blks = ok blks
  collect_from zero (ok (some b)) blks = out_of_fuel
  collect_from (suc fuel) (ok (some b)) blks = collect_from fuel (node_parent b) (b ∷ blks)
  collect_from fuel (err e) blks = panic
  collect_from fuel panic blks = panic
  collect_from fuel out_of_fuel blks = out_of_fuel

  unfoldable pub collect_blocks : ℕ → Block → NodeResult (List Block)
  unfolding collect_from
  collect_blocks fuel block = collect_from fuel (node_parent block) (block ∷ [])

  -- The transactions of a payload that a block names.
  unfoldable pub read_payload : Digest → NodeResult (List Transaction)
  read_payload digest = do
    bytes ← expect (lookup digest store)
    p ← expect (env.decode_payload bytes)
    ok p.transactions

  unfoldable pub read_payloads : List Digest → NodeResult (List Transaction)
  unfolding read_payload
  read_payloads [] = ok []
  read_payloads (d ∷ ds) = do txs ← read_payload d; rest ← read_payloads ds; ok (txs ++ rest)

  -- The body of the `for` for a block that is not processed yet.
  unfoldable pub process : Block → Analyzer → NodeResult Analyzer
  unfolding read_payloads
  process block s = do
    txs ← read_payloads block.payload
    ok (record {
      smallest_unprocessed_round = (block.round + 1) % u64_mod;
      ledger = s.ledger ++ txs;
      processed = block.round ∷ s.processed;
    })

  unfoldable pub process_chain : List Block → Analyzer → NodeResult Analyzer
  unfolding process
  process_chain [] s = ok s
  process_chain (b ∷ bs) s =
      (if leb s.smallest_unprocessed_round b.round then process b s else ok s) >>= process_chain bs

  -- One round of the `while`.
  unfoldable pub analyze_block : ℕ → Block → Analyzer → NodeResult Analyzer
  unfolding collect_blocks process_chain
  analyze_block fuel block s = do blks ← collect_blocks fuel block; process_chain blks s

-- The blocks as consensus commits them, each with what the store then holds.
unfoldable pub analyze_blocks : Env → ℕ → List (Block × BlockStore) → Analyzer → NodeResult Analyzer
unfolding analyze_block
analyze_blocks env fuel [] s = ok s
analyze_blocks env fuel ((block, store) ∷ commits) s = do
  s' ← analyze_block env store fuel block s
  analyze_blocks env fuel commits s'
