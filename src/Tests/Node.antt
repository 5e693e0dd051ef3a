-- ===== src/Tests/Node.antt =====
-- Two committed blocks on their way to the ledger of mynode/src/mynode.rs.
use accountability_gadget_pr.Base.{
  ℕ, ◌≡◌, ◌<◌, refl, sym, subst, ==_refl, List, [], ◌∷◌, ◌++◌, Option, none, some, true, ok,
  Distinct, arith, ◌>>=◌, ◌⊎◌, inl, inr,
}
use accountability_gadget_pr.Base.Dict.{lookup}
use accountability_gadget_pr.Base.Falling.{Falls}
use accountability_gadget_pr.Consensus.Messages.{
  Block, new_block, qc_genesis, block_digest, block_bytes,
}
use accountability_gadget_pr.Mynode.Node.{
  Analyzer, BlockStore, new_analyzer, analyze_blocks, process_chain, collect_blocks,
}
use accountability_gadget_pr.Mynode.Node.Ledger.{
  IsSorted, process_chain-resumes, analyze_blocks-rises,
}
use accountability_gadget_pr.Mynode.Node.Walk.{
  IsLinked, IsRooted, HoldsParents, collect_blocks_complete,
}
use accountability_gadget_pr.Mynode.Node
use accountability_gadget_pr.Mynode.Node.Ledger
use accountability_gadget_pr.Crypto.{be_bytes, le_bytes}
use accountability_gadget_pr.Consensus.Messages.{qc_eq, payload_bytes, parent}
use accountability_gadget_pr.Tests.Toy.{toy_hash}
use accountability_gadget_pr.Tests.Toy.{toy}

-- The blocks of two rounds without payloads: the second one has the first as its parent.
abbrev oldest : Block
oldest = new_block toy qc_genesis none 2 1 []

abbrev newest : Block
newest =
    new_block toy (record { hash = block_digest toy oldest; round = 1; votes = [] }) none 3 2 []

abbrev node : Node.Env
node = record {
  primitives = toy;
  decode_block = λ bytes. some oldest;
  decode_payload = λ bytes. none;
}

abbrev chain_store : BlockStore
chain_store = (block_digest toy oldest, 1 ∷ []) ∷ []

oldest_next : Ledger.HasNext oldest
unfolding new_block
oldest_next = omega arith

newest_next : Ledger.HasNext newest
unfolding new_block
newest_next = omega arith

some_injective : {A : Type 0} {a b : A} → (let r : Option A = some a in r ≡ some b) → a ≡ b
some_injective e = cc

process_chain-resumes_example :
    (process_chain node chain_store (oldest ∷ []) new_analyzer
      >>= process_chain node chain_store (oldest ∷ newest ∷ []))
    ≡ process_chain node chain_store (oldest ∷ newest ∷ []) new_analyzer
process_chain-resumes_example =
    process_chain-resumes node chain_store (oldest ∷ []) (newest ∷ []) new_analyzer
      (oldest_next, tt) (unfold Falls in tt)

abbrev both : Analyzer
both = record { smallest_unprocessed_round = 3; ledger = []; processed = 2 ∷ 1 ∷ 0 ∷ [] }

both_processed :
    analyze_blocks node 3
      ((oldest, chain_store) ∷ (newest, chain_store) ∷ (oldest, chain_store) ∷ [])
      new_analyzer
    ≡ ok both
unfolding analyze_blocks Node.analyze_block collect_blocks Node.collect_from Node.node_parent
    Node.load_stored process_chain Node.process Node.read_payloads lookup qc_eq block_digest
    block_bytes be_bytes le_bytes payload_bytes toy_hash new_block
both_processed = refl

all_next : Ledger.AllHaveNext node chain_store
all_next key bytes b found e = subst Ledger.HasNext (some_injective e) oldest_next

analyze_blocks-rises_example : Falls 3 (2 ∷ 1 ∷ 0 ∷ []) × Distinct (2 ∷ 1 ∷ 0 ∷ [])
analyze_blocks-rises_example =
    analyze_blocks-rises node 3
      ((oldest, chain_store) ∷ (newest, chain_store) ∷ (oldest, chain_store) ∷ []) both
      ((oldest_next, all_next), ((newest_next, all_next), ((oldest_next, all_next), tt)))
      both_processed

-- The two blocks that are walked over.
unfoldable Walked : Block → Type 0
Walked b = (b ≡ oldest) ⊎ (b ≡ newest)

-- What is asked of the parent of a block.
abbrev HasParent : Block → Type 0
HasParent b =
    (bytes : List ℕ) × (p : Block) × (lookup (parent b) chain_store ≡ some bytes)
    × (node.decode_block bytes ≡ some p)
    × (p.round < b.round)
    × Walked p

oldest_ends : qc_eq oldest.qc qc_genesis ≡ true
unfolding new_block qc_eq
oldest_ends = refl

newest_parent : HasParent newest
unfolding new_block lookup Walked
newest_parent =
    (1 ∷ [], oldest, rw (==_refl (block_digest toy oldest)) refl, refl, omega arith, inl refl)

Walked-parents : HoldsParents node chain_store Walked
unfolding Walked
Walked-parents b h g q = elim h [
  | inl e ↦
      let r : qc_eq b.qc qc_genesis ≡ true =
        subst (λ x. qc_eq x.qc qc_genesis ≡ true) (sym e) oldest_ends in
      cc
  | inr e ↦ subst HasParent (sym e) newest_parent
]

newest_low : newest.round < 3
unfolding new_block
newest_low = omega arith

collect_blocks_complete_example :
    (older : List Block) × (collect_blocks node chain_store 3 newest ≡ ok (older ++ newest ∷ []))
    × IsLinked node chain_store (older ++ newest ∷ [])
    × IsRooted node chain_store (older ++ newest ∷ [])
collect_blocks_complete_example =
    collect_blocks_complete node chain_store Walked 3 newest Walked-parents
      (unfold Walked in (inr refl)) newest_low
