-- ===== src/Consensus/Core/Safety/Stored.antt =====
-- The blocks in the store of consensus/src/core.rs.
use accountability_gadget_pr.Base.{
  ℕ, ◌≤◌, ◌≡◌, ◌∙◌, sym, List, Option, some, ok, Bool-cases, inl, inr, ◌==◌, ==_iff, arith, subst,
}
use accountability_gadget_pr.Base.Dict.{Dict, lookup, insert, lookup-insert}
use accountability_gadget_pr.Crypto.{Digest}
use accountability_gadget_pr.Consensus.Messages.{Block, block_digest}
use accountability_gadget_pr.Consensus.Core.{Effect, Env}
use accountability_gadget_pr.Consensus.Core.Safety.Rules.{IsChecked}

-- What bincode reads back of a block that it wrote, if anything, is that block.
abbrev pub IsCodec : Env → Type 0
IsCodec env = (b b' : Block) → env.decode (env.encode b) ≡ some b' → b ≡ b'

-- A block that a read of the store returns is one that the core wrote there last.
abbrev pub IsBlockStore : Env → Type 0
IsBlockStore env =
    (es : List Effect) (d : Digest) (written : Option (List ℕ)) (bytes : List ℕ) (b : Block)
    → env.store_read es d written ≡ ok (some bytes)
    → env.decode bytes ≡ some b
    → written ≡ some bytes

module _ (env : Env) where
  -- A block that the store returns was checked, has the digest that it was asked for by, and its
  -- certificate is of that round at most.
  abbrev pub IsFound : ℕ → Digest → Block → Type 0
  IsFound high d b =
      (IsChecked env.primitives env.committee b × (b.qc.round ≤ high))
      × (block_digest env.primitives b ≡ d)

  unfoldable pub Stored : Dict (List ℕ) → ℕ → Type 0
  Stored store high =
      (d : Digest) (bytes : List ℕ) (b : Block)
      → lookup d store ≡ some bytes
      → env.decode bytes ≡ some b
      → IsFound high d b

  pub Stored-mono :
      (store : Dict (List ℕ)) (high high' : ℕ)
      → high ≤ high'
      → Stored store high
      → Stored store high'
  unfolding Stored
  Stored-mono store high high' l i d bytes b e h =
      let ((k, below), same) = i d bytes b e h in ((k, omega arith), same)

  pub Stored-insert :
      (codec : IsCodec env) (store : Dict (List ℕ)) (high : ℕ) (b : Block)
      → IsChecked env.primitives env.committee b
      → b.qc.round ≤ high
      → Stored store high
      → Stored (insert (block_digest env.primitives b) (env.encode b) store) high
  unfolding Stored
  Stored-insert codec store high b k l i d bytes b' e h =
      let key = block_digest env.primitives b in
      let found = sym (lookup-insert key d (env.encode b) store) ∙ e in
      elim (Bool-cases (key == d)) [
        | inl here ↦
            let same_bytes : env.encode b ≡ bytes = ground (arith, found) in
            let same = codec b b' (rw same_bytes h) in
            let at : key ≡ d = (==_iff key d).0 here in subst (IsFound high d) same ((k, l), at)
        | inr there ↦ i d bytes b' (ground (arith, found)) h
      ]
