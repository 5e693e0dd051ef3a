-- ===== src/Mynode/Node/Ledger.antt =====
-- What mynode/src/mynode.rs sends to the ledger: the rounds in order, and one commit after another.
use accountability_gadget_pr.Base.{
  ℕ, zero, suc, ◌+◌, ◌%◌, ◌==◌, ◌<◌, ◌≤◌, ◌≡◌, refl, sym, ◌∙◌, subst, inl, inr, false, leb, List,
  [], ◌∷◌, ◌++◌, Option, none, some, ok, err, panic, out_of_fuel, ◌>>=◌, >>=-eq-ok, ok_injective,
  Bool-cases, Option-cases, All, arith, Distinct, if◌then◌else◌,
}
use accountability_gadget_pr.Base.Dict.{lookup}
use accountability_gadget_pr.Base.Falling.{Falls, Falls-mono, Falls-Distinct}
use accountability_gadget_pr.Crypto.{Digest}
use accountability_gadget_pr.Consensus.Messages.{
  Block, u64_mod, block_genesis, qc_genesis, qc_eq, parent, block_digest,
}
use accountability_gadget_pr.Mynode.Node.{
  Env, BlockStore, Analyzer, new_analyzer, NodeResult, load_stored, node_parent, collect_from,
  collect_blocks, read_payloads, process, process_chain, analyze_block, analyze_blocks,
}

-- A `u64` round that has a next one.
abbrev pub HasNext : Block → Type 0
HasNext b = suc b.round < u64_mod

-- So has the round of each block that the store holds.
abbrev pub AllHaveNext : Env → BlockStore → Type 0
AllHaveNext env store =
    (key : Digest) (bytes : List ℕ) (b : Block)
    → lookup key store ≡ some bytes
    → env.decode_block bytes ≡ some b
    → HasNext b

-- The processed rounds fall from the newest to the oldest, and none is left to be processed again.
abbrev pub IsSorted : Analyzer → Type 0
IsSorted s = Falls s.smallest_unprocessed_round s.processed

bind_append :
    {A : Type 0} (r : NodeResult A) (f g k : A → NodeResult A)
    → ((a : A) → k a ≡ (f a >>= g))
    → (r >>= k) ≡ ((r >>= f) >>= g)
bind_append (ok a) f g k h = h a
bind_append (err e) f g k h = refl
bind_append panic f g k h = refl
bind_append out_of_fuel f g k h = refl

bind_eq :
    {A : Type 0} (r : NodeResult A) (f g : A → NodeResult A)
    → ((a : A) → r ≡ ok a → f a ≡ g a)
    → (r >>= f) ≡ (r >>= g)
bind_eq (ok a) f g h = h a refl
bind_eq (err e) f g h = refl
bind_eq panic f g h = refl
bind_eq out_of_fuel f g h = refl

module _ (env : Env) (store : BlockStore) where
  process-IsSorted :
      (b : Block) (s s' : Analyzer)
      → HasNext b
      → s.smallest_unprocessed_round ≤ b.round
      → process env store b s ≡ ok s'
      → IsSorted s
      → IsSorted s' × (s'.smallest_unprocessed_round ≡ suc b.round)
  unfolding process
  process-IsSorted b s s' small l e f =
      let (txs, e1, e2) = >>=-eq-ok (read_payloads env store b.payload) _ e in
      let q : (b.round + 1) % u64_mod ≡ suc b.round = omega (arith, small) in
      subst (λ s. IsSorted s × (s.smallest_unprocessed_round ≡ suc b.round)) (ok_injective e2)
        (rw q (unfold Falls in ((omega arith, Falls-mono _ _ s.processed l f), refl)))

  process_chain-IsSorted :
      (bs : List Block) (s s' : Analyzer)
      → All HasNext bs
      → process_chain env store bs s ≡ ok s'
      → IsSorted s
      → IsSorted s'
        × (s.smallest_unprocessed_round ≤ s'.smallest_unprocessed_round)
        × All (λ b. b.round < s'.smallest_unprocessed_round) bs
  unfolding process_chain
  process_chain-IsSorted [] s s' h e f =
      subst
        (λ s'.
          IsSorted s' × (s.smallest_unprocessed_round ≤ s'.smallest_unprocessed_round) × Unit {0})
        (ok_injective e) (f, omega arith, tt)
  process_chain-IsSorted (b ∷ bs) s s' h e f =
      elim (Bool-cases (leb s.smallest_unprocessed_round b.round)) [
        | inl t ↦
            let (s1, e1, e2) =
              >>=-eq-ok (process env store b s) (process_chain env store bs) (rw t at e) in
            let (f1, q1) = process-IsSorted b s s1 h.0 (ground (arith, t)) e1 f in
            let (f2, l2, a2) = process_chain-IsSorted bs s1 s' h.1 e2 f1 in
            let l : s.smallest_unprocessed_round ≤ b.round = ground (arith, t) in
            (f2, omega (arith, l, q1, l2), (omega (arith, q1, l2), a2))
        | inr n ↦
            let (f2, l2, a2) = process_chain-IsSorted bs s s' h.1 (rw n at e) f in
            let l : b.round < s.smallest_unprocessed_round = ground (arith, n) in
            (f2, l2, (omega (arith, l, l2), a2))
      ]

  -- A block of a round that is processed is passed over.
  process_chain-skips :
      (bs later : List Block) (s : Analyzer)
      → All (λ b. b.round < s.smallest_unprocessed_round) bs
      → process_chain env store (bs ++ later) s ≡ process_chain env store later s
  unfolding process_chain
  process_chain-skips [] later s h = refl
  process_chain-skips (b ∷ bs) later s h =
      let n : leb s.smallest_unprocessed_round b.round ≡ false = ground (arith, h.0) in
      rw n (process_chain-skips bs later s h.1)

  -- The blocks on the way to the genesis block.
  load_stored-HasNext :
      (o : Option (List ℕ)) (key : Digest) (b : Block)
      → AllHaveNext env store
      → lookup key store ≡ o
      → load_stored env store o ≡ ok (some b)
      → HasNext b
  unfolding load_stored
  load_stored-HasNext none key b h found e = cc
  load_stored-HasNext (some bytes) key b h found e = elim (Option-cases (env.decode_block bytes)) [
    | inl n ↦ let e' = rw n at e in cc
    | inr (b', q) ↦ h key bytes b found (q ∙ ok_injective (rw q at e))
  ]

  node_parent-HasNext :
      (block b : Block)
      → AllHaveNext env store
      → node_parent env store block ≡ ok (some b)
      → HasNext b
  unfolding node_parent
  node_parent-HasNext block b h e =
      elim (Bool-cases
        (block_digest env.primitives block == block_digest env.primitives block_genesis)) [
          | inl t ↦ let e' = rw t at e in cc
          | inr n ↦ elim (Bool-cases (qc_eq block.qc qc_genesis)) [
            | inl t ↦
                let e' = ok_injective (rw (n, t) at e) in
                let q : block_genesis ≡ b = cc in subst HasNext q (omega arith)
            | inr m ↦ load_stored-HasNext _ (parent block) b h refl (rw (n, m) at e)
          ]
        ]

  collect_from-HasNext :
      (fuel : ℕ) (r : NodeResult (Option Block)) (blks bs : List Block)
      → AllHaveNext env store
      → ((b : Block) → r ≡ ok (some b) → HasNext b)
      → All HasNext blks
      → collect_from env store fuel r blks ≡ ok bs
      → All HasNext bs
  unfolding collect_from
  collect_from-HasNext fuel (ok none) blks bs h r a e = subst (All HasNext) (ok_injective e) a
  collect_from-HasNext zero (ok (some b)) blks bs h r a e = cc
  collect_from-HasNext (suc fuel) (ok (some b)) blks bs h r a e =
      collect_from-HasNext fuel (node_parent env store b) (b ∷ blks) bs h
        (λ b' q. node_parent-HasNext b b' h q) (r b refl, a) e
  collect_from-HasNext fuel (err x) blks bs h r a e = cc
  collect_from-HasNext fuel panic blks bs h r a e = cc
  collect_from-HasNext fuel out_of_fuel blks bs h r a e = cc

module _ (env : Env) (fuel : ℕ) where
  analyze_block-IsSorted :
      (store : BlockStore) (b : Block) (s s' : Analyzer)
      → HasNext b
      → AllHaveNext env store
      → analyze_block env store fuel b s ≡ ok s'
      → IsSorted s
      → IsSorted s'
  unfolding analyze_block collect_blocks
  analyze_block-IsSorted store b s s' h small e f =
      let (bs, e1, e2) = >>=-eq-ok (collect_blocks env store fuel b) _ e in
      (process_chain-IsSorted env store bs s s'
        (collect_from-HasNext env store fuel (node_parent env store b) (b ∷ []) bs small
          (λ b' q. node_parent-HasNext env store b b' small q) (h, tt) e1)
        e2 f).0

  analyze_blocks-IsSorted :
      (commits : List (Block × BlockStore)) (s s' : Analyzer)
      → All (λ c. HasNext c.0 × AllHaveNext env c.1) commits
      → analyze_blocks env fuel commits s ≡ ok s'
      → IsSorted s
      → IsSorted s'
  unfolding analyze_blocks
  analyze_blocks-IsSorted [] s s' h e f = subst IsSorted (ok_injective e) f
  analyze_blocks-IsSorted ((b, store) ∷ commits) s s' h e f =
      let (s1, e1, e2) = >>=-eq-ok (analyze_block env store fuel b s) _ e in
      analyze_blocks-IsSorted commits s1 s' h.1 e2
        (analyze_block-IsSorted store b s s1 h.0.0 h.0.1 e1 f)

-- Where the round of each committed block, and of each block that the store then holds, has a next one:
-- whatever blocks are committed, in
-- whatever order, with whatever the store then holds, each round is processed at most once, and the
-- processed rounds rise; this is up to a panic, where the task is gone, or to the end of the fuel.
pub analyze_blocks-rises :
    (env : Env) (fuel : ℕ) (commits : List (Block × BlockStore)) (s : Analyzer)
    → All (λ c. HasNext c.0 × AllHaveNext env c.1) commits
    → analyze_blocks env fuel commits new_analyzer ≡ ok s
    → Falls s.smallest_unprocessed_round s.processed × Distinct s.processed
analyze_blocks-rises env fuel commits s h e =
    let f : IsSorted s =
      analyze_blocks-IsSorted env fuel commits new_analyzer s h e (unfold Falls in tt) in
    (f, Falls-Distinct _ _ f)

process_chain-append :
    (env : Env) (store : BlockStore) (bs later : List Block) (s : Analyzer)
    → process_chain env store (bs ++ later) s
      ≡ (process_chain env store bs s >>= process_chain env store later)
unfolding process_chain
process_chain-append env store [] later s = refl
process_chain-append env store (b ∷ bs) later s =
    bind_append (if leb s.smallest_unprocessed_round b.round then process env store b s else ok s) _
      _ _ (λ s'. process_chain-append env store bs later s')

-- Where the rounds have a next one, in a state whose processed rounds are sorted: to commit a chain and
-- then a longer one that begins with it comes to the same, for the ledger and for panics, as to commit
-- the longer one alone.
pub process_chain-resumes :
    (env : Env) (store : BlockStore) (bs later : List Block) (s : Analyzer)
    → All HasNext bs
    → IsSorted s
    → (process_chain env store bs s >>= process_chain env store (bs ++ later))
      ≡ process_chain env store (bs ++ later) s
process_chain-resumes env store bs later s h f =
    bind_eq (process_chain env store bs s) _ _ (λ s' e.
      process_chain-skips env store bs later s' (process_chain-IsSorted env store bs s s' h e f).2)
    ∙ sym (process_chain-append env store bs later s)
