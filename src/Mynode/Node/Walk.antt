-- ===== src/Mynode/Node/Walk.antt =====
-- The walk of mynode/src/mynode.rs from a committed block to the genesis block.
use accountability_gadget_pr.Base.{
  ℕ, zero, suc, ◌==◌, ==_refl, ◌<◌, ◌≡◌, refl, inl, inr, ◌⊎◌, false, List, [], ◌∷◌, ◌++◌, none,
  some, ok, Bool-cases, arith,
}
use accountability_gadget_pr.Base.Dict.{lookup}
use accountability_gadget_pr.Consensus.Messages.{
  Block, block_genesis, qc_genesis, qc_eq, parent, block_digest,
}
use accountability_gadget_pr.Mynode.Node.{
  Env, BlockStore, load_stored, node_parent, collect_from, collect_blocks,
}

-- The oldest block first: each is the parent of the next.
unfoldable pub IsLinked : Env → BlockStore → List Block → Type 0
IsLinked env store [] = Unit {0}
IsLinked env store (b ∷ []) = Unit {0}
IsLinked env store (a ∷ b ∷ bs) =
    (node_parent env store b ≡ ok (some a)) × IsLinked env store (b ∷ bs)

snoc_append : {A : Type 0} (x : A) (xs ys : List A) → (xs ++ x ∷ []) ++ ys ≡ xs ++ x ∷ ys
snoc_append x [] ys = refl
snoc_append x (y ∷ xs) ys = rw (snoc_append x xs ys) refl

-- The oldest block has no parent to load.
unfoldable pub IsRooted : Env → BlockStore → List Block → Type 0
IsRooted env store [] = ⊥
IsRooted env store (b ∷ bs) = node_parent env store b ≡ ok none

-- `Held`, of the blocks that are to be walked over: the parent is stored, can be read, has a lower round,
-- and is such a block again.
abbrev pub HoldsParents : Env → BlockStore → (Block → Type 0) → Type 0
HoldsParents env store Held =
    (b : Block)
    → Held b
    → (block_digest env.primitives b == block_digest env.primitives block_genesis) ≡ false
    → qc_eq b.qc qc_genesis ≡ false
    → (bytes : List ℕ) × (p : Block) × (lookup (parent b) store ≡ some bytes)
      × (env.decode_block bytes ≡ some p)
      × (p.round < b.round)
      × Held p

module _ (env : Env) (store : BlockStore) (Held : Block → Type 0)
    (holds : HoldsParents env store Held) where
  genesis-root : node_parent env store block_genesis ≡ ok none
  unfolding node_parent
  genesis-root = rw (==_refl (block_digest env.primitives block_genesis)) refl

  root_ends :
      (fuel : ℕ) (blks : List Block)
      → collect_from env store fuel (node_parent env store block_genesis) blks ≡ ok blks
  unfolding collect_from
  root_ends zero blks = rw genesis-root refl
  root_ends (suc fuel) blks = rw genesis-root refl

  parent_cases :
      (b : Block)
      → Held b
      → (node_parent env store b ≡ ok none)
        ⊎ ((node_parent env store b ≡ ok (some block_genesis))
            ⊎ ((p : Block) × (node_parent env store b ≡ ok (some p))
                × (p.round < b.round)
                × Held p))
  unfolding node_parent load_stored
  parent_cases b h =
      elim (Bool-cases
        (block_digest env.primitives b == block_digest env.primitives block_genesis)) [
          | inl t ↦ inl (rw t refl)
          | inr n ↦ elim (Bool-cases (qc_eq b.qc qc_genesis)) [
            | inl t ↦ inr (inl (rw (n, t) refl))
            | inr m ↦
                let (bytes, p, e, d, l, h') = holds b h n m in
                inr (inr (p, rw (n, m, e, load_stored, d) refl, l, h'))
          ]
        ]

  collect_from_complete :
      (fuel : ℕ) (b : Block) (newer : List Block)
      → b.round < fuel
      → Held b
      → IsLinked env store (b ∷ newer)
      → (older : List Block) × (collect_from env store fuel (node_parent env store b) (b ∷ newer)
          ≡ ok (older ++ b ∷ newer))
        × IsLinked env store (older ++ b ∷ newer)
        × IsRooted env store (older ++ b ∷ newer)
  unfolding collect_from IsRooted IsLinked
  collect_from_complete zero b newer l h k = let absurd : ⊥ = omega (arith, l) in elim absurd [ ]
  collect_from_complete (suc fuel) b newer l h k = elim (parent_cases b h) [
    | inl e ↦ ([], rw e refl, k, e)
    | inr (inl e) ↦ (
      block_genesis ∷ [],
      rw e (root_ends fuel (block_genesis ∷ b ∷ newer)),
      (e, k),
      genesis-root,
    )
    | inr (inr (p, e, l', h')) ↦
        let (older, e2, k2, r2) =
          collect_from_complete fuel p (b ∷ newer) (omega (arith, l, l')) h' (e, k) in
        (
          older ++ p ∷ [],
          rw (snoc_append p older (b ∷ newer), e) e2,
          rw (snoc_append p older (b ∷ newer)) k2,
          rw (snoc_append p older (b ∷ newer)) r2,
        )
  ]

-- Where each block on the way to the genesis block is stored, can be read, and has a lower round than
-- its child: fuel above the round of the block is enough, and the walk returns a chain, oldest first,
-- from a block without a parent to the block itself, in which each block is the parent of the next.
pub collect_blocks_complete :
    (env : Env) (store : BlockStore) (Held : Block → Type 0) (fuel : ℕ) (b : Block)
    → HoldsParents env store Held
    → Held b
    → b.round < fuel
    → (older : List Block) × (collect_blocks env store fuel b ≡ ok (older ++ b ∷ []))
      × IsLinked env store (older ++ b ∷ [])
      × IsRooted env store (older ++ b ∷ [])
unfolding collect_blocks
collect_blocks_complete env store Held fuel b holds h l =
    collect_from_complete env store Held holds fuel b [] l h (unfold IsLinked in tt)
