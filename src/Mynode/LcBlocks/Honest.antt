-- ===== src/Mynode/LcBlocks/Honest.antt =====
-- `height_honest` of mynode/src/lcblocks.rs: the number of honest blocks on the way to the root.
use accountability_gadget_pr.Base.{
  ℕ, zero, suc, ◌+◌, ◌%◌, ◌≤◌, ◌<◌, ◌≡◌, refl, ◌∙◌, ap, inl, inr, none, some, ok, arith,
  Option-cases, length, if◌then◌else◌,
}
use accountability_gadget_pr.Base.Dict.{lookup_or, contains_key-lookup}
use accountability_gadget_pr.Crypto.{Digest}
use accountability_gadget_pr.Consensus.Messages.{u64_mod}
use accountability_gadget_pr.Mynode.LcBlocks.{
  LcBlock, LcBlockTree, honest_walk, height_honest, is_adversarial,
}
use accountability_gadget_pr.Mynode.LcBlocks.Invariant.{IsBlock, IsHeight, IsTree}
use accountability_gadget_pr.Mynode.LcBlocks.Ancestors.{parent-IsHeight}

-- What a block adds to the honest height.
abbrev pub honest_step : LcBlock → ℕ
honest_step b = if is_adversarial b then 0 else 1

-- The path from a block to the root holds `n` honest blocks, the root left out.
pub data HonestPath (t : LcBlockTree) : Digest → ℕ → Type 0 where
  at_root : {d : Digest} (b : LcBlock) → IsBlock t d b → b.parent ≡ none → HonestPath t d 0
  above :
      {d p : Digest} {n m : ℕ} (b : LcBlock)
      → IsBlock t d b
      → b.parent ≡ some p
      → HonestPath t p n
      → m ≡ n + honest_step b
      → HonestPath t d m

module _ {root : Digest} {t : LcBlockTree} (i : IsTree root t)
    (room : length t.lcblocks < u64_mod) where
  walk_root :
      (fuel : ℕ) (d : Digest) (b : LcBlock)
      → IsBlock t d b
      → b.parent ≡ none
      → honest_walk (suc fuel) t d ≡ ok 0
  unfolding honest_walk
  walk_root fuel d b e none_e = rw (contains_key-lookup d b _ e, e, none_e, honest_walk) refl

  walk_parent :
      (fuel : ℕ) (d p : Digest) (b : LcBlock) (n : ℕ)
      → IsBlock t d b
      → b.parent ≡ some p
      → honest_walk fuel t p ≡ ok n
      → honest_walk (suc fuel) t d ≡ ok ((n + honest_step b) % u64_mod)
  unfolding honest_walk
  walk_parent fuel d p b n e parent f = ground (arith, contains_key-lookup d b t.lcblocks e, f)

  honest_walk-HonestPath :
      (fuel : ℕ) (d : Digest) (b : LcBlock) (h : ℕ)
      → IsBlock t d b
      → IsHeight t d h
      → h < fuel
      → (n : ℕ) × (honest_walk fuel t d ≡ ok n) × HonestPath t d n × (n ≤ h)
  honest_walk-HonestPath zero d b h e high f = absurd (omega arith)
  honest_walk-HonestPath (suc fuel) d b h e high f = elim (Option-cases b.parent) [
    | inl none_e ↦ (0, walk_root fuel d b e none_e, at_root b e none_e, omega arith)
    | inr (p, parent) ↦
        let (k, bp, eq, high_p, at_p) = parent-IsHeight i d p b h e parent high in
        let (n, g, path, le) = honest_walk-HonestPath fuel p bp k at_p high_p (omega arith) in
        let bound = i.bounded d h high in
        let step : honest_step b ≤ 1 = ground arith in
        let exact : (n + honest_step b) % u64_mod ≡ n + honest_step b = omega arith in
        (
          n + honest_step b,
          walk_parent fuel d p b n e parent g ∙ ap ok exact,
          above b e parent path refl,
          omega arith,
        )
  ]

  -- In a well-formed tree of less than 2^64 blocks, `height_honest` returns for a block of the tree, and
  -- counts the honest blocks on its path to the root, the root left out; there are no more than the
  -- block's height.
  pub height_honest-HonestPath :
      (d : Digest) (b : LcBlock) (h : ℕ)
      → IsBlock t d b
      → IsHeight t d h
      → (n : ℕ) × (height_honest t d ≡ ok n) × HonestPath t d n × (n ≤ h)
  unfolding height_honest lookup_or
  height_honest-HonestPath d b h e high =
      honest_walk-HonestPath (suc (lookup_or d 0 t.precomputed_height)) d b h e high
        (ground (arith, high))
