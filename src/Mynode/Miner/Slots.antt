-- ===== src/Mynode/Miner/Slots.antt =====
-- The slots of the blocks that mynode/src/miner.rs mines on and keeps back.
use accountability_gadget_pr.Base.{
  ℕ, ◌≡◌, ◌≤◌, ◌<◌, refl, ◌⊎◌, inl, inr, List, [], ◌∷◌, some, Bool, true, false, leb, leb→le,
  Bool-cases, All, All-append, arith,
}
use accountability_gadget_pr.Crypto.{Digest}
use accountability_gadget_pr.Mynode.Miner.{
  Env, Input, tip, tick, Miner, new_miner, mine, settle, on_tip, on_tick, run_miner,
}

-- The slots of the ticks do not fall, from `t` on.
unfoldable pub TicksRise : ℕ → List Input → Type 0
TicksRise t [] = Unit {0}
TicksRise t (tip d slot ∷ is) = TicksRise t is
TicksRise t (tick t' won ∷ is) = (t ≤ t') × TicksRise t' is

-- What is known of each tip that the block tree announces, with its slot.
unfoldable pub TipsHave : (Digest → ℕ → Type 0) → List Input → Type 0
TipsHave P [] = Unit {0}
TipsHave P (tip d slot ∷ is) = P d slot × TipsHave P is
TipsHave P (tick t won ∷ is) = TipsHave P is

-- The genesis block, or an announced tip of no later slot.
abbrev pub IsDue : Env → (Digest → ℕ → Type 0) → ℕ → Digest → Type 0
IsDue env P t d = (d ≡ env.genesis_digest) ⊎ ((slot : ℕ) × P d slot × (slot ≤ t))

pub record IsMiner (env : Env) (P : Digest → ℕ → Type 0) (s : Miner) : Type 0 where
  pub parent_due : IsDue env P s.accept_blocks_for_slot s.current_parent
  pub deferred : All (λ d. P d.0 d.1 × (s.accept_blocks_for_slot < d.1)) s.blocks_from_future_slots
  pub mined_on : All (λ b. (d : Digest) × (b.parent ≡ some d) × IsDue env P b.slot d) s.mined

module _ (env : Env) (P : Digest → ℕ → Type 0) where
  IsDue-later : (t t' : ℕ) (d : Digest) → t ≤ t' → IsDue env P t d → IsDue env P t' d
  IsDue-later t t' d l (inl e) = inl e
  IsDue-later t t' d l (inr (slot, p, q)) = inr (slot, p, omega (arith, l, q))

  settle-IsDue :
      (t t' : ℕ) (ds : List (Digest × ℕ)) (parent : Digest)
      → All (λ d. P d.0 d.1 × (t' < d.1)) ds
      → IsDue env P t parent
      → IsDue env P t (settle env t ds parent).0
        × All (λ d. P d.0 d.1 × (t < d.1)) (settle env t ds parent).1
  unfolding settle
  settle-IsDue t t' [] parent a h = (h, tt)
  settle-IsDue t t' ((d, slot) ∷ ds) parent a h = elim (Bool-cases (leb slot t)) [
    | inl e ↦ rw e (settle-IsDue t t' ds d a.1 (inr (slot, a.0.0, leb→le slot t e)))
    | inr n ↦
        let (g, b) = settle-IsDue t t' ds parent a.1 h in rw n (g, ((a.0.0, ground (arith, n)), b))
  ]

  on_tip-IsMiner :
      (d : Digest) (slot : ℕ) (s : Miner)
      → P d slot
      → IsMiner env P s
      → IsMiner env P (on_tip env d slot s)
  unfolding on_tip
  on_tip-IsMiner d slot s p h = elim (Bool-cases (leb slot s.accept_blocks_for_slot)) [
    | inl e ↦ record {
      parent_due = rw e (inr (slot, p, leb→le slot s.accept_blocks_for_slot e));
      deferred = rw e h.deferred;
      mined_on = h.mined_on;
    }
    | inr n ↦ record {
      parent_due = rw n h.parent_due;
      deferred =
          rw n (All-append _ s.blocks_from_future_slots _ h.deferred ((p, ground (arith, n)), tt));
      mined_on = h.mined_on;
    }
  ]

  mined-IsDue :
      (t : ℕ) (won : Bool) (s : Miner)
      → s.accept_blocks_for_slot ≤ t
      → IsMiner env P s
      → All
          (λ b. (d : Digest) × (b.parent ≡ some d) × IsDue env P b.slot d)
          (on_tick env t won s).mined
  unfolding on_tick mine
  mined-IsDue t true s l h =
      ((s.current_parent, refl, IsDue-later _ t _ l h.parent_due), h.mined_on)
  mined-IsDue t false s l h = h.mined_on

  on_tick-IsMiner :
      (t : ℕ) (won : Bool) (s : Miner)
      → s.accept_blocks_for_slot ≤ t
      → IsMiner env P s
      → IsMiner env P (on_tick env t won s)
  unfolding on_tick
  on_tick-IsMiner t won s l h =
      let (g, b) =
        settle-IsDue t s.accept_blocks_for_slot s.blocks_from_future_slots s.current_parent
          h.deferred (IsDue-later _ t _ l h.parent_due) in
      record { parent_due = g; deferred = b; mined_on = mined-IsDue t won s l h }

  run_miner-IsMiner :
      (is : List Input) (s : Miner)
      → TicksRise s.accept_blocks_for_slot is
      → TipsHave P is
      → IsMiner env P s
      → IsMiner env P (run_miner env is s)
  unfolding run_miner TicksRise TipsHave
  run_miner-IsMiner [] s r p h = h
  run_miner-IsMiner (tip d slot ∷ is) s r p h =
      run_miner-IsMiner is (on_tip env d slot s) r p.1 (on_tip-IsMiner d slot s p.0 h)
  run_miner-IsMiner (tick t won ∷ is) s r p h =
      run_miner-IsMiner is (on_tick env t won s) r.1 p (on_tick-IsMiner t won s r.0 h)

-- Where the slots of the ticks do not fall, whatever the tips are, and whatever holds of each of them with
-- its slot: every block is mined on the genesis block or on a tip of no later slot than its own, so is
-- the next one to be mined, and no tip is kept back whose slot has begun.
pub run_miner-IsDue :
    (env : Env) (P : Digest → ℕ → Type 0) (is : List Input)
    → TicksRise 0 is
    → TipsHave P is
    → IsMiner env P (run_miner env is (new_miner env))
unfolding new_miner
run_miner-IsDue env P is r p =
    run_miner-IsMiner env P is (new_miner env) r p
      (record { parent_due = inl refl; deferred = tt; mined_on = tt })
