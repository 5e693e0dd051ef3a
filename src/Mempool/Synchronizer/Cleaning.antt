-- ===== src/Mempool/Synchronizer/Cleaning.antt =====
-- What mempool/src/synchronizer.rs holds back, and what its cleanup reaches.
use accountability_gadget_pr.Base.{
  remove_at, ℕ, zero, suc, ◌≡◌, ◌<◌, refl, ◌⊎◌, inl, inr, List, [], ◌∷◌, map, filter, Option, none,
  some, Bool, true, false, not, leb, ltb, ◌==◌, Bool-cases, Option-cases, All, All-append, All-map,
  arith, ok, get_elem?, if◌then◌else◌,
}
use accountability_gadget_pr.Base.Dict.{
  Dict, lookup, insert, contains_key, retain_keys, lookup-retain_keys, contains_key-insert,
  contains_key-none, contains_key-lookup, contains_key-inserted,
}
use accountability_gadget_pr.Crypto.{Digest}
use accountability_gadget_pr.Consensus.Messages.{Block, block_digest}
use accountability_gadget_pr.Mempool.Config.{mempool_address}
use accountability_gadget_pr.Mempool.Core.{payload_request, sync, clean}
use accountability_gadget_pr.Mempool.Synchronizer.{
  Env, sent, Waiter, Synchronizer, new_synchronizer, Event, told, finished, stopped, failed, timer,
  note_requests, ask_author, request_new, hold_back, is_stale, stop, on_told, stop_same,
  on_finished, on_stopped, on_event, run_events,
}

-- A waiter that was not told to stop is of a block that is marked as pending.
abbrev IsHeld : Env → Dict ℕ → Waiter → Type 0
IsHeld env pending w =
    (w.told_to_stop ≡ true) ⊎ (contains_key (block_digest env.primitives w.deliver) pending ≡ true)

-- The authors of the blocks to synchronize have addresses.
unfoldable pub AuthorsKnown : Env → List Event → Type 0
AuthorsKnown env [] = Unit {0}
AuthorsKnown env (told (sync missing block) now ∷ es) =
    ((a : ℕ) × (mempool_address env.committee block.author ≡ ok a)) × AuthorsKnown env es
AuthorsKnown env (told (clean round) now ∷ es) = AuthorsKnown env es
AuthorsKnown env (finished i ∷ es) = AuthorsKnown env es
AuthorsKnown env (stopped i ∷ es) = AuthorsKnown env es
AuthorsKnown env (failed i ∷ es) = AuthorsKnown env es
AuthorsKnown env (timer now ∷ es) = AuthorsKnown env es

All-remove_at : (P : Waiter → Type 0) (i : ℕ) (ws : List Waiter) → All P ws → All P (remove_at i ws)
unfolding remove_at
All-remove_at P i [] h = tt
All-remove_at P zero (w ∷ ws) h = h.1
All-remove_at P (suc i) (w ∷ ws) h = (h.0, All-remove_at P i ws h.1)

All-imp :
    (P Q : Waiter → Type 0) (ws : List Waiter) → ((w : Waiter) → P w → Q w) → All P ws → All Q ws
All-imp P Q [] f h = tt
All-imp P Q (w ∷ ws) f h = (f w h.0, All-imp P Q ws f h.1)

-- An entry above the round stays.
lookup-above :
    (k r round : ℕ) (m : Dict ℕ)
    → lookup k m ≡ some r
    → round < r
    → lookup k (filter (λ e. ltb round e.1) m) ≡ some r
unfolding lookup
lookup-above k r round [] e l = cc
lookup-above k r round ((j, v) ∷ m) e l = ground (arith, lookup-above k r round m, e, l)

if_true : (c : Bool) {b : Bool} → b ≡ true → (if c then true else b) ≡ true
if_true true h = refl
if_true false h = h

module _ (env : Env) where
  stop-IsHeld :
      (round : ℕ) (pending : Dict ℕ) (w : Waiter)
      → IsHeld env pending w
      → let w' = stop env round pending w in
        (w'.told_to_stop ≡ true)
        ⊎ ((r : ℕ) × (lookup
                (block_digest env.primitives w'.deliver)
                (filter (λ e. ltb round e.1) pending)
              ≡ some r)
            × (round < r))
  unfolding stop is_stale contains_key
  stop-IsHeld round pending w (inl t) = inl (if_true _ t)
  stop-IsHeld round pending w (inr c) =
      elim (Option-cases (lookup (block_digest env.primitives w.deliver) pending)) [
        | inl n ↦ let absent = contains_key-none _ pending n in cc
        | inr (r, e) ↦ elim (Bool-cases (leb r round)) [
          | inl t ↦ inl (rw (e, is_stale, t) refl)
          | inr f ↦ inr (r, lookup-above _ r round pending e (ground (arith, f)), ground (arith, f))
        ]
      ]

  -- What a round of the loop keeps.
  abbrev Held : Synchronizer → Type 0
  Held s = All (IsHeld env s.pending) s.waiting

  request_new-ok :
      (a : ℕ) (ds : List Digest) (b : Block) (now : ℕ) (s : Synchronizer)
      → mempool_address env.committee b.author ≡ ok a
      → Held s
      → (s' : Synchronizer) × (request_new env ds b now s ≡ ok s') × Held s'
  unfolding request_new ask_author
  request_new-ok a [] b now s e h = (s, refl, h)
  request_new-ok a (d ∷ ds) b now s e h = (
    record s {
      requests = note_requests (d ∷ ds) b.round now s.requests;
      effects = sent (payload_request (d ∷ ds) env.name) (a ∷ []) ∷ s.effects;
    },
    rw e refl,
    h,
  )

  inserted :
      (b : Block) (pending : Dict ℕ) (w : Waiter)
      → IsHeld env pending w
      → IsHeld env (insert (block_digest env.primitives b) b.round pending) w
  inserted b pending w (inl t) = inl t
  inserted b pending w (inr c) = inr (contains_key-insert _ _ b.round pending c)

  on_sync-Held :
      (a : ℕ) (missing : List Digest) (b : Block) (now : ℕ) (s : Synchronizer)
      → mempool_address env.committee b.author ≡ ok a
      → Held s
      → (s' : Synchronizer) × (on_told env (sync missing b) now s ≡ ok s') × Held s'
  unfolding on_told hold_back
  on_sync-Held a missing b now s e h =
      elim (Bool-cases (contains_key (block_digest env.primitives b) s.pending)) [
        | inl t ↦ rw t (s, refl, h)
        | inr n ↦ rw n (
            request_new-ok a _ b now _ e (
              All-append _ s.waiting _ (All-imp _ _ s.waiting (λ w. inserted b s.pending w) h) (
                inr (contains_key-inserted (block_digest env.primitives b) b.round s.pending),
                tt,
              )))
      ]

  on_clean-Held :
      (round : ℕ) (s : Synchronizer)
      → Held s
      → All
          (IsHeld env (filter (λ e. ltb round e.1) s.pending))
          (map (stop env round s.pending) s.waiting)
  on_clean-Held round s h = All-map _ (stop env round s.pending) s.waiting (
      All-imp _ _ s.waiting
        (λ w k. elim (stop-IsHeld round s.pending w k) [
          | inl t ↦ inl t
          | inr x ↦ inr (contains_key-lookup _ x.0 _ x.1)
        ])
        h)

  stop_same-IsHeld :
      (d : Digest) (pending : Dict ℕ) (w : Waiter)
      → IsHeld env pending w
      → IsHeld env (retain_keys (λ k. not (k == d)) pending) (stop_same env d w)
  unfolding stop_same contains_key
  stop_same-IsHeld d pending w (inl t) = inl (if_true _ t)
  stop_same-IsHeld d pending w (inr c) =
      elim (Bool-cases (block_digest env.primitives w.deliver == d)) [
        | inl t ↦ inl (rw t refl)
        | inr n ↦ inr (
            rw
              (
                contains_key,
                lookup-retain_keys (λ k. not (k == d)) (block_digest env.primitives w.deliver)
                    pending,
                n,
              )
              (unfold contains_key in c))
      ]

  on_finished-Held :
      (i : ℕ) (o : Option Waiter) (s : Synchronizer) → Held s → Held (on_finished env i o s)
  unfolding on_finished
  on_finished-Held i none s h = h
  on_finished-Held i (some w) s h =
      All-map _ (stop_same env (block_digest env.primitives w.deliver)) (remove_at i s.waiting) (
        All-imp _ _ (remove_at i s.waiting)
          (stop_same-IsHeld (block_digest env.primitives w.deliver) s.pending)
          (All-remove_at _ i s.waiting h))

  on_stopped-Held :
      (i : ℕ) (o : Option Waiter) (s : Synchronizer) → Held s → Held (on_stopped env i o s)
  unfolding on_stopped
  on_stopped-Held i none s h = h
  on_stopped-Held i (some w) s h = elim (Bool-cases w.told_to_stop) [
    | inl t ↦ rw t (All-remove_at _ i s.waiting h)
    | inr n ↦ rw n h
  ]

  run_events-Held :
      (es : List Event) (s : Synchronizer)
      → AuthorsKnown env es
      → Held s
      → (s' : Synchronizer) × (run_events env es s ≡ ok s') × Held s'
  unfolding run_events on_event AuthorsKnown on_told
  run_events-Held [] s k h = (s, refl, h)
  run_events-Held (told (sync missing b) now ∷ es) s k h =
      let (s1, e1, h1) = on_sync-Held k.0.0 missing b now s k.0.1 h in
      let (s2, e2, h2) = run_events-Held es s1 k.1 h1 in (s2, rw e1 e2, h2)
  run_events-Held (told (clean round) now ∷ es) s k h =
      run_events-Held es _ k (on_clean-Held round s h)
  run_events-Held (finished i ∷ es) s k h =
      run_events-Held es _ k (on_finished-Held i (get_elem? s.waiting i) s h)
  run_events-Held (stopped i ∷ es) s k h =
      run_events-Held es _ k (on_stopped-Held i (get_elem? s.waiting i) s h)
  run_events-Held (failed i ∷ es) s k h = run_events-Held es _ k (All-remove_at _ i s.waiting h)
  run_events-Held (timer now ∷ es) s k h = run_events-Held es _ k h

-- Where the authors of the blocks have addresses: whatever the task is told and however its waiters end,
-- it runs on without a panic; and when it is then told to clean up to a round, each waiter is told to
-- stop, or its block is marked as pending with a later round.
pub run_events-cleaned :
    (env : Env) (es : List Event) (round now : ℕ)
    → AuthorsKnown env es
    → (s s' : Synchronizer) × (run_events env es new_synchronizer ≡ ok s)
      × (on_event env (told (clean round) now) s ≡ ok s')
      × All
          (λ w.
            (w.told_to_stop ≡ true)
            ⊎ ((r : ℕ) × (lookup (block_digest env.primitives w.deliver) s'.pending ≡ some r)
                × (round < r)))
          s'.waiting
unfolding on_event on_told
run_events-cleaned env es round now k =
    let (s, e, h) = run_events-Held env es new_synchronizer k tt in
    (
      s,
      _,
      e,
      refl,
      All-map _ (stop env round s.pending) s.waiting
          (All-imp _ _ s.waiting (stop-IsHeld env round s.pending) h),
    )
