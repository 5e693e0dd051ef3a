-- ===== src/Consensus/Synchronizer/Lost.antt =====
-- A block of consensus/src/synchronizer.rs whose waiting ended with an error of the store.
use accountability_gadget_pr.Base.{
  ℕ, ◌≡◌, refl, inl, inr, List, [], ◌∷◌, Option, none, some, true, false, contains, get_elem?,
  contains-set_insert, contains-set_remove, Bool-cases, ◌==◌,
}
use accountability_gadget_pr.Consensus.Messages.{Block, block_digest}
use accountability_gadget_pr.Consensus.Synchronizer.{
  Env, Synchronizer, new_synchronizer, Event, asked, stored, failed, timer, on_asked, on_stored,
  on_sync_event, run_sync,
}
use accountability_gadget_pr.Consensus.Synchronizer.Waiting.{
  digests, or_right, absent_snoc, differ, differ_sym, remove_at-subset, remove_at-gone,
  get_elem?-contains, map-snoc, run_sync-Distinct,
}

-- A digest that is marked as pending, but of no block that waits.
pub record IsLost (env : Env) (d : ℕ) (s : Synchronizer) : Type 0 where
  pub is_pending : contains d s.pending ≡ true
  pub not_waiting : contains d (digests env s.waiting) ≡ false

module _ (env : Env) (d : ℕ) where
  on_asked-IsLost :
      (b : Block) (now : ℕ) (s : Synchronizer)
      → IsLost env d s
      → IsLost env d (on_asked env b now s)
  unfolding on_asked
  on_asked-IsLost b now s h = record {
    is_pending =
        rw (contains-set_insert d (block_digest env.primitives b) s.pending)
          (or_right (d == block_digest env.primitives b) h.is_pending);
    not_waiting = elim (Bool-cases (contains (block_digest env.primitives b) s.pending)) [
      | inl t ↦ rw t h.not_waiting
      | inr n ↦
          rw (n, map-snoc env b s.waiting)
            (absent_snoc d _ (digests env s.waiting) h.not_waiting
              (differ s.pending d _ h.is_pending n))
    ];
  }

  on_stored-IsLost :
      (i : ℕ) (o : Option Block) (s : Synchronizer)
      → get_elem? s.waiting i ≡ o
      → IsLost env d s
      → IsLost env d (on_stored env i o s)
  unfolding on_stored
  on_stored-IsLost i none s e h = h
  on_stored-IsLost i (some b) s e h = record {
    is_pending = rw (contains-set_remove d (block_digest env.primitives b) s.pending) (
        rw
          (differ_sym (digests env s.waiting) d _ h.not_waiting
            (get_elem?-contains env i b s.waiting e))
          h.is_pending);
    not_waiting = remove_at-subset env i d s.waiting h.not_waiting;
  }

  on_sync_event-IsLost :
      (e : Event) (s : Synchronizer) → IsLost env d s → IsLost env d (on_sync_event env e s)
  unfolding on_sync_event
  on_sync_event-IsLost (asked b now) s h = on_asked-IsLost b now s h
  on_sync_event-IsLost (stored i) s h = on_stored-IsLost i (get_elem? s.waiting i) s refl h
  on_sync_event-IsLost (failed i) s h = record {
    is_pending = h.is_pending;
    not_waiting = remove_at-subset env i d s.waiting h.not_waiting;
  }
  on_sync_event-IsLost (timer now) s h = record {
    is_pending = h.is_pending;
    not_waiting = h.not_waiting;
  }

  run_sync-IsLost :
      (es : List Event) (s : Synchronizer) → IsLost env d s → IsLost env d (run_sync env es s)
  unfolding run_sync
  run_sync-IsLost [] s h = h
  run_sync-IsLost (e ∷ es) s h =
      run_sync-IsLost es (on_sync_event env e s) (on_sync_event-IsLost e s h)

-- Whatever the task has done before and does after it: once the store fails a block that waits, the
-- block stays marked as pending and never waits again, however often it is asked for.
pub run_sync-failed :
    (env : Env) (before later : List Event) (i : ℕ) (b : Block)
    → get_elem? (run_sync env before new_synchronizer).waiting i ≡ some b
    → IsLost env
        (block_digest env.primitives b)
        (run_sync env later (on_sync_event env (failed i) (run_sync env before new_synchronizer)))
unfolding on_sync_event
run_sync-failed env before later i b e =
    let s = run_sync env before new_synchronizer in
    let (distinct, marked) = run_sync-Distinct env before in
    run_sync-IsLost env (block_digest env.primitives b) later _ (record {
      is_pending = marked _ (get_elem?-contains env i b s.waiting e);
      not_waiting = remove_at-gone env i b s.waiting e distinct;
    })
