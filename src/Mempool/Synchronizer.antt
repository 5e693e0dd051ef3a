-- ===== src/Mempool/Synchronizer.antt =====
-- mempool/src/synchronizer.rs: the task that holds back blocks whose payloads are missing, asks for the
-- payloads, and gives the blocks back to consensus. (`transmit` and `verify_payload` are in Core.)
-- What one round of the `select!` yields is an event; which waiter ends next, and how, is for the store
-- and the scheduler to say, and a time is in milliseconds.
pub mod Cleaning
use accountability_gadget_pr.Base.{
  ℕ, zero, suc, ◌+◌, List, [], ◌∷◌, ◌++◌, map, Option, none, some, Bool, true, false, not, leb, ltb,
  ◌==◌, Outcome, ok, err, panic, ◌>>=◌, out_of_fuel, contains, filter, get_elem?, remove_at,
  if◌then◌else◌,
}
use accountability_gadget_pr.Base.Dict.{Dict, lookup, insert, contains_key, retain_keys, keys}
use accountability_gadget_pr.Crypto.{Digest, PublicKey, Primitives}
use accountability_gadget_pr.Consensus.Messages.{Block, block_digest}
use accountability_gadget_pr.Mempool.Config.{
  Committee, MempoolError, MempoolResult, mempool_address, broadcast_addresses,
}
use accountability_gadget_pr.Mempool.Core.{
  MempoolMessage, payload_request, SynchronizerMessage, sync, clean,
}

pub record Env : Type 0 where
  pub primitives : Primitives
  pub name : PublicKey
  pub committee : Committee
  pub sync_retry_delay : ℕ

-- To the network, and to consensus.
pub data Effect : Type 0 where
  sent : MempoolMessage → List ℕ → Effect
  looped_back : Block → Effect

-- A `waiter`: the block, the digests that it waits for, and whether it was told to give up.
pub record Waiter : Type 0 where
  pub wait_for : List Digest
  pub deliver : Block
  pub told_to_stop : Bool

-- The variables of the task: `pending` has the round of each block that is held back, `requests` the
-- round and the time of each request. The effects are newest first.
pub record Synchronizer : Type 0 where
  pub waiting : List Waiter
  pub pending : Dict ℕ
  pub requests : Dict (ℕ × ℕ)
  pub effects : List Effect

abbrev pub new_synchronizer : Synchronizer
new_synchronizer = record { waiting = []; pending = []; requests = []; effects = [] }

-- A message with the time at which it is handled; the end of a waiter: with its block, without it, or
-- with an error of the store; and the timer.
pub data Event : Type 0 where
  told : SynchronizerMessage → ℕ → Event
  finished stopped failed : ℕ → Event
  timer : ℕ → Event

-- `requests.insert(x, (round, now))` for each that is missing.
unfoldable pub note_requests : List Digest → ℕ → ℕ → Dict (ℕ × ℕ) → Dict (ℕ × ℕ)
note_requests [] round now requests = requests
note_requests (d ∷ ds) round now requests =
    note_requests ds round now (insert d (round, now) requests)

unfoldable pub drop_requests : List Digest → Dict (ℕ × ℕ) → Dict (ℕ × ℕ)
drop_requests ds requests = retain_keys (λ k. not (contains k ds)) requests

module _ (env : Env) where
  -- The request to the author of the block: `expect` panics if the author has no address.
  unfoldable pub ask_author :
      List Digest → MempoolResult ℕ → Synchronizer → MempoolResult Synchronizer
  ask_author ds (ok address) s =
      ok (record s { effects = sent (payload_request ds env.name) (address ∷ []) ∷ s.effects })
  ask_author ds (err e) s = panic
  ask_author ds panic s = panic
  ask_author ds out_of_fuel s = out_of_fuel

  -- What is not requested yet, of a block that is not held back yet.
  unfoldable pub request_new : List Digest → Block → ℕ → Synchronizer → MempoolResult Synchronizer
  unfolding ask_author note_requests
  request_new [] block now s = ok s
  request_new (d ∷ ds) block now s =
      ask_author (d ∷ ds) (mempool_address env.committee block.author)
        (record s { requests = note_requests (d ∷ ds) block.round now s.requests })

  unfoldable pub hold_back : List Digest → Block → ℕ → Synchronizer → MempoolResult Synchronizer
  unfolding request_new
  hold_back missing block now s =
      request_new (filter (λ d. not (contains_key d s.requests)) missing) block now (record s {
        waiting =
            s.waiting ++ record { wait_for = missing; deliver = block; told_to_stop = false } ∷ [];
        pending = insert (block_digest env.primitives block) block.round s.pending;
      })

  -- `handler.send(())` for the block of each entry that is not above the round.
  unfoldable pub is_stale : ℕ → Option ℕ → Bool
  is_stale round none = false
  is_stale round (some r) = leb r round

  unfoldable pub stop : ℕ → Dict ℕ → Waiter → Waiter
  unfolding is_stale
  stop round pending w = record w {
    told_to_stop =
        if is_stale round (lookup (block_digest env.primitives w.deliver) pending)
        then true
        else w.told_to_stop;
  }

  unfoldable pub on_told : SynchronizerMessage → ℕ → Synchronizer → MempoolResult Synchronizer
  unfolding hold_back stop
  on_told (sync missing block) now s =
      if contains_key (block_digest env.primitives block) s.pending
      then ok s
      else hold_back missing block now s
  on_told (clean round) now s = ok (record s {
    waiting = map (stop round s.pending) s.waiting;
    pending = filter (λ e. ltb round e.1) s.pending;
    requests = filter (λ e. ltb round e.1.0) s.requests;
  })

  -- A waiter whose entry leaves `pending`: its end of the channel closes, which stops it too.
  unfoldable pub stop_same : Digest → Waiter → Waiter
  stop_same d w = record w {
    told_to_stop = if block_digest env.primitives w.deliver == d then true else w.told_to_stop;
  }

  -- `waiting.next()` with `Ok(Some(block))`.
  unfoldable pub on_finished : ℕ → Option Waiter → Synchronizer → Synchronizer
  unfolding remove_at drop_requests stop_same
  on_finished i none s = s
  on_finished i (some w) s =
      let d = block_digest env.primitives w.deliver in
      record {
        waiting = map (stop_same d) (remove_at i s.waiting);
        pending = retain_keys (λ k. not (k == d)) s.pending;
        requests = drop_requests w.deliver.payload s.requests;
        effects = looped_back w.deliver ∷ s.effects;
      }

  -- `waiting.next()` with `Ok(None)`, which only a waiter yields that was told to stop.
  unfoldable pub on_stopped : ℕ → Option Waiter → Synchronizer → Synchronizer
  unfolding remove_at
  on_stopped i none s = s
  on_stopped i (some w) s = record s {
    waiting = if w.told_to_stop then remove_at i s.waiting else s.waiting;
  }

  -- The requests that are due again, in one message to all others.
  unfoldable pub overdue : ℕ → Dict (ℕ × ℕ) → List Digest
  overdue now requests = keys (filter (λ e. ltb (e.1.1 + env.sync_retry_delay) now) requests)

  unfoldable pub ask_again : List Digest → List Effect → List Effect
  ask_again [] es = es
  ask_again (d ∷ ds) es =
      sent (payload_request (d ∷ ds) env.name) (broadcast_addresses env.committee env.name) ∷ es

  -- One round of the loop.
  unfoldable pub on_event : Event → Synchronizer → MempoolResult Synchronizer
  unfolding on_told on_finished on_stopped overdue ask_again remove_at
  on_event (told m now) s = on_told m now s
  on_event (finished i) s = ok (on_finished i (get_elem? s.waiting i) s)
  on_event (stopped i) s = ok (on_stopped i (get_elem? s.waiting i) s)
  on_event (failed i) s = ok (record s { waiting = remove_at i s.waiting })
  on_event (timer now) s = ok (record s { effects = ask_again (overdue now s.requests) s.effects })

  unfoldable pub run_events : List Event → Synchronizer → MempoolResult Synchronizer
  unfolding on_event
  run_events [] s = ok s
  run_events (e ∷ es) s = on_event e s >>= run_events es
