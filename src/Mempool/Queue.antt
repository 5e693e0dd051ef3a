-- ===== src/Mempool/Queue.antt =====
-- The digests that mempool/src/core.rs queues and hands to consensus, and the store.
use accountability_gadget_pr.Base.{
  ℕ, ◌/◌, ◌≡◌, refl, subst, inl, inr, List, [], ◌∷◌, ◌++◌, Option, none, some, Bool, true, false,
  ◌||◌, if◌then◌else◌, ok, err, panic, out_of_fuel, All, All-append, All-filter, All-take, leb,
  Bool-cases,
}
use accountability_gadget_pr.Base.Dict.{
  Dict, lookup, insert, contains_key, contains_key-insert, contains_key-inserted,
}
use accountability_gadget_pr.Crypto.{Digest, PublicKey}
use accountability_gadget_pr.Consensus.Messages.{Block}
use accountability_gadget_pr.Consensus.Core.{accept, reject}
use accountability_gadget_pr.Mempool.Config.{MempoolResult, store_error, mempool_address}
use accountability_gadget_pr.Mempool.Payload.{Payload, payload_size, payload_digest, request}
use accountability_gadget_pr.Mempool.Core.{
  MempoolMessage, own_payload, payload, payload_request, Env, State, new_core, and_then, send_at,
  has_room, handle_own_payload, handle_others_payload, answer_decoded, answer, handle_request,
  get_made, get_queued, get_payload, missing, verify_missing, verify_payload, Event, message,
  get_asked, verify_asked, cleanup_asked, runner_ran, other_stored, payloads, status, or_default,
  on_message, on_event, run_core, drop_all, status_of,
}

AreStored : List Digest → State → Type 0
AreStored ds s = All (λ d. contains_key d s.store ≡ true) ds

-- What a step keeps: what is stored stays stored, and what is queued is stored.
record Keeps (s s' : State) : Type 0 where
  stored : (d : Digest) → contains_key d s.store ≡ true → contains_key d s'.store ≡ true
  queued : AreStored s.queue s → AreStored s'.queue s'

Keeps-refl : (s : State) → Keeps s s
Keeps-refl s = record { stored = λ d h. h; queued = λ h. h }

Keeps-trans : (s s' s'' : State) → Keeps s s' → Keeps s' s'' → Keeps s s''
Keeps-trans s s' s'' k l = record {
  stored = λ d h. l.stored d (k.stored d h);
  queued = λ h. l.queued (k.queued h);
}

All_mono :
    (ds : List Digest) (s s' : State)
    → ((d : Digest) → contains_key d s.store ≡ true → contains_key d s'.store ≡ true)
    → AreStored ds s
    → AreStored ds s'
unfolding AreStored
All_mono [] s s' f h = tt
All_mono (d ∷ ds) s s' f h = (f d h.0, All_mono ds s s' f h.1)

-- A write that leaves the queue, or adds what was written.
write-Keeps :
    (key : Digest) (bytes : List ℕ) (s s' : State)
    → s'.store ≡ insert key bytes s.store
    → s'.queue ≡ s.queue
    → Keeps s s'
unfolding AreStored
write-Keeps key bytes s s' e q =
    let f : (d : Digest) → contains_key d s.store ≡ true → contains_key d s'.store ≡ true =
      λ d h. rw e (contains_key-insert key d bytes s.store h) in
    record { stored = f; queued = λ h. rw q (All_mono s.queue s s' f h) }

enqueue-Keeps :
    (key : Digest) (bytes : List ℕ) (s s' : State)
    → s'.store ≡ insert key bytes s.store
    → s'.queue ≡ s.queue ++ key ∷ []
    → Keeps s s'
unfolding AreStored
enqueue-Keeps key bytes s s' e q =
    let f : (d : Digest) → contains_key d s.store ≡ true → contains_key d s'.store ≡ true =
      λ d h. rw e (contains_key-insert key d bytes s.store h) in
    record {
      stored = f;
      queued = λ h. rw q (
          All-append _ s.queue (key ∷ []) (All_mono s.queue s s' f h)
            (rw e (contains_key-inserted key bytes s.store), tt));
    }

and_then-Keeps :
    {A : Type 0} (s : State) (r : MempoolResult (Unit {0}) × State)
    (f : State → MempoolResult A × State)
    → Keeps s r.1
    → ((s' : State) → Keeps s' (f s').1)
    → Keeps s (and_then r f).1
and_then-Keeps s (ok tt, s') f k l = Keeps-trans s s' _ k (l s')
and_then-Keeps s (err e, s') f k l = k
and_then-Keeps s (panic, s') f k l = k
and_then-Keeps s (out_of_fuel, s') f k l = k

module _ (env : Env) where
  handle_own_payload-Keeps : (p : Payload) (s : State) → Keeps s (handle_own_payload env p s).1
  unfolding handle_own_payload
  handle_own_payload-Keeps p s = elim (Bool-cases (has_room env s)) [
    | inl t ↦ rw t (enqueue-Keeps (payload_digest env.primitives p) (env.encode p) s _ refl refl)
    | inr f ↦ rw f (Keeps-refl s)
  ]

  handle_others_payload-Keeps :
      (p : Payload) (s : State) → Keeps s (handle_others_payload env p s).1
  unfolding handle_others_payload
  handle_others_payload-Keeps p s =
      elim (Bool-cases (leb (payload_size p) env.parameters.max_payload_size)) [
        | inl t ↦
            rw t (enqueue-Keeps (payload_digest env.primitives p) (env.encode p) s _ refl refl)
        | inr f ↦ rw f (Keeps-refl s)
      ]

  send_at-Keeps :
      (m : MempoolMessage) (r : MempoolResult ℕ) (s : State) → Keeps s (send_at env m r s).1
  unfolding send_at AreStored
  send_at-Keeps m (ok a) s = record { stored = λ d h. h; queued = λ h. h }
  send_at-Keeps m (err e) s = Keeps-refl s
  send_at-Keeps m panic s = Keeps-refl s
  send_at-Keeps m out_of_fuel s = Keeps-refl s

  answer_decoded-Keeps :
      (o : Option Payload) (key : PublicKey) (s : State) → Keeps s (answer_decoded env o key s).1
  unfolding answer_decoded
  answer_decoded-Keeps none key s = Keeps-refl s
  answer_decoded-Keeps (some p) key s = send_at-Keeps _ (mempool_address env.committee key) s

  answer-Keeps :
      (o : Option (List ℕ)) (key : PublicKey) (s : State) → Keeps s (answer env o key s).1
  unfolding answer
  answer-Keeps none key s = Keeps-refl s
  answer-Keeps (some bytes) key s = answer_decoded-Keeps (env.decode bytes) key s

  handle_request-Keeps :
      (ds : List Digest) (key : PublicKey) (s : State) → Keeps s (handle_request env ds key s).1
  unfolding handle_request
  handle_request-Keeps [] key s = Keeps-refl s
  handle_request-Keeps (d ∷ ds) key s = elim (Bool-cases (env.read_fails s.effects d)) [
    | inl fails ↦ rw fails (Keeps-refl s)
    | inr reads ↦ rw reads (
        and_then-Keeps s (answer env (lookup d s.store) key s) _
          (answer-Keeps (lookup d s.store) key s) (handle_request-Keeps ds key))
  ]

  get_made-Keeps : (o : Option Payload) (s : State) → Keeps s (get_made env o s).1
  unfolding get_made
  get_made-Keeps none s = Keeps-refl s
  get_made-Keeps (some p) s = elim (Bool-cases (has_room env s)) [
    | inl t ↦ rw t (write-Keeps (payload_digest env.primitives p) (env.encode p) s _ refl refl)
    | inr f ↦ rw f (Keeps-refl s)
  ]

  get_made-AreStored :
      (o : Option Payload) (s : State)
      → AreStored (or_default (get_made env o s).0) (get_made env o s).1
  unfolding get_made AreStored
  get_made-AreStored none s = tt
  get_made-AreStored (some p) s = elim (Bool-cases (has_room env s)) [
    | inl t ↦
        rw t (contains_key-inserted (payload_digest env.primitives p) (env.encode p) s.store, tt)
    | inr f ↦ rw f tt
  ]

  get_queued-Keeps :
      (max : ℕ) (q : List Digest) (s : State) → s.queue ≡ q → Keeps s (get_queued env max q s).1
  unfolding get_queued drop_all AreStored
  get_queued-Keeps max [] s e =
      Keeps-trans s (record s { runner = (request s.runner).1 }) _
        (record { stored = λ d h. h; queued = λ h. h }) (get_made-Keeps (request s.runner).0 _)
  get_queued-Keeps max (d ∷ ds) s e = record {
    stored = λ d h. h;
    queued = λ h. All-filter _ _ s.queue h;
  }

  get_queued-AreStored :
      (max : ℕ) (q : List Digest) (s : State)
      → s.queue ≡ q
      → AreStored s.queue s
      → AreStored (or_default (get_queued env max q s).0) (get_queued env max q s).1
  unfolding get_queued AreStored
  get_queued-AreStored max [] s e h = get_made-AreStored (request s.runner).0 _
  get_queued-AreStored max (d ∷ ds) s e h =
      All-take _ (max / 32) (d ∷ ds) (subst (λ q. AreStored q s) e h)

  verify_missing-Keeps :
      (r : MempoolResult (List Digest)) (block : Block) (s : State)
      → Keeps s (verify_missing env r block s).1
  unfolding verify_missing AreStored
  verify_missing-Keeps (ok []) block s = Keeps-refl s
  verify_missing-Keeps (ok (d ∷ ds)) block s = record { stored = λ d h. h; queued = λ h. h }
  verify_missing-Keeps (err e) block s = Keeps-refl s
  verify_missing-Keeps panic block s = Keeps-refl s
  verify_missing-Keeps out_of_fuel block s = Keeps-refl s

  -- Does the read of one of the digests fail?
  unfoldable pub any_fails : List Digest → State → Bool
  any_fails [] s = false
  any_fails (d ∷ ds) s = env.read_fails s.effects d || any_fails ds s

  missing-AreStored :
      (ds : List Digest) (s : State)
      → AreStored ds s
      → missing env ds s ≡ (if any_fails ds s then err store_error else ok [])
  unfolding missing AreStored any_fails
  missing-AreStored [] s h = refl
  missing-AreStored (d ∷ ds) s h = elim (Bool-cases (env.read_fails s.effects d)) [
    | inl fails ↦ rw fails refl
    | inr reads ↦ elim (Bool-cases (any_fails ds s)) [
      | inl later ↦ rw (reads, missing-AreStored ds s h.1, later) refl
      | inr all_read ↦ rw (reads, missing-AreStored ds s h.1, all_read, h.0) refl
    ]
  ]

  on_message-Keeps : (m : MempoolMessage) (s : State) → Keeps s (on_message env m s).1
  unfolding on_message
  on_message-Keeps (own_payload p) s = handle_own_payload-Keeps p s
  on_message-Keeps (payload p) s = handle_others_payload-Keeps p s
  on_message-Keeps (payload_request ds key) s = handle_request-Keeps ds key s

  on_event-Keeps : (e : Event) (s : State) → Keeps s (on_event env e s).1
  unfolding on_event drop_all AreStored
  on_event-Keeps (message m) s = on_message-Keeps m s
  on_event-Keeps (get_asked max) s = get_queued-Keeps max s.queue s refl
  on_event-Keeps (verify_asked block) s = verify_missing-Keeps (missing env block.payload s) block s
  on_event-Keeps (cleanup_asked ds round) s = record {
    stored = λ d h. h;
    queued = λ h. All-filter _ _ s.queue h;
  }
  on_event-Keeps (runner_ran r) s = record { stored = λ d h. h; queued = λ h. h }
  on_event-Keeps (other_stored key bytes) s = write-Keeps key bytes s _ refl refl

  run_core-Keeps : (es : List Event) (s : State) → Keeps s (run_core env es s).1
  unfolding run_core
  run_core-Keeps [] s = Keeps-refl s
  run_core-Keeps (e ∷ es) s =
      Keeps-trans s (on_event env e s).1 _ (on_event-Keeps e s)
        (run_core-Keeps es (on_event env e s).1)

decided :
    (env : Env) (block : Block) (t : State) (fails : Bool)
    → missing env block.payload t ≡ (if fails then err store_error else ok [])
    → status (status_of (verify_missing env (missing env block.payload t) block t).0)
      ≡ status (if fails then reject else accept)
unfolding status_of verify_missing
decided env block t true e = rw e refl
decided env block t false e = rw e refl

-- Whatever the task has done before, and whatever it does after it: a block of exactly the digests that
-- it handed to consensus is accepted, unless a read of the store for one of them fails, which rejects
-- the block.
pub get_payload-accept :
    (env : Env) (store : Dict (List ℕ)) (before later : List Event) (max : ℕ) (block : Block)
    → let s = (run_core env before (new_core store)).1 in
      let got = on_event env (get_asked max) s in
      got.0 ≡ payloads block.payload
      → let t = (run_core env later got.1).1 in
        (on_event env (verify_asked block) t).0
        ≡ status (if any_fails env block.payload t then reject else accept)
unfolding on_event verify_payload get_payload verify_missing status_of
get_payload-accept env store before later max block e =
    let s = (run_core env before (new_core store)).1 in
    let s' = (on_event env (get_asked max) s).1 in
    let h : AreStored s.queue s =
      (run_core-Keeps env before (new_core store)).queued (unfold AreStored in tt) in
    let g : AreStored (or_default (get_payload env max s).0) s' =
      get_queued-AreStored env max s.queue s refl h in
    let q : or_default (get_payload env max s).0 ≡ block.payload = cc in
    let g' : AreStored block.payload (run_core env later s').1 =
      All_mono block.payload s' _ (run_core-Keeps env later s').stored
        (subst (λ ds. AreStored ds s') q g) in
    decided env block _ (any_fails env block.payload _) (missing-AreStored env block.payload _ g')
