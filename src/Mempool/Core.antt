-- ===== src/Mempool/Core.antt =====
-- mempool/src/core.rs, with the calls of synchronizer.rs that run in the same task.
-- The store is a map whose reads may fail; a message is what bincode, which is not part of the repository,
-- writes of it.
use accountability_gadget_pr.Base.{
  ℕ, ◌/◌, List, [], ◌∷◌, ◌++◌, Option, none, some, Bool, true, false, not, ltb, leb, ok, err, panic,
  out_of_fuel, length, take, filter, contains, if◌then◌else◌, set_insert, ◌>>=◌,
}
use accountability_gadget_pr.Base.Dict.{Dict, lookup, insert, contains_key}
use accountability_gadget_pr.Crypto.{Digest, PublicKey, Primitives}
use accountability_gadget_pr.Consensus.Messages.{Block}
use accountability_gadget_pr.Consensus.Core.{PayloadStatus, accept, reject, wait}
use accountability_gadget_pr.Mempool.Config.{
  serialization_error, store_error, payload_too_big, mempool_full, MempoolResult, Parameters,
  Committee, mempool_address, broadcast_addresses,
}
use accountability_gadget_pr.Mempool.Payload.{
  Payload, payload_size, payload_digest, Runner, new_runner, request,
}

pub data MempoolMessage : Type 0 where
  own_payload payload : Payload → MempoolMessage
  payload_request : List Digest → PublicKey → MempoolMessage

-- `SynchronizerMessage`
pub data SynchronizerMessage : Type 0 where
  sync : List Digest → Block → SynchronizerMessage
  clean : ℕ → SynchronizerMessage

-- What the task sends: to the network, and to the task of the synchronizer.
pub data Effect : Type 0 where
  sent : MempoolMessage → List ℕ → Effect
  inner : SynchronizerMessage → Effect

-- Which reads of the store fail may depend on what was sent before.
pub record Env : Type 0 where
  pub primitives : Primitives
  pub name : PublicKey
  pub committee : Committee
  pub parameters : Parameters
  pub read_fails : List Effect → Digest → Bool
  pub encode : Payload → List ℕ
  pub decode : List ℕ → Option Payload

-- The fields of `Core` that change, the state of the payload maker, which answers its requests, and the
-- store. The effects are newest first.
pub record State : Type 0 where
  pub queue : List Digest
  pub store : Dict (List ℕ)
  pub runner : Runner
  pub effects : List Effect

-- `Core::new`
abbrev pub new_core : Dict (List ℕ) → State
new_core store = record { queue = []; store = store; runner = new_runner; effects = [] }

abbrev pub emit : Effect → State → State
emit e s = record s { effects = e ∷ s.effects }

-- `self.queue.retain(|v| !digests.contains(v))`
unfoldable pub drop_all : List Digest → List Digest → List Digest
drop_all digests queue = filter (λ d. not (contains d digests)) queue

-- What one round of the `select!` of `run` yields; what the task of the payload maker and the tasks
-- with the same store do in between.
pub data Event : Type 0 where
  message : MempoolMessage → Event
  get_asked : ℕ → Event
  verify_asked : Block → Event
  cleanup_asked : List Digest → ℕ → Event
  runner_ran : Runner → Event
  other_stored : ℕ → List ℕ → Event

pub data Answer : Type 0 where
  payloads : List Digest → Answer
  status : PayloadStatus → Answer
  logged : MempoolResult (Unit {0}) → Answer

-- `result.unwrap_or_default()`
abbrev pub or_default : MempoolResult (List Digest) → List Digest
or_default (ok ds) = ds
or_default (err e) = []
or_default panic = []
or_default out_of_fuel = []

-- `?`: an error ends the handler, with the state as it then is.
abbrev pub and_then :
    {A : Type 0}
    → MempoolResult (Unit {0}) × State
    → (State → MempoolResult A × State)
    → MempoolResult A × State
and_then (ok tt, s) f = f s
and_then (err e, s) f = (err e, s)
and_then (panic, s) f = (panic, s)
and_then (out_of_fuel, s) f = (out_of_fuel, s)

-- The status that `run` answers with.
unfoldable pub status_of : MempoolResult Bool → PayloadStatus
status_of (ok true) = accept
status_of (ok false) = wait
status_of _ = reject

module _ (env : Env) where
  -- `Synchronizer::transmit`, to one node and to all others.
  unfoldable pub send_at :
      MempoolMessage → MempoolResult ℕ → State → MempoolResult (Unit {0}) × State
  send_at m (ok address) s = (ok tt, emit (sent m (address ∷ [])) s)
  send_at m (err e) s = (err e, s)
  send_at m panic s = (panic, s)
  send_at m out_of_fuel s = (out_of_fuel, s)

  unfoldable pub transmit_to : MempoolMessage → PublicKey → State → MempoolResult (Unit {0}) × State
  unfolding send_at
  transmit_to m to s = send_at m (mempool_address env.committee to) s

  unfoldable pub broadcast : MempoolMessage → State → State
  broadcast m s = emit (sent m (broadcast_addresses env.committee env.name)) s

  -- `store_payload`
  unfoldable pub store_payload : Digest → Payload → State → State
  store_payload key p s = record s { store = insert key (env.encode p) s.store }

  abbrev pub has_room : State → Bool
  has_room s = ltb (length s.queue) env.parameters.queue_capacity

  -- `process_own_payload`
  unfoldable pub process_own_payload : Digest → Payload → State → MempoolResult (Unit {0}) × State
  unfolding broadcast store_payload
  process_own_payload digest p s =
      if has_room s
      then (ok tt, broadcast (payload p) (store_payload digest p s))
      else (err mempool_full, s)

  abbrev pub enqueue : Digest → State → MempoolResult (Unit {0}) × State
  enqueue digest s = (ok tt, record s { queue = s.queue ++ digest ∷ [] })

  -- `handle_own_payload`
  unfoldable pub handle_own_payload : Payload → State → MempoolResult (Unit {0}) × State
  unfolding process_own_payload
  handle_own_payload p s =
      let digest = payload_digest env.primitives p in
      if has_room s
      then and_then (process_own_payload digest p s) (enqueue digest)
      else (err mempool_full, s)

  -- `handle_others_payload`
  unfoldable pub handle_others_payload : Payload → State → MempoolResult (Unit {0}) × State
  unfolding store_payload
  handle_others_payload p s =
      let digest = payload_digest env.primitives p in
      if leb (payload_size p) env.parameters.max_payload_size
      then enqueue digest (store_payload digest p s)
      else (err payload_too_big, s)

  -- One round of the loop of `handle_request`.
  unfoldable pub answer_decoded :
      Option Payload → PublicKey → State → MempoolResult (Unit {0}) × State
  unfolding transmit_to
  answer_decoded none requestor s = (err serialization_error, s)
  answer_decoded (some p) requestor s = transmit_to (payload p) requestor s

  unfoldable pub answer : Option (List ℕ) → PublicKey → State → MempoolResult (Unit {0}) × State
  unfolding answer_decoded
  answer none requestor s = (ok tt, s)
  answer (some bytes) requestor s = answer_decoded (env.decode bytes) requestor s

  -- `handle_request`, which ends at the first error.
  unfoldable pub handle_request : List Digest → PublicKey → State → MempoolResult (Unit {0}) × State
  unfolding answer
  handle_request [] requestor s = (ok tt, s)
  handle_request (d ∷ ds) requestor s =
      if env.read_fails s.effects d
      then (err store_error, s)
      else and_then (answer (lookup d s.store) requestor s) (handle_request ds requestor)

  -- `get_payload` where the queue is empty: a payload is made, or none.
  unfoldable pub get_made : Option Payload → State → MempoolResult (List Digest) × State
  unfolding process_own_payload
  get_made none s = (ok [], s)
  get_made (some p) s =
      let digest = payload_digest env.primitives p in
      and_then (process_own_payload digest p s) (λ s'. (ok (digest ∷ []), s'))

  -- `get_payload`; a digest has 32 bytes.
  unfoldable pub get_queued : ℕ → List Digest → State → MempoolResult (List Digest) × State
  unfolding get_made drop_all
  get_queued max [] s =
      let made = request s.runner in get_made made.0 (record s { runner = made.1 })
  get_queued max (d ∷ ds) s =
      let digests = take (max / 32) (d ∷ ds) in
      (ok digests, record s { queue = drop_all digests s.queue })

  unfoldable pub get_payload : ℕ → State → MempoolResult (List Digest) × State
  unfolding get_queued
  get_payload max s = get_queued max s.queue s

  -- The loop of `Synchronizer::verify_payload`: the digests that are not stored, each once; it
  -- ends at the first read that fails.
  unfoldable pub missing : List Digest → State → MempoolResult (List Digest)
  missing [] s = ok []
  missing (d ∷ ds) s =
      let rest = missing ds s in
      if env.read_fails s.effects d
      then err store_error
      else do ds' ← rest; ok (if contains_key d s.store then ds' else set_insert d ds')

  -- `Synchronizer::verify_payload`, `true` where all is there.
  unfoldable pub verify_missing :
      MempoolResult (List Digest) → Block → State → MempoolResult Bool × State
  verify_missing (ok []) block s = (ok true, s)
  verify_missing (ok (d ∷ ds)) block s = (ok false, emit (inner (sync (d ∷ ds) block)) s)
  verify_missing (err e) block s = (err e, s)
  verify_missing panic block s = (panic, s)
  verify_missing out_of_fuel block s = (out_of_fuel, s)

  unfoldable pub verify_payload : Block → State → MempoolResult Bool × State
  unfolding missing verify_missing
  verify_payload block s = verify_missing (missing block.payload s) block s

  -- `cleanup`
  unfoldable pub cleanup : List Digest → ℕ → State → State
  unfolding drop_all
  cleanup digests round s =
      emit (inner (clean round)) (record s { queue = drop_all digests s.queue })

  unfoldable pub on_message : MempoolMessage → State → MempoolResult (Unit {0}) × State
  unfolding handle_own_payload handle_others_payload handle_request
  on_message (own_payload p) s = handle_own_payload p s
  on_message (payload p) s = handle_others_payload p s
  on_message (payload_request ds requestor) s = handle_request ds requestor s

  -- One round of `run`, with what is answered or logged.
  unfoldable pub on_event : Event → State → Answer × State
  unfolding on_message get_payload verify_payload cleanup status_of
  on_event (message m) s = let r = on_message m s in (logged r.0, r.1)
  on_event (get_asked max) s = let r = get_payload max s in (payloads (or_default r.0), r.1)
  on_event (verify_asked block) s = let r = verify_payload block s in (status (status_of r.0), r.1)
  on_event (cleanup_asked ds round) s = (logged (ok tt), cleanup ds round s)
  on_event (runner_ran r) s = (logged (ok tt), record s { runner = r })
  on_event (other_stored key bytes) s =
      (logged (ok tt), record s { store = insert key bytes s.store })

  unfoldable pub run_core : List Event → State → List Answer × State
  unfolding on_event
  run_core [] s = ([], s)
  run_core (e ∷ es) s =
      let here = on_event e s in let rest = run_core es here.1 in (here.0 ∷ rest.0, rest.1)
