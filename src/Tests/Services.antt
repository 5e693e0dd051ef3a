-- ===== src/Tests/Services.antt =====
-- Runs of the store, of the mempool and of the synchronizer of consensus.
use accountability_gadget_pr.Base.{
  ℕ, ◌≡◌, refl, ◌==◌, ==_refl, set_insert, List, [], ◌∷◌, Option, none, some, Bool, true, false,
  Outcome, ok, if◌then◌else◌,
}
use accountability_gadget_pr.Base.Dict.{Dict, lookup, lookup_or}
use accountability_gadget_pr.Crypto.{Digest}
use accountability_gadget_pr.Consensus.Messages.{Block, new_block, qc_genesis, block_digest}
use accountability_gadget_pr.Store.{
  Value, Db, StoreCommand, write, read, notify_read, run_store, new_store,
}
use accountability_gadget_pr.Store.Waiting.{IsLawful, run_promised, run_store-refines}
use accountability_gadget_pr.Mempool.Payload.{payload_size, sizes, payload_digest}
use accountability_gadget_pr.Mempool.Config
use accountability_gadget_pr.Mempool.Core
use accountability_gadget_pr.Mempool.Queue.{get_payload-accept, any_fails}
use accountability_gadget_pr.Consensus.Core.{accept}
use accountability_gadget_pr.Consensus.Synchronizer
use accountability_gadget_pr.Consensus.Synchronizer.Lost.{IsLost, run_sync-failed}
use accountability_gadget_pr.Tests.Toy.{toy, four}

-- A database that is a list of what was put, newest first.
abbrev listed : Db
listed = record {
  Contents = Dict Value;
  Error = Unit {0};
  get = λ d k. ok (lookup k d);
  put = λ d k v. (k, v) ∷ d;
}

listed_if :
    (b : Bool) (v : Value) (d : Dict Value) (k : ℕ)
    → (let r : Outcome (Unit {0}) (Option Value) = ok (if b then some v else lookup k d) in
        r ≡ (if b then ok (some v) else ok (lookup k d)))
listed_if true v d k = refl
listed_if false v d k = refl

listed_lawful : IsLawful listed
unfolding lookup
listed_lawful = record { get_put = λ d j k v. listed_if (j == k) v d k }

abbrev commands : List StoreCommand
commands =
    notify_read 5 0
    ∷ notify_read 6 1
    ∷ notify_read 5 2
    ∷ write 5 (9 ∷ [])
    ∷ read 6 3
    ∷ notify_read 5 4
    ∷ []

run_store-refines_example :
    let r = run_store listed commands (new_store listed []) in
    let r' = run_promised listed commands (record { stored = λ k. lookup k []; waiting = [] }) in
    (r.0 ≡ r'.0)
    × ((k : ℕ) (v : Value)
        → listed.get r.1.contents k ≡ ok (some v)
        → lookup_or k [] r.1.obligations ≡ [])
run_store-refines_example =
    run_store-refines listed listed_lawful [] (λ k. lookup k []) commands (λ k. refl)

-- A node of a mempool whose payloads have at most 3 bytes.
abbrev pool : ℕ → Core.Env
pool name = record {
  primitives = toy;
  name = name;
  committee = Config.new_committee ((1, 11, 21) ∷ (2, 12, 22) ∷ []) 1;
  parameters = record {
    queue_capacity = 2;
    sync_retry_delay = 10;
    max_payload_size = 3;
    min_block_delay = 1;
  };
  read_fails = λ effects key. false;
  encode = λ p. payload_size p ∷ [];
  decode = λ bytes. none;
}

-- The payload of one client and one of another node are queued; consensus asks for at most one digest.
abbrev before : List Core.Event
before =
    Core.message (Core.own_payload (record { transactions = (1 ∷ []) ∷ [] }))
    ∷ Core.message (Core.payload (record { transactions = (2 ∷ []) ∷ [] }))
    ∷ []

abbrev queued : Digest
queued = payload_digest toy (record { transactions = (1 ∷ []) ∷ [] })

abbrev proposed : Block
proposed = new_block toy qc_genesis none 2 1 (queued ∷ [])

handed_out :
    (Core.on_event
      (pool 1)
      (Core.get_asked 40)
      (Core.run_core (pool 1) before (Core.new_core [])).1).0
    ≡ Core.payloads proposed.payload
unfolding Core.on_event Core.run_core Core.on_message Core.handle_own_payload
    Core.handle_others_payload Core.get_payload Core.get_queued new_block payload_size sizes
handed_out = refl

get_payload-accept_example :
    (Core.on_event
      (pool 1)
      (Core.verify_asked proposed)
      (Core.run_core
        (pool 1)
        (Core.cleanup_asked (queued ∷ []) 1 ∷ [])
        (Core.on_event
          (pool 1)
          (Core.get_asked 40)
          (Core.run_core (pool 1) before (Core.new_core [])).1).1).1).0
    ≡ Core.status accept
unfolding any_fails new_block
get_payload-accept_example =
    get_payload-accept (pool 1) [] before (Core.cleanup_asked (queued ∷ []) 1 ∷ []) 40 proposed
      handed_out

abbrev sync_env : Synchronizer.Env
sync_env = record { primitives = toy; name = 3; committee = four; sync_retry_delay = 100 }

abbrev asks : List Synchronizer.Event
asks = Synchronizer.asked proposed 5 ∷ Synchronizer.asked proposed 6 ∷ Synchronizer.timer 200 ∷ []

first_waits :
    (Synchronizer.run_sync sync_env asks Synchronizer.new_synchronizer).waiting ≡ proposed ∷ []
unfolding Synchronizer.run_sync Synchronizer.on_sync_event set_insert
first_waits = rw (==_refl (block_digest toy proposed)) refl

run_sync-failed_example : IsLost sync_env (block_digest toy proposed) (
    Synchronizer.run_sync sync_env (Synchronizer.asked proposed 300 ∷ []) (
      Synchronizer.on_sync_event sync_env
        (Synchronizer.failed 0)
        (Synchronizer.run_sync sync_env asks Synchronizer.new_synchronizer)))
run_sync-failed_example =
    run_sync-failed sync_env asks (Synchronizer.asked proposed 300 ∷ []) 0 proposed
      (rw first_waits refl)
