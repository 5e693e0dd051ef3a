-- ===== src/Mempool/Payload.antt =====
-- mempool/src/messages.rs and payload.rs: payloads, and the task that makes them from the transactions
-- of clients. The source makes a payload of every transaction at once; `max_size` is not read.
use accountability_gadget_pr.Base.{
  ℕ, zero, suc, ◌+◌, List, [], ◌∷◌, ◌++◌, Option, none, some, length,
}
use accountability_gadget_pr.Crypto.{Digest, Primitives}

abbrev pub Transaction : Type 0
Transaction = List ℕ

pub record Payload : Type 0 where
  pub transactions : List Transaction

unfoldable pub sizes : List Transaction → ℕ
sizes [] = 0
sizes (tx ∷ txs) = length tx + sizes txs

-- `Payload::size`
unfoldable pub payload_size : Payload → ℕ
unfolding sizes
payload_size p = sizes p.transactions

unfoldable pub hashed : List Transaction → List ℕ
hashed [] = []
hashed (tx ∷ txs) = tx ++ hashed txs

-- `Hash for Payload`
unfoldable pub payload_digest : Primitives → Payload → Digest
unfolding hashed
payload_digest c p = c.sha512 (hashed p.transactions)

-- The fields of `Runner` that change.
pub record Runner : Type 0 where
  pub transactions : List Transaction
  pub size : ℕ

abbrev pub new_runner : Runner
new_runner = record { transactions = []; size = 0 }

-- `Runner::make`
unfoldable pub make : Runner → Payload × Runner
make r = (record { transactions = r.transactions }, record { transactions = []; size = 0 })

-- `Runner::add`
unfoldable pub add : Transaction → Runner → Option Payload × Runner
unfolding make
add tx r =
    let made =
      make (record { transactions = r.transactions ++ tx ∷ []; size = r.size + length tx }) in
    (some made.0, made.1)

unfoldable pub unless_empty : ℕ → Payload → Option Payload
unless_empty zero p = none
unless_empty (suc n) p = some p

-- `PayloadMaker::make`
unfoldable pub request : Runner → Option Payload × Runner
unfolding make unless_empty payload_size
request r = let made = make r in (unless_empty (payload_size made.0) made.0, made.1)

-- The `select!` of `Runner::run`: a transaction of a client, or a request.
pub data RunnerEvent : Type 0 where
  client : Transaction → RunnerEvent
  requested : RunnerEvent

-- What goes to the core, or to the sender of the request.
unfoldable pub on_runner_event : RunnerEvent → Runner → Option Payload × Runner
unfolding add make
on_runner_event (client tx) r = add tx r
on_runner_event requested r = (some (make r).0, (make r).1)

-- The payloads that a run makes, in turn.
unfoldable pub run_runner : List RunnerEvent → Runner → List (Option Payload) × Runner
run_runner [] r = ([], r)
run_runner (e ∷ es) r =
    let here = on_runner_event e r in let rest = run_runner es here.1 in (here.0 ∷ rest.0, rest.1)
