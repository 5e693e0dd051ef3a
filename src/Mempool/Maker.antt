-- ===== src/Mempool/Maker.antt =====
-- How mempool/src/payload.rs packs transactions.
use accountability_gadget_pr.Base.{◌≡◌, refl, List, [], ◌∷◌, Option, none, some, map, ap}
use accountability_gadget_pr.Mempool.Payload.{
  Payload, new_runner, request, RunnerEvent, client, requested, on_runner_event, run_runner,
}

-- What is to come out of each event: the transaction alone, and nothing for a request.
unfoldable pub packed : RunnerEvent → Option Payload
packed (client tx) = some (record { transactions = tx ∷ [] })
packed requested = some (record { transactions = [] })

-- Whatever comes in, from the start: each transaction of a client goes to the core at once, as the only
-- one of its payload; a request is answered with an empty payload, of which the payload maker makes
-- none; and the task ends as it began.
pub run_runner-immediate :
    (es : List RunnerEvent)
    → (run_runner es new_runner ≡ (map packed es, new_runner)) × ((request new_runner).0 ≡ none)
unfolding run_runner on_runner_event packed request
run_runner-immediate [] = (refl, refl)
run_runner-immediate (client tx ∷ es) =
    let (e, n) = run_runner-immediate es in
    (ap (λ r. (some (record { transactions = tx ∷ [] }) ∷ r.0, r.1)) e, n)
run_runner-immediate (requested ∷ es) =
    let (e, n) = run_runner-immediate es in
    (ap (λ r. (some (record { transactions = [] }) ∷ r.0, r.1)) e, n)
