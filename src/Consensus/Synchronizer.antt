-- ===== src/Consensus/Synchronizer.antt =====
-- consensus/src/synchronizer.rs: the task that waits for the parents of blocks, and asks the other nodes
-- for them. (`get_parent_block` and `get_ancestors` run in the task of the core: Core/Handlers.)
-- What one round of the `select!` yields is an event; which waiting block is delivered next is for the
-- store to say; a time is in milliseconds, and is read once for an event.
pub mod Waiting
pub mod Lost
use accountability_gadget_pr.Base.{
  ℕ, zero, suc, ◌+◌, List, [], ◌∷◌, ◌++◌, map, Option, none, some, Bool, not, ltb, ◌==◌, contains,
  filter, set_insert, set_remove, get_elem?, remove_at, if◌then◌else◌,
}
use accountability_gadget_pr.Base.Dict.{Dict, insert, contains_key, retain_keys, keys}
use accountability_gadget_pr.Crypto.{Digest, PublicKey, Primitives}
use accountability_gadget_pr.Consensus.Config.{Committee, broadcast_addresses}
use accountability_gadget_pr.Consensus.Messages.{Block, parent, block_digest}
use accountability_gadget_pr.Consensus.Core.{ConsensusMessage, sync_request, loop_back}

pub record Env : Type 0 where
  pub primitives : Primitives
  pub name : PublicKey
  pub committee : Committee
  pub sync_retry_delay : ℕ

-- To the network, and to the core.
pub data Effect : Type 0 where
  sent : ConsensusMessage → List ℕ → Effect
  delivered : ConsensusMessage → Effect

-- The variables of the task; the effects are newest first.
pub record Synchronizer : Type 0 where
  pub waiting : List Block
  pub pending : List Digest
  pub requests : Dict ℕ
  pub effects : List Effect

abbrev pub new_synchronizer : Synchronizer
new_synchronizer = record { waiting = []; pending = []; requests = []; effects = [] }

pub data Event : Type 0 where
  asked : Block → ℕ → Event
  stored failed : ℕ → Event
  timer : ℕ → Event

module _ (env : Env) where
  -- `Synchronizer::transmit` of a request to all others.
  unfoldable pub ask_all : Digest → List Effect → List Effect
  ask_all d es = sent (sync_request d env.name) (broadcast_addresses env.committee env.name) ∷ es

  -- A block whose parent is missing.
  unfoldable pub on_asked : Block → ℕ → Synchronizer → Synchronizer
  unfolding ask_all
  on_asked b now s =
      let known = contains (block_digest env.primitives b) s.pending in
      let requested = contains_key (parent b) s.requests in
      record {
        waiting = if known then s.waiting else s.waiting ++ b ∷ [];
        pending = set_insert (block_digest env.primitives b) s.pending;
        requests =
            if known
            then s.requests
            else if requested
            then s.requests
            else insert (parent b) now s.requests;
        effects =
            if known
            then s.effects
            else if requested
            then s.effects
            else ask_all (parent b) s.effects;
      }

  -- `waiting.next()` with `Ok(block)`.
  unfoldable pub on_stored : ℕ → Option Block → Synchronizer → Synchronizer
  unfolding remove_at
  on_stored i none s = s
  on_stored i (some b) s = record {
    waiting = remove_at i s.waiting;
    pending = set_remove (block_digest env.primitives b) s.pending;
    requests = retain_keys (λ k. not (k == parent b)) s.requests;
    effects = delivered (loop_back b) ∷ s.effects;
  }

  -- The requests that are due again.
  unfoldable pub overdue : ℕ → Dict ℕ → List Digest
  overdue now requests = keys (filter (λ r. ltb (r.1 + env.sync_retry_delay) now) requests)

  unfoldable pub ask_each : List Digest → List Effect → List Effect
  unfolding ask_all
  ask_each [] es = es
  ask_each (d ∷ ds) es = ask_each ds (ask_all d es)

  -- One round of the loop; with `Err` only a line is logged.
  unfoldable pub on_sync_event : Event → Synchronizer → Synchronizer
  unfolding on_asked on_stored overdue ask_each remove_at
  on_sync_event (asked b now) s = on_asked b now s
  on_sync_event (stored i) s = on_stored i (get_elem? s.waiting i) s
  on_sync_event (failed i) s = record s { waiting = remove_at i s.waiting }
  on_sync_event (timer now) s = record s { effects = ask_each (overdue now s.requests) s.effects }

  unfoldable pub run_sync : List Event → Synchronizer → Synchronizer
  unfolding on_sync_event
  run_sync [] s = s
  run_sync (e ∷ es) s = run_sync es (on_sync_event e s)
