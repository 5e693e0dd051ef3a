-- ===== src/Gossip.antt =====
-- gossip/src/lib.rs: the task that hands messages between its node and libp2p, which is not part of the
-- repository: what it answers is given. Topics, keys and channels are numbers that nothing computes
-- with. A panic ends the task.
pub mod Answers
use accountability_gadget_pr.Base.{
  ℕ, List, [], ◌∷◌, ◌++◌, Option, none, some, Bool, Outcome, ok, panic, expect, ◌>>=◌, ◌==◌,
  if◌then◌else◌,
}
use accountability_gadget_pr.Base.Dict.{Dict, lookup, lookup_or, insert}

-- `GossipCmd`
pub data GossipCmd : Type 0 where
  subscribe : ℕ → ℕ → GossipCmd
  publish : ℕ → ℕ → List ℕ → Bool → GossipCmd
  retrieve : ℕ → ℕ → GossipCmd

-- What the swarm reports, as far as the task looks at it: a message of a topic, the records of a query,
-- a query that failed, or anything else.
pub data SwarmEvent : Type 0 where
  message : ℕ → List ℕ → SwarmEvent
  records : List (ℕ × List ℕ) → SwarmEvent
  not_found other : SwarmEvent

pub data Event : Type 0 where
  command : GossipCmd → Event
  swarm : SwarmEvent → Event

-- What the task asks of libp2p, and what it sends on a channel: to a subscriber, or to one who waits for
-- a record.
pub data Effect : Type 0 where
  subscribed : ℕ → Effect
  put_record : ℕ → List ℕ → Effect
  published : ℕ → List ℕ → Effect
  get_record : ℕ → Effect
  sent answered : ℕ → ℕ → List ℕ → Effect

-- bincode, whether libp2p takes a subscription or a record, and whether a channel is still open.
pub record Env : Type 0 where
  pub kv_serialize : ℕ → List ℕ → List ℕ
  pub kv_deserialize : List ℕ → Option (ℕ × List ℕ)
  pub takes_topic : ℕ → Bool
  pub takes_record : ℕ → List ℕ → Bool
  pub is_open : ℕ → Bool

-- The two maps of the task; the effects, newest first.
pub record State : Type 0 where
  pub subscriptions : Dict ℕ
  pub pending_retrievals : Dict (List ℕ)
  pub effects : List Effect

abbrev pub start : State
start = record { subscriptions = []; pending_retrievals = []; effects = [] }

-- The table after `remove_entry`.
unfoldable pub remove : ℕ → Dict (List ℕ) → Dict (List ℕ)
remove key [] = []
remove key ((k, txs) ∷ m) = if key == k then m else (k, txs) ∷ remove key m

abbrev pub log : Effect → State → State
log e s = record s { effects = e ∷ s.effects }

module _ (env : Env) where
  -- `send` and its `expect`.
  unfoldable pub send : ℕ → Effect → State → Outcome ⊥ State
  send tx e s = if env.is_open tx then ok (log e s) else panic

  -- The send to the subscriber of a topic.
  unfoldable pub replay : ℕ → ℕ → List ℕ → State → Outcome ⊥ State
  unfolding send
  replay topic key value s = do
    tx ← expect (lookup topic s.subscriptions)
    send tx (sent tx key value) s

  unfoldable pub send_all : List ℕ → ℕ → List ℕ → State → Outcome ⊥ State
  unfolding send
  send_all [] key value s = ok s
  send_all (tx ∷ txs) key value s = do
    s' ← send tx (answered tx key value) s
    send_all txs key value s'

  -- One record of a query: all who wait for its key are answered.
  unfoldable pub on_record : ℕ → List ℕ → State → Outcome ⊥ State
  unfolding send_all remove
  on_record key value s = do
    txs ← expect (lookup key s.pending_retrievals)
    send_all txs key value (record s { pending_retrievals = remove key s.pending_retrievals })

  unfoldable pub on_records : List (ℕ × List ℕ) → State → Outcome ⊥ State
  unfolding on_record
  on_records [] s = ok s
  on_records ((key, value) ∷ rest) s = do s' ← on_record key value s; on_records rest s'

  -- A publication, once its record was put.
  unfoldable pub spread : ℕ → ℕ → List ℕ → State → Outcome ⊥ State
  unfolding replay
  spread topic key value s =
      replay topic key value (log (published topic (env.kv_serialize key value)) s)

  unfoldable pub on_command : GossipCmd → State → Outcome ⊥ State
  unfolding spread
  on_command (subscribe topic tx) s =
      if env.takes_topic topic
      then ok
          (log (subscribed topic) (record s { subscriptions = insert topic tx s.subscriptions }))
      else panic
  on_command (publish topic key value ephemeral) s =
      if ephemeral
      then spread topic key value s
      else if env.takes_record key value
      then spread topic key value (log (put_record key value) s)
      else panic
  on_command (retrieve key tx) s = ok (
      log (get_record key) (record s {
        pending_retrievals =
            insert key (lookup_or key [] s.pending_retrievals ++ tx ∷ []) s.pending_retrievals;
      }))

  unfoldable pub on_swarm : SwarmEvent → State → Outcome ⊥ State
  unfolding replay on_records
  on_swarm (message topic bytes) s = do
    kv ← expect (env.kv_deserialize bytes)
    replay topic kv.0 kv.1 s
  on_swarm (records found) s = on_records found s
  on_swarm not_found s = ok s
  on_swarm other s = ok s

  -- The loop of the task.
  unfoldable pub run_gossip : List Event → State → Outcome ⊥ State
  unfolding on_command on_swarm
  run_gossip [] s = ok s
  run_gossip (command c ∷ es) s = do s' ← on_command c s; run_gossip es s'
  run_gossip (swarm e ∷ es) s = do s' ← on_swarm e s; run_gossip es s'
