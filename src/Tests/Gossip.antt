-- ===== src/Tests/Gossip.antt =====
-- Runs of gossip/src/lib.rs.
use accountability_gadget_pr.Base.{◌+◌, ◌≡◌, refl, List, [], ◌∷◌, none, true, ok, panic}
use accountability_gadget_pr.Base.Dict.{lookup, lookup_or, insert}
use accountability_gadget_pr.Gossip.{
  subscribe, publish, retrieve, records, Event, command, swarm, sent, answered, get_record,
  published, subscribed, Env, State, start, remove, send, replay, send_all, on_record, on_records,
  on_command, on_swarm, spread, run_gossip,
}
use accountability_gadget_pr.Gossip.Answers.{answers, waiting, asked, run_gossip-answers}

abbrev env : Env
env = record {
  kv_serialize = λ key value. key ∷ value;
  kv_deserialize = λ bytes. none;
  takes_topic = λ topic. true;
  takes_record = λ key value. true;
  is_open = λ tx. true;
}

-- A subscription, a publication that is not stored, two retrievals of different keys, and a record.
abbrev events : List Event
events =
    command (subscribe 1 50)
    ∷ command (publish 1 7 (9 ∷ []) true)
    ∷ command (retrieve 7 60)
    ∷ command (retrieve 8 60)
    ∷ swarm (records ((7, 9 ∷ []) ∷ []))
    ∷ []

abbrev after : State
after = record {
  subscriptions = (1, 50) ∷ [];
  pending_retrievals = (8, 60 ∷ []) ∷ [];
  effects =
      answered 60 7 (9 ∷ [])
      ∷ get_record 8
      ∷ get_record 7
      ∷ sent 50 7 (9 ∷ [])
      ∷ published 1 (7 ∷ 9 ∷ [])
      ∷ subscribed 1
      ∷ [];
}

run_of_events : run_gossip env events start ≡ ok after
unfolding run_gossip on_command on_swarm on_records on_record send_all send replay spread remove
    lookup lookup_or insert
run_of_events = refl

run_gossip-answers_example :
    answers 60 after.effects + waiting 60 after.pending_retrievals ≡ asked 60 events
run_gossip-answers_example = run_gossip-answers 60 env events after run_of_events

-- Two retrievals of one key, and a record for each: the second record ends the task.
abbrev twice : List Event
twice =
    command (retrieve 7 60)
    ∷ command (retrieve 7 61)
    ∷ swarm (records ((7, 9 ∷ []) ∷ []))
    ∷ swarm (records ((7, 9 ∷ []) ∷ []))
    ∷ []

run_of_twice : run_gossip env twice start ≡ panic
unfolding run_gossip on_command on_swarm on_records on_record send_all send replay spread remove
    lookup lookup_or insert
run_of_twice = refl
