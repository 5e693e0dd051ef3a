-- ===== src/Tests/Commits.antt =====
-- A run of consensus/src/core.rs that commits a block.
use accountability_gadget_pr.Base.{refl, inr, List, [], ◌∷◌, true, ok_injective}
use mathlib.Core.List.{Memᴰ}
use accountability_gadget_pr.Base.Dict.{insert, lookup}
use accountability_gadget_pr.Crypto.{Primitives, default_signature}
use accountability_gadget_pr.Consensus.Messages.{Tc}
use accountability_gadget_pr.Consensus.Aggregator.Sound.{BatchIsComplete}
use accountability_gadget_pr.Consensus.Core.{
  Env, Effect, committed, propose_message, loop_back, tc_message, new_core,
}
use accountability_gadget_pr.Consensus.Core.Run.{Event, received, timer_fired, run, AreTold, booted}
use accountability_gadget_pr.Consensus.Core.Safety.Kept.{IsTold, run-Logged}
use accountability_gadget_pr.Consensus.Core.Safety.Logged.{Logged}
use accountability_gadget_pr.Consensus.Core.Safety.Stored.{Stored}
use accountability_gadget_pr.Tests.Toy.{four, four_fits}
use accountability_gadget_pr.Tests.Chain.{block_0, block_1, block_2, codec_of, node, scheme}
use accountability_gadget_pr.Crypto.{
  verify_batch, gather_batch, flatten, be_bytes, le_bytes, verify,
}
use accountability_gadget_pr.Consensus.Config.{
  stake, stake_in, new_committee, collect, sum_stakes, quorum_threshold, total_votes, address,
  broadcast_addresses,
}
use accountability_gadget_pr.Consensus.Messages.{
  new_vote, block_bytes, block_digest, vote_bytes, verify_qc, qc_digest, count_weight, qc_eq,
  verify_block, verify_tc?, payload_bytes,
}
use accountability_gadget_pr.Consensus.Core.{emit, modify, gets, lift, pure}
use accountability_gadget_pr.Consensus.Core.Handlers.{
  boot, on_message, handle_proposal, process_qc, advance_round, update_high_qc, driver_verify,
  status_result, process_block, get_ancestors, get_parent_block, read_store, with_parent,
  with_grandparent, process_with_ancestors, load_parent, store_block, create_vote, make_vote,
  can_extend, increase_last_voted_round, none_or, send_vote, transmit, propose_if_leader,
}
use accountability_gadget_pr.Consensus.Aggregator.{new_aggregator}
use accountability_gadget_pr.Consensus.Core.Run.{run_loop, on_event, with_result, logged, expected}
use accountability_gadget_pr.Tests.Table.{find, block_eq}
use accountability_gadget_pr.Consensus.Core
use accountability_gadget_pr.Consensus.Core.Handlers.{
  handle_tc, handle_timeout, local_timeout_round,
}
use accountability_gadget_pr.Consensus.Messages.{
  verify_tc, new_timeout, verify_timeout, verify_entries,
}
use accountability_gadget_pr.Consensus.Aggregator.{add_timeout, append_timeout, cleanup}
use accountability_gadget_pr.Base.Dict.{lookup_or, retain_keys}
use accountability_gadget_pr.Tests.Chain.{passes, is_signed, all_pass, table, write, read}

-- Every signature passes.
abbrev lenient : Primitives
lenient = record scheme { verify_strict = λ d key s. true; batch_verifies = λ batch. true }

lenient_complete : BatchIsComplete lenient
lenient_complete batch h = refl

abbrev env : Env
env = record (node 1).env { primitives = lenient }

-- A TC of authorities 1, 3 and 4.
abbrev tc : Tc
tc = record {
  round = 4;
  votes = (1, default_signature, 2) ∷ (3, default_signature, 2) ∷ (4, default_signature, 2) ∷ [];
}

-- The third block commits the first one; it then comes back from the mempool driver, and a TC follows.
abbrev events : List Event
events =
    received (propose_message block_0)
    ∷ received (propose_message block_1)
    ∷ received (propose_message block_2)
    ∷ received (loop_back block_2)
    ∷ received (tc_message tc)
    ∷ timer_fired
    ∷ []

abbrev effects : List Effect
effects = (run env 3 events (new_core env [])).1.effects

told : AreTold env 3 (IsTold env) events (booted env 3 (new_core env []))
unfolding AreTold IsTold handle_tc verify_tc handle_timeout local_timeout_round run run_loop
    on_event with_result logged expected boot on_message handle_proposal process_qc advance_round
    update_high_qc driver_verify status_result process_block get_ancestors get_parent_block
    read_store with_parent with_grandparent process_with_ancestors store_block create_vote make_vote
    can_extend increase_last_voted_round none_or send_vote transmit propose_if_leader emit modify
    gets lift pure Core.◌>>=◌ new_core new_aggregator verify_block verify_tc? verify passes
    is_signed flatten be_bytes le_bytes block_digest block_bytes payload_bytes find table stake
    stake_in lookup insert four new_committee collect qc_eq new_vote address broadcast_addresses
    load_parent count_weight verify_qc quorum_threshold total_votes sum_stakes verify_batch
    gather_batch qc_digest all_pass write read block_eq vote_bytes new_timeout verify_timeout
    add_timeout append_timeout lookup_or cleanup retain_keys verify_entries
told = (
  tt,
  (tt, (tt, (inr (Memᴰ.tail (Memᴰ.tail (Memᴰ.tail (Memᴰ.tail (Memᴰ.head refl))))), (refl, tt)))),
)

commits : Memᴰ (committed block_0) effects
unfolding AreTold IsTold handle_tc verify_tc handle_timeout local_timeout_round run run_loop
    on_event with_result logged expected boot on_message handle_proposal process_qc advance_round
    update_high_qc driver_verify status_result process_block get_ancestors get_parent_block
    read_store with_parent with_grandparent process_with_ancestors store_block create_vote make_vote
    can_extend increase_last_voted_round none_or send_vote transmit propose_if_leader emit modify
    gets lift pure Core.◌>>=◌ new_core new_aggregator verify_block verify_tc? verify passes
    is_signed flatten be_bytes le_bytes block_digest block_bytes payload_bytes find table stake
    stake_in lookup insert four new_committee collect qc_eq new_vote address broadcast_addresses
    load_parent count_weight verify_qc quorum_threshold total_votes sum_stakes verify_batch
    gather_batch qc_digest all_pass write read block_eq vote_bytes new_timeout verify_timeout
    add_timeout append_timeout lookup_or cleanup retain_keys verify_entries
commits = Memᴰ.tail (Memᴰ.tail (Memᴰ.tail (Memᴰ.tail (Memᴰ.head refl))))

nothing-Stored : Stored env [] 0
unfolding Stored lookup
nothing-Stored d bytes b e h = cc

run-Logged_example :
    let s = (run env 3 events (new_core env [])).1 in
    Logged lenient four s.effects s.high_qc.round s.last_voted_round
run-Logged_example =
    run-Logged env lenient_complete four_fits codec_of (λ es d written bytes b e h. ok_injective e)
      3 [] events nothing-Stored told
