-- ===== src/Tests/Core.antt =====
-- Runs of consensus/src/core.rs on a committee of four, as authority 3.
use accountability_gadget_pr.Base.{◌+◌, ◌%◌, List, [], ◌∷◌, none, false, Distinct}
use accountability_gadget_pr.Consensus.Config.{default_parameters}
use accountability_gadget_pr.Consensus.Messages.{Block, new_block, qc_genesis, block_bytes}
use accountability_gadget_pr.Consensus.Core.{
  Env, new_core, propose_message, loop_back, tc_message, accept,
}
use accountability_gadget_pr.Consensus.Core.Run.{Event, received, timer_fired, run}
use accountability_gadget_pr.Consensus.Core.Voting.{created_rounds, run-votes_Distinct}
use accountability_gadget_pr.Base.{ok}
use accountability_gadget_pr.Consensus.Core.HighQc.{IsGenuine, run-high_qc}
use accountability_gadget_pr.Tests.Toy.{toy, toy_complete, four, four_fits}

abbrev env : Env
env = record {
  primitives = toy;
  name = 3;
  committee = four;
  parameters = default_parameters;
  get_leader = λ round. round % 4 + 1;
  boycott_proposals = false;
  mempool_get = λ effects size. [];
  mempool_verify = λ effects block. accept;
  store_read = λ effects key written. ok written;
  encode = block_bytes;
  decode = λ bytes. none;
}

-- Two proposals of authority 2 for round 1, and a TC that nobody signed.
abbrev first : Block
first = new_block toy qc_genesis none 2 1 (11 ∷ [])

abbrev second : Block
second = new_block toy qc_genesis none 2 1 (12 ∷ [])

abbrev events : List Event
events =
    received (propose_message first)
    ∷ received (propose_message second)
    ∷ received (loop_back second)
    ∷ timer_fired
    ∷ received (tc_message (record { round = 6; votes = [] }))
    ∷ []

run-votes_Distinct_example :
    Distinct (created_rounds (run env 5 events (new_core env [])).1.effects)
run-votes_Distinct_example = run-votes_Distinct env 5 [] events

run-high_qc_example : IsGenuine toy four (run env 5 events (new_core env [])).1.high_qc
run-high_qc_example = run-high_qc env toy_complete four_fits 5 [] events
