-- ===== src/Tests/Timeouts.antt =====
-- Timeouts of consensus/src/aggregator.rs on a committee of four, and what is signed.
use accountability_gadget_pr.Base.{◌≡◌, refl, [], ◌∷◌, some, ok, set_insert}
use accountability_gadget_pr.Base.Dict.{insert, lookup, lookup_or}
use accountability_gadget_pr.Crypto.{PublicKey, verify, flatten, be_bytes, le_bytes}
use accountability_gadget_pr.Consensus.Config.{
  new_committee, collect, stake, stake_in, quorum_threshold, total_votes, sum_stakes,
}
use accountability_gadget_pr.Consensus.Messages.{
  Tc, Timeout, new_timeout, timeout_digest, timeout_bytes, verify_timeout, verify_tc,
}
use accountability_gadget_pr.Consensus.Messages.Preimages.{Statement, of_block}
use accountability_gadget_pr.Consensus.Aggregator.{
  Aggregator, new_aggregator, add_timeout, append_timeout, count_timeout,
}
use accountability_gadget_pr.Consensus.Aggregator.Timeouts.{
  HasTcMakers, new_aggregator-HasTcMakers, add_timeout-HasTcMakers, add_timeout-verify_tc,
}
use accountability_gadget_pr.Tests.Toy.{toy, toy_hash, toy_strict, four, four_fits}

unfoldable timeout_of : PublicKey → Timeout
unfolding new_timeout
timeout_of name = new_timeout toy 2 5 name

timeouts_verify :
    (verify_timeout toy four (timeout_of 1) ≡ ok tt)
    × (verify_timeout toy four (timeout_of 2) ≡ ok tt)
    × (verify_timeout toy four (timeout_of 4) ≡ ok tt)
unfolding verify_timeout stake stake_in lookup four new_committee collect insert verify toy_strict
    toy_hash timeout_digest timeout_bytes be_bytes le_bytes flatten timeout_of new_timeout
timeouts_verify = (refl, refl, refl)

abbrev one_timeout : Aggregator
one_timeout = (add_timeout (timeout_of 1) (new_aggregator four)).0

abbrev two_timeouts : Aggregator
two_timeouts = (add_timeout (timeout_of 2) one_timeout).0

one_timeout-HasTcMakers : HasTcMakers toy one_timeout
unfolding new_aggregator
one_timeout-HasTcMakers =
    add_timeout-HasTcMakers toy (new_aggregator four) four_fits (timeout_of 1) timeouts_verify.0
      (new_aggregator-HasTcMakers toy four)

two_timeouts-HasTcMakers : HasTcMakers toy two_timeouts
unfolding new_aggregator add_timeout
two_timeouts-HasTcMakers =
    add_timeout-HasTcMakers toy one_timeout four_fits (timeout_of 2) timeouts_verify.1
      one_timeout-HasTcMakers

abbrev collected : Tc
collected = record {
  round = 5;
  votes =
      (1, (timeout_of 1).signature, 2)
      ∷ (2, (timeout_of 2).signature, 2)
      ∷ (4, (timeout_of 4).signature, 2)
      ∷ [];
}

-- The third timeout makes the TC.
third_timeout : (add_timeout (timeout_of 4) two_timeouts).1 ≡ ok (some collected)
unfolding add_timeout append_timeout count_timeout new_aggregator lookup_or lookup insert timeout_of
    new_timeout stake stake_in quorum_threshold total_votes sum_stakes four new_committee collect
    set_insert
third_timeout = refl

add_timeout-verify_tc_example :
    (collected.round ≡ (timeout_of 4).round)
    × (verify_tc toy two_timeouts.committee collected ≡ ok tt)
unfolding new_aggregator add_timeout
add_timeout-verify_tc_example =
    add_timeout-verify_tc toy two_timeouts four_fits (timeout_of 4) collected timeouts_verify.2
      two_timeouts-HasTcMakers third_timeout

-- A block of authority 2 for round 1 with one payload digest.
abbrev signed_block : Statement
signed_block = of_block 2 1 (11 ∷ []) 0
