-- ===== src/Tests/Consensus.antt =====
-- consensus/src/messages.rs and aggregator.rs on a committee of four.
use accountability_gadget_pr.Base.{ℕ, ◌≡◌, refl, ◌↔◌, [], ◌∷◌, some, ok, set_insert}
use accountability_gadget_pr.Base.Dict.{insert, lookup, lookup_or}
use accountability_gadget_pr.Crypto.{
  PublicKey, Signature, verify, flatten, be_bytes, le_bytes, verify_batch, gather_batch,
  default_signature,
}
use accountability_gadget_pr.Consensus.Config.{
  new_committee, collect, stake, stake_in, quorum_threshold, total_votes, sum_stakes,
}
use accountability_gadget_pr.Consensus.Error.{from_crypto}
use accountability_gadget_pr.Consensus.Messages.{
  Qc, Tc, Vote, vote_digest, vote_bytes, verify_vote, verify_qc, qc_digest, count_weight, verify_tc,
  verify_entries, timeout_bytes,
}
use accountability_gadget_pr.Consensus.Messages.Quorum.{IsQuorum, voters}
use accountability_gadget_pr.Consensus.Messages.Certificates.{verify_qc_iff}
use accountability_gadget_pr.Consensus.Aggregator.{
  Aggregator, new_aggregator, add_vote, append_vote, count_vote, new_qc_maker,
}
use accountability_gadget_pr.Consensus.Aggregator.Invariant.{certificates}
use accountability_gadget_pr.Consensus.Aggregator.Votes.{
  IsAggregator, new_aggregator-IsAggregator, add_vote-IsAggregator, add_vote-verify_qc,
}
use accountability_gadget_pr.Tests.Toy.{
  toy, toy_hash, toy_strict, toy_batch, toy_complete, four, four_fits,
}

-- The vote of an authority for the block with digest 9 in round 1.
unfoldable pub vote_of : PublicKey → Vote
vote_of name =
    let vote : Vote = record {
      hash = 9;
      round = 1;
      author = name;
      signature = default_signature;
    } in
    record vote { signature = toy.sign (vote_digest toy vote) }

abbrev signed : PublicKey → PublicKey × Signature
signed name = (name, (vote_of name).signature)

pub votes_verify :
    (verify_vote toy four (vote_of 1) ≡ ok tt)
    × (verify_vote toy four (vote_of 2) ≡ ok tt)
    × (verify_vote toy four (vote_of 3) ≡ ok tt)
unfolding verify_vote stake stake_in lookup four new_committee collect insert verify toy_strict
    toy_hash vote_digest vote_bytes be_bytes le_bytes flatten vote_of
votes_verify = (refl, refl, refl)

abbrev one_vote : Aggregator
one_vote = (add_vote toy (vote_of 1) (new_aggregator four)).0

abbrev two_votes : Aggregator
two_votes = (add_vote toy (vote_of 2) one_vote).0

unfoldable pub certificate : Qc
certificate = record { hash = 9; round = 1; votes = signed 1 ∷ signed 2 ∷ signed 3 ∷ [] }

-- The third vote makes the certificate.
third_vote : (add_vote toy (vote_of 3) two_votes).1 ≡ ok (some certificate)
unfolding certificate add_vote append_vote count_vote new_aggregator lookup_or lookup insert vote_of
    vote_digest vote_bytes be_bytes le_bytes toy_hash stake stake_in quorum_threshold total_votes
    sum_stakes four new_committee collect set_insert
third_vote = refl

new_IsAggregator : IsAggregator toy toy_complete (new_aggregator four)
new_IsAggregator = new_aggregator-IsAggregator toy toy_complete four

one_vote-IsAggregator : IsAggregator toy toy_complete one_vote
unfolding new_aggregator
one_vote-IsAggregator =
    add_vote-IsAggregator toy toy_complete (new_aggregator four) four_fits (vote_of 1)
      votes_verify.0 new_IsAggregator

two_votes-IsAggregator : IsAggregator toy toy_complete two_votes
unfolding new_aggregator add_vote
two_votes-IsAggregator =
    add_vote-IsAggregator toy toy_complete one_vote four_fits (vote_of 2) votes_verify.1
      one_vote-IsAggregator

add_vote-verify_qc_example :
    (certificate.hash ≡ (vote_of 3).hash)
    × (certificate.round ≡ (vote_of 3).round)
    × (verify_qc toy two_votes.committee certificate ≡ ok tt)
unfolding new_aggregator add_vote
add_vote-verify_qc_example =
    add_vote-verify_qc toy toy_complete two_votes four_fits (vote_of 3) certificate votes_verify.2
      two_votes-IsAggregator third_vote

-- All four votes: the first three make the one certificate.
certificates_of_four :
    certificates four four_fits (vote_of 1 ∷ vote_of 2 ∷ vote_of 3 ∷ vote_of 4 ∷ []) new_qc_maker
    ≡ 1
unfolding certificates append_vote count_vote vote_of stake stake_in lookup quorum_threshold
    total_votes sum_stakes four new_committee collect insert set_insert
certificates_of_four = refl

abbrev other : Qc
other = record { hash = 9; round = 1; votes = signed 2 ∷ signed 3 ∷ signed 4 ∷ [] }

both_verify : (verify_qc toy four certificate ≡ ok tt) × (verify_qc toy four other ≡ ok tt)
unfolding certificate verify_qc count_weight stake stake_in lookup four new_committee collect insert
    quorum_threshold total_votes sum_stakes verify_batch gather_batch qc_digest toy_batch toy_strict
    toy_hash vote_digest vote_bytes be_bytes le_bytes flatten vote_of
both_verify = (refl, refl)

verify_qc_iff_example : (verify_qc toy four certificate ≡ ok tt) ↔ (
    IsQuorum four (voters certificate)
    × (from_crypto (verify_batch toy (qc_digest toy certificate) certificate.votes) ≡ ok tt))
verify_qc_iff_example = verify_qc_iff toy four four_fits certificate

-- Timeouts of three authorities in round 5, which know certificates of different rounds.
abbrev entry : PublicKey → ℕ → PublicKey × Signature × ℕ
entry name high = (name, toy.sign (toy.sha512 (timeout_bytes 5 high)), high)

unfoldable timeouts : Tc
timeouts = record { round = 5; votes = entry 1 4 ∷ entry 2 3 ∷ entry 4 4 ∷ [] }

timeouts-verify_tc : verify_tc toy four timeouts ≡ ok tt
unfolding timeouts verify_tc verify_entries count_weight stake stake_in lookup four new_committee
    collect insert quorum_threshold total_votes sum_stakes verify toy_strict toy_hash timeout_bytes
    be_bytes le_bytes flatten
timeouts-verify_tc = refl
