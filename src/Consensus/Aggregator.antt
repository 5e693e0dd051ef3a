-- ===== src/Consensus/Aggregator.antt =====
-- consensus/src/aggregator.rs: the votes and timeouts that wait for a quorum. The hash maps keep their
-- makers by round, and those of votes by the digest of the vote.
pub mod Invariant
pub mod Sound
pub mod Votes
pub mod Timeouts
use accountability_gadget_pr.Base.{
  ℕ, ◌+◌, ◌%◌, List, [], ◌∷◌, ◌++◌, Option, none, some, Bool, true, false, leb, contains,
  set_insert, Outcome, ok, err, panic, out_of_fuel, if◌then◌else◌, not,
}
use accountability_gadget_pr.Base.Dict.{Dict, lookup_or, insert, retain_keys}
use accountability_gadget_pr.Crypto.{Digest, PublicKey, Signature, Primitives}
use accountability_gadget_pr.Consensus.Config.{Committee, stake, quorum_threshold, u32_mod}
use accountability_gadget_pr.Consensus.Error.{ConsensusResult, authority_reuse}
use accountability_gadget_pr.Consensus.Messages.{Qc, Tc, Vote, Timeout, vote_digest}

pub record QcMaker : Type 0 where
  pub weight : ℕ
  pub votes : List (PublicKey × Signature)
  pub used : List PublicKey

pub record TcMaker : Type 0 where
  pub weight : ℕ
  pub votes : List (PublicKey × Signature × ℕ)
  pub used : List PublicKey

abbrev pub new_qc_maker : QcMaker
new_qc_maker = record { weight = 0; votes = []; used = [] }

abbrev pub new_tc_maker : TcMaker
new_tc_maker = record { weight = 0; votes = []; used = [] }

-- What `append` does once the author is known to be new.
unfoldable pub count_vote : Committee → Vote → QcMaker → QcMaker × ConsensusResult (Option Qc)
count_vote committee vote m =
    let votes = m.votes ++ (vote.author, vote.signature) ∷ [] in
    let weight = (m.weight + stake committee vote.author) % u32_mod in
    let used = set_insert vote.author m.used in
    if leb (quorum_threshold committee) weight
    then (
      record { weight = 0; votes = votes; used = used },
      ok (some (record { hash = vote.hash; round = vote.round; votes = votes })),
    )
    else (record { weight = weight; votes = votes; used = used }, ok none)

-- `QCMaker::append`: the maker afterwards, and the result.
unfoldable pub append_vote : Committee → Vote → QcMaker → QcMaker × ConsensusResult (Option Qc)
unfolding count_vote
append_vote committee vote m =
    if contains vote.author m.used
    then (m, err (authority_reuse vote.author))
    else count_vote committee vote m

unfoldable pub count_timeout : Committee → Timeout → TcMaker → TcMaker × ConsensusResult (Option Tc)
count_timeout committee t m =
    let votes = m.votes ++ (t.author, t.signature, t.high_qc_round) ∷ [] in
    let weight = (m.weight + stake committee t.author) % u32_mod in
    let used = set_insert t.author m.used in
    if leb (quorum_threshold committee) weight
    then (
      record { weight = 0; votes = votes; used = used },
      ok (some (record { round = t.round; votes = votes })),
    )
    else (record { weight = weight; votes = votes; used = used }, ok none)

-- `TCMaker::append`
unfoldable pub append_timeout :
    Committee → Timeout → TcMaker → TcMaker × ConsensusResult (Option Tc)
unfolding count_timeout
append_timeout committee t m =
    if contains t.author m.used
    then (m, err (authority_reuse t.author))
    else count_timeout committee t m

pub record Aggregator : Type 0 where
  pub committee : Committee
  pub votes_aggregators : Dict (Dict QcMaker)
  pub timeouts_aggregators : Dict TcMaker

-- `Aggregator::new`
unfoldable pub new_aggregator : Committee → Aggregator
new_aggregator committee = record {
  committee = committee;
  votes_aggregators = [];
  timeouts_aggregators = [];
}

-- `Aggregator::add_vote`: the entries that are missing are made, also if the append is refused.
unfoldable pub add_vote : Primitives → Vote → Aggregator → Aggregator × ConsensusResult (Option Qc)
add_vote c vote a =
    let makers = lookup_or vote.round [] a.votes_aggregators in
    let d = vote_digest c vote in
    let (m, r) = append_vote a.committee vote (lookup_or d new_qc_maker makers) in
    (record a { votes_aggregators = insert vote.round (insert d m makers) a.votes_aggregators }, r)

-- `Aggregator::add_timeout`
unfoldable pub add_timeout : Timeout → Aggregator → Aggregator × ConsensusResult (Option Tc)
add_timeout t a =
    let (m, r) =
      append_timeout a.committee t (lookup_or t.round new_tc_maker a.timeouts_aggregators) in
    (record a { timeouts_aggregators = insert t.round m a.timeouts_aggregators }, r)

-- `Aggregator::cleanup`
unfoldable pub cleanup : ℕ → Aggregator → Aggregator
cleanup round a = record a {
  votes_aggregators = retain_keys (λ k. leb round k) a.votes_aggregators;
  timeouts_aggregators = retain_keys (λ k. leb round k) a.timeouts_aggregators;
}
