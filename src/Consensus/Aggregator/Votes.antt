-- ===== src/Consensus/Aggregator/Votes.antt =====
-- The aggregator of consensus/src/aggregator.rs over its makers of QCs.
use accountability_gadget_pr.Base.{ℕ, ◌≡◌, [], All, All-filter, some, leb, ok}
use accountability_gadget_pr.Base.Dict.{Dict, lookup_or, retain_keys, All-insert, All-lookup_or}
use accountability_gadget_pr.Crypto.{Primitives}
use accountability_gadget_pr.Consensus.Config.{Committee, Fits}
use accountability_gadget_pr.Consensus.Messages.{Qc, Vote, vote_digest, verify_vote, verify_qc}
use accountability_gadget_pr.Consensus.Aggregator.{
  QcMaker, Aggregator, new_qc_maker, new_aggregator, add_vote, cleanup,
}
use accountability_gadget_pr.Consensus.Aggregator.Sound.{
  BatchIsComplete, IsSound, new_qc_maker-IsSound, append_vote-IsSound, append_vote-verify_qc,
  append_vote-qc_votes,
}

module _ (c : Primitives) (complete : BatchIsComplete c) where
  abbrev pub AreSound : Committee → Dict QcMaker → Type 0
  AreSound committee = All (λ f. IsSound c complete committee f.0 f.1)

  -- Each maker holds verified votes of the digest under which it stands.
  abbrev pub IsAggregator : Aggregator → Type 0
  IsAggregator a = All (λ e. AreSound a.committee e.1) a.votes_aggregators

  pub new_aggregator-IsAggregator :
      (committee : Committee) → IsAggregator (new_aggregator committee)
  unfolding new_aggregator
  new_aggregator-IsAggregator committee = tt

  pub cleanup-IsAggregator :
      (round : ℕ) (a : Aggregator) → IsAggregator a → IsAggregator (cleanup round a)
  unfolding cleanup retain_keys
  cleanup-IsAggregator round a i =
      All-filter (λ e. AreSound a.committee e.1) (λ e. leb round e.0) a.votes_aggregators i

  module _ (a : Aggregator) (fits : Fits a.committee) (v : Vote) where
    makers-AreSound :
        IsAggregator a → AreSound a.committee (lookup_or v.round [] a.votes_aggregators)
    makers-AreSound i =
        All-lookup_or (λ e. AreSound a.committee e.1) v.round [] a.votes_aggregators i tt

    maker-IsSound :
        IsAggregator a
        → IsSound c complete a.committee
            (vote_digest c v)
            (lookup_or (vote_digest c v) new_qc_maker (lookup_or v.round [] a.votes_aggregators))
    maker-IsSound i =
        All-lookup_or (λ f. IsSound c complete a.committee f.0 f.1) (vote_digest c v) new_qc_maker
          (lookup_or v.round [] a.votes_aggregators) (makers-AreSound i)
          (new_qc_maker-IsSound c complete a.committee (vote_digest c v))

    -- Where the committee's double stake is a `u32` and the batch check passes signatures that pass one
    -- by one: a verified vote keeps every maker to verified votes of its own digest.
    pub add_vote-IsAggregator :
        verify_vote c a.committee v ≡ ok tt → IsAggregator a → IsAggregator (add_vote c v a).0
    unfolding add_vote
    add_vote-IsAggregator e i =
        All-insert (λ e. AreSound a.committee e.1) v.round _ a.votes_aggregators i
          (All-insert (λ f. IsSound c complete a.committee f.0 f.1) (vote_digest c v) _
            (lookup_or v.round [] a.votes_aggregators) (makers-AreSound i)
            (append_vote-IsSound c complete a.committee fits v _ e (maker-IsSound i)))

    -- Where the committee's double stake is a `u32`, the batch check passes signatures that pass one by
    -- one, and every maker holds verified votes of its own digest: a certificate that comes out of
    -- `add_vote` for a verified vote is for that vote's hash and round, and passes `QC::verify`.
    pub add_vote-verify_qc :
        (qc : Qc)
        → verify_vote c a.committee v ≡ ok tt
        → IsAggregator a
        → (add_vote c v a).1 ≡ ok (some qc)
        → (qc.hash ≡ v.hash) × (qc.round ≡ v.round) × (verify_qc c a.committee qc ≡ ok tt)
    unfolding add_vote
    add_vote-verify_qc qc e i r =
        let m =
          lookup_or (vote_digest c v) new_qc_maker (lookup_or v.round [] a.votes_aggregators) in
        let made = append_vote-qc_votes c complete a.committee fits v m qc r in
        (
          rw made,
          rw made,
          append_vote-verify_qc c complete a.committee fits v m qc e (maker-IsSound i) r,
        )
