-- ===== src/Consensus/Aggregator/Timeouts.antt =====
-- The timeouts of consensus/src/aggregator.rs and the TCs that it assembles of them.
use accountability_gadget_pr.Base.{
  ℕ, ◌+◌, ◌≤◌, ◌≡◌, refl, ◌⊎◌, inl, inr, List, [], ◌∷◌, ◌++◌, map, some, All, All-append, All-map,
  All-filter, leb, ok, arith, ap, ◌∙◌,
}
use mathlib.Core.List.{map-append}
use accountability_gadget_pr.Base.Dict.{lookup_or, retain_keys, All-insert, All-lookup_or}
use accountability_gadget_pr.Crypto.{PublicKey, Signature, Primitives, verify}
use accountability_gadget_pr.Consensus.Error.{from_crypto}
use accountability_gadget_pr.Consensus.Config.{Committee, Fits, quorum_threshold, weigh}
use accountability_gadget_pr.Consensus.Messages.{
  Tc, Vote, Timeout, timeout_digest, timeout_bytes, verify_timeout, verify_tc,
}
use accountability_gadget_pr.Consensus.Messages.Quorum.{HasStake}
use accountability_gadget_pr.Consensus.Messages.Certificates.{verify_tc-if}
use accountability_gadget_pr.Consensus.Aggregator.{
  QcMaker, TcMaker, new_tc_maker, append_vote, count_vote, append_timeout, count_timeout,
  Aggregator, new_aggregator, add_timeout, cleanup,
}
use accountability_gadget_pr.Consensus.Aggregator.Invariant.{
  IsMaker, made_by, new_qc_maker-IsMaker, append_vote-IsMaker,
}

-- A maker of TCs counts as a maker of QCs does: the same without the rounds that the entries report.
abbrev without_round : PublicKey × Signature × ℕ → PublicKey × Signature
without_round v = (v.0, v.1)

abbrev as_qc_maker : TcMaker → QcMaker
as_qc_maker m = record { weight = m.weight; votes = map without_round m.votes; used = m.used }

abbrev as_vote : Timeout → Vote
as_vote t = record { hash = 0; round = t.round; author = t.author; signature = t.signature }

append_timeout-as_vote :
    (committee : Committee) (t : Timeout) (m : TcMaker)
    → as_qc_maker (append_timeout committee t m).0
      ≡ (append_vote committee (as_vote t) (as_qc_maker m)).0
unfolding append_timeout count_timeout append_vote count_vote
append_timeout-as_vote committee t m =
    let names = map-append without_round m.votes ((t.author, t.signature, t.high_qc_round) ∷ []) in
    ground (arith, names)

append_timeout-tc :
    (committee : Committee) (t : Timeout) (m : TcMaker) (tc : Tc)
    → (append_timeout committee t m).1 ≡ ok (some tc)
    → (tc ≡ record { round = t.round; votes = (append_timeout committee t m).0.votes })
      × (made_by (append_vote committee (as_vote t) (as_qc_maker m)).1 ≡ 1)
unfolding append_timeout count_timeout append_vote count_vote
append_timeout-tc committee t m tc e = ground arith

append_timeout-votes :
    (committee : Committee) (t : Timeout) (m : TcMaker)
    → let m' = (append_timeout committee t m).0 in
      (m'.votes ≡ m.votes) ⊎ (m'.votes ≡ m.votes ++ (t.author, t.signature, t.high_qc_round) ∷ [])
unfolding append_timeout
append_timeout-votes committee t m = ground arith

-- The entry is signed by its author for the round and the round that it reports.
abbrev pub IsEntry : Primitives → ℕ → PublicKey × Signature × ℕ → Type 0
IsEntry c round v = from_crypto (verify c v.1 (c.sha512 (timeout_bytes round v.2)) v.0) ≡ ok tt

-- A maker whose entries are all verified timeouts of the round.
pub record IsTcSound (c : Primitives) (committee : Committee) (round : ℕ) (m : TcMaker)
    : Type 0 where
  pub made : ℕ
  pub counts : IsMaker committee made (as_qc_maker m)
  pub authorised : All (λ v. HasStake committee v.0) m.votes
  pub signed : All (IsEntry c round) m.votes

pub new_tc_maker-IsTcSound :
    (c : Primitives) (committee : Committee) (round : ℕ) → IsTcSound c committee round new_tc_maker
new_tc_maker-IsTcSound c committee round = record {
  made = 0;
  counts = new_qc_maker-IsMaker committee;
  authorised = tt;
  signed = tt;
}

module _ (c : Primitives) (committee : Committee) (fits : Fits committee) where
  verify_timeout-only_if :
      (t : Timeout)
      → verify_timeout c committee t ≡ ok tt
      → HasStake committee t.author × IsEntry c t.round (t.author, t.signature, t.high_qc_round)
  unfolding verify_timeout timeout_digest
  verify_timeout-only_if t e = ground arith

  All-entries {κ} :
      (P : PublicKey × Signature × ℕ → Type κ) (t : Timeout) (m : TcMaker)
      → All P m.votes
      → P (t.author, t.signature, t.high_qc_round)
      → All P (append_timeout committee t m).0.votes
  All-entries P t m h p = elim (append_timeout-votes committee t m) [
    | inl e ↦ rw e h
    | inr e ↦ rw e (All-append P m.votes ((t.author, t.signature, t.high_qc_round) ∷ []) h (p, tt))
  ]

  pub append_timeout-IsTcSound :
      (t : Timeout) (m : TcMaker)
      → verify_timeout c committee t ≡ ok tt
      → IsTcSound c committee t.round m
      → IsTcSound c committee t.round (append_timeout committee t m).0
  append_timeout-IsTcSound t m e i =
      let (has, signed) = verify_timeout-only_if t e in
      record {
        made = i.made + made_by (append_vote committee (as_vote t) (as_qc_maker m)).1;
        counts =
            rw (append_timeout-as_vote committee t m)
              (append_vote-IsMaker committee fits i.made (as_vote t) (as_qc_maker m) i.counts);
        authorised = All-entries (λ v. HasStake committee v.0) t m i.authorised has;
        signed = All-entries (IsEntry c t.round) t m i.signed signed;
      }

  -- Once a TC is made, the maker's authors hold a quorum.
  made-enough :
      (t : Timeout) (m : TcMaker) (tc : Tc)
      → IsTcSound c committee t.round m
      → (append_timeout committee t m).1 ≡ ok (some tc)
      → quorum_threshold committee
        ≤ weigh committee.authorities (append_timeout committee t m).0.used
  made-enough t m tc i e =
      let i' = append_vote-IsMaker committee fits i.made (as_vote t) (as_qc_maker m) i.counts in
      omega (
        arith,
        (append_timeout-tc committee t m tc e).1,
        i'.weighed,
        ap (λ (m : QcMaker). weigh committee.authorities m.used)
            (append_timeout-as_vote committee t m),
      )

  entries-names :
      (votes : List (PublicKey × Signature × ℕ))
      → map (λ (v : PublicKey × Signature). v.0) (map without_round votes) ≡ map (λ v. v.0) votes
  entries-names [] = refl
  entries-names (v ∷ votes) = rw (entries-names votes) refl

  pub append_timeout-verify_tc :
      (t : Timeout) (m : TcMaker) (tc : Tc)
      → verify_timeout c committee t ≡ ok tt
      → IsTcSound c committee t.round m
      → (append_timeout committee t m).1 ≡ ok (some tc)
      → (tc.round ≡ t.round) × (verify_tc c committee tc ≡ ok tt)
  append_timeout-verify_tc t m tc e i r =
      let m' = (append_timeout committee t m).0 in
      let i' = append_timeout-IsTcSound t m e i in
      let made = (append_timeout-tc committee t m tc r).0 in
      let names = i'.counts.names ∙ entries-names m'.votes in
      (
        rw made refl,
        rw made (
            verify_tc-if c committee fits (record { round = t.round; votes = m'.votes })
              (record {
                distinct = rw (← names) i'.counts.distinct;
                authorised = All-map (HasStake committee) (λ v. v.0) m'.votes i'.authorised;
                enough = rw (← names) (made-enough t m tc i r);
              })
              i'.signed),
      )

module _ (c : Primitives) where
  -- Each maker of TCs holds verified timeouts of the round under which it stands.
  abbrev pub HasTcMakers : Aggregator → Type 0
  HasTcMakers a = All (λ e. IsTcSound c a.committee e.0 e.1) a.timeouts_aggregators

  maker-IsTcSound :
      (t : Timeout) (a : Aggregator)
      → HasTcMakers a
      → IsTcSound c a.committee t.round (lookup_or t.round new_tc_maker a.timeouts_aggregators)
  maker-IsTcSound t a i =
      All-lookup_or (λ e. IsTcSound c a.committee e.0 e.1) t.round new_tc_maker
        a.timeouts_aggregators i (new_tc_maker-IsTcSound c a.committee t.round)

  pub new_aggregator-HasTcMakers : (committee : Committee) → HasTcMakers (new_aggregator committee)
  unfolding new_aggregator
  new_aggregator-HasTcMakers committee = tt

  pub cleanup-HasTcMakers :
      (round : ℕ) (a : Aggregator) → HasTcMakers a → HasTcMakers (cleanup round a)
  unfolding cleanup retain_keys
  cleanup-HasTcMakers round a i =
      All-filter (λ e. IsTcSound c a.committee e.0 e.1) (λ e. leb round e.0) a.timeouts_aggregators
        i

  module _ (a : Aggregator) (fits : Fits a.committee) (t : Timeout) where
    -- A verified timeout keeps every maker of TCs to verified timeouts of its own round.
    pub add_timeout-HasTcMakers :
        verify_timeout c a.committee t ≡ ok tt → HasTcMakers a → HasTcMakers (add_timeout t a).0
    unfolding add_timeout
    add_timeout-HasTcMakers e i =
        All-insert (λ e. IsTcSound c a.committee e.0 e.1) t.round _ a.timeouts_aggregators i
          (append_timeout-IsTcSound c a.committee fits t _ e (maker-IsTcSound t a i))

    -- Where the committee's double stake is a `u32` and every maker of TCs holds verified timeouts of
    -- its own round: a TC that comes out of `add_timeout` for a verified timeout is for that timeout's
    -- round and passes `TC::verify`.
    pub add_timeout-verify_tc :
        (tc : Tc)
        → verify_timeout c a.committee t ≡ ok tt
        → HasTcMakers a
        → (add_timeout t a).1 ≡ ok (some tc)
        → (tc.round ≡ t.round) × (verify_tc c a.committee tc ≡ ok tt)
    unfolding add_timeout
    add_timeout-verify_tc tc e i r =
        append_timeout-verify_tc c a.committee fits t _ tc e (maker-IsTcSound t a i) r
