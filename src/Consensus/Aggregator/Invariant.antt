-- ===== src/Consensus/Aggregator/Invariant.antt =====
-- The makers of consensus/src/aggregator.rs: what their fields mean, and that a quorum is reached
-- once.
use accountability_gadget_pr.Base.{
  ℕ, ◌+◌, ◌≤◌, ◌≡◌, refl, ◌⊎◌, inl, inr, List, [], ◌∷◌, ◌++◌, map, Option, none, some, false,
  contains, Distinct, Distinct-snoc, ok, err, panic, out_of_fuel, arith, Bool-cases, Outcome,
  set_insert, subst,
}
use mathlib.Core.List.{map-append}
use accountability_gadget_pr.Crypto.{PublicKey}
use accountability_gadget_pr.Consensus.Config.{
  Committee, stake, quorum_threshold, weigh, weigh-append, weigh-le-sum_stakes, Fits,
  quorum_threshold-majority,
}
use accountability_gadget_pr.Consensus.Error.{ConsensusError}
use accountability_gadget_pr.Consensus.Messages.{Qc, Vote}
use accountability_gadget_pr.Consensus.Aggregator.{QcMaker, new_qc_maker, count_vote, append_vote}

-- The fields of a maker out of which `made` certificates came.
pub record IsMaker (committee : Committee) (made : ℕ) (m : QcMaker) : Type 0 where
  pub names : m.used ≡ map (λ v. v.0) m.votes
  pub distinct : Distinct m.used
  pub weighed :
      ((made ≡ 0) × (m.weight ≡ weigh committee.authorities m.used))
      ⊎ ((made ≡ 1) × (m.weight + quorum_threshold committee ≤ weigh committee.authorities m.used))

-- How many certificates a result holds.
abbrev pub made_by : Outcome ConsensusError (Option Qc) → ℕ
made_by (ok (some qc)) = 1
made_by (ok none) = 0
made_by (err e) = 0
made_by panic = 0
made_by out_of_fuel = 0

pub new_qc_maker-IsMaker : (committee : Committee) → IsMaker committee 0 new_qc_maker
unfolding weigh
new_qc_maker-IsMaker committee = record { names = refl; distinct = tt; weighed = inl (refl, refl) }

module _ (committee : Committee) (fits : Fits committee) where
  weigh-snoc :
      (xs : List PublicKey) (x : PublicKey)
      → weigh committee.authorities (xs ++ x ∷ [])
        ≡ weigh committee.authorities xs + stake committee x
  unfolding weigh stake
  weigh-snoc xs x = omega (arith, weigh-append committee.authorities xs (x ∷ []))

  count_vote-IsMaker :
      (made : ℕ) (vote : Vote) (m : QcMaker)
      → contains vote.author m.used ≡ false
      → IsMaker committee made m
      → let (m', r) = count_vote committee vote m in
        IsMaker committee (made + made_by r) m' × (made + made_by r ≤ 1)
  unfolding count_vote set_insert
  count_vote-IsMaker made vote m new i =
      let used = m.used ++ vote.author ∷ [] in
      let d : Distinct used = Distinct-snoc vote.author m.used i.distinct new in
      let names : used ≡ map (λ v. v.0) (m.votes ++ (vote.author, vote.signature) ∷ []) =
        rw (map-append, ← i.names) refl in
      let bound = weigh-le-sum_stakes committee.authorities used d in
      let snoc = weigh-snoc m.used vote.author in
      let major = quorum_threshold-majority committee fits in
      (
        record {
          names = ground (arith, names);
          distinct = ground (arith, d);
          weighed = ground (arith, bound, snoc, major);
        },
        ground (arith, bound, snoc, major),
      )

  pub append_vote-IsMaker :
      (made : ℕ) (vote : Vote) (m : QcMaker)
      → IsMaker committee made m
      → IsMaker committee
          (made + made_by (append_vote committee vote m).1)
          (append_vote committee vote m).0
  unfolding append_vote
  append_vote-IsMaker made vote m i = elim (Bool-cases (contains vote.author m.used)) [
    | inl old ↦ rw (old, append_vote) (subst (λ k. IsMaker committee k m) (omega arith) i)
    | inr new ↦ rw (new, append_vote) (count_vote-IsMaker made vote m new i).0
  ]

  made_le-one : (made : ℕ) (m : QcMaker) → IsMaker committee made m → made ≤ 1
  made_le-one made m i = ground arith

  -- The certificates that come out of a maker which is handed votes in turn.
  unfoldable pub certificates : List Vote → QcMaker → ℕ
  certificates [] m = 0
  certificates (vote ∷ votes) m =
      let (m', r) = append_vote committee vote m in made_by r + certificates votes m'

  certificates-IsMaker :
      (votes : List Vote) (made : ℕ) (m : QcMaker)
      → IsMaker committee made m
      → made + certificates votes m ≤ 1
  unfolding certificates
  certificates-IsMaker [] made m i = omega (arith, made_le-one made m i)
  certificates-IsMaker (vote ∷ votes) made m i = omega (
    arith,
    certificates-IsMaker votes _ (append_vote committee vote m).0
        (append_vote-IsMaker made vote m i),
  )

  -- In a committee whose double stake is a `u32`, at most one certificate comes out of a new maker,
  -- whatever votes it is handed, in whatever order and however often.
  pub certificates-le_one : (votes : List Vote) → certificates votes new_qc_maker ≤ 1
  certificates-le_one votes =
      omega (arith, certificates-IsMaker votes 0 new_qc_maker (new_qc_maker-IsMaker committee))
