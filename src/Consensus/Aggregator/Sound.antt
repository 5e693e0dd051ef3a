-- ===== src/Consensus/Aggregator/Sound.antt =====
-- A certificate that consensus/src/aggregator.rs assembles passes the check of messages.rs.
use accountability_gadget_pr.Base.{
  ℕ, ◌+◌, ◌≤◌, ◌≡◌, refl, ◌⊎◌, inl, inr, List, [], ◌∷◌, ◌++◌, some, true, All, All-append, All-map,
  ok, arith,
}
use accountability_gadget_pr.Crypto.{
  Digest, PublicKey, Signature, Primitives, verify, gather_batch, verify_batch, flatten, be_bytes,
}
use accountability_gadget_pr.Consensus.Config.{Committee, quorum_threshold, weigh, Fits}
use accountability_gadget_pr.Consensus.Error.{from_crypto}
use accountability_gadget_pr.Consensus.Messages.{
  Qc, Vote, vote_digest, qc_digest, verify_vote, verify_qc,
}
use accountability_gadget_pr.Consensus.Messages.Quorum.{HasStake}
use accountability_gadget_pr.Consensus.Messages.Certificates.{verify_qc_iff}
use accountability_gadget_pr.Consensus.Aggregator.{QcMaker, new_qc_maker, append_vote}
use accountability_gadget_pr.Consensus.Aggregator.Invariant.{
  IsMaker, made_by, new_qc_maker-IsMaker, append_vote-IsMaker,
}

-- What ed25519_dalek says of its batch check: it passes where each signature passes the strict one.
abbrev pub BatchIsComplete : Primitives → Type 0
BatchIsComplete c =
    (batch : List (Digest × List ℕ × List ℕ))
    → All (λ t. c.verify_strict t.0 t.1 t.2 ≡ true) batch
    → c.batch_verifies batch ≡ true

module _ (c : Primitives) (complete : BatchIsComplete c) where
  abbrev pub IsSignedBy : Digest → PublicKey × Signature → Type 0
  IsSignedBy d v = from_crypto (verify c v.1 d v.0) ≡ ok tt

  gather_batch-All :
      (d : Digest) (votes : List (PublicKey × Signature))
      → All (IsSignedBy d) votes
      → (batch : List (Digest × List ℕ × List ℕ)) × (gather_batch c d votes ≡ ok batch)
        × All (λ t. c.verify_strict t.0 t.1 t.2 ≡ true) batch
  unfolding gather_batch verify
  gather_batch-All d [] h = ([], refl, tt)
  gather_batch-All d ((key, s) ∷ votes) h =
      let (batch, gathered, strict) = gather_batch-All d votes h.1 in
      ((d, be_bytes 32 key, flatten s) ∷ batch, ground arith, (ground arith, strict))

  verify_batch-All :
      (d : Digest) (votes : List (PublicKey × Signature))
      → All (IsSignedBy d) votes
      → from_crypto (verify_batch c d votes) ≡ ok tt
  unfolding verify_batch
  verify_batch-All d votes h =
      let (batch, gathered, strict) = gather_batch-All d votes h in
      rw (gathered, complete batch strict) refl

  -- A maker whose entries are all verified votes of digest `d`.
  pub record IsSound (committee : Committee) (d : Digest) (m : QcMaker) : Type 0 where
    pub made : ℕ
    pub counts : IsMaker committee made m
    pub authorised : All (λ v. HasStake committee v.0) m.votes
    pub signed : All (IsSignedBy d) m.votes

  pub new_qc_maker-IsSound : (committee : Committee) (d : Digest) → IsSound committee d new_qc_maker
  new_qc_maker-IsSound committee d = record {
    made = 0;
    counts = new_qc_maker-IsMaker committee;
    authorised = tt;
    signed = tt;
  }

  module _ (committee : Committee) (fits : Fits committee) where
    verify_vote-only_if :
        (v : Vote)
        → verify_vote c committee v ≡ ok tt
        → HasStake committee v.author × IsSignedBy (vote_digest c v) (v.author, v.signature)
    unfolding verify_vote
    verify_vote-only_if v e = ground arith

    append_vote-votes :
        (v : Vote) (m : QcMaker)
        → let m' = (append_vote committee v m).0 in
          (m'.votes ≡ m.votes) ⊎ (m'.votes ≡ m.votes ++ (v.author, v.signature) ∷ [])
    unfolding append_vote
    append_vote-votes v m = ground arith

    All-votes {κ} :
        (P : PublicKey × Signature → Type κ) (v : Vote) (m : QcMaker)
        → All P m.votes
        → P (v.author, v.signature)
        → All P (append_vote committee v m).0.votes
    All-votes P v m h p = elim (append_vote-votes v m) [
      | inl e ↦ rw e h
      | inr e ↦ rw e (All-append P m.votes ((v.author, v.signature) ∷ []) h (p, tt))
    ]

    pub append_vote-IsSound :
        (v : Vote) (m : QcMaker)
        → verify_vote c committee v ≡ ok tt
        → IsSound committee (vote_digest c v) m
        → IsSound committee (vote_digest c v) (append_vote committee v m).0
    append_vote-IsSound v m e i =
        let (has, signed) = verify_vote-only_if v e in
        record {
          made = i.made + made_by (append_vote committee v m).1;
          counts = append_vote-IsMaker committee fits i.made v m i.counts;
          authorised = All-votes (λ v. HasStake committee v.0) v m i.authorised has;
          signed = All-votes (IsSignedBy (vote_digest c v)) v m i.signed signed;
        }

    pub append_vote-qc_votes :
        (v : Vote) (m : QcMaker) (qc : Qc)
        → (append_vote committee v m).1 ≡ ok (some qc)
        → qc
          ≡ record { hash = v.hash; round = v.round; votes = (append_vote committee v m).0.votes }
    unfolding append_vote
    append_vote-qc_votes v m qc e = ground arith

    -- A certificate is made of the maker's votes, for the hash and the round of the last vote, and the
    -- stake of the maker's authors then reaches the quorum.
    append_vote-qc :
        (made : ℕ) (v : Vote) (m : QcMaker) (qc : Qc)
        → IsMaker committee made m
        → (append_vote committee v m).1 ≡ ok (some qc)
        → (qc ≡ record {
          hash = v.hash;
          round = v.round;
          votes = (append_vote committee v m).0.votes;
        })
          × (quorum_threshold committee
              ≤ weigh committee.authorities (append_vote committee v m).0.used)
    append_vote-qc made v m qc i e = (
      append_vote-qc_votes v m qc e,
      let i' = append_vote-IsMaker committee fits made v m i in
          let one : made_by (append_vote committee v m).1 ≡ 1 = rw e in omega (arith, i'.weighed),
    )

    -- So the certificate passes `QC::verify`.
    pub append_vote-verify_qc :
        (v : Vote) (m : QcMaker) (qc : Qc)
        → verify_vote c committee v ≡ ok tt
        → IsSound committee (vote_digest c v) m
        → (append_vote committee v m).1 ≡ ok (some qc)
        → verify_qc c committee qc ≡ ok tt
    unfolding qc_digest vote_digest
    append_vote-verify_qc v m qc verified i e =
        let m' = (append_vote committee v m).0 in
        let i' = append_vote-IsSound v m verified i in
        let (made, enough) = append_vote-qc i.made v m qc i.counts e in
        rw made (
          (verify_qc_iff c committee fits
              (record { hash = v.hash; round = v.round; votes = m'.votes })).1
            (
              record {
                distinct = rw (← i'.counts.names) i'.counts.distinct;
                authorised = All-map (HasStake committee) (λ v. v.0) m'.votes i'.authorised;
                enough = rw (← i'.counts.names) enough;
              },
              verify_batch-All (vote_digest c v) m'.votes i'.signed,
            ))
