-- ===== src/Consensus/Messages/Certificates.antt =====
-- The checks of QCs and TCs in consensus/src/messages.rs.
use accountability_gadget_pr.Base.{
  ℕ, ◌*◌, ◌<◌, ◌≡◌, refl, ◌↔◌, List, [], ◌∷◌, map, leb, All, ok, ensure, >>=-eq-ok, arith, le→leb,
}
use accountability_gadget_pr.Crypto.{PublicKey, Signature, Primitives, verify, verify_batch}
use accountability_gadget_pr.Consensus.Config.{Committee, quorum_threshold, sum_stakes, weigh, Fits}
use accountability_gadget_pr.Consensus.Error.{from_crypto, qc_requires_quorum, tc_requires_quorum}
use accountability_gadget_pr.Consensus.Messages.{
  Qc, Tc, count_weight, verify_qc, verify_tc, verify_entries, qc_digest, timeout_bytes,
}
use accountability_gadget_pr.Consensus.Messages.Quorum.{
  IsQuorum, voters, common, IsQuorum-weight, count_weight-IsQuorum, IsQuorum-common,
}

module _ (c : Primitives) (committee : Committee) (fits : Fits committee) where
  verify_qc-only_if :
      (qc : Qc)
      → verify_qc c committee qc ≡ ok tt
      → IsQuorum committee (voters qc)
        × (from_crypto (verify_batch c (qc_digest c qc) qc.votes) ≡ ok tt)
  unfolding verify_qc
  verify_qc-only_if qc e =
      let (w, counted, rest) = >>=-eq-ok (count_weight committee (voters qc) [] 0) _ e in
      let (_, passed, batch) =
        >>=-eq-ok (ensure (leb (quorum_threshold committee) w) qc_requires_quorum) _ rest in
      (IsQuorum-weight committee (voters qc) w fits counted (ground arith), batch)

  verify_qc-if :
      (qc : Qc)
      → IsQuorum committee (voters qc)
      → from_crypto (verify_batch c (qc_digest c qc) qc.votes) ≡ ok tt
      → verify_qc c committee qc ≡ ok tt
  unfolding verify_qc
  verify_qc-if qc q batch =
      rw (count_weight-IsQuorum committee (voters qc) fits q, le→leb _ _ q.enough) batch

  -- In a committee whose double stake is a `u32`, `QC::verify` accepts exactly the certificates whose
  -- votes are of distinct authorities with a positive stake, which together reach the quorum, and
  -- whose signatures the batch check passes on the certificate's own digest.
  pub verify_qc_iff :
      (qc : Qc)
      → (verify_qc c committee qc ≡ ok tt) ↔ (
          IsQuorum committee (voters qc)
          × (from_crypto (verify_batch c (qc_digest c qc) qc.votes) ≡ ok tt))
  verify_qc_iff qc = (verify_qc-only_if qc, λ h. verify_qc-if qc h.0 h.1)

  -- In a committee whose double stake is a `u32`, authorities that signed both of two certificates
  -- which `QC::verify` accepts hold more than a third of the whole stake.
  pub verify_qc-common :
      (qc qc' : Qc)
      → verify_qc c committee qc ≡ ok tt
      → verify_qc c committee qc' ≡ ok tt
      → sum_stakes committee.authorities
        < 3 * weigh committee.authorities (common (voters qc) (voters qc'))
  verify_qc-common qc qc' e e' =
      IsQuorum-common committee (voters qc) (voters qc') fits (verify_qc-only_if qc e).0
        (verify_qc-only_if qc' e').0

  -- Each entry of a TC carries a signature of its author on the round of the TC and on the round of
  -- the QC that the author reported.
  abbrev pub IsSigned : ℕ → PublicKey × Signature × ℕ → Type 0
  IsSigned round v = from_crypto (verify c v.1 (c.sha512 (timeout_bytes round v.2)) v.0) ≡ ok tt

  verify_entries_iff :
      (round : ℕ) (votes : List (PublicKey × Signature × ℕ))
      → (verify_entries c round votes ≡ ok tt) ↔ All (IsSigned round) votes
  unfolding verify_entries
  verify_entries_iff round [] = (λ _. tt, λ _. refl)
  verify_entries_iff round ((author, signature, high) ∷ votes) = (
    λ e.
        let (_, here, rest) =
          >>=-eq-ok (from_crypto (verify c signature (c.sha512 (timeout_bytes round high)) author))
            _ e in
        (here, (verify_entries_iff round votes).0 rest),
    λ h. rw h.0 ((verify_entries_iff round votes).1 h.1),
  )

  -- In a committee whose double stake is a `u32`, a TC that `TC::verify` accepts has entries of
  -- distinct authorities with a positive stake, which reach the quorum, and each entry is signed for
  -- the round of the TC.
  pub verify_tc-IsQuorum :
      (tc : Tc)
      → verify_tc c committee tc ≡ ok tt
      → IsQuorum committee (map (λ v. v.0) tc.votes) × All (IsSigned tc.round) tc.votes
  unfolding verify_tc
  verify_tc-IsQuorum tc e =
      let (w, counted, rest) =
        >>=-eq-ok (count_weight committee (map (λ v. v.0) tc.votes) [] 0) _ e in
      let (_, passed, entries) =
        >>=-eq-ok (ensure (leb (quorum_threshold committee) w) tc_requires_quorum) _ rest in
      (
        IsQuorum-weight committee (map (λ v. v.0) tc.votes) w fits counted (ground arith),
        (verify_entries_iff tc.round tc.votes).0 entries,
      )

  pub verify_tc-if :
      (tc : Tc)
      → IsQuorum committee (map (λ v. v.0) tc.votes)
      → All (IsSigned tc.round) tc.votes
      → verify_tc c committee tc ≡ ok tt
  unfolding verify_tc
  verify_tc-if tc q signed =
      rw (count_weight-IsQuorum committee (map (λ v. v.0) tc.votes) fits q, le→leb _ _ q.enough)
        ((verify_entries_iff tc.round tc.votes).1 signed)
