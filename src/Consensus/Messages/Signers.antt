-- ===== src/Consensus/Messages/Signers.antt =====
-- The checks of consensus/src/messages.rs under another secret key.
use accountability_gadget_pr.Base.{ℕ, ◌≡◌, refl, List, [], ◌∷◌}
use accountability_gadget_pr.Crypto.{
  Digest, PublicKey, Signature, Primitives, verify, gather_batch, verify_batch,
}
use accountability_gadget_pr.Consensus.Config.{Committee}
use accountability_gadget_pr.Consensus.Messages.{
  Qc, Tc, Block, block_digest, verify_qc, verify_tc, verify_entries, qc_digest,
}

module _ (c : Primitives) (sign : Digest → Signature) where
  abbrev pub with_signer : Primitives
  with_signer = record c { sign = sign }

  pub block_digest-with_signer : (b : Block) → block_digest with_signer b ≡ block_digest c b
  unfolding block_digest
  block_digest-with_signer b = refl

  gather_batch-with_signer :
      (d : Digest) (votes : List (PublicKey × Signature))
      → gather_batch with_signer d votes ≡ gather_batch c d votes
  unfolding gather_batch
  gather_batch-with_signer d [] = refl
  gather_batch-with_signer d ((key, s) ∷ votes) = rw (gather_batch-with_signer d votes) refl

  verify_batch-with_signer :
      (d : Digest) (votes : List (PublicKey × Signature))
      → verify_batch with_signer d votes ≡ verify_batch c d votes
  unfolding verify_batch
  verify_batch-with_signer d votes = rw (gather_batch-with_signer d votes) refl

  pub verify_qc-with_signer :
      (committee : Committee) (qc : Qc)
      → verify_qc with_signer committee qc ≡ verify_qc c committee qc
  unfolding verify_qc qc_digest
  verify_qc-with_signer committee qc = rw (verify_batch-with_signer _ qc.votes) refl

  verify_entries-with_signer :
      (round : ℕ) (votes : List (PublicKey × Signature × ℕ))
      → verify_entries with_signer round votes ≡ verify_entries c round votes
  unfolding verify_entries verify
  verify_entries-with_signer round [] = refl
  verify_entries-with_signer round ((author, s, high) ∷ votes) =
      rw (verify_entries-with_signer round votes) refl

  pub verify_tc-with_signer :
      (committee : Committee) (tc : Tc)
      → verify_tc with_signer committee tc ≡ verify_tc c committee tc
  unfolding verify_tc
  verify_tc-with_signer committee tc = rw (verify_entries-with_signer tc.round tc.votes) refl
