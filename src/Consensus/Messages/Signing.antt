-- ===== src/Consensus/Messages/Signing.antt =====
-- What a node signs passes the checks of consensus/src/messages.rs.
use accountability_gadget_pr.Base.{
  ℕ, ◌<◌, ◌≡◌, refl, ◌⊎◌, List, Option, true, ok, arith, lt→ltb, if◌then◌else◌,
}
use accountability_gadget_pr.Crypto.{Digest, PublicKey, Primitives, verify}
use accountability_gadget_pr.Consensus.Config.{Committee, stake}
use accountability_gadget_pr.Consensus.Messages.{
  Qc, Tc, Block, new_block, new_vote, new_timeout, verify_block, verify_vote, verify_timeout,
  verify_qc, verify_tc?, qc_eq, qc_genesis, block_digest, vote_digest, timeout_digest, block_bytes,
}

-- The node's secret key belongs to the public key `name`: what it signs passes the check.
abbrev pub Signs : Primitives → PublicKey → Type 0
Signs c name = (d : Digest) → verify c (c.sign d) d name ≡ ok tt

module _ (c : Primitives) (committee : Committee) (name : PublicKey) (signs : Signs c name)
    (voting : 0 < stake committee name) where
  certificate_passes :
      (qc : Qc)
      → (qc_eq qc qc_genesis ≡ true) ⊎ (verify_qc c committee qc ≡ ok tt)
      → (if qc_eq qc qc_genesis then ok tt else verify_qc c committee qc) ≡ ok tt
  certificate_passes qc genuine = ground arith

  -- A block that an authority with a positive stake makes passes `Block::verify`, if its QC is the
  -- genesis one or passes `QC::verify`, and its TC, if it has one, passes `TC::verify`.
  pub new_block-verify_block :
      (qc : Qc) (tc : Option Tc) (round : ℕ) (payload : List Digest)
      → (qc_eq qc qc_genesis ≡ true) ⊎ (verify_qc c committee qc ≡ ok tt)
      → verify_tc? c committee tc ≡ ok tt
      → verify_block c committee (new_block c qc tc name round payload) ≡ ok tt
  unfolding new_block verify_block block_digest block_bytes
  new_block-verify_block qc tc round payload genuine checked =
      rw (lt→ltb _ _ voting, signs _, certificate_passes qc genuine, checked) refl

  -- A vote that an authority with a positive stake makes passes `Vote::verify`.
  pub new_vote-verify_vote : (b : Block) → verify_vote c committee (new_vote c b name) ≡ ok tt
  unfolding new_vote verify_vote vote_digest
  new_vote-verify_vote b = rw (lt→ltb _ _ voting, signs _) refl

  -- A timeout that an authority with a positive stake makes passes `Timeout::verify`.
  pub new_timeout-verify_timeout :
      (high round : ℕ) → verify_timeout c committee (new_timeout c high round name) ≡ ok tt
  unfolding new_timeout verify_timeout timeout_digest
  new_timeout-verify_timeout high round = rw (lt→ltb _ _ voting, signs _) refl
