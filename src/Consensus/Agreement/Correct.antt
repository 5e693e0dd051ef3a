-- ===== src/Consensus/Agreement/Correct.antt =====
-- A node of consensus/src that keeps its key and runs the core: what it signed, and why.
use accountability_gadget_pr.Base.{
  ℕ, ◌%◌, ◌^◌, ◌≤◌, ◌≡◌, refl, sym, ◌∙◌, inl, inr, List, Option, none, some, true, contains, ok,
  arith, subst,
}
use mathlib.Core.List.{Memᴰ}
use accountability_gadget_pr.Crypto.{Digest, PublicKey, Signature, Primitives, verify}
use accountability_gadget_pr.Consensus.Config.{Committee, Fits}
use accountability_gadget_pr.Consensus.Error.{from_crypto}
use accountability_gadget_pr.Consensus.Messages.{
  Qc, Tc, Block, Timeout, block_digest, verify_qc, verify_tc, qc_digest, timeout_bytes,
}
use accountability_gadget_pr.Consensus.Messages.Signers.{
  with_signer, block_digest-with_signer, verify_qc-with_signer, verify_tc-with_signer,
}
use accountability_gadget_pr.Consensus.Messages.Preimages.{
  of_vote, of_timeout, is_block, preimage, IsBounded, vote_bytes-low, timeout_bytes-low,
}
use accountability_gadget_pr.Consensus.Messages.Quorum.{voters}
use accountability_gadget_pr.Consensus.Messages.Certificates.{verify_qc_iff, IsSigned}
use accountability_gadget_pr.Consensus.Aggregator.Sound.{BatchIsComplete}
use accountability_gadget_pr.Consensus.Core.{Effect, timeout_message, transmitted, new_core}
use accountability_gadget_pr.Consensus.Core.Invariant.{IsGood}
use accountability_gadget_pr.Consensus.Core.HighQc.{IsGenuine}
use accountability_gadget_pr.Consensus.Core.Run.{run, AreTold, booted}
use accountability_gadget_pr.Consensus.Core.Safety.Rules.{IsChecked, MayVote}
use accountability_gadget_pr.Consensus.Core.Safety.Logged.{Logged}
use accountability_gadget_pr.Consensus.Core.Safety.Stored.{IsCodec, IsBlockStore, Stored}
use accountability_gadget_pr.Consensus.Core.Safety.Kept.{IsTold, run-Logged}
use accountability_gadget_pr.Consensus.Agreement.Log.{Participant, log, statements}
use accountability_gadget_pr.Consensus.Agreement.Entries.{signed_vote}
use accountability_gadget_pr.Consensus.Agreement.Certified.{
  IsHonest, AreApart, HasSigned, signed_statement,
}

-- A node that keeps its key and that runs the core: its own scheme differs in the secret key only, the
-- blocks that its store returns are those that it wrote, and the messages that come in are as asked.
pub record IsCorrect (c : Primitives) (committee : Committee) (name : PublicKey) (p : Participant)
    : Type 0 where
  pub honest : IsHonest c name p
  pub single :
      (d : Digest) (s : Signature) → from_crypto (verify c s d name) ≡ ok tt → HasSigned c p d
  pub scheme : p.env.primitives ≡ with_signer c p.env.primitives.sign
  pub committee_is : p.env.committee ≡ committee
  pub codec : IsCodec p.env
  pub blocks : IsBlockStore p.env
  pub stored : Stored p.env p.store 0
  pub told :
      AreTold p.env p.fuel (IsTold p.env) p.events (booted p.env p.fuel (new_core p.env p.store))

IsChecked-with_signer :
    (c : Primitives) (committee : Committee) (sign : Digest → Signature) (b : Block)
    → IsChecked (with_signer c sign) committee b
    → IsChecked c committee b
IsChecked-with_signer c committee sign b (genuine, timed) =
    (certified b.qc genuine, good b.tc timed)
  where
    certified : (qc : Qc) → IsGenuine (with_signer c sign) committee qc → IsGenuine c committee qc
    certified qc (inl first) = inl first
    certified qc (inr e) = inr (sym (verify_qc-with_signer c sign committee qc) ∙ e)

    good :
        (o : Option Tc)
        → IsGood (λ tc. verify_tc (with_signer c sign) committee tc ≡ ok tt) o
        → IsGood (λ tc. verify_tc c committee tc ≡ ok tt) o
    good none e = tt
    good (some tc) e = sym (verify_tc-with_signer c sign committee tc) ∙ e

-- The block behind a vote that a node signed.
pub record IsVoted (c : Primitives) (committee : Committee) (es : List Effect) (hash : Digest)
    (round : ℕ) : Type 0 where
  pub block : Block
  pub hash_is : block_digest c block ≡ hash
  pub round_is : block.round ≡ round
  pub checked : IsChecked c committee block
  pub rule : MayVote block
  pub reported :
      (t : Timeout) (to : List ℕ)
      → Memᴰ (transmitted (timeout_message t) to) es
      → block.round ≤ t.round
      → block.qc.round ≤ t.high_qc_round

module _ (c : Primitives) (committee : Committee) (fits : Fits committee)
    (complete : BatchIsComplete c) where
  IsVoted-from :
      (sign : Digest → Signature) (es : List Effect) (high last : ℕ) (hash : Digest) (round : ℕ)
      → Logged (with_signer c sign) committee es high last
      → Memᴰ (of_vote hash round) (statements es)
      → IsVoted c committee es hash round
  IsVoted-from sign es high last hash round l m =
      let (v, member, same_hash, same_round) = signed_vote hash round es m in
      let b = l.voted v member in
      record {
        block = b.block;
        hash_is = sym (block_digest-with_signer c sign b.block) ∙ sym b.hash ∙ same_hash;
        round_is = sym b.round ∙ same_round;
        checked = IsChecked-with_signer c committee sign b.block b.checked;
        rule = b.rule;
        reported = b.reported;
      }

  pub log-IsVoted :
      (name : PublicKey) (p : Participant) (hash : Digest) (round : ℕ)
      → IsCorrect c committee name p
      → Memᴰ (of_vote hash round) (statements (log p))
      → IsVoted c committee (log p) hash round
  unfolding log
  log-IsVoted name p hash round i m =
      let s = (run p.env p.fuel p.events (new_core p.env p.store)).1 in
      let l =
        run-Logged p.env (subst BatchIsComplete (sym i.scheme) complete) (rw i.committee_is fits)
          i.codec i.blocks p.fuel p.store p.events i.stored i.told in
      let here =
        subst (λ m. Logged p.env.primitives m s.effects s.high_qc.round s.last_voted_round)
          i.committee_is l in
      let shared =
        subst (λ c. Logged c committee s.effects s.high_qc.round s.last_voted_round) i.scheme
          here in
      IsVoted-from p.env.primitives.sign s.effects s.high_qc.round s.last_voted_round hash round
        shared m

  low_vote : (qc : Qc) → IsBounded (of_vote (qc.hash % 256 ^ 32) (qc.round % 256 ^ 8))
  low_vote qc = (omega arith, omega arith)

  -- A correct voter signed the words of the certificate.
  pub signed_by :
      (name : PublicKey) (p : Participant) (qc : Qc)
      → verify_qc c committee qc ≡ ok tt
      → contains name (voters qc) ≡ true
      → IsCorrect c committee name p
      → AreApart c p (preimage (of_vote (qc.hash % 256 ^ 32) (qc.round % 256 ^ 8)))
      → Memᴰ (of_vote (qc.hash % 256 ^ 32) (qc.round % 256 ^ 8)) (statements (log p))
  unfolding qc_digest
  signed_by name p qc e voted i apart =
      let batch = ((verify_qc_iff c committee fits qc).0 e).1 in
      signed_statement c name p _ i.honest (unfold is_block in refl) (low_vote qc) apart (
        subst (λ (bytes : List ℕ). HasSigned c p (c.sha512 bytes))
          (sym (vote_bytes-low qc.hash qc.round))
          (i.honest.unforged (qc_digest c qc) qc.votes batch voted))

  low_timeout : (round high : ℕ) → IsBounded (of_timeout (round % 256 ^ 8) (high % 256 ^ 8))
  low_timeout round high = (omega arith, omega arith)

  -- A correct author of an entry of a TC signed the words of that entry.
  pub entry_signed_by :
      (name : PublicKey) (p : Participant) (round high : ℕ) (s : Signature)
      → IsSigned c committee fits round (name, s, high)
      → IsCorrect c committee name p
      → AreApart c p (preimage (of_timeout (round % 256 ^ 8) (high % 256 ^ 8)))
      → Memᴰ (of_timeout (round % 256 ^ 8) (high % 256 ^ 8)) (statements (log p))
  entry_signed_by name p round high s e i apart =
      signed_statement c name p _ i.honest (unfold is_block in refl) (low_timeout round high) apart
        (subst (λ (bytes : List ℕ). HasSigned c p (c.sha512 bytes))
          (sym (timeout_bytes-low round high)) (i.single (c.sha512 (timeout_bytes round high)) s e))
