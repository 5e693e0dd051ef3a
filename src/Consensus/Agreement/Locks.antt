-- ===== src/Consensus/Agreement/Locks.antt =====
-- The certificates of consensus/src after two of rounds in a row, across nodes.
use accountability_gadget_pr.Base.{
  ℕ, ◌+◌, ◌*◌, ◌%◌, ◌^◌, ◌≤◌, ◌<◌, ◌≡◌, ◌≢◌, refl, sym, ◌∙◌, ap, inl, inr, List, [], ◌∷◌, Option,
  none, some, map, true, false, contains, max, All, ok, arith, subst, Bool-cases, ◌==◌, ==_iff,
}
use mathlib.Core.List.{Memᴰ}
use accountability_gadget_pr.Crypto.{Digest, PublicKey, Signature, Primitives}
use accountability_gadget_pr.Consensus.Config.{Committee, sum_stakes, weigh, Fits}
use accountability_gadget_pr.Consensus.Messages.{
  Qc, Tc, Block, block_digest, verify_qc, verify_tc, qc_eq, high_qc_rounds,
}
use accountability_gadget_pr.Consensus.Messages.Preimages.{
  Statement, of_timeout, is_block, preimage, IsBounded,
}
use accountability_gadget_pr.Consensus.Messages.Quorum.{HasStake, voters}
use accountability_gadget_pr.Consensus.Messages.Certificates.{verify_tc-IsQuorum, IsSigned}
use accountability_gadget_pr.Consensus.Aggregator.Sound.{BatchIsComplete}
use accountability_gadget_pr.Consensus.Core.Handlers.{max_of}
use accountability_gadget_pr.Consensus.Core.Invariant.{IsGood}
use accountability_gadget_pr.Consensus.Core.Safety.Rules.{IsChecked, IsJustified, MayVote}
use accountability_gadget_pr.Consensus.Agreement.Log.{Participant, log, statements}
use accountability_gadget_pr.Consensus.Agreement.Entries.{signed_timeout}
use accountability_gadget_pr.Consensus.Agreement.Certified.{
  AreApart, qc_statement, common_honest, verify_qc-IsQuorum,
}
use accountability_gadget_pr.Consensus.Agreement.Correct.{
  IsCorrect, IsVoted, log-IsVoted, signed_by, entry_signed_by,
}

-- No element of a list is above the greatest.
max_of-none : (x : ℕ) (xs : List ℕ) → max_of (x ∷ xs) ≢ none
unfolding max_of
max_of-none x xs e = cases (max_of xs) e
  where
    cases :
        (o : Option ℕ)
        → (let r : Option ℕ = elim o [ none ↦ some x | some y ↦ some (max x y) ] in r ≡ none)
        → ⊥
    cases none e = cc
    cases (some y) e = cc

All-le : (xs : List ℕ) (m n : ℕ) → m ≤ n → All (λ x. x ≤ m) xs → All (λ x. x ≤ n) xs
All-le [] m n l a = tt
All-le (x ∷ xs) m n l a = (omega (arith, a.0), All-le xs m n l a.1)

max_of-All_cons :
    (x greatest : ℕ) (xs : List ℕ) (o : Option ℕ)
    → max_of xs ≡ o
    → ((y : ℕ) → max_of xs ≡ some y → All (λ x. x ≤ y) xs)
    → (let r : Option ℕ = elim o [ none ↦ some x | some y ↦ some (max x y) ] in r ≡ some greatest)
    → All (λ x. x ≤ greatest) (x ∷ xs)
max_of-All_cons x greatest [] none m ih e = let is : x ≡ greatest = cc in (omega (arith, is), tt)
max_of-All_cons x greatest (y ∷ xs) none m ih e = absurd (max_of-none y xs m)
max_of-All_cons x greatest xs (some y) m ih e =
    let is : max x y ≡ greatest = cc in
    (omega (arith, is), All-le xs y greatest (omega (arith, is)) (ih y m))

max_of-All : (xs : List ℕ) (greatest : ℕ) → max_of xs ≡ some greatest → All (λ x. x ≤ greatest) xs
unfolding max_of
max_of-All [] greatest e = tt
max_of-All (x ∷ xs) greatest e =
    max_of-All_cons x greatest xs (max_of xs) refl (λ y m. max_of-All xs y m) e

-- The entry of a name in a TC.
entry_of :
    (P : PublicKey × Signature × ℕ → Type 0) (name greatest : ℕ)
    (votes : List (PublicKey × Signature × ℕ))
    → contains name (map (λ v. v.0) votes) ≡ true
    → All P votes
    → All (λ x. x ≤ greatest) (map (λ v. v.2) votes)
    → (s : Signature) × (high : ℕ) × P (name, s, high) × (high ≤ greatest)
entry_of P name greatest [] m all le = cc
entry_of P name greatest ((author, s, high) ∷ votes) m all le = elim (Bool-cases (name == author)) [
  | inl here ↦
      let same = (==_iff name author).0 here in
      (s, high, subst (λ n. P (n, s, high)) (sym same) all.0, le.0)
  | inr there ↦ entry_of P name greatest votes (ground arith) all.1 le.1
]

module _ (c : Primitives) (committee : Committee) (fits : Fits committee)
    (complete : BatchIsComplete c) where
  module _ (faulty : List PublicKey) (node : PublicKey → Participant)
      (few : 3 * weigh committee.authorities faulty ≤ sum_stakes committee.authorities)
      (correct : (name : PublicKey)
        → HasStake committee name
        → contains name faulty ≡ false
        → IsCorrect c committee name (node name))
      (apart : (name : PublicKey) (t : Statement)
        → HasStake committee name
        → contains name faulty ≡ false
        → is_block t ≡ false
        → AreApart c (node name) (preimage t)) where
    -- Some voter of an accepted certificate has a block for it.
    certified-IsVoted :
        (qc : Qc)
        → verify_qc c committee qc ≡ ok tt
        → (name : PublicKey) × IsVoted c committee
            (log (node name))
            (qc.hash % 256 ^ 32)
            (qc.round % 256 ^ 8)
    certified-IsVoted qc e =
        let quorum = verify_qc-IsQuorum c committee fits qc e in
        let (x, voted, _, good, has) =
          common_honest c committee fits faulty (voters qc) (voters qc) few quorum quorum in
        let i = correct x has good in
        (
          x,
          log-IsVoted c committee fits complete x (node x) _ _ i (
              signed_by c committee fits complete x (node x) qc e voted i
                (apart x _ has good (unfold is_block in refl))),
        )

    -- What a digest fixes: the round of its blocks and the hash of their parent, as words.
    abbrev IsOf : Digest → ℕ → Digest → Type 0
    IsOf hash round parent =
        (b : Block)
        → block_digest c b ≡ hash
        → (b.round % 256 ^ 8 ≡ round) × (b.qc.hash % 256 ^ 32 ≡ parent)

    -- The certificate in a block whose parent's digest fixes its round is of that round.
    parent_round :
        (b : Block) (hash : Digest) (round : ℕ) (parent : Digest)
        → IsChecked c committee b
        → b.qc.hash % 256 ^ 32 ≡ hash
        → hash ≢ 0
        → IsOf hash round parent
        → b.qc.round % 256 ^ 8 % 256 ^ 8 ≡ round
    parent_round b hash round parent (inl first, _) up n is =
        let zero : b.qc.hash ≡ 0 = unfold qc_eq in ground (arith, first) in absurd (n (omega arith))
    parent_round b hash round parent (inr e, _) up n is =
        let (x, v) = certified-IsVoted b.qc e in
        ap (λ (r : ℕ). r % 256 ^ 8) (sym v.round_is) ∙ (is v.block (v.hash_is ∙ up)).0

    -- A correct node that voted in the round of the lock, and whose timeout is in a TC of that round or a
    -- later one, reports the lock.
    covers :
        (name : PublicKey) (lock high round reported : ℕ)
        → (v : IsVoted c committee (log (node name)) lock (round % 256 ^ 8))
        → Memᴰ (of_timeout (high % 256 ^ 8) (reported % 256 ^ 8)) (statements (log (node name)))
        → round % 256 ^ 8 ≤ high % 256 ^ 8
        → v.block.qc.round ≤ reported
    covers name lock high round reported v m le =
        let (t, to, member, is_round, is_high) = signed_timeout _ _ (log (node name)) m in
        omega (arith, v.reported t to member (omega (arith, v.round_is, is_round)), is_high)

    module _ (q0 q1 q : Qc) (e1 : verify_qc c committee q1 ≡ ok tt)
        (e : verify_qc c committee q ≡ ok tt) where
      -- A TC after the lock reports the lock.
      justified_round :
          (tc : Tc) (round qc_round lock : ℕ)
          → verify_tc c committee tc ≡ ok tt
          → IsJustified tc round qc_round
          → q1.round % 256 ^ 8 < round
          → ((name : PublicKey)
              → (v : IsVoted c committee
                  (log (node name))
                  (q1.hash % 256 ^ 32)
                  (q1.round % 256 ^ 8))
              → lock ≤ v.block.qc.round)
          → lock ≤ qc_round
      justified_round tc round qc_round lock t j below locked =
          let (quorum, signed) = verify_tc-IsQuorum c committee fits tc t in
          let (x, voted, timed, good, has) =
            common_honest c committee fits faulty (voters q1) (map (λ v. v.0) tc.votes) few
              (verify_qc-IsQuorum c committee fits q1 e1) quorum in
          let i = correct x has good in
          let v = log-IsVoted c committee fits complete x (node x) _ _ i (
            signed_by c committee fits complete x (node x) q1 e1 voted i
              (apart x _ has good (unfold is_block in refl))) in
          let (s, reported, entry, le) =
            entry_of (IsSigned c committee fits tc.round) x j.high tc.votes timed signed
              (max_of-All _ j.high (unfold high_qc_rounds in j.greatest)) in
          let m =
            entry_signed_by c committee fits complete x (node x) tc.round reported s entry i
              (apart x _ has good (unfold is_block in refl)) in
          omega (
            arith,
            locked x v,
            covers x (q1.hash % 256 ^ 32) tc.round q1.round reported v m
                (omega (arith, j.next, below)),
            le,
            j.covered,
          )

      -- The block of a vote for the second certificate carries a certificate of the first one's round.
      locked_round :
          (grandparent : Digest)
          → IsBounded (qc_statement q1)
          → q0.hash ≢ 0
          → IsOf q0.hash q0.round grandparent
          → IsOf q1.hash q1.round q0.hash
          → (name : PublicKey)
          → (v : IsVoted c committee (log (node name)) (q1.hash % 256 ^ 32) (q1.round % 256 ^ 8))
          → q0.round ≤ v.block.qc.round
      locked_round grandparent bounded n of0 of1 name v =
          let hash : block_digest c v.block ≡ q1.hash = omega (arith, v.hash_is, bounded.0) in
          let round =
            parent_round v.block q0.hash q0.round grandparent v.checked (of1 v.block hash).1 n
              of0 in
          omega (arith, round)

      rule_round :
          (b : Block)
          → q1.round ≡ q0.round + 1
          → q1.round % 256 ^ 8 < b.round
          → q1.round < 256 ^ 8
          → IsChecked c committee b
          → MayVote b
          → ((name : PublicKey)
              → (v : IsVoted c committee
                  (log (node name))
                  (q1.hash % 256 ^ 32)
                  (q1.round % 256 ^ 8))
              → q0.round ≤ v.block.qc.round)
          → q0.round ≤ b.qc.round
      rule_round b next later word k (inl direct) locked = omega (arith, direct)
      rule_round b next later word k (inr (tc, same, j)) locked =
          let good = subst (λ o. IsGood (λ tc. verify_tc c committee tc ≡ ok tt) o) same k.1 in
          justified_round tc b.round b.qc.round q0.round good j later locked

      -- Where the committee's double stake is a `u32`, the batch check passes signatures that pass one by
      -- one, the faulty authorities hold a third of the stake at most, every other one keeps its key,
      -- signs with it in its core and elsewhere only what is longer than 40 bytes, runs the core on a
      -- store that held no unchecked block at the start and returns only blocks that the core wrote,
      -- unchanged by bincode, is told of no TC that fails `TC::verify` and gets back only blocks that it
      -- handed out, what they sign collides with no vote and no timeout under the hash, and the digests
      -- of two certificates of rounds in a row fix their blocks, the first as the parent of the second: a
      -- certificate of a later round than both that `QC::verify` accepts is for a checked block whose own
      -- certificate is of the first one's round or a later one.
      pub certified_locks :
          (grandparent : Digest)
          → IsBounded (qc_statement q1)
          → IsBounded (qc_statement q)
          → q0.hash ≢ 0
          → IsOf q0.hash q0.round grandparent
          → IsOf q1.hash q1.round q0.hash
          → q1.round ≡ q0.round + 1
          → q1.round < q.round
          → (b : Block) × (block_digest c b ≡ q.hash)
            × (b.round ≡ q.round)
            × IsChecked c committee b
            × (q0.round ≤ b.qc.round)
      certified_locks grandparent bounded1 bounded n of0 of1 next later =
          let (x, w) = certified-IsVoted q e in
          let locked = locked_round grandparent bounded1 n of0 of1 in
          let round : w.block.round ≡ q.round = omega (arith, w.round_is, bounded.1) in
          (
            w.block,
            omega (arith, w.hash_is, bounded.0),
            round,
            w.checked,
            rule_round w.block next (omega (arith, bounded1.1)) bounded1.1 w.checked w.rule locked,
          )
