-- ===== src/Consensus/Agreement/Certified.antt =====
-- The certificates of consensus/src across nodes, some of which may be faulty.
use accountability_gadget_pr.Base.{
  ℕ, ◌*◌, ◌≤◌, ◌<◌, ◌≡◌, refl, ap, length, ◌⊎◌, inl, inr, List, [], ◌∷◌, map, true, false, contains,
  All, All_at, ok, arith, subst, sym, Bool-cases, contains-filter,
}
use mathlib.Core.List.{Memᴰ}
use accountability_gadget_pr.Crypto.{Digest, PublicKey, Signature, Primitives, verify_batch}
use accountability_gadget_pr.Consensus.Config.{Committee, sum_stakes, weigh, weigh-members, Fits}
use accountability_gadget_pr.Consensus.Error.{from_crypto}
use accountability_gadget_pr.Consensus.Messages.{Qc, verify_qc, qc_digest}
use accountability_gadget_pr.Consensus.Messages.Preimages.{
  Statement, of_vote, is_block, preimage, IsBounded, preimage-injective, length-preimage_le,
}
use accountability_gadget_pr.Consensus.Messages.Quorum.{
  IsQuorum, HasStake, voters, common, Distinct-filter, IsQuorum-common,
}
use accountability_gadget_pr.Consensus.Messages.Certificates.{verify_qc_iff}
use accountability_gadget_pr.Consensus.Agreement.Log.{
  Participant, log, statements, log-votes_unique,
}

-- What a certificate states.
abbrev pub qc_statement : Qc → Statement
qc_statement qc = of_vote qc.hash qc.round

-- The node has signed the digest, in its core or in another task.
abbrev pub HasSigned : Primitives → Participant → Digest → Type 0
HasSigned c p d =
    ((t : Statement) × Memᴰ t (statements (log p)) × (c.sha512 (preimage t) ≡ d))
    ⊎ ((bytes : List ℕ) × Memᴰ bytes p.elsewhere × (c.sha512 bytes ≡ d))

-- A node that keeps its key: whenever the batch check passes signatures on a digest, one of them under
-- the node's name, the node has signed that digest. The statements of its core are of digests of 32
-- bytes and rounds of 8, as the types of the source say, and what its other tasks sign is longer than a
-- vote or a timeout: bincode writes a transaction of mynode/src/cpactions.rs with its author, whose name
-- alone takes more than 40 bytes, first.
pub record IsHonest (c : Primitives) (name : PublicKey) (p : Participant) : Type 0 where
  pub unforged :
      (d : Digest) (votes : List (PublicKey × Signature))
      → from_crypto (verify_batch c d votes) ≡ ok tt
      → contains name (map (λ v. v.0) votes) ≡ true
      → HasSigned c p d
  pub longer : (bytes : List ℕ) → Memᴰ bytes p.elsewhere → 40 < length bytes
  pub bounded : (t : Statement) → Memᴰ t (statements (log p)) → IsBounded t

-- Nothing that the node has signed collides with these bytes under the hash.
abbrev pub AreApart : Primitives → Participant → List ℕ → Type 0
AreApart c p bytes =
    ((t : Statement)
      → Memᴰ t (statements (log p))
      → c.sha512 (preimage t) ≡ c.sha512 bytes
      → preimage t ≡ bytes)
    × ((other : List ℕ) → Memᴰ other p.elsewhere → c.sha512 other ≡ c.sha512 bytes → other ≡ bytes)

-- Nor with the certificate.
abbrev pub IsApart : Primitives → Participant → Qc → Type 0
IsApart c p qc = AreApart c p (preimage (qc_statement qc))

-- A vote or a timeout whose digest the node has signed was signed by its core.
pub signed_statement :
    (c : Primitives) (name : PublicKey) (p : Participant) (t : Statement)
    → IsHonest c name p
    → is_block t ≡ false
    → IsBounded t
    → AreApart c p (preimage t)
    → HasSigned c p (c.sha512 (preimage t))
    → Memᴰ t (statements (log p))
signed_statement c name p t i small bounded apart (inl (u, m, same)) =
    subst (λ t. Memᴰ t (statements (log p)))
      (preimage-injective u t (i.bounded u m) bounded (apart.0 u m same)) m
signed_statement c name p t i small bounded apart (inr (other, m, same)) =
    let is = apart.1 other m same in
    absurd (omega (arith, i.longer other m, ap length is, length-preimage_le t small))

-- A name that is not among the faulty ones, or all are.
first_honest :
    (faulty xs : List PublicKey)
    → ((x : PublicKey) × (contains x xs ≡ true) × (contains x faulty ≡ false))
      ⊎ All (λ x. contains x faulty ≡ true) xs
first_honest faulty [] = inr tt
first_honest faulty (x ∷ xs) = elim (Bool-cases (contains x faulty)) [
  | inl bad ↦ elim (first_honest faulty xs) [
    | inl (y, member, good) ↦ inl (y, ground (arith, member), good)
    | inr all ↦ inr (bad, all)
  ]
  | inr good ↦ inl (x, ground arith, good)
]

common-both :
    (x : PublicKey) (xs ys : List PublicKey)
    → contains x (common xs ys) ≡ true
    → (contains x xs ≡ true) × (contains x ys ≡ true)
common-both x xs ys h = ground (arith, contains-filter x (λ x. contains x ys) xs)

module _ (c : Primitives) (committee : Committee) (fits : Fits committee) where
  pub verify_qc-IsQuorum :
      (qc : Qc) → verify_qc c committee qc ≡ ok tt → IsQuorum committee (voters qc)
  verify_qc-IsQuorum qc e = ((verify_qc_iff c committee fits qc).0 e).0

  -- Two quorums have an authority in common that is not faulty.
  pub common_honest :
      (faulty xs ys : List PublicKey)
      → 3 * weigh committee.authorities faulty ≤ sum_stakes committee.authorities
      → IsQuorum committee xs
      → IsQuorum committee ys
      → (x : PublicKey) × (contains x xs ≡ true)
        × (contains x ys ≡ true)
        × (contains x faulty ≡ false)
        × HasStake committee x
  common_honest faulty xs ys few q q' = elim (first_honest faulty (common xs ys)) [
    | inl (x, member, good) ↦
        let (a, b) = common-both x xs ys member in
        (x, a, b, good, All_at (HasStake committee) xs x q.authorised a)
    | inr all ↦ absurd (
        omega (
          arith,
          few,
          IsQuorum-common committee xs ys fits q q',
          weigh-members committee.authorities (common xs ys) faulty
              (Distinct-filter _ xs q.distinct) all,
        ))
  ]

  -- A voter that is honest has signed what the certificate states.
  pub voter-statement :
      (name : PublicKey) (p : Participant) (qc : Qc)
      → IsHonest c name p
      → IsApart c p qc
      → IsBounded (qc_statement qc)
      → verify_qc c committee qc ≡ ok tt
      → contains name (voters qc) ≡ true
      → Memᴰ (qc_statement qc) (statements (log p))
  unfolding qc_digest
  voter-statement name p qc honest apart bounded e voted =
      let batch = ((verify_qc_iff c committee fits qc).0 e).1 in
      signed_statement c name p (qc_statement qc) honest (unfold is_block in refl) bounded apart
        (unfold preimage in (honest.unforged (qc_digest c qc) qc.votes batch voted))

  module _ (faulty : List PublicKey) (node : PublicKey → Participant)
      (few : 3 * weigh committee.authorities faulty ≤ sum_stakes committee.authorities)
      (honest : (name : PublicKey)
        → HasStake committee name
        → contains name faulty ≡ false
        → IsHonest c name (node name)) where
    -- Where the committee's double stake is a `u32`, the faulty authorities hold a third of the stake at
    -- most, every other one keeps its key, runs the core on whatever comes in and signs nothing else of up to
    -- 40 bytes with it, and what they sign does not collide with two certificates under the hash: two certificates of one round that
    -- `QC::verify` accepts are for the same block hash.
    pub certified_unique :
        (qc qc' : Qc)
        → verify_qc c committee qc ≡ ok tt
        → verify_qc c committee qc' ≡ ok tt
        → IsBounded (qc_statement qc)
        → IsBounded (qc_statement qc')
        → ((name : PublicKey)
            → HasStake committee name
            → contains name faulty ≡ false
            → IsApart c (node name) qc × IsApart c (node name) qc')
        → qc.round ≡ qc'.round
        → qc.hash ≡ qc'.hash
    certified_unique qc qc' e e' bounded bounded' apart same =
        let (x, voted, voted', good, stakes) =
          common_honest faulty (voters qc) (voters qc') few (verify_qc-IsQuorum qc e)
            (verify_qc-IsQuorum qc' e') in
        let keeps = honest x stakes good in
        let signed = voter-statement x (node x) qc keeps (apart x stakes good).0 bounded e voted in
        let signed' =
          voter-statement x (node x) qc' keeps (apart x stakes good).1 bounded' e' voted' in
        log-votes_unique qc.hash qc'.hash qc.round (node x) signed
          (subst (λ r. Memᴰ (of_vote qc'.hash r) (statements (log (node x)))) (sym same) signed')
