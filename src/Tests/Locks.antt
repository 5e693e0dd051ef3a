-- ===== src/Tests/Locks.antt =====
-- The certificates of a chain of consensus/src, and what they lock.
use accountability_gadget_pr.Base.{
  ℕ, ◌*◌, ◌≤◌, ◌<◌, ◌≡◌, refl, sym, subst, ◌⊎◌, inl, inr, List, [], ◌∷◌, map, true, false, Bool,
  ◌==◌, ◌&&◌, contains, ok, arith, ◌∙◌,
}
use mathlib.Core.List.{Memᴰ}
use mathlib.Core.List.Memᴰ.{cases_cons}
use accountability_gadget_pr.Crypto.{
  Digest, PublicKey, Signature, verify_batch, gather_batch, flatten, be_bytes, le_bytes, verify,
}
use accountability_gadget_pr.Consensus.Config.{
  stake, stake_in, new_committee, collect, weigh, sum_stakes, quorum_threshold, total_votes,
}
use accountability_gadget_pr.Base.Dict.{insert, lookup}
use accountability_gadget_pr.Consensus.Error.{from_crypto}
use accountability_gadget_pr.Consensus.Messages.{
  Block, block_bytes, block_digest, vote_bytes, verify_qc, qc_digest, count_weight, payload_bytes,
}
use accountability_gadget_pr.Consensus.Messages.Preimages.{
  Statement, of_vote, preimage, IsBounded, is_block,
}
use accountability_gadget_pr.Consensus.Core.{new_core}
use accountability_gadget_pr.Consensus.Agreement.Log.{log, statements}
use accountability_gadget_pr.Consensus.Agreement.Certified.{IsHonest, HasSigned}
use accountability_gadget_pr.Tests.Table.{find, bytes_of, find-bytes_of}
use accountability_gadget_pr.Base.{
  ◌%◌, ◌^◌, Outcome, err, panic, out_of_fuel, ensure, ◌>>=◌, length, starts_with, ok_injective,
  ==_iff, Bool-cases,
}
use accountability_gadget_pr.Crypto.{CryptoError, crypto_error}
use accountability_gadget_pr.Consensus.Error.{ConsensusResult}
use accountability_gadget_pr.Consensus.Agreement.Correct.{IsCorrect}
use accountability_gadget_pr.Consensus.Agreement.Locks.{certified_locks}
use accountability_gadget_pr.Consensus.Messages.Preimages.{block_bytes-words}
use accountability_gadget_pr.Consensus.Core.Run.{AreTold, booted}
use accountability_gadget_pr.Consensus.Core.Safety.Kept.{IsTold}
use accountability_gadget_pr.Consensus.Core.Safety.Stored.{Stored}
use accountability_gadget_pr.Consensus.Core.Safety.Rules.{IsChecked}
use accountability_gadget_pr.Consensus.Agreement.Certified.{AreApart}
use accountability_gadget_pr.Tests.Toy.{four, four_fits}
use accountability_gadget_pr.Tests.Chain.{
  all_pass, block_0, block_1, certificate, checkpoint_bytes, checkpoint_hash, codec_of, complete,
  digests-Distinct, hash_0, hash_1, hash_2, is_signed, log_of, node, passes, scheme, table,
  the_votes, vote_0, vote_1, vote_2,
}

authorities :
    (name : PublicKey)
    → 0 < stake four name
    → contains name (2 ∷ []) ≡ false
    → (name ≡ 1) ⊎ ((name ≡ 3) ⊎ (name ≡ 4))
unfolding stake stake_in lookup four new_committee collect insert
authorities name has good = ground arith

-- What is known of such a name.
abbrev IsVoter : PublicKey → Type 0
IsVoter name =
    (statements (log (node name)) ≡ the_votes)
    × (starts_with (be_bytes 32 2) (be_bytes 32 name) ≡ false)

voter : (name : PublicKey) → (name ≡ 1) ⊎ ((name ≡ 3) ⊎ (name ≡ 4)) → IsVoter name
unfolding be_bytes
voter name (inl e) = subst IsVoter (sym e) (log_of.0, refl)
voter name (inr (inl e)) = subst IsVoter (sym e) (log_of.1, refl)
voter name (inr (inr e)) = subst IsVoter (sym e) (log_of.2, refl)

-- The check of a batch, given what was gathered for the votes after the first.
abbrev checked : Outcome CryptoError (List (Digest × List ℕ × List ℕ)) → ConsensusResult (Unit {0})
checked batch = from_crypto (batch >>= λ batch. ensure (all_pass batch) crypto_error)

both_pass :
    (p q : Bool)
    → from_crypto (ensure (p && q) crypto_error) ≡ ok tt
    → (p ≡ true) × (from_crypto (ensure q crypto_error) ≡ ok tt)
both_pass true q e = (refl, e)
both_pass false q e = cc

first_passes :
    (d : Digest) (key signature : List ℕ)
    (gathered : Outcome CryptoError (List (Digest × List ℕ × List ℕ)))
    → checked (gathered >>= λ rest. ok ((d, key, signature) ∷ rest)) ≡ ok tt
    → (passes d key signature ≡ true) × (checked gathered ≡ ok tt)
unfolding all_pass
first_passes d key signature (ok rest) e = both_pass (passes d key signature) (all_pass rest) e
first_passes d key signature (err x) e = cc
first_passes d key signature panic e = cc
first_passes d key signature out_of_fuel e = cc

batch_first :
    (d : Digest) (key : PublicKey) (s : Signature) (votes : List (PublicKey × Signature))
    → from_crypto (verify_batch scheme d ((key, s) ∷ votes)) ≡ ok tt
    → (passes d (be_bytes 32 key) (flatten s) ≡ true)
      × (from_crypto (verify_batch scheme d votes) ≡ ok tt)
unfolding verify_batch gather_batch
batch_first d key s votes e =
    first_passes d (be_bytes 32 key) (flatten s) (gather_batch scheme d votes) e

batch_is_signed :
    (d : Digest) (votes : List (PublicKey × Signature)) (name : PublicKey)
    → starts_with (be_bytes 32 2) (be_bytes 32 name) ≡ false
    → from_crypto (verify_batch scheme d votes) ≡ ok tt
    → contains name (map (λ v. v.0) votes) ≡ true
    → is_signed d ≡ true
batch_is_signed d [] name n e m = cc
batch_is_signed d ((key, s) ∷ votes) name n e m =
    let (here, rest) = batch_first d key s votes e in
    elim (Bool-cases (name == key)) [
      | inl is ↦
          unfold passes in
          (let same = (==_iff name key).0 is in
            let no : starts_with (be_bytes 32 2) (be_bytes 32 key) ≡ false =
              subst (λ k. starts_with (be_bytes 32 2) (be_bytes 32 k) ≡ false) same n in
            ground (arith, here, no))
      | inr other ↦ batch_is_signed d votes name n rest (ground arith)
    ]

hashes :
    (find table (vote_bytes hash_0 1) ≡ vote_0)
    × (find table (vote_bytes hash_1 2) ≡ vote_1)
    × (find table (vote_bytes hash_2 3) ≡ vote_2)
    × (find table checkpoint_bytes ≡ checkpoint_hash)
unfolding find table checkpoint_bytes vote_bytes block_bytes be_bytes le_bytes payload_bytes
hashes = (refl, refl, refl, refl)

-- A digest that passes is one that the node has signed.
signed :
    (name : PublicKey) (d : Digest)
    → IsVoter name
    → is_signed d ≡ true
    → HasSigned scheme (node name) d
unfolding is_signed preimage
signed name d v e = elim (Bool-cases (d == vote_0)) [
  | inl is ↦ inl (
    of_vote hash_0 1,
    subst (Memᴰ _) (sym v.0) (Memᴰ.tail (Memᴰ.tail (Memᴰ.head refl))),
    hashes.0 ∙ sym ((==_iff d vote_0).0 is),
  )
  | inr not_0 ↦ elim (Bool-cases (d == vote_1)) [
    | inl is ↦ inl (
      of_vote hash_1 2,
      subst (Memᴰ _) (sym v.0) (Memᴰ.tail (Memᴰ.head refl)),
      hashes.1 ∙ sym ((==_iff d vote_1).0 is),
    )
    | inr not_1 ↦ elim (Bool-cases (d == vote_2)) [
      | inl is ↦ inl (
        of_vote hash_2 3,
        subst (Memᴰ _) (sym v.0) (Memᴰ.head refl),
        hashes.2 ∙ sym ((==_iff d vote_2).0 is),
      )
      | inr not_2 ↦ inr (
        checkpoint_bytes,
        Memᴰ.head refl,
        hashes.3 ∙ sym ((==_iff d checkpoint_hash).0 (ground arith)),
      )
    ]
  ]
]

longer : (other : List ℕ) → Memᴰ other (checkpoint_bytes ∷ []) → 40 < length other
unfolding checkpoint_bytes be_bytes
longer other member = elim (cases_cons member) [
  | inl is ↦ subst (λ (xs : List ℕ). 40 < length xs) (sym is) (omega arith)
  | inr rest ↦ elim rest [ ]
]

bounded : (t : Statement) → Memᴰ t the_votes → IsBounded t
bounded t m = elim (cases_cons m) [
  | inl e ↦ subst IsBounded (sym e) (omega arith, omega arith)
  | inr m ↦ elim (cases_cons m) [
    | inl e ↦ subst IsBounded (sym e) (omega arith, omega arith)
    | inr m ↦ elim (cases_cons m) [
      | inl e ↦ subst IsBounded (sym e) (omega arith, omega arith)
      | inr m ↦ elim m [ ]
    ]
  ]
]

-- Under the table nothing else has the digest of a vote.
only_bytes :
    (m : List ℕ)
    → ((find table m ≡ vote_0) → m ≡ vote_bytes hash_0 1)
      × ((find table m ≡ vote_1) → m ≡ vote_bytes hash_1 2)
      × ((find table m ≡ vote_2) → m ≡ vote_bytes hash_2 3)
      × ((find table m ≡ checkpoint_hash) → m ≡ checkpoint_bytes)
unfolding bytes_of table
only_bytes m = (
  λ e. find-bytes_of table m 200 digests-Distinct e,
  λ e. find-bytes_of table m 201 digests-Distinct e,
  λ e. find-bytes_of table m 202 digests-Distinct e,
  λ e. find-bytes_of table m 203 digests-Distinct e,
)

votes_apart :
    (t : Statement) (m : List ℕ)
    → Memᴰ t the_votes
    → find table (preimage t) ≡ find table m
    → preimage t ≡ m
unfolding preimage
votes_apart t m member e = elim (cases_cons member) [
  | inl is ↦ rw is (sym ((only_bytes m).2 (sym e ∙ rw is hashes.2)))
  | inr member ↦ elim (cases_cons member) [
    | inl is ↦ rw is (sym ((only_bytes m).1 (sym e ∙ rw is hashes.1)))
    | inr member ↦ elim (cases_cons member) [
      | inl is ↦ rw is (sym ((only_bytes m).0 (sym e ∙ rw is hashes.0)))
      | inr member ↦ elim member [ ]
    ]
  ]
]

checkpoint_apart :
    (other m : List ℕ)
    → Memᴰ other (checkpoint_bytes ∷ [])
    → find table other ≡ find table m
    → other ≡ m
checkpoint_apart other m member e = elim (cases_cons member) [
  | inl is ↦ rw is (sym ((only_bytes m).3 (sym e ∙ rw is hashes.3)))
  | inr rest ↦ elim rest [ ]
]

single_is_signed :
    (d : Digest) (s : Signature) (name : PublicKey)
    → starts_with (be_bytes 32 2) (be_bytes 32 name) ≡ false
    → from_crypto (verify scheme s d name) ≡ ok tt
    → is_signed d ≡ true
unfolding verify passes
single_is_signed d s name n e = ground (arith, e, n)

told :
    (name : PublicKey)
    → AreTold
        (node name).env
        3
        (IsTold (node name).env)
        (node name).events
        (booted (node name).env 3 (new_core (node name).env []))
unfolding AreTold IsTold
told name = (tt, (tt, (tt, tt)))

nothing-Stored : (name : PublicKey) → Stored (node name).env [] 0
unfolding Stored lookup
nothing-Stored name d bytes b e h = cc

voter-IsHonest : (name : PublicKey) → IsVoter name → IsHonest scheme name (node name)
voter-IsHonest name v = record {
  unforged = λ d votes e m. signed name d v (batch_is_signed d votes name v.1 e m);
  longer = longer;
  bounded = λ t m. bounded t (subst (Memᴰ t) v.0 m);
}

voter-IsCorrect : (name : PublicKey) → IsVoter name → IsCorrect scheme four name (node name)
voter-IsCorrect name v = record {
  honest = voter-IsHonest name v;
  single = λ d s e. signed name d v (single_is_signed d s name v.1 e);
  scheme = refl;
  committee_is = refl;
  codec = codec_of;
  blocks = λ es d written bytes b e h. ok_injective e;
  stored = nothing-Stored name;
  told = told name;
}

IsVoter-of :
    (name : PublicKey) → 0 < stake four name → contains name (2 ∷ []) ≡ false → IsVoter name
IsVoter-of name has good = voter name (authorities name has good)

apart :
    (name : PublicKey) (t : Statement)
    → 0 < stake four name
    → contains name (2 ∷ []) ≡ false
    → is_block t ≡ false
    → AreApart scheme (node name) (preimage t)
apart name u has good small = (
  λ t m e. votes_apart t (preimage u) (subst (Memᴰ t) (IsVoter-of name has good).0 m) e,
  λ other m e. checkpoint_apart other (preimage u) m e,
)

few : 3 * weigh four.authorities (2 ∷ []) ≤ sum_stakes four.authorities
unfolding weigh sum_stakes stake_in lookup four new_committee collect insert
few = omega arith

both_verify :
    (verify_qc scheme four (certificate hash_1 2) ≡ ok tt)
    × (verify_qc scheme four (certificate hash_2 3) ≡ ok tt)
unfolding verify_qc count_weight stake stake_in lookup four new_committee collect insert
    quorum_threshold total_votes sum_stakes verify_batch gather_batch qc_digest all_pass passes
    is_signed find table vote_bytes block_bytes payload_bytes be_bytes le_bytes flatten
both_verify = (refl, refl)

-- The table has one block for each of the digests.
of_block_0 :
    (b : Block)
    → block_digest scheme b ≡ hash_0
    → (b.round % 256 ^ 8 ≡ 1) × (b.qc.hash % 256 ^ 32 ≡ 0)
unfolding block_digest bytes_of table
of_block_0 b e =
    let (round, parent) =
      block_bytes-words b block_0 (find-bytes_of table (block_bytes b) 100 digests-Distinct e) in
    (omega (arith, round), omega (arith, parent))

of_block_1 :
    (b : Block)
    → block_digest scheme b ≡ hash_1
    → (b.round % 256 ^ 8 ≡ 2) × (b.qc.hash % 256 ^ 32 ≡ hash_0)
unfolding block_digest bytes_of table
of_block_1 b e =
    let (round, parent) =
      block_bytes-words b block_1 (find-bytes_of table (block_bytes b) 101 digests-Distinct e) in
    (omega (arith, round), omega (arith, parent))

certified_locks_example :
    (b : Block) × (block_digest scheme b ≡ hash_2)
    × (b.round ≡ 3)
    × IsChecked scheme four b
    × (1 ≤ b.qc.round)
certified_locks_example =
    certified_locks scheme four four_fits complete (2 ∷ []) node few
      (λ name has good. voter-IsCorrect name (IsVoter-of name has good)) apart
      (certificate hash_0 1) (certificate hash_1 2) (certificate hash_2 3) both_verify.0
      both_verify.1 0 (omega arith, omega arith) (omega arith, omega arith) (λ e. omega (arith, e))
      of_block_0 of_block_1 refl (omega arith)
