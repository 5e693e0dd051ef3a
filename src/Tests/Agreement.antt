-- ===== src/Tests/Agreement.antt =====
-- Three nodes of consensus/src that vote for the block of a fourth, which is faulty.
use accountability_gadget_pr.Base.{
  length, ℕ, ◌*◌, ◌≤◌, ◌<◌, ◌≡◌, refl, sym, subst, ◌⊎◌, inl, inr, List, [], ◌∷◌, map, none, true,
  false, Bool, ◌==◌, ◌&&◌, contains, ok, arith, ◌∙◌, ap,
}
use mathlib.Core.List.{Memᴰ}
use mathlib.Core.List.Memᴰ.{cases_cons}
use accountability_gadget_pr.Crypto.{
  Digest, PublicKey, Signature, Primitives, verify_batch, gather_batch, flatten, be_bytes, le_bytes,
  verify,
}
use accountability_gadget_pr.Consensus.Config.{
  default_parameters, stake, stake_in, new_committee, collect, weigh, sum_stakes, quorum_threshold,
  total_votes, address, broadcast_addresses,
}
use accountability_gadget_pr.Base.Dict.{insert, lookup}
use accountability_gadget_pr.Consensus.Error.{from_crypto}
use accountability_gadget_pr.Consensus.Messages.{
  Qc, Block, new_block, new_vote, qc_genesis, block_bytes, block_digest, vote_bytes, verify_qc,
  qc_digest, count_weight, qc_eq, verify_block, verify_tc?, payload_bytes,
}
use accountability_gadget_pr.Consensus.Messages.Preimages.{
  Statement, of_vote, preimage, vote_statement, IsBounded,
}
use accountability_gadget_pr.Consensus.Core
use accountability_gadget_pr.Consensus.Core.{
  Env, new_core, propose_message, accept, emit, modify, gets, lift, pure,
}
use accountability_gadget_pr.Consensus.Core.Handlers.{
  boot, on_message, handle_proposal, process_qc, advance_round, update_high_qc, driver_verify,
  status_result, process_block, get_ancestors, get_parent_block, read_store, with_parent,
  with_grandparent, process_with_ancestors, store_block, create_vote, make_vote, can_extend,
  increase_last_voted_round, none_or, send_vote, transmit, propose_if_leader,
}
use accountability_gadget_pr.Consensus.Aggregator.{new_aggregator}
use accountability_gadget_pr.Consensus.Core.Run.{
  received, run, run_loop, on_event, with_result, logged, expected,
}
use accountability_gadget_pr.Consensus.Agreement.Log.{Participant, log, statements, signed_in}
use accountability_gadget_pr.Consensus.Agreement.Certified.{IsHonest, IsApart, certified_unique}
use accountability_gadget_pr.Tests.Toy.{toy, toy_hash, toy_strict, four, four_fits}

-- The digest of the block of authority 2 for round 1, and what is signed of a vote for it.
unfoldable first : Block
unfolding new_block
first = new_block toy qc_genesis none 2 1 (11 ∷ [])

abbrev first_hash : Digest
first_hash = 57498

hash_of_first : block_digest toy first ≡ first_hash
unfolding first new_block block_digest block_bytes toy_hash be_bytes le_bytes
hash_of_first = refl

abbrev vote_hash : Digest
vote_hash = 562

hash_of_vote : toy_hash (vote_bytes first_hash 1) ≡ vote_hash
unfolding vote_bytes toy_hash be_bytes le_bytes
hash_of_vote = refl

-- A batch check that passes signatures on that vote only.
unfoldable only_votes : List (Digest × List ℕ × List ℕ) → Bool
only_votes [] = true
only_votes ((d, key, signature) ∷ batch) = d == vote_hash && only_votes batch

abbrev scheme : Primitives
scheme = record toy { batch_verifies = only_votes }

-- What the nodes sign in another task.
other_bytes : List ℕ
unfolding be_bytes
other_bytes = be_bytes 52 9

other_longer : (bytes : List ℕ) → Memᴰ bytes (other_bytes ∷ []) → 40 < length bytes
unfolding other_bytes
other_longer bytes m = elim (cases_cons m) [
  | inl same ↦ subst (λ (xs : List ℕ). 40 < length xs) (sym same) (omega arith)
  | inr rest ↦ elim rest [ ]
]

other_apart :
    (bytes : List ℕ)
    → Memᴰ bytes (other_bytes ∷ [])
    → toy_hash bytes ≡ toy_hash (vote_bytes first_hash 1)
    → bytes ≡ vote_bytes first_hash 1
unfolding other_bytes toy_hash vote_bytes be_bytes le_bytes
other_apart bytes m e = elim (cases_cons m) [
  | inl same ↦
      let e' : 2451 ≡ 562 =
        subst (λ bytes. toy_hash bytes ≡ toy_hash (vote_bytes first_hash 1)) same e in
      absurd (omega (arith, e'))
  | inr rest ↦ elim rest [ ]
]

abbrev node : PublicKey → Participant
node name = record {
  env = record {
    primitives = scheme;
    name = name;
    committee = four;
    parameters = default_parameters;
    get_leader = λ round. 2;
    boycott_proposals = false;
    mempool_get = λ effects size. [];
    mempool_verify = λ effects block. accept;
    store_read = λ effects key written. ok written;
    encode = block_bytes;
    decode = λ bytes. none;
  };
  fuel = 3;
  store = [];
  events = received (propose_message first) ∷ [];
  elsewhere = other_bytes ∷ [];
}

abbrev the_vote : Statement
the_vote = of_vote first_hash 1

log_of :
    (statements (log (node 1)) ≡ the_vote ∷ [])
    × (statements (log (node 3)) ≡ the_vote ∷ [])
    × (statements (log (node 4)) ≡ the_vote ∷ [])
unfolding statements signed_in vote_statement log first new_block run run_loop on_event with_result
    logged expected boot on_message handle_proposal process_qc advance_round update_high_qc
    driver_verify status_result process_block get_ancestors get_parent_block read_store with_parent
    with_grandparent process_with_ancestors store_block create_vote make_vote can_extend
    increase_last_voted_round none_or send_vote transmit propose_if_leader emit modify gets lift
    pure Core.◌>>=◌ new_core new_aggregator verify_block verify_tc? verify toy_strict flatten
    be_bytes le_bytes block_digest block_bytes payload_bytes toy_hash stake stake_in lookup insert
    four new_committee collect qc_eq new_vote address broadcast_addresses
log_of = (refl, refl, refl)

authorities :
    (name : PublicKey)
    → 0 < stake four name
    → contains name (2 ∷ []) ≡ false
    → (name ≡ 1) ⊎ ((name ≡ 3) ⊎ (name ≡ 4))
unfolding stake stake_in lookup four new_committee collect insert
authorities name has good = ground arith

log_of_authority :
    (name : PublicKey)
    → (name ≡ 1) ⊎ ((name ≡ 3) ⊎ (name ≡ 4))
    → statements (log (node name)) ≡ the_vote ∷ []
log_of_authority name (inl e) =
    subst (λ n. statements (log (node n)) ≡ the_vote ∷ []) (sym e) log_of.0
log_of_authority name (inr (inl e)) =
    subst (λ n. statements (log (node n)) ≡ the_vote ∷ []) (sym e) log_of.1
log_of_authority name (inr (inr e)) =
    subst (λ n. statements (log (node n)) ≡ the_vote ∷ []) (sym e) log_of.2

only_the_vote :
    (xs : List Statement) (t : Statement) → xs ≡ the_vote ∷ [] → Memᴰ t xs → t ≡ the_vote
only_the_vote xs t e m = elim (cases_cons (subst (Memᴰ t) e m)) [
  | inl same ↦ same
  | inr rest ↦ elim rest [ ]
]

-- A batch that passes is on the vote.
batch_is_vote :
    (d : Digest) (votes : List (PublicKey × Signature)) (name : PublicKey)
    → from_crypto (verify_batch scheme d votes) ≡ ok tt
    → contains name (map (λ v. v.0) votes) ≡ true
    → d ≡ vote_hash
unfolding verify_batch gather_batch only_votes
batch_is_vote d [] name e m = cc
batch_is_vote d ((key, s) ∷ votes) name e m = ground (arith, e)

IsHonest-with :
    (name : PublicKey)
    → statements (log (node name)) ≡ the_vote ∷ []
    → IsHonest scheme name (node name)
IsHonest-with name is = record {
  longer = other_longer;
  unforged = λ d votes e m. inl (
    the_vote,
    subst (Memᴰ the_vote) (sym is) (Memᴰ.head refl),
    unfold preimage in (hash_of_vote ∙ sym (batch_is_vote d votes name e m)),
  );
  bounded = λ t m. subst IsBounded (sym (only_the_vote _ t is m)) (omega arith, omega arith);
}

honest :
    (name : PublicKey)
    → 0 < stake four name
    → contains name (2 ∷ []) ≡ false
    → IsHonest scheme name (node name)
honest name has good = IsHonest-with name (log_of_authority name (authorities name has good))

abbrev certificate : List (PublicKey × Signature) → Qc
certificate votes = record { hash = first_hash; round = 1; votes = votes }

abbrev seal : PublicKey → PublicKey × Signature
seal name = (name, scheme.sign vote_hash)

abbrev one_qc : Qc
one_qc = certificate (seal 1 ∷ seal 2 ∷ seal 3 ∷ [])

abbrev other_qc : Qc
other_qc = certificate (seal 2 ∷ seal 3 ∷ seal 4 ∷ [])

both_verify : (verify_qc scheme four one_qc ≡ ok tt) × (verify_qc scheme four other_qc ≡ ok tt)
unfolding verify_qc count_weight stake stake_in lookup four new_committee collect insert
    quorum_threshold total_votes sum_stakes verify_batch gather_batch qc_digest only_votes toy_hash
    vote_bytes be_bytes le_bytes flatten
both_verify = (refl, refl)

few : 3 * weigh four.authorities (2 ∷ []) ≤ sum_stakes four.authorities
unfolding weigh sum_stakes stake_in lookup four new_committee collect insert
few = omega arith

IsApart-with :
    (name : PublicKey) (votes : List (PublicKey × Signature))
    → statements (log (node name)) ≡ the_vote ∷ []
    → IsApart scheme (node name) (certificate votes)
IsApart-with name votes is =
    (λ t m same. ap preimage (only_the_vote _ t is m), unfold preimage in other_apart)

IsApart-all :
    (name : PublicKey)
    → 0 < stake four name
    → contains name (2 ∷ []) ≡ false
    → IsApart scheme (node name) one_qc × IsApart scheme (node name) other_qc
IsApart-all name has good =
    let is = log_of_authority name (authorities name has good) in
    (IsApart-with name one_qc.votes is, IsApart-with name other_qc.votes is)

certified_unique_example : one_qc.hash ≡ other_qc.hash
certified_unique_example =
    certified_unique scheme four four_fits (2 ∷ []) node few honest one_qc other_qc both_verify.0
      both_verify.1 (omega arith, omega arith) (omega arith, omega arith) IsApart-all refl
