-- ===== src/Tests/Chain.antt =====
-- A chain of three blocks of a faulty authority of consensus/src, and three nodes that vote for it.
use accountability_gadget_pr.Base.{
  ok, ℕ, ◌≡◌, refl, inl, inr, List, [], ◌∷◌, none, true, false, Bool, ◌==◌, ◌&&◌, arith, ◌∙◌,
}
use accountability_gadget_pr.Crypto.{
  Digest, PublicKey, Primitives, verify_batch, gather_batch, flatten, be_bytes, le_bytes, verify,
}
use accountability_gadget_pr.Consensus.Config.{
  default_parameters, stake, stake_in, new_committee, collect, sum_stakes, quorum_threshold,
  total_votes, address, broadcast_addresses,
}
use accountability_gadget_pr.Base.Dict.{insert, lookup}
use accountability_gadget_pr.Consensus.Messages.{
  Qc, Block, new_block, new_vote, qc_genesis, block_bytes, block_digest, vote_bytes, verify_qc,
  qc_digest, count_weight, qc_eq, verify_block, verify_tc?, payload_bytes,
}
use accountability_gadget_pr.Consensus.Messages.Preimages.{Statement, of_vote, vote_statement}
use accountability_gadget_pr.Consensus.Core
use accountability_gadget_pr.Consensus.Core.{
  Env, new_core, propose_message, accept, emit, modify, gets, lift, pure,
}
use accountability_gadget_pr.Consensus.Core.Handlers.{
  boot, on_message, handle_proposal, process_qc, advance_round, update_high_qc, driver_verify,
  status_result, process_block, get_ancestors, get_parent_block, read_store, with_parent,
  with_grandparent, process_with_ancestors, load_parent, store_block, create_vote, make_vote,
  can_extend, increase_last_voted_round, none_or, send_vote, transmit, propose_if_leader,
}
use accountability_gadget_pr.Consensus.Aggregator.{new_aggregator}
use accountability_gadget_pr.Consensus.Core.Run.{
  received, run, run_loop, on_event, with_result, logged, expected,
}
use accountability_gadget_pr.Consensus.Agreement.Log.{Participant, log, statements, signed_in}
use accountability_gadget_pr.Consensus.Aggregator.Sound.{BatchIsComplete}
use accountability_gadget_pr.Tests.Table.{find, digests, block_eq, block_eq_sound}
use accountability_gadget_pr.Base.{
  starts_with, Distinct, Option, some, ◌||◌, if◌then◌else◌, All, Bool-cases,
}
use accountability_gadget_pr.Crypto.{default_signature}
use accountability_gadget_pr.Tests.Toy.{four}

abbrev pub hash_0 : Digest
hash_0 = 101

abbrev pub hash_1 : Digest
hash_1 = 102

abbrev pub hash_2 : Digest
hash_2 = 103

abbrev pub vote_0 : Digest
vote_0 = 201

abbrev pub vote_1 : Digest
vote_1 = 202

abbrev pub vote_2 : Digest
vote_2 = 203

-- The digest of a transaction for a checkpoint, as long as its author's name alone.
abbrev pub checkpoint_hash : Digest
checkpoint_hash = 204

unfoldable pub checkpoint_bytes : List ℕ
unfolding be_bytes
checkpoint_bytes = be_bytes 52 9

-- A certificate of authorities 1, 3 and 4.
abbrev pub certificate : Digest → ℕ → Qc
certificate hash round = record {
  hash = hash;
  round = round;
  votes = (1, default_signature) ∷ (3, default_signature) ∷ (4, default_signature) ∷ [];
}

-- A block of authority 2.
abbrev block_on : Qc → ℕ → Block
block_on qc round = record {
  qc = qc;
  tc = none;
  author = 2;
  round = round;
  payload = [];
  signature = default_signature;
}

abbrev pub block_0 : Block
block_0 = block_on qc_genesis 1

abbrev pub block_1 : Block
block_1 = block_on (certificate hash_0 1) 2

abbrev pub block_2 : Block
block_2 = block_on (certificate hash_1 2) 3

unfoldable pub table : List (List ℕ × Digest)
unfolding checkpoint_bytes
table =
    (block_bytes block_0, hash_0)
    ∷ (block_bytes block_1, hash_1)
    ∷ (block_bytes block_2, hash_2)
    ∷ (vote_bytes hash_0 1, vote_0)
    ∷ (vote_bytes hash_1 2, vote_1)
    ∷ (vote_bytes hash_2 3, vote_2)
    ∷ (checkpoint_bytes, checkpoint_hash)
    ∷ []

pub digests-Distinct : Distinct (digests table)
unfolding table
digests-Distinct = (refl, (refl, (refl, (refl, (refl, (refl, (refl, tt)))))))

unfoldable pub is_signed : Digest → Bool
is_signed d = d == vote_0 || (d == vote_1 || (d == vote_2 || d == checkpoint_hash))

-- Signatures on the three votes and on the transaction pass, and whatever authority 2 signs.
unfoldable pub passes : Digest → List ℕ → List ℕ → Bool
unfolding is_signed be_bytes
passes d key signature = is_signed d || starts_with (be_bytes 32 2) key

unfoldable pub all_pass : List (Digest × List ℕ × List ℕ) → Bool
unfolding passes
all_pass [] = true
all_pass ((d, key, signature) ∷ batch) = passes d key signature && all_pass batch

abbrev pub scheme : Primitives
scheme = record {
  sha512 = find table;
  signature_parses = λ _. true;
  key_parses = λ _. true;
  verify_strict = passes;
  batch_verifies = all_pass;
  sign = λ d. default_signature;
}

all_pass_complete :
    (batch : List (Digest × List ℕ × List ℕ))
    → All (λ t. passes t.0 t.1 t.2 ≡ true) batch
    → all_pass batch ≡ true
unfolding all_pass
all_pass_complete [] h = refl
all_pass_complete ((d, key, signature) ∷ batch) h = ground (arith, h.0, all_pass_complete batch h.1)

pub complete : BatchIsComplete scheme
complete = all_pass_complete

-- Two blocks are written by number, the others are not.
unfoldable pub write : Block → List ℕ
write b = if block_eq b block_0 then 1 ∷ [] else if block_eq b block_1 then 2 ∷ [] else []

unfoldable pub read : List ℕ → Option Block
read [] = none
read (n ∷ ns) = if n == 1 then some block_0 else if n == 2 then some block_1 else none

pub codec_of : (b b' : Block) → read (write b) ≡ some b' → b ≡ b'
unfolding read write
codec_of b b' e = elim (Bool-cases (block_eq b block_0)) [
  | inl zero ↦
      let is = block_eq_sound b block_0 refl zero in
      let at : some block_0 ≡ some b' = rw zero at e in let same : block_0 ≡ b' = cc in is ∙ same
  | inr other ↦ elim (Bool-cases (block_eq b block_1)) [
    | inl one ↦
        let is = block_eq_sound b block_1 refl one in
        let at : some block_1 ≡ some b' = rw (other, one) at e in
        let same : block_1 ≡ b' = cc in is ∙ same
    | inr neither ↦ cc (rw (other, neither) at e)
  ]
]

abbrev pub node : PublicKey → Participant
node name = record {
  env = record {
    primitives = scheme;
    name = name;
    committee = four;
    parameters = default_parameters;
    get_leader = λ round. 2;
    boycott_proposals = false;
    mempool_get = λ effects size. [];
    mempool_verify = λ effects block. accept;
    store_read = λ effects key written. ok written;
    encode = write;
    decode = read;
  };
  fuel = 3;
  store = [];
  events =
      received (propose_message block_0)
      ∷ received (propose_message block_1)
      ∷ received (propose_message block_2)
      ∷ [];
  elsewhere = checkpoint_bytes ∷ [];
}

abbrev pub the_votes : List Statement
the_votes = of_vote hash_2 3 ∷ of_vote hash_1 2 ∷ of_vote hash_0 1 ∷ []

pub log_of :
    (statements (log (node 1)) ≡ the_votes)
    × (statements (log (node 3)) ≡ the_votes)
    × (statements (log (node 4)) ≡ the_votes)
unfolding statements signed_in vote_statement log new_block run run_loop on_event with_result logged
    expected boot on_message handle_proposal process_qc advance_round update_high_qc driver_verify
    status_result process_block get_ancestors get_parent_block read_store with_parent
    with_grandparent process_with_ancestors store_block create_vote make_vote can_extend
    increase_last_voted_round none_or send_vote transmit propose_if_leader emit modify gets lift
    pure Core.◌>>=◌ new_core new_aggregator verify_block verify_tc? verify passes is_signed flatten
    be_bytes le_bytes block_digest block_bytes payload_bytes find table stake stake_in lookup insert
    four new_committee collect qc_eq new_vote address broadcast_addresses load_parent count_weight
    verify_qc quorum_threshold total_votes sum_stakes verify_batch gather_batch qc_digest all_pass
    write read block_eq vote_bytes
log_of = (refl, refl, refl)
