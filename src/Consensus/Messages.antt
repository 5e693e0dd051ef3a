-- ===== src/Consensus/Messages.antt =====
-- consensus/src/messages.rs: blocks, votes, quorum certificates (QC), timeouts and timeout
-- certificates (TC), their digests and their checks. Rounds are `u64`.
pub mod Quorum
pub mod Certificates
pub mod Signing
pub mod Preimages
pub mod Signers
use accountability_gadget_pr.Base.{
  ℕ, ◌+◌, ◌%◌, ◌^◌, List, [], ◌∷◌, ◌++◌, map, Option, none, some, Bool, not, ◌&&◌, ◌==◌, leb, ltb,
  contains, ok, ensure, ◌>>=◌, ◌>>◌, if◌then◌else◌,
}
use accountability_gadget_pr.Crypto.{
  Digest, PublicKey, Signature, Primitives, default_signature, be_bytes, le_bytes, verify,
  verify_batch,
}
use accountability_gadget_pr.Consensus.Config.{Committee, stake, quorum_threshold, u32_mod}
use accountability_gadget_pr.Consensus.Error.{
  ConsensusResult, from_crypto, unknown_authority, authority_reuse, qc_requires_quorum,
  tc_requires_quorum,
}

abbrev pub u64_mod : ℕ
u64_mod = 2 ^ 64

pub record Qc : Type 0 where
  pub hash : Digest
  pub round : ℕ
  pub votes : List (PublicKey × Signature)

pub record Tc : Type 0 where
  pub round : ℕ
  pub votes : List (PublicKey × Signature × ℕ)

pub record Block : Type 0 where
  pub qc : Qc
  pub tc : Option Tc
  pub author : PublicKey
  pub round : ℕ
  pub payload : List Digest
  pub signature : Signature

pub record Vote : Type 0 where
  pub hash : Digest
  pub round : ℕ
  pub author : PublicKey
  pub signature : Signature

pub record Timeout : Type 0 where
  pub high_qc_round : ℕ
  pub round : ℕ
  pub author : PublicKey
  pub signature : Signature

-- `QC::genesis`, the default certificate.
abbrev pub qc_genesis : Qc
qc_genesis = record { hash = 0; round = 0; votes = [] }

-- `Block::genesis`, the default block.
abbrev pub block_genesis : Block
block_genesis = record {
  qc = qc_genesis;
  tc = none;
  author = 0;
  round = 0;
  payload = [];
  signature = default_signature;
}

-- `QC::timeout`
unfoldable pub qc_timeout : Qc → Bool
qc_timeout qc = qc.hash == 0 && not (qc.round == 0)

-- `PartialEq` of QC: the votes do not count.
unfoldable pub qc_eq : Qc → Qc → Bool
qc_eq a b = a.hash == b.hash && a.round == b.round

abbrev pub parent : Block → Digest
parent b = b.qc.hash

-- `TC::high_qc_rounds`
unfoldable pub high_qc_rounds : Tc → List ℕ
high_qc_rounds tc = map (λ v. v.2) tc.votes

-- What each digest is taken of.
unfoldable pub payload_bytes : List Digest → List ℕ
unfolding be_bytes
payload_bytes [] = []
payload_bytes (x ∷ xs) = be_bytes 32 x ++ payload_bytes xs

unfoldable pub block_bytes : Block → List ℕ
unfolding payload_bytes le_bytes
block_bytes b =
    be_bytes 32 b.author
    ++ (le_bytes 8 b.round ++ (payload_bytes b.payload ++ be_bytes 32 b.qc.hash))

-- Of a vote and of a QC: the hash and the round.
unfoldable pub vote_bytes : Digest → ℕ → List ℕ
unfolding be_bytes le_bytes
vote_bytes hash round = be_bytes 32 hash ++ le_bytes 8 round

-- Of a timeout and of an entry of a TC: the round and the round of the highest QC.
unfoldable pub timeout_bytes : ℕ → ℕ → List ℕ
unfolding le_bytes
timeout_bytes round high_qc_round = le_bytes 8 round ++ le_bytes 8 high_qc_round

-- The loop at the head of `QC::verify` and of `TC::verify`: each name once, each with a stake. It
-- returns the weight, a `u32`.
unfoldable pub count_weight : Committee → List PublicKey → List PublicKey → ℕ → ConsensusResult ℕ
count_weight committee [] used weight = ok weight
count_weight committee (name ∷ names) used weight = do
  ensure (not (contains name used)) (authority_reuse name)
  ensure (ltb 0 (stake committee name)) (unknown_authority name)
  count_weight committee names (name ∷ used) ((weight + stake committee name) % u32_mod)

module _ (c : Primitives) where
  unfoldable pub block_digest : Block → Digest
  block_digest b = c.sha512 (block_bytes b)

  unfoldable pub vote_digest : Vote → Digest
  vote_digest v = c.sha512 (vote_bytes v.hash v.round)

  unfoldable pub qc_digest : Qc → Digest
  qc_digest qc = c.sha512 (vote_bytes qc.hash qc.round)

  unfoldable pub timeout_digest : Timeout → Digest
  timeout_digest t = c.sha512 (timeout_bytes t.round t.high_qc_round)

  -- `Block::new`
  unfoldable pub new_block : Qc → Option Tc → PublicKey → ℕ → List Digest → Block
  new_block qc tc author round payload =
      let block : Block = record {
        qc = qc;
        tc = tc;
        author = author;
        round = round;
        payload = payload;
        signature = default_signature;
      } in
      record block { signature = c.sign (block_digest block) }

  -- `Vote::new`
  unfoldable pub new_vote : Block → PublicKey → Vote
  new_vote block author =
      let vote : Vote = record {
        hash = block_digest block;
        round = block.round;
        author = author;
        signature = default_signature;
      } in
      record vote { signature = c.sign (vote_digest vote) }

  -- `Timeout::new`
  unfoldable pub new_timeout : ℕ → ℕ → PublicKey → Timeout
  new_timeout high_qc_round round author =
      let timeout : Timeout = record {
        high_qc_round = high_qc_round;
        round = round;
        author = author;
        signature = default_signature;
      } in
      record timeout { signature = c.sign (timeout_digest timeout) }

  -- `Vote::verify`
  unfoldable pub verify_vote : Committee → Vote → ConsensusResult (Unit {0})
  verify_vote committee v = do
    ensure (ltb 0 (stake committee v.author)) (unknown_authority v.author)
    from_crypto (verify c v.signature (vote_digest v) v.author)

  -- `Timeout::verify`
  unfoldable pub verify_timeout : Committee → Timeout → ConsensusResult (Unit {0})
  verify_timeout committee t = do
    ensure (ltb 0 (stake committee t.author)) (unknown_authority t.author)
    from_crypto (verify c t.signature (timeout_digest t) t.author)

  -- `QC::verify`
  unfoldable pub verify_qc : Committee → Qc → ConsensusResult (Unit {0})
  verify_qc committee qc = do
    weight ← count_weight committee (map (λ v. v.0) qc.votes) [] 0
    ensure (leb (quorum_threshold committee) weight) qc_requires_quorum
    from_crypto (verify_batch c (qc_digest qc) qc.votes)

  -- The loop over the signatures in `TC::verify`.
  unfoldable pub verify_entries : ℕ → List (PublicKey × Signature × ℕ) → ConsensusResult (Unit {0})
  verify_entries round [] = ok tt
  verify_entries round ((author, signature, high_qc_round) ∷ votes) = do
    from_crypto (verify c signature (c.sha512 (timeout_bytes round high_qc_round)) author)
    verify_entries round votes

  -- `TC::verify`
  unfoldable pub verify_tc : Committee → Tc → ConsensusResult (Unit {0})
  verify_tc committee tc = do
    weight ← count_weight committee (map (λ v. v.0) tc.votes) [] 0
    ensure (leb (quorum_threshold committee) weight) tc_requires_quorum
    verify_entries tc.round tc.votes

  -- The check of the TC that a block may embed.
  unfoldable pub verify_tc? : Committee → Option Tc → ConsensusResult (Unit {0})
  verify_tc? committee none = ok tt
  verify_tc? committee (some tc) = verify_tc committee tc

  -- `Block::verify`
  unfoldable pub verify_block : Committee → Block → ConsensusResult (Unit {0})
  unfolding verify_tc?
  verify_block committee b = do
    ensure (ltb 0 (stake committee b.author)) (unknown_authority b.author)
    from_crypto (verify c b.signature (block_digest b) b.author)
    if qc_eq b.qc qc_genesis then ok tt else verify_qc committee b.qc
    verify_tc? committee b.tc
