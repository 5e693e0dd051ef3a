-- ===== src/Consensus/Messages/Preimages.antt =====
-- What authorities sign by consensus/src/messages.rs, and its bytes.
use accountability_gadget_pr.Base.{
  ℕ, ◌+◌, ◌*◌, ◌%◌, ◌^◌, ◌<◌, ◌≡◌, refl, List, [], ◌∷◌, ◌++◌, length, length-append,
  append_injective, All, arith, ap, sym, ◌∙◌,
}
use accountability_gadget_pr.Crypto.{
  Digest, PublicKey, be_bytes, le_bytes, length-be_bytes, length-le_bytes, be_bytes-injective,
  be_bytes-low, le_bytes-injective, le_bytes-low,
}
use accountability_gadget_pr.Consensus.Messages.{
  Block, Vote, Timeout, payload_bytes, block_bytes, vote_bytes, timeout_bytes, qc_genesis,
}
use accountability_gadget_pr.Crypto.{default_signature}
use accountability_gadget_pr.Base.{none, Bool, true, false, ◌≤◌}

-- What a signature is on: of a block the fields that its digest covers.
pub data Statement : Type 0 where
  of_block : PublicKey → ℕ → List Digest → Digest → Statement
  of_vote : Digest → ℕ → Statement
  of_timeout : ℕ → ℕ → Statement

unfoldable pub block_statement : Block → Statement
block_statement b = of_block b.author b.round b.payload b.qc.hash

unfoldable pub vote_statement : Vote → Statement
vote_statement v = of_vote v.hash v.round

unfoldable pub timeout_statement : Timeout → Statement
timeout_statement t = of_timeout t.round t.high_qc_round

-- A block with those fields.
abbrev block_of : PublicKey → ℕ → List Digest → Digest → Block
block_of author round payload parent = record {
  qc = record qc_genesis { hash = parent };
  tc = none;
  author = author;
  round = round;
  payload = payload;
  signature = default_signature;
}

unfoldable pub preimage : Statement → List ℕ
unfolding block_bytes vote_bytes timeout_bytes
preimage (of_block author round payload parent) = block_bytes (block_of author round payload parent)
preimage (of_vote hash round) = vote_bytes hash round
preimage (of_timeout round high_qc_round) = timeout_bytes round high_qc_round

unfoldable pub is_block : Statement → Bool
is_block (of_block author round payload parent) = true
is_block (of_vote hash round) = false
is_block (of_timeout round high_qc_round) = false

-- Digests and keys of 32 bytes, rounds of 8.
abbrev pub IsDigest : ℕ → Type 0
IsDigest d = d < 256 ^ 32

abbrev pub IsWord : ℕ → Type 0
IsWord r = r < 256 ^ 8

abbrev pub IsBounded : Statement → Type 0
IsBounded (of_block author round payload parent) =
    IsDigest author × IsWord round × All IsDigest payload × IsDigest parent
IsBounded (of_vote hash round) = IsDigest hash × IsWord round
IsBounded (of_timeout round high_qc_round) = IsWord round × IsWord high_qc_round

-- The bytes of a vote or of a timeout are those of the words in it.
pub vote_bytes-low :
    (hash : Digest) (round : ℕ)
    → preimage (of_vote (hash % 256 ^ 32) (round % 256 ^ 8)) ≡ vote_bytes hash round
unfolding preimage vote_bytes
vote_bytes-low hash round =
    ap (λ (xs : List ℕ). xs ++ le_bytes 8 (round % 256 ^ 8)) (be_bytes-low 32 hash)
    ∙ ap (λ (ys : List ℕ). be_bytes 32 hash ++ ys) (le_bytes-low 8 round)

pub timeout_bytes-low :
    (round high : ℕ)
    → preimage (of_timeout (round % 256 ^ 8) (high % 256 ^ 8)) ≡ timeout_bytes round high
unfolding preimage timeout_bytes
timeout_bytes-low round high =
    ap (λ (xs : List ℕ). xs ++ le_bytes 8 (high % 256 ^ 8)) (le_bytes-low 8 round)
    ∙ ap (λ (ys : List ℕ). le_bytes 8 round ++ ys) (le_bytes-low 8 high)

length-payload_bytes : (xs : List Digest) → length (payload_bytes xs) ≡ 32 * length xs
unfolding payload_bytes
length-payload_bytes [] = refl
length-payload_bytes (x ∷ xs) =
    rw length-append (omega (arith, length-be_bytes 32 x, length-payload_bytes xs))

length-vote_bytes : (hash : Digest) (round : ℕ) → length (vote_bytes hash round) ≡ 40
unfolding vote_bytes
length-vote_bytes hash round =
    rw length-append (omega (arith, length-be_bytes 32 hash, length-le_bytes 8 round))

length-timeout_bytes : (round high : ℕ) → length (timeout_bytes round high) ≡ 16
unfolding timeout_bytes
length-timeout_bytes round high =
    rw length-append (omega (arith, length-le_bytes 8 round, length-le_bytes 8 high))

pub length-preimage_le : (t : Statement) → is_block t ≡ false → length (preimage t) ≤ 40
unfolding is_block preimage
length-preimage_le (of_block author round payload parent) e = cc
length-preimage_le (of_vote hash round) e = omega (arith, length-vote_bytes hash round)
length-preimage_le (of_timeout round high) e = omega (arith, length-timeout_bytes round high)

length-block_bytes : (b : Block) → length (block_bytes b) ≡ 72 + 32 * length b.payload
unfolding block_bytes
length-block_bytes b = simp length-append (
    omega (
      arith,
      length-be_bytes 32 b.author,
      length-le_bytes 8 b.round,
      length-payload_bytes b.payload,
      length-be_bytes 32 b.qc.hash,
    ))

-- The same first word of 32 bytes, and the same rest.
be_bytes-cons :
    (x y : ℕ) (us vs : List ℕ)
    → IsDigest x
    → IsDigest y
    → be_bytes 32 x ++ us ≡ be_bytes 32 y ++ vs
    → (x ≡ y) × (us ≡ vs)
be_bytes-cons x y us vs hx hy e =
    let (a, b) =
      append_injective (be_bytes 32 x) (be_bytes 32 y) us vs
        (length-be_bytes 32 x ∙ sym (length-be_bytes 32 y)) e in
    (be_bytes-injective 32 x y hx hy a, b)

le_bytes-cons :
    (x y : ℕ) (us vs : List ℕ)
    → IsWord x
    → IsWord y
    → le_bytes 8 x ++ us ≡ le_bytes 8 y ++ vs
    → (x ≡ y) × (us ≡ vs)
le_bytes-cons x y us vs hx hy e =
    let (a, b) =
      append_injective (le_bytes 8 x) (le_bytes 8 y) us vs
        (length-le_bytes 8 x ∙ sym (length-le_bytes 8 y)) e in
    (le_bytes-injective 8 x y hx hy a, b)

payload_bytes-injective :
    (xs ys : List Digest)
    → All IsDigest xs
    → All IsDigest ys
    → length xs ≡ length ys
    → payload_bytes xs ≡ payload_bytes ys
    → xs ≡ ys
unfolding payload_bytes
payload_bytes-injective [] [] hx hy l e = refl
payload_bytes-injective [] (y ∷ ys) hx hy l e = absurd (omega arith)
payload_bytes-injective (x ∷ xs) [] hx hy l e = absurd (omega arith)
payload_bytes-injective (x ∷ xs) (y ∷ ys) hx hy l e =
    let (a, b) = be_bytes-cons x y (payload_bytes xs) (payload_bytes ys) hx.0 hy.0 e in
    let rest = payload_bytes-injective xs ys hx.1 hy.1 (omega arith) b in cc

vote_bytes-injective :
    (hash hash' : Digest) (round round' : ℕ)
    → IsDigest hash × IsWord round
    → IsDigest hash' × IsWord round'
    → vote_bytes hash round ≡ vote_bytes hash' round'
    → (hash ≡ hash') × (round ≡ round')
unfolding vote_bytes
vote_bytes-injective hash hash' round round' h h' e =
    let (a, b) = be_bytes-cons hash hash' (le_bytes 8 round) (le_bytes 8 round') h.0 h'.0 e in
    (a, le_bytes-injective 8 round round' h.1 h'.1 b)

timeout_bytes-injective :
    (round round' high high' : ℕ)
    → IsWord round × IsWord high
    → IsWord round' × IsWord high'
    → timeout_bytes round high ≡ timeout_bytes round' high'
    → (round ≡ round') × (high ≡ high')
unfolding timeout_bytes
timeout_bytes-injective round round' high high' h h' e =
    let (a, b) = le_bytes-cons round round' (le_bytes 8 high) (le_bytes 8 high') h.0 h'.0 e in
    (a, le_bytes-injective 8 high high' h.1 h'.1 b)

length-payload :
    (b b' : Block) → block_bytes b ≡ block_bytes b' → length b.payload ≡ length b'.payload
length-payload b b' e = omega (arith, length-block_bytes b, length-block_bytes b', ap length e)

block_bytes-injective :
    (b b' : Block)
    → IsBounded (of_block b.author b.round b.payload b.qc.hash)
    → IsBounded (of_block b'.author b'.round b'.payload b'.qc.hash)
    → block_bytes b ≡ block_bytes b'
    → (b.author ≡ b'.author)
      × (b.round ≡ b'.round)
      × (b.payload ≡ b'.payload)
      × (b.qc.hash ≡ b'.qc.hash)
unfolding block_bytes
block_bytes-injective b b' h h' e =
    let l = length-payload b b' e in
    let (author, after_author) = be_bytes-cons b.author b'.author _ _ h.0 h'.0 e in
    let (round, after_round) = le_bytes-cons b.round b'.round _ _ h.1 h'.1 after_author in
    let (bytes, hash) =
      append_injective (payload_bytes b.payload) (payload_bytes b'.payload) _ _
        (omega (arith, length-payload_bytes b.payload, length-payload_bytes b'.payload))
        after_round in
    (
      author,
      round,
      payload_bytes-injective b.payload b'.payload h.2 h'.2 l bytes,
      be_bytes-injective 32 b.qc.hash b'.qc.hash h.3 h'.3 hash,
    )

low_digest : (x y : ℕ) → be_bytes 32 x ≡ be_bytes 32 y → x % 256 ^ 32 ≡ y % 256 ^ 32
low_digest x y e =
    be_bytes-injective 32 (x % 256 ^ 32) (y % 256 ^ 32) (omega arith) (omega arith)
      (be_bytes-low 32 x ∙ e ∙ sym (be_bytes-low 32 y))

low_word : (x y : ℕ) → le_bytes 8 x ≡ le_bytes 8 y → x % 256 ^ 8 ≡ y % 256 ^ 8
low_word x y e =
    le_bytes-injective 8 (x % 256 ^ 8) (y % 256 ^ 8) (omega arith) (omega arith)
      (le_bytes-low 8 x ∙ e ∙ sym (le_bytes-low 8 y))

-- Whatever the numbers in them: blocks of the same signed bytes have the same words as round and as
-- hash of the parent.
pub block_bytes-words :
    (b b' : Block)
    → block_bytes b ≡ block_bytes b'
    → (b.round % 256 ^ 8 ≡ b'.round % 256 ^ 8) × (b.qc.hash % 256 ^ 32 ≡ b'.qc.hash % 256 ^ 32)
unfolding block_bytes
block_bytes-words b b' e =
    let l = length-payload b b' e in
    let (author, after_author) =
      append_injective (be_bytes 32 b.author) (be_bytes 32 b'.author) _ _
        (length-be_bytes 32 b.author ∙ sym (length-be_bytes 32 b'.author)) e in
    let (round, after_round) =
      append_injective (le_bytes 8 b.round) (le_bytes 8 b'.round) _ _
        (length-le_bytes 8 b.round ∙ sym (length-le_bytes 8 b'.round)) after_author in
    let (bytes, hash) =
      append_injective (payload_bytes b.payload) (payload_bytes b'.payload) _ _
        (omega (arith, length-payload_bytes b.payload, length-payload_bytes b'.payload, l))
        after_round in
    (low_word b.round b'.round round, low_digest b.qc.hash b'.qc.hash hash)

pub preimage-injective :
    (s t : Statement) → IsBounded s → IsBounded t → preimage s ≡ preimage t → s ≡ t
unfolding preimage
preimage-injective (of_block a r p q) (of_block a' r' p' q') h h' e =
    let (same_author, same_round, same_payload, same_parent) =
      block_bytes-injective (block_of a r p q) (block_of a' r' p' q') h h' e in
    cc
preimage-injective (of_vote hash r) (of_vote hash' r') h h' e =
    let (same_hash, same_round) = vote_bytes-injective hash hash' r r' h h' e in cc
preimage-injective (of_timeout r high) (of_timeout r' high') h h' e =
    let (same_round, same_high) = timeout_bytes-injective r r' high high' h h' e in cc
preimage-injective (of_block a r p q) (of_vote hash r') h h' e =
    absurd
      (omega (arith, length-block_bytes (block_of a r p q), length-vote_bytes hash r', ap length e))
preimage-injective (of_block a r p q) (of_timeout r' high) h h' e = absurd (
    omega (arith, length-block_bytes (block_of a r p q), length-timeout_bytes r' high, ap length e))
preimage-injective (of_vote hash r) (of_block a r' p q) h h' e =
    absurd
      (omega (arith, length-block_bytes (block_of a r' p q), length-vote_bytes hash r, ap length e))
preimage-injective (of_vote hash r) (of_timeout r' high) h h' e =
    absurd (omega (arith, length-vote_bytes hash r, length-timeout_bytes r' high, ap length e))
preimage-injective (of_timeout r high) (of_block a r' p q) h h' e = absurd (
    omega (arith, length-block_bytes (block_of a r' p q), length-timeout_bytes r high, ap length e))
preimage-injective (of_timeout r high) (of_vote hash r') h h' e =
    absurd (omega (arith, length-vote_bytes hash r', length-timeout_bytes r high, ap length e))
