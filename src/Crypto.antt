-- ===== src/Crypto.antt =====
-- crypto/src/lib.rs: digests, keys and signatures.
-- A digest and a key are 32 bytes, kept as the number that the bytes write with the first byte
-- highest, so that the derived order of the arrays is the order of the numbers.
-- The hash function and the signature scheme are those of the crate ed25519_dalek, which is not part
-- of the repository: they are the fields of `Primitives`.
mod Bytes
pub use Bytes.*
unfoldable pub use Bytes.{be_bytes, le_bytes}
use accountability_gadget_pr.Base.{
  ℕ, ◌≡◌, Bool, true, List, [], ◌∷◌, ◌++◌, Outcome, ensure, ◌>>=◌, ◌>>◌, ok, err, panic,
  out_of_fuel,
}

abbrev pub Digest : Type 0
Digest = ℕ

abbrev pub PublicKey : Type 0
PublicKey = ℕ

pub record Signature : Type 0 where
  pub part1 : ℕ
  pub part2 : ℕ

abbrev pub default_signature : Signature
default_signature = record { part1 = 0; part2 = 0 }

-- ed25519_dalek: SHA-512 cut to its first 32 bytes, the parsers of signatures and keys, the strict
-- check of one signature, the check of a batch of messages, signatures and keys, and the signing of a
-- digest with the node's own secret key.
pub record Primitives : Type 0 where
  pub sha512 : List ℕ → Digest
  pub signature_parses : List ℕ → Bool
  pub key_parses : List ℕ → Bool
  pub verify_strict : Digest → List ℕ → List ℕ → Bool
  pub batch_verifies : List (Digest × List ℕ × List ℕ) → Bool
  pub sign : Digest → Signature

pub data CryptoError : Type 0 where
  crypto_error : CryptoError

unfoldable pub flatten : Signature → List ℕ
unfolding be_bytes
flatten s = be_bytes 32 s.part1 ++ be_bytes 32 s.part2

module _ (c : Primitives) where
  -- `Signature::verify`
  unfoldable pub verify : Signature → Digest → PublicKey → Outcome CryptoError (Unit {0})
  verify s digest key = do
    ensure (c.signature_parses (flatten s)) crypto_error
    ensure (c.key_parses (be_bytes 32 key)) crypto_error
    ensure (c.verify_strict digest (be_bytes 32 key) (flatten s)) crypto_error

  -- The loop of `Signature::verify_batch`: the messages, signatures and keys handed to the library.
  unfoldable pub gather_batch :
      Digest → List (PublicKey × Signature) → Outcome CryptoError (List (Digest × List ℕ × List ℕ))
  gather_batch digest [] = ok []
  gather_batch digest ((key, s) ∷ votes) = do
    ensure (c.signature_parses (flatten s)) crypto_error
    ensure (c.key_parses (be_bytes 32 key)) crypto_error
    rest ← gather_batch digest votes
    ok ((digest, be_bytes 32 key, flatten s) ∷ rest)

  unfoldable pub verify_batch :
      Digest → List (PublicKey × Signature) → Outcome CryptoError (Unit {0})
  unfolding gather_batch
  verify_batch digest votes = do
    batch ← gather_batch digest votes
    ensure (c.batch_verifies batch) crypto_error
