-- ===== src/Tests/Toy.antt =====
-- Concrete functions in place of the crates ed25519_dalek and bincode, and small committees.
use accountability_gadget_pr.Base.{
  ℕ, ◌+◌, ◌*◌, ◌%◌, ◌≡◌, refl, List, [], ◌∷◌, ◌++◌, Bool, true, ◌&&◌, starts_with, All, arith,
}
use accountability_gadget_pr.Crypto.{Digest, Primitives, be_bytes}
use accountability_gadget_pr.Crypto.{verify, flatten, PublicKey}
use accountability_gadget_pr.Consensus.Messages.Signing.{Signs}
use accountability_gadget_pr.Consensus.Config.{Committee, new_committee, collect, Fits, sum_stakes}
use accountability_gadget_pr.Consensus.Aggregator.Sound.{BatchIsComplete}
use accountability_gadget_pr.Base.Dict.{insert}

unfoldable pub toy_hash : List ℕ → ℕ
toy_hash [] = 7
toy_hash (x ∷ xs) = (x + 31 * toy_hash xs) % 65_537

-- A signature of a digest starts with the digest.
unfoldable pub toy_strict : Digest → List ℕ → List ℕ → Bool
unfolding be_bytes
toy_strict d key signature = starts_with (be_bytes 32 d) signature

unfoldable pub toy_batch : List (Digest × List ℕ × List ℕ) → Bool
unfolding toy_strict
toy_batch [] = true
toy_batch ((d, key, signature) ∷ batch) = toy_strict d key signature && toy_batch batch

abbrev pub toy : Primitives
toy = record {
  sha512 = toy_hash;
  signature_parses = λ _. true;
  key_parses = λ _. true;
  verify_strict = toy_strict;
  batch_verifies = toy_batch;
  sign = λ d. record { part1 = d; part2 = 0 };
}

toy_batch_complete :
    (batch : List (Digest × List ℕ × List ℕ))
    → All (λ t. toy_strict t.0 t.1 t.2 ≡ true) batch
    → toy_batch batch ≡ true
unfolding toy_batch
toy_batch_complete [] h = refl
toy_batch_complete ((d, key, signature) ∷ batch) h =
    ground (arith, h.0, toy_batch_complete batch h.1)

pub toy_complete : BatchIsComplete toy
toy_complete = toy_batch_complete

-- Four authorities with a stake of one each.
unfoldable pub four : Committee
unfolding new_committee
four = new_committee ((1, 1, 101) ∷ (2, 1, 102) ∷ (3, 1, 103) ∷ (4, 1, 104) ∷ []) 1

pub four_fits : Fits four
unfolding four new_committee collect insert sum_stakes
four_fits = omega arith

starts_with-append : (xs ys : List ℕ) → starts_with xs (xs ++ ys) ≡ true
starts_with-append [] ys = refl
starts_with-append (x ∷ xs) ys = ground (arith, starts_with-append xs ys)

pub toy-Signs : (name : PublicKey) → Signs toy name
unfolding verify toy_strict flatten
toy-Signs name d = rw (starts_with-append (be_bytes 32 d) (be_bytes 32 0)) refl
