-- ===== src/Consensus/Leader.antt =====
-- consensus/src/leader.rs. The generator of the crate rand, which is not part of the repository, is
-- `gen`: the number that it draws first from a seed.
use accountability_gadget_pr.Base.{
  ℕ, zero, suc, ◌+◌, ◌*◌, ◌%◌, ◌<◌, ◌≡◌, refl, List, [], ◌∷◌, none, some, true, ◌==◌, ◌||◌, leb,
  length, contains, get_elem?, arith, ok, panic, expect, ◌>>=◌, if◌then◌else◌,
}
use Prim.Native.Nat.{bit_xor}
use native.Mathlib.Nat.{mod-lt}
use accountability_gadget_pr.Base.Dict.{keys, length-keys}
use accountability_gadget_pr.Crypto.{PublicKey, be_bytes}
use accountability_gadget_pr.Consensus.Config.{Committee, size}
use accountability_gadget_pr.Consensus.Error.{ConsensusResult}
use accountability_gadget_pr.Consensus.Messages.{u64_mod}

unfoldable pub insert_sorted : PublicKey → List PublicKey → List PublicKey
insert_sorted k [] = k ∷ []
insert_sorted k (x ∷ xs) = if leb k x then k ∷ x ∷ xs else x ∷ insert_sorted k xs

-- `sort`
unfoldable pub sort_keys : List PublicKey → List PublicKey
unfolding insert_sorted
sort_keys [] = []
sort_keys (x ∷ xs) = insert_sorted x (sort_keys xs)

length-insert_sorted : (k : ℕ) (xs : List ℕ) → length (insert_sorted k xs) ≡ suc (length xs)
unfolding insert_sorted
length-insert_sorted k [] = refl
length-insert_sorted k (x ∷ xs) = ground (arith, length-insert_sorted k xs)

pub length-sort_keys : (xs : List ℕ) → length (sort_keys xs) ≡ length xs
unfolding sort_keys
length-sort_keys [] = refl
length-sort_keys (x ∷ xs) =
    ground (arith, length-insert_sorted x (sort_keys xs), length-sort_keys xs)

contains-insert_sorted :
    (a k : ℕ) (xs : List ℕ) → contains a (insert_sorted k xs) ≡ (a == k || contains a xs)
unfolding insert_sorted
contains-insert_sorted a k [] = refl
contains-insert_sorted a k (x ∷ xs) = ground (arith, contains-insert_sorted a k xs)

pub contains-sort_keys : (a : ℕ) (xs : List ℕ) → contains a (sort_keys xs) ≡ contains a xs
unfolding sort_keys
contains-sort_keys a [] = refl
contains-sort_keys a (x ∷ xs) =
    ground (arith, contains-insert_sorted a x (sort_keys xs), contains-sort_keys a xs)

-- The loop of `get_random_seed` over the first `n` bytes.
unfoldable pub seed_of : ℕ → List ℕ → ℕ → ℕ
seed_of zero bytes v = v
seed_of (suc n) [] v = v
seed_of (suc n) (b ∷ bytes) v = seed_of n bytes ((v * 256 % u64_mod + b) % u64_mod)

-- `get_random_seed`
unfoldable pub get_random_seed : PublicKey → ℕ
unfolding seed_of be_bytes
get_random_seed p = seed_of 8 (be_bytes 32 p) 0

-- 0xbeefdeadbeefdead
abbrev seed_mask : ℕ
seed_mask = 13_758_460_224_454_254_253

pub record RandomLeaderElector : Type 0 where
  pub committee : Committee
  pub keys : List PublicKey
  pub rng_seed : ℕ

-- `RandomLeaderElector::new`: the second key seeds the generator, and a committee of one panics.
unfoldable pub new_elector : Committee → ConsensusResult RandomLeaderElector
unfolding sort_keys get_random_seed
new_elector committee = do
  second ← expect (get_elem? (sort_keys (keys committee.authorities)) 1)
  ok (record {
    committee = committee;
    keys = sort_keys (keys committee.authorities);
    rng_seed = bit_xor (get_random_seed second) seed_mask;
  })

-- `RandomLeaderElector::get_leader`
unfoldable pub get_leader : (ℕ → ℕ) → RandomLeaderElector → ℕ → ConsensusResult PublicKey
get_leader gen e round =
    expect (get_elem? e.keys (gen ((e.rng_seed + round) % u64_mod) % size e.committee))

pub get_elem?-contains :
    (xs : List ℕ) (i : ℕ)
    → i < length xs
    → (x : ℕ) × (get_elem? xs i ≡ some x) × (contains x xs ≡ true)
get_elem?-contains [] i h = absurd (omega arith)
get_elem?-contains (x ∷ xs) zero h = (x, refl, ground arith)
get_elem?-contains (x ∷ xs) (suc i) h =
    let (y, e, c) = get_elem?-contains xs i (omega arith) in (y, e, ground (arith, c))

-- Of a committee of two or more an elector is made, and whatever the generator draws, the leader of
-- every round is an authority of the committee.
pub get_leader-contains :
    (gen : ℕ → ℕ) (committee : Committee) (round : ℕ)
    → 1 < size committee
    → (e : RandomLeaderElector) × (leader : PublicKey) × (new_elector committee ≡ ok e)
      × (get_leader gen e round ≡ ok leader)
      × (contains leader (keys committee.authorities) ≡ true)
unfolding new_elector get_leader size
get_leader-contains gen committee round two =
    let sorted = sort_keys (keys committee.authorities) in
    let long : length sorted ≡ length committee.authorities =
      omega
        (arith, length-sort_keys (keys committee.authorities), length-keys committee.authorities) in
    let (second, at, _) = get_elem?-contains sorted 1 (omega (arith, long)) in
    let e : RandomLeaderElector = record {
      committee = committee;
      keys = sorted;
      rng_seed = bit_xor (get_random_seed second) seed_mask;
    } in
    let i = gen ((e.rng_seed + round) % u64_mod) % length committee.authorities in
    let (leader, drawn, known) = get_elem?-contains sorted i (
      omega (
        arith,
        long,
        mod-lt (gen ((e.rng_seed + round) % u64_mod)) {m = length committee.authorities}
            (omega (arith, two)),
      )) in
    (
      e,
      leader,
      rw at refl,
      rw drawn refl,
      rw (← contains-sort_keys leader (keys committee.authorities)) known,
    )

no_second : (xs : List ℕ) → length xs ≡ 1 → get_elem? xs 1 ≡ none
no_second [] h = refl
no_second (x ∷ []) h = refl
no_second (x ∷ y ∷ xs) h = absurd (omega arith)

-- For a committee of one authority the elector is not made: `new` panics.
pub new_elector_alone : (committee : Committee) → size committee ≡ 1 → new_elector committee ≡ panic
unfolding new_elector size
new_elector_alone committee one =
    let lone : length (sort_keys (keys committee.authorities)) ≡ 1 =
      omega
        (arith, length-sort_keys (keys committee.authorities), length-keys committee.authorities) in
    rw (no_second (sort_keys (keys committee.authorities)) lone) refl
