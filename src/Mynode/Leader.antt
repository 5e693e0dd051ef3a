-- ===== src/Mynode/Leader.antt =====
-- mynode/src/cpleader.rs: who may propose in an iteration. The seed of a key and the order of the keys
-- are those of consensus/src/leader.rs, whose lines this file repeats; `gen` is the first number that
-- the generator of rand, which is not part of the repository, draws from a seed.
use accountability_gadget_pr.Base.{
  ℕ, ◌+◌, ◌%◌, ◌<◌, ◌≡◌, refl, List, true, length, contains, get_elem?, arith, Outcome, ok, expect,
  ◌>>=◌,
}
use Prim.Native.Nat.{bit_xor}
use native.Mathlib.Nat.{mod-lt}
use accountability_gadget_pr.Base.Dict.{keys, length-keys}
use accountability_gadget_pr.Crypto.{PublicKey}
use accountability_gadget_pr.Consensus.Messages.{u64_mod}
use accountability_gadget_pr.Consensus.Leader.{
  sort_keys, get_random_seed, length-sort_keys, contains-sort_keys, get_elem?-contains,
}
use accountability_gadget_pr.Mynode.Config.{CheckpointCommittee, size}
use accountability_gadget_pr.Mynode.Actions.{CheckpointError}

-- 0xdeadbeefdeadbeef
abbrev seed_mask : ℕ
seed_mask = 16_045_690_984_833_335_023

pub record LeaderElector : Type 0 where
  pub committee : CheckpointCommittee
  pub keys : List PublicKey
  pub rng_seed : ℕ

-- `RandomLeaderElector::new`: the first key seeds the generator.
unfoldable pub new_elector : CheckpointCommittee → Outcome CheckpointError LeaderElector
unfolding sort_keys get_random_seed
new_elector committee = do
  first ← expect (get_elem? (sort_keys (keys committee.authorities)) 0)
  ok (record {
    committee = committee;
    keys = sort_keys (keys committee.authorities);
    rng_seed = bit_xor (get_random_seed first) seed_mask;
  })

-- `RandomLeaderElector::get_leader`
unfoldable pub get_leader : (ℕ → ℕ) → LeaderElector → ℕ → Outcome CheckpointError PublicKey
get_leader gen e iteration =
    expect (get_elem? e.keys (gen ((e.rng_seed + iteration) % u64_mod) % size e.committee))

-- Of a committee that is not empty an elector is made, and whatever the generator draws, the leader of
-- every iteration is a member.
pub iteration_leader-contains :
    (gen : ℕ → ℕ) (committee : CheckpointCommittee) (iteration : ℕ)
    → 0 < size committee
    → (e : LeaderElector) × (leader : PublicKey) × (new_elector committee ≡ ok e)
      × (get_leader gen e iteration ≡ ok leader)
      × (contains leader (keys committee.authorities) ≡ true)
unfolding new_elector get_leader size
iteration_leader-contains gen committee iteration some_member =
    let members = keys committee.authorities in
    let long : length (sort_keys members) ≡ length committee.authorities =
      omega (arith, length-sort_keys members, length-keys committee.authorities) in
    let (first, at, _) = get_elem?-contains (sort_keys members) 0 (omega (arith, long)) in
    let e : LeaderElector = record {
      committee = committee;
      keys = sort_keys members;
      rng_seed = bit_xor (get_random_seed first) seed_mask;
    } in
    let draw = gen ((e.rng_seed + iteration) % u64_mod) in
    let (leader, drawn, known) =
      get_elem?-contains (sort_keys members) (draw % length committee.authorities) (
        omega (
          arith,
          long,
          mod-lt draw {m = length committee.authorities} (omega (arith, some_member)),
        )) in
    (e, leader, rw at refl, rw drawn refl, rw (← contains-sort_keys leader members) known)
