-- ===== src/Consensus/Config/Defs.antt =====
-- The committee of consensus/src/config.rs, its stakes and its quorum. A stake is a `u32`, whose sums
-- wrap as in a release build.
use accountability_gadget_pr.Base.{
  ℕ, ◌+◌, ◌*◌, ◌/◌, ◌%◌, ◌^◌, List, [], ◌∷◌, map, none, some, not, filter, ◌==◌, ok_or, length,
}
use accountability_gadget_pr.Base.Dict.{Dict, lookup, insert, values}
use accountability_gadget_pr.Crypto.{PublicKey}
use accountability_gadget_pr.Consensus.Error.{not_in_committee, ConsensusResult}

pub record Parameters : Type 0 where
  pub timeout_delay : ℕ
  pub sync_retry_delay : ℕ
  pub max_payload_size : ℕ
  pub min_block_delay : ℕ

-- `Parameters::default`
unfoldable pub default_parameters : Parameters
default_parameters = record {
  timeout_delay = 5000;
  sync_retry_delay = 10_000;
  max_payload_size = 500;
  min_block_delay = 100;
}

pub record Authority : Type 0 where
  pub name : PublicKey
  pub stake : ℕ
  pub address : ℕ

pub record Committee : Type 0 where
  pub authorities : Dict Authority
  pub epoch : ℕ

abbrev pub u32_mod : ℕ
u32_mod = 2 ^ 32

-- `Committee::new`: of two entries with one name the later stays.
unfoldable pub collect : List (PublicKey × ℕ × ℕ) → Dict Authority → Dict Authority
collect [] m = m
collect ((name, stake, address) ∷ info) m =
    collect info (insert name (record { name = name; stake = stake; address = address }) m)

unfoldable pub new_committee : List (PublicKey × ℕ × ℕ) → ℕ → Committee
unfolding collect
new_committee info epoch = record { authorities = collect info []; epoch = epoch }

unfoldable pub size : Committee → ℕ
size c = length c.authorities

unfoldable pub stake_in : Dict Authority → PublicKey → ℕ
stake_in m name = elim (lookup name m) [ none ↦ 0 | some a ↦ a.stake ]

unfoldable pub stake : Committee → PublicKey → ℕ
unfolding stake_in
stake c name = stake_in c.authorities name

-- The exact sum of the stakes.
unfoldable pub sum_stakes : Dict Authority → ℕ
sum_stakes [] = 0
sum_stakes ((_, a) ∷ m) = a.stake + sum_stakes m

unfoldable pub total_votes : Committee → ℕ
total_votes c = sum_stakes c.authorities % u32_mod

unfoldable pub quorum_threshold : Committee → ℕ
quorum_threshold c = (2 * total_votes c % u32_mod) / 3 + 1

unfoldable pub address : Committee → PublicKey → ConsensusResult ℕ
address c name = elim (lookup name c.authorities) [
  | none ↦ ok_or none (not_in_committee name)
  | some a ↦ ok_or (some a.address) (not_in_committee name)
]

unfoldable pub broadcast_addresses : Committee → PublicKey → List ℕ
broadcast_addresses c myself =
    map (λ a. a.address) (filter (λ a. not (a.name == myself)) (values c.authorities))
