-- ===== src/Mempool/Config.antt =====
-- mempool/src/config.rs and error.rs. A socket address is a number that nothing computes with.
use accountability_gadget_pr.Base.{
  ℕ, List, [], ◌∷◌, map, none, some, Bool, not, filter, ◌==◌, Outcome, ok, err,
}
use accountability_gadget_pr.Base.Dict.{Dict, lookup, insert, values, contains_key}
use accountability_gadget_pr.Crypto.{PublicKey}

-- As far as the calls that are modelled raise it.
pub data MempoolError : Type 0 where
  serialization_error payload_too_big mempool_full store_error : MempoolError
  not_in_committee : PublicKey → MempoolError

abbrev pub MempoolResult {ℓ} : Type ℓ → Type ℓ
MempoolResult A = Outcome MempoolError A

pub record Parameters : Type 0 where
  pub queue_capacity : ℕ
  pub sync_retry_delay : ℕ
  pub max_payload_size : ℕ
  pub min_block_delay : ℕ

-- `Parameters::default`
unfoldable pub default_parameters : Parameters
default_parameters = record {
  queue_capacity = 10_000;
  sync_retry_delay = 10_000;
  max_payload_size = 100_000;
  min_block_delay = 100;
}

pub record Authority : Type 0 where
  pub name : PublicKey
  pub front_address : ℕ
  pub mempool_address : ℕ

pub record Committee : Type 0 where
  pub authorities : Dict Authority
  pub epoch : ℕ

-- `Committee::new`: of two entries with one name the later stays.
unfoldable pub collect : List (PublicKey × ℕ × ℕ) → Dict Authority → Dict Authority
collect [] m = m
collect ((name, front, mempool) ∷ info) m =
    let a : Authority = record { name = name; front_address = front; mempool_address = mempool } in
    collect info (insert name a m)

unfoldable pub new_committee : List (PublicKey × ℕ × ℕ) → ℕ → Committee
unfolding collect
new_committee info epoch = record { authorities = collect info []; epoch = epoch }

unfoldable pub exists : Committee → PublicKey → Bool
exists c name = contains_key name c.authorities

unfoldable pub front_address : Committee → PublicKey → MempoolResult ℕ
front_address c name = elim (lookup name c.authorities) [
  | none ↦ err (not_in_committee name)
  | some a ↦ ok a.front_address
]

unfoldable pub mempool_address : Committee → PublicKey → MempoolResult ℕ
mempool_address c name = elim (lookup name c.authorities) [
  | none ↦ err (not_in_committee name)
  | some a ↦ ok a.mempool_address
]

unfoldable pub broadcast_addresses : Committee → PublicKey → List ℕ
broadcast_addresses c myself =
    map (λ a. a.mempool_address) (filter (λ a. not (a.name == myself)) (values c.authorities))
