-- ===== src/Mynode/Config.antt =====
-- The committee of mynode/src/config.rs that signs checkpoints. A stake is a `u32`.
use accountability_gadget_pr.Base.{ℕ, ◌+◌, ◌*◌, ◌/◌, ◌%◌, ◌^◌, List, [], ◌∷◌, none, some, length}
use accountability_gadget_pr.Base.Dict.{Dict, lookup, insert}
use accountability_gadget_pr.Crypto.{PublicKey}

pub record Authority : Type 0 where
  pub name : PublicKey
  pub stake : ℕ

pub record CheckpointCommittee : Type 0 where
  pub authorities : Dict Authority
  pub epoch : ℕ

unfoldable pub collect : List (PublicKey × ℕ) → Dict Authority → Dict Authority
collect [] m = m
collect ((name, stake) ∷ info) m =
    collect info (insert name (record { name = name; stake = stake }) m)

-- `CheckpointCommittee::new`
unfoldable pub new_committee : List (PublicKey × ℕ) → ℕ → CheckpointCommittee
unfolding collect
new_committee info epoch = record { authorities = collect info []; epoch = epoch }

unfoldable pub size : CheckpointCommittee → ℕ
size c = length c.authorities

unfoldable pub stake : CheckpointCommittee → PublicKey → ℕ
stake c name = elim (lookup name c.authorities) [ none ↦ 0 | some a ↦ a.stake ]

unfoldable pub sum_stakes : Dict Authority → ℕ
sum_stakes [] = 0
sum_stakes ((_, a) ∷ m) = a.stake + sum_stakes m

-- `CheckpointCommittee::quorum_threshold`, whose sums wrap as in a release build.
unfoldable pub quorum_threshold : CheckpointCommittee → ℕ
unfolding sum_stakes
quorum_threshold c = (2 * (sum_stakes c.authorities % 2 ^ 32) % 2 ^ 32) / 3 + 1
