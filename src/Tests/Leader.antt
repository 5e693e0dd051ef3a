-- ===== src/Tests/Leader.antt =====
-- The leaders of a committee of four, and a committee of one.
use accountability_gadget_pr.Base.{ℕ, ◌+◌, ◌*◌, ◌<◌, ◌≡◌, refl, [], ◌∷◌, true, contains, ok, arith}
use accountability_gadget_pr.Base.Dict.{insert, keys}
use accountability_gadget_pr.Crypto.{PublicKey}
use accountability_gadget_pr.Consensus.Config.{Committee, size, new_committee, collect}
use accountability_gadget_pr.Consensus.Leader.{
  RandomLeaderElector, new_elector, get_leader, get_leader-contains,
}
use accountability_gadget_pr.Tests.Toy.{four}

abbrev draw : ℕ → ℕ
draw seed = 3 * seed + 1

four-size : 1 < size four
unfolding size four new_committee collect insert
four-size = omega arith

get_leader-contains_example :
    (e : RandomLeaderElector) × (leader : PublicKey) × (new_elector four ≡ ok e)
    × (get_leader draw e 6 ≡ ok leader)
    × (contains leader (keys four.authorities) ≡ true)
get_leader-contains_example = get_leader-contains draw four 6 four-size

abbrev lone : Committee
lone = new_committee ((5, 1, 100) ∷ []) 1

lone-size : size lone ≡ 1
unfolding size new_committee collect insert
lone-size = refl
