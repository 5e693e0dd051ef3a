-- ===== src/Tests/Signing.antt =====
-- What authority 3 of four signs.
use accountability_gadget_pr.Base.{◌<◌, ◌≡◌, refl, [], ◌∷◌, none, ok, inl, arith}
use accountability_gadget_pr.Base.Dict.{insert, lookup}
use accountability_gadget_pr.Consensus.Config.{stake, stake_in, new_committee, collect}
use accountability_gadget_pr.Consensus.Messages.{
  Block, new_block, verify_block, qc_genesis, qc_eq, verify_tc?,
}
use accountability_gadget_pr.Consensus.Messages.Signing.{new_block-verify_block}
use accountability_gadget_pr.Tests.Toy.{toy, toy-Signs, four}

voting : 0 < stake four 3
unfolding stake stake_in four new_committee collect insert lookup
voting = omega arith

abbrev proposal : Block
proposal = new_block toy qc_genesis none 3 1 (5 ∷ [])

new_block-verify_block_example : verify_block toy four proposal ≡ ok tt
unfolding qc_eq verify_tc?
new_block-verify_block_example =
    new_block-verify_block toy four 3 (toy-Signs 3) voting qc_genesis none 1 (5 ∷ []) (inl refl)
      refl
