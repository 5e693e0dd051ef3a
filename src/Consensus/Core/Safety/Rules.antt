-- ===== src/Consensus/Core/Safety/Rules.antt =====
-- The rules of consensus/src/core.rs: which blocks a node votes for and which it commits.
use accountability_gadget_pr.Base.{
  ℕ, ◌+◌, ◌%◌, ◌≤◌, ◌<◌, ◌≡◌, refl, ◌⊎◌, inl, inr, ◌∷◌, Option, none, some, Bool, true, false, max,
  ok, err, panic, out_of_fuel, ok_injective, ◌==◌, leb, arith, ◌&&◌, ◌||◌,
}
use accountability_gadget_pr.Crypto.{Primitives}
use accountability_gadget_pr.Consensus.Config.{Committee}
use accountability_gadget_pr.Consensus.Error.{ConsensusResult}
use accountability_gadget_pr.Consensus.Messages.{
  Tc, Block, u64_mod, high_qc_rounds, block_digest, new_vote, verify_tc, qc_eq, qc_genesis,
  block_genesis,
}
use accountability_gadget_pr.Consensus.Core.{
  created_vote, Env, State, ◌>>=◌, pure, lift, gets, modify, emit,
}
use accountability_gadget_pr.Consensus.Core.Handlers.{
  none_or, max_of, can_extend, make_vote, create_vote, increase_last_voted_round,
}
use accountability_gadget_pr.Consensus.Core.Invariant.{IsGood}
use accountability_gadget_pr.Consensus.Core.HighQc.{IsGenuine}

-- The certificate of the block is genuine, and its TC, if it has one, passes `TC::verify`.
abbrev pub IsChecked : Primitives → Committee → Block → Type 0
IsChecked c committee b =
    IsGenuine c committee b.qc × IsGood (λ tc. verify_tc c committee tc ≡ ok tt) b.tc

-- The TC justifies a block of that round with a certificate of the other: it is for the round before,
-- and its entries report no later certificate.
pub record IsJustified (tc : Tc) (round qc_round : ℕ) : Type 0 where
  pub next : (tc.round + 1) % u64_mod ≡ round
  pub high : ℕ
  pub greatest : max_of (high_qc_rounds tc) ≡ some high
  pub covered : high ≤ qc_round

-- The rule for votes: the block follows its certificate directly, or its TC justifies it.
abbrev pub MayVote : Block → Type 0
MayVote b =
    ((b.qc.round + 1) % u64_mod ≡ b.round)
    ⊎ ((tc : Tc) × (b.tc ≡ some tc) × IsJustified tc b.round b.qc.round)

-- A parent that the node has: the genesis block, or a checked block with the digest.
abbrev pub HasParent : Primitives → Committee → Block → Block → Type 0
HasParent c committee b' b =
    ((qc_eq b.qc qc_genesis ≡ true) × (b' ≡ block_genesis))
    ⊎ ((block_digest c b' ≡ b.qc.hash) × IsChecked c committee b')

-- The rule for commits: the block was the grandparent of a checked block, and its child is of the next
-- round.
pub record MayCommit (c : Primitives) (committee : Committee) (b0 : Block) : Type 0 where
  pub child : Block
  pub grandchild : Block
  pub checked : IsChecked c committee grandchild
  pub extends : HasParent c committee child grandchild
  pub follows : HasParent c committee b0 child
  pub consecutive : (b0.round + 1) % u64_mod ≡ child.round

justified :
    (b : Block) (tc : Tc) (o : Option ℕ)
    → max_of (high_qc_rounds tc) ≡ o
    → (let r : ConsensusResult Bool = elim o [
      | none ↦ panic
      | some high ↦ ok ((tc.round + 1) % u64_mod == b.round && leb high b.qc.round)
    ] in
        r ≡ ok true)
    → IsJustified tc b.round b.qc.round
justified b tc none m e = cc
justified b tc (some high) m e =
    let both = ok_injective e in
    record { next = ground arith; high = high; greatest = m; covered = ground arith }

can_extend-IsJustified :
    (b : Block) (o : Option Tc)
    → can_extend b o ≡ ok true
    → (tc : Tc) × (o ≡ some tc) × IsJustified tc b.round b.qc.round
unfolding can_extend
can_extend-IsJustified b none e = cc
can_extend-IsJustified b (some tc) e =
    (tc, refl, justified b tc (max_of (high_qc_rounds tc)) refl e)

can_extend-MayVote :
    (b : Block) (extend : Bool)
    → can_extend b b.tc ≡ ok extend
    → ((b.qc.round + 1) % u64_mod == b.round || extend) ≡ true
    → MayVote b
can_extend-MayVote b true e h = inr (can_extend-IsJustified b b.tc e)
can_extend-MayVote b false e h = inl (ground arith)

module _ (env : Env) (b : Block) (s : State) where
  -- The state in which a vote for the block was created.
  abbrev voted_state : State
  voted_state = record s {
    last_voted_round = max s.last_voted_round b.round;
    effects = created_vote (new_vote env.primitives b env.name) ∷ s.effects;
  }

  create_vote_ok :
      (extend : Bool)
      → can_extend b b.tc ≡ ok extend
      → ((create_vote env b s).1 ≡ s)
        ⊎ ((s.last_voted_round < b.round)
            × (((b.qc.round + 1) % u64_mod == b.round || extend) ≡ true)
            × ((create_vote env b s).1 ≡ voted_state))
  unfolding create_vote make_vote none_or ◌>>=◌ gets lift pure emit modify increase_last_voted_round
  create_vote_ok extend e = ground (arith, e)

  create_vote_result :
      (r : ConsensusResult Bool)
      → can_extend b b.tc ≡ r
      → ((create_vote env b s).1 ≡ s)
        ⊎ (MayVote b × (s.last_voted_round < b.round) × ((create_vote env b s).1 ≡ voted_state))
  create_vote_result (ok extend) e = elim (create_vote_ok extend e) [
    | inl same ↦ inl same
    | inr (later, may, made) ↦ inr (can_extend-MayVote b extend e may, later, made)
  ]
  create_vote_result (err x) e =
      inl (unfold create_vote make_vote none_or ◌>>=◌ gets lift in (rw e refl))
  create_vote_result panic e =
      inl (unfold create_vote make_vote none_or ◌>>=◌ gets lift in (rw e refl))
  create_vote_result out_of_fuel e =
      inl (unfold create_vote make_vote none_or ◌>>=◌ gets lift in (rw e refl))

  -- What `create_vote` does to the state: nothing, or a vote by the rule for a round above all before.
  pub create_vote_cases :
      ((create_vote env b s).1 ≡ s)
      ⊎ (MayVote b × (s.last_voted_round < b.round) × ((create_vote env b s).1 ≡ voted_state))
  create_vote_cases = create_vote_result (can_extend b b.tc) refl
