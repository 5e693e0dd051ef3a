-- ===== src/Consensus/Core/HighQc.antt =====
-- The certificate that consensus/src/core.rs keeps as its highest: it is genuine, whatever comes in.
use accountability_gadget_pr.Base.{
  ℕ, ◌≡◌, ◌∙◌, refl, sym, inl, inr, ◌⊎◌, List, Option, none, some, true, arith, ok,
}
use accountability_gadget_pr.Base.Dict.{Dict}
use accountability_gadget_pr.Crypto.{Primitives}
use accountability_gadget_pr.Consensus.Config.{Committee, Fits}
use accountability_gadget_pr.Consensus.Messages.{
  Qc, Block, Vote, Timeout, qc_eq, qc_genesis, verify_qc, verify_block, verify_vote,
}
use accountability_gadget_pr.Consensus.Aggregator.{
  Aggregator, new_aggregator, add_vote, add_timeout, cleanup,
}
use accountability_gadget_pr.Consensus.Aggregator.Sound.{BatchIsComplete}
use accountability_gadget_pr.Consensus.Aggregator.Votes.{
  IsAggregator, cleanup-IsAggregator, add_vote-IsAggregator, add_vote-verify_qc,
}
use accountability_gadget_pr.Consensus.Core.Monad.{
  Env, State, Effect, timer_reset, modify, emit, gets, pure, new_core,
}
use accountability_gadget_pr.Consensus.Core.Monad
use accountability_gadget_pr.Consensus.Core.Handlers.{
  none_or, increase_last_voted_round, advance_round, update_high_qc, store_block, make_vote,
  create_vote, aggregate_vote, aggregate_timeout,
}
use accountability_gadget_pr.Consensus.Core.Keeps.{
  Keeps, Keeps-bind, Keeps-if, Keeps-gets, Keeps-pure, Keeps-modify,
}
use accountability_gadget_pr.Consensus.Core.Invariant.{IsInvariant, IsGood, IsGood-Unit, adopting}
use accountability_gadget_pr.Consensus.Core.Run.{Event, run, run-Keeps, AreTold-all}

-- The genesis certificate, which is without votes, or one that `QC::verify` accepts.
abbrev pub IsGenuine : Primitives → Committee → Qc → Type 0
IsGenuine c committee qc = (qc_eq qc qc_genesis ≡ true) ⊎ (verify_qc c committee qc ≡ ok tt)

module _ (env : Env) (complete : BatchIsComplete env.primitives) (fits : Fits env.committee) where
  unfoldable pub HasGenuine : State → Type 0
  HasGenuine s =
      IsGenuine env.primitives env.committee s.high_qc
      × (s.aggregator.committee ≡ env.committee)
      × IsAggregator env.primitives complete s.aggregator

  pub verify_block-IsGenuine :
      (b : Block)
      → verify_block env.primitives env.committee b ≡ ok tt
      → IsGenuine env.primitives env.committee b.qc
  unfolding verify_block
  verify_block-IsGenuine b e = ground arith

  clean-HasGenuine :
      (s : State)
      → HasGenuine s
      → HasGenuine (record s { aggregator = cleanup s.round s.aggregator })
  unfolding HasGenuine cleanup
  clean-HasGenuine s (g, same, i) =
      (g, same, cleanup-IsAggregator env.primitives complete s.round s.aggregator i)

  pub keep_effects : (e : Effect) → Keeps HasGenuine (emit e)
  unfolding Keeps HasGenuine emit modify
  keep_effects e s p = p

  keep_round : (n : ℕ) → Keeps HasGenuine (modify (λ s. record s { round = n }))
  unfolding Keeps HasGenuine modify
  keep_round n s p = p

  advance-HasGenuine : (n : ℕ) → Keeps HasGenuine (advance_round n)
  unfolding advance_round
  advance-HasGenuine n = Keeps-gets HasGenuine _ _ (λ current.
      Keeps-if HasGenuine _ _ _ (Keeps-pure HasGenuine _) (
        Keeps-bind HasGenuine _ _ (keep_effects timer_reset) (λ _.
          Keeps-bind HasGenuine _ _ (keep_round _)
            (λ _. Keeps-modify HasGenuine _ clean-HasGenuine))))

  adopt-HasGenuine :
      (qc : Qc) → IsGenuine env.primitives env.committee qc → Keeps HasGenuine (update_high_qc qc)
  unfolding Keeps HasGenuine update_high_qc modify
  adopt-HasGenuine qc g s p = ground (arith, g, p)

  create-HasGenuine : (b : Block) → Keeps HasGenuine (create_vote env b)
  unfolding Keeps HasGenuine create_vote make_vote none_or Monad.◌>>=◌ gets Monad.lift pure emit
      modify increase_last_voted_round
  create-HasGenuine b s p = ground (arith, p)

  add_vote-committee :
      (v : Vote) (a : Aggregator) → (add_vote env.primitives v a).0.committee ≡ a.committee
  unfolding add_vote
  add_vote-committee v a = refl

  made-IsGenuine :
      (v : Vote) (a : Aggregator) (o : Option Qc)
      → a.committee ≡ env.committee
      → IsAggregator env.primitives complete a
      → verify_vote env.primitives env.committee v ≡ ok tt
      → (add_vote env.primitives v a).1 ≡ ok o
      → IsGood (IsGenuine env.primitives env.committee) o
  made-IsGenuine v a none same i e r = tt
  made-IsGenuine v a (some qc) same i e r = inr (
      rw (sym same)
        (add_vote-verify_qc env.primitives complete a (rw same fits) v qc (rw same e) i r).2)

  counts-HasGenuine :
      (v : Vote) (s : State)
      → verify_vote env.primitives env.committee v ≡ ok tt
      → HasGenuine s
      → HasGenuine (aggregate_vote env v s).1
        × ((o : Option Qc)
            → (aggregate_vote env v s).0 ≡ ok o
            → IsGood (IsGenuine env.primitives env.committee) o)
  unfolding HasGenuine aggregate_vote
  counts-HasGenuine v s e (g, same, i) = (
    (
      g,
      add_vote-committee v s.aggregator ∙ same,
      add_vote-IsAggregator env.primitives complete s.aggregator (rw same fits) v (rw same e) i,
    ),
    λ o r. made-IsGenuine v s.aggregator o same i e r,
  )

  times-HasGenuine : (t : Timeout) → Keeps HasGenuine (aggregate_timeout env t)
  unfolding Keeps HasGenuine aggregate_timeout add_timeout
  times-HasGenuine t s p = p

  pub HasGenuine-IsInvariant :
      IsInvariant env HasGenuine (adopting (IsGenuine env.primitives env.committee))
  unfolding Keeps HasGenuine increase_last_voted_round store_block modify
  HasGenuine-IsInvariant = record {
    emits = λ e q. keep_effects e;
    asks = λ e b s a r p. keep_effects e s p;
    sends = λ t to s l h p. keep_effects _ s p;
    commits = λ b0 b1 b c p1 p0 r. keep_effects _;
    raises = λ n s p. p;
    advances = advance-HasGenuine;
    adopts = adopt-HasGenuine;
    stores = λ b s r p. p;
    creates = λ b s r p. create-HasGenuine b s p;
    loads = λ s d bytes b p e h. ((tt, omega arith), tt);
    ranks = λ b. omega arith;
    starts = tt;
    checked = λ b e. (verify_block-IsGenuine b e, tt);
    proposes = λ s tc payload p g. tt;
    counts = counts-HasGenuine;
    times = λ t s e p. (times-HasGenuine t s p, λ o _. IsGood-Unit o);
    tells_tc = λ tc s e. tt;
    tells_block = λ b s e p. (tt, omega arith);
  }

  pub new_core-HasGenuine : (store : Dict (List ℕ)) → HasGenuine (new_core env store)
  unfolding HasGenuine new_core new_aggregator qc_eq
  new_core-HasGenuine store = (inl refl, refl, tt)

  -- Where the committee's double stake is a `u32` and the batch check passes signatures that pass one
  -- by one: whatever messages and timeouts come, blocks of the channel `LoopBack` and TCs that nobody
  -- signed among them, the highest certificate of a run of the core is the genesis certificate or one
  -- that `QC::verify` accepts.
  pub run-high_qc :
      (fuel : ℕ) (store : Dict (List ℕ)) (es : List Event)
      → IsGenuine env.primitives env.committee (run env fuel es (new_core env store)).1.high_qc
  unfolding HasGenuine Keeps
  run-high_qc fuel store es =
      (run-Keeps env fuel HasGenuine (adopting (IsGenuine env.primitives env.committee))
        HasGenuine-IsInvariant es (new_core env store) (AreTold-all env fuel _ (λ m s. tt) es _)
        (new_core-HasGenuine store)).0
