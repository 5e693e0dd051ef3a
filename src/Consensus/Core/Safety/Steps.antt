-- ===== src/Consensus/Core/Safety/Steps.antt =====
-- The changes of the state of consensus/src/core.rs against the rules for votes, timeouts and commits.
use accountability_gadget_pr.Base.{
  ℕ, ◌+◌, ◌%◌, ◌≤◌, ◌≡◌, refl, sym, subst, ◌⊎◌, inl, inr, ◌∷◌, Option, none, some, ok, arith,
}
use accountability_gadget_pr.Consensus.Config.{Fits}
use accountability_gadget_pr.Consensus.Messages.{
  Qc, Tc, Block, Vote, Timeout, u64_mod, new_vote, verify_tc, verify_timeout, verify_vote,
}
use accountability_gadget_pr.Consensus.Aggregator.{Aggregator, add_vote, add_timeout, cleanup}
use accountability_gadget_pr.Consensus.Aggregator.Sound.{BatchIsComplete}
use accountability_gadget_pr.Consensus.Aggregator.Timeouts.{
  HasTcMakers, cleanup-HasTcMakers, add_timeout-HasTcMakers, add_timeout-verify_tc,
}
use accountability_gadget_pr.Consensus.Core.{
  Effect, timer_reset, Env, State, ◌>>=◌, pure, gets, modify, emit,
}
use accountability_gadget_pr.Consensus.Core.Handlers.{
  increase_last_voted_round, advance_round, update_high_qc, store_block, create_vote,
  aggregate_vote, aggregate_timeout,
}
use accountability_gadget_pr.Consensus.Core.Keeps.{Keeps}
use accountability_gadget_pr.Consensus.Core.Invariant.{IsInvariant, IsGood, adopting}
use accountability_gadget_pr.Consensus.Core.HighQc.{
  IsGenuine, HasGenuine, HasGenuine-IsInvariant, keep_effects,
}
use accountability_gadget_pr.Consensus.Core.Safety.Rules.{IsChecked, create_vote_cases}
use accountability_gadget_pr.Consensus.Core.Safety.Logged.{
  Logged, Logged-mono, Logged-quiet, Logged-votes,
}
use accountability_gadget_pr.Consensus.Core.Safety.Stored.{
  IsCodec, Stored, Stored-mono, Stored-insert,
}

module _ (env : Env) (complete : BatchIsComplete env.primitives) (fits : Fits env.committee)
    (codec : IsCodec env) where
  pub record IsSafe (s : State) : Type 0 where
    pub genuine : HasGenuine env complete fits s
    pub timers : HasTcMakers env.primitives s.aggregator
    pub stored : Stored env s.store s.high_qc.round
    pub logged : Logged env.primitives env.committee s.effects s.high_qc.round s.last_voted_round

  abbrev keeps_genuine :
      IsInvariant env
        (HasGenuine env complete fits)
        (adopting (IsGenuine env.primitives env.committee))
  keeps_genuine = HasGenuine-IsInvariant env complete fits

  pub emit-IsSafe :
      (e : Effect) (s : State)
      → IsSafe s
      → Logged env.primitives env.committee (e ∷ s.effects) s.high_qc.round s.last_voted_round
      → IsSafe (emit e s).1
  unfolding emit modify Keeps
  emit-IsSafe e s i l = record {
    genuine = keep_effects env complete fits e s i.genuine;
    timers = i.timers;
    stored = i.stored;
    logged = l;
  }

  pub raise-IsSafe : (n : ℕ) → Keeps IsSafe (increase_last_voted_round n)
  unfolding Keeps increase_last_voted_round modify
  raise-IsSafe n s i = record {
    genuine = keeps_genuine.raises n s i.genuine;
    timers = i.timers;
    stored = i.stored;
    logged = Logged-mono _ _ _ _ _ i.logged _ _ (omega arith) (omega arith);
  }

  advance_cases :
      (n : ℕ) (s : State)
      → ((advance_round n s).1 ≡ s)
        ⊎ ((advance_round n s).1 ≡ record s {
          round = (n + 1) % u64_mod;
          aggregator = cleanup ((n + 1) % u64_mod) s.aggregator;
          effects = timer_reset ∷ s.effects;
        })
  unfolding advance_round ◌>>=◌ gets pure emit modify
  advance_cases n s = ground arith

  pub advance-IsSafe : (n : ℕ) → Keeps IsSafe (advance_round n)
  unfolding Keeps
  advance-IsSafe n s i = elim (advance_cases n s) [
    | inl same ↦ subst IsSafe (sym same) i
    | inr moved ↦ subst IsSafe (sym moved) (record {
      genuine = subst (HasGenuine env complete fits) moved (keeps_genuine.advances n s i.genuine);
      timers = cleanup-HasTcMakers env.primitives _ s.aggregator i.timers;
      stored = i.stored;
      logged = Logged-quiet _ _ _ _ _ i.logged timer_reset tt;
    })
  ]

  pub adopt-IsSafe :
      (qc : Qc) → IsGenuine env.primitives env.committee qc → Keeps IsSafe (update_high_qc qc)
  unfolding Keeps update_high_qc modify
  adopt-IsSafe qc g s i = record {
    genuine = keeps_genuine.adopts qc g s i.genuine;
    timers = i.timers;
    stored = Stored-mono env s.store _ _ (ground arith) i.stored;
    logged = Logged-mono _ _ _ _ _ i.logged _ _ (ground arith) (omega arith);
  }

  pub store-IsSafe :
      (b : Block) (s : State)
      → IsChecked env.primitives env.committee b × (b.qc.round ≤ s.high_qc.round)
      → IsSafe s
      → IsSafe (store_block env b s).1
  unfolding store_block modify Keeps
  store-IsSafe b s (k, l) i = record {
    genuine = keeps_genuine.stores b s (tt, omega arith) i.genuine;
    timers = i.timers;
    stored = Stored-insert env codec s.store s.high_qc.round b k l i.stored;
    logged = i.logged;
  }

  pub create-IsSafe :
      (b : Block) (s : State)
      → IsChecked env.primitives env.committee b × (b.qc.round ≤ s.high_qc.round)
      → IsSafe s
      → IsSafe (create_vote env b s).1
  create-IsSafe b s (k, l) i = elim (create_vote_cases env b s) [
    | inl same ↦ subst IsSafe (sym same) i
    | inr (rule, later, made) ↦ subst IsSafe (sym made) (record {
      genuine =
          subst (HasGenuine env complete fits) made
            (keeps_genuine.creates b s (tt, omega arith) i.genuine);
      timers = i.timers;
      stored = i.stored;
      logged =
          Logged-votes _ _ _ _ _ i.logged b (new_vote env.primitives b env.name)
            (unfold new_vote in refl) (unfold new_vote in refl) k rule l later;
    })
  ]

  pub counts-IsSafe :
      (v : Vote) (s : State)
      → verify_vote env.primitives env.committee v ≡ ok tt
      → IsSafe s
      → IsSafe (aggregate_vote env v s).1
        × ((o : Option Qc)
            → (aggregate_vote env v s).0 ≡ ok o
            → IsGood (IsGenuine env.primitives env.committee) o)
  unfolding aggregate_vote add_vote
  counts-IsSafe v s e i =
      let (genuine, made) = keeps_genuine.counts v s e i.genuine in
      (record { genuine = genuine; timers = i.timers; stored = i.stored; logged = i.logged }, made)

  times_out :
      (t : Timeout) (a : Aggregator) (o : Option Tc)
      → a.committee ≡ env.committee
      → HasTcMakers env.primitives a
      → verify_timeout env.primitives env.committee t ≡ ok tt
      → (add_timeout t a).1 ≡ ok o
      → IsGood (λ tc. verify_tc env.primitives env.committee tc ≡ ok tt) o
  times_out t a none same i e r = tt
  times_out t a (some tc) same i e r =
      rw (sym same) (add_timeout-verify_tc env.primitives a (rw same fits) t tc (rw same e) i r).1

  pub times-IsSafe :
      (t : Timeout) (s : State)
      → verify_timeout env.primitives env.committee t ≡ ok tt
      → IsSafe s
      → IsSafe (aggregate_timeout env t s).1
        × ((o : Option Tc)
            → (aggregate_timeout env t s).0 ≡ ok o
            → IsGood (λ tc. verify_tc env.primitives env.committee tc ≡ ok tt) o)
  unfolding aggregate_timeout HasGenuine
  times-IsSafe t s e i =
      let same : s.aggregator.committee ≡ env.committee = i.genuine.1 in
      (
        record {
          genuine = (keeps_genuine.times t s e i.genuine).0;
          timers =
              add_timeout-HasTcMakers env.primitives s.aggregator (rw same fits) t (rw same e)
                i.timers;
          stored = i.stored;
          logged = i.logged;
        },
        λ o r. times_out t s.aggregator o same i.timers e r,
      )
