-- ===== src/Consensus/Core/Voting.antt =====
-- The votes that consensus/src/core.rs creates: one for a round at most.
use accountability_gadget_pr.Base.{
  ℕ, suc, ◌≡◌, refl, List, [], ◌∷◌, arith, Distinct, inl, inr, subst, sym,
}
use accountability_gadget_pr.Base.Dict.{Dict}
use accountability_gadget_pr.Base.Falling.{Falls, Falls-mono, Falls-Distinct}
use accountability_gadget_pr.Consensus.Messages.{Block, new_vote}
use accountability_gadget_pr.Consensus.Core.Monad.{
  Effect, timer_reset, slept, transmitted, committed, sync_asked, payload_asked, payload_checked,
  mempool_cleaned, created_vote, Env, State, ◌>>=◌, pure, lift, gets, modify, emit, new_core,
}
use accountability_gadget_pr.Consensus.Core.Handlers.{
  none_or, increase_last_voted_round, advance_round, update_high_qc, store_block, make_vote,
  create_vote, aggregate_vote, aggregate_timeout,
}
use accountability_gadget_pr.Consensus.Core.Keeps.{Keeps}
use accountability_gadget_pr.Consensus.Core.Invariant.{
  IsInvariant, IsQuiet, IsAsked, adopting, IsGood-Unit,
}
use accountability_gadget_pr.Consensus.Core.Run.{Event, run, run-Keeps, AreTold-all}

-- The rounds of the votes created, newest first.
unfoldable pub created_rounds : List Effect → List ℕ
created_rounds [] = []
created_rounds (created_vote v ∷ es) = v.round ∷ created_rounds es
created_rounds (_ ∷ es) = created_rounds es

-- Any effect but the log line for a vote.
abbrev pub IsNoVote : Effect → Type 0
IsNoVote (created_vote v) = ⊥
IsNoVote e = Unit {0}

unfoldable VotesFall : State → Type 0
VotesFall s = Falls (suc s.last_voted_round) (created_rounds s.effects)

pub created_rounds-quiet :
    (e : Effect) (es : List Effect) → IsNoVote e → created_rounds (e ∷ es) ≡ created_rounds es
unfolding created_rounds
created_rounds-quiet timer_reset es q = refl
created_rounds-quiet (slept x) es q = refl
created_rounds-quiet (transmitted x y) es q = refl
created_rounds-quiet (committed x) es q = refl
created_rounds-quiet (sync_asked x) es q = refl
created_rounds-quiet (payload_asked x) es q = refl
created_rounds-quiet (payload_checked x) es q = refl
created_rounds-quiet (mempool_cleaned x y) es q = refl
created_rounds-quiet (created_vote x) es q = elim q [ ]

emit-VotesFall : (e : Effect) → IsNoVote e → Keeps VotesFall (emit e)
unfolding Keeps VotesFall emit modify
emit-VotesFall e q s p = rw (created_rounds-quiet e s.effects q) p

IsNoVote-quiet : (e : Effect) → IsQuiet e → IsNoVote e
IsNoVote-quiet timer_reset q = tt
IsNoVote-quiet (slept x) q = tt
IsNoVote-quiet (transmitted x y) q = tt
IsNoVote-quiet (committed x) q = tt
IsNoVote-quiet (sync_asked x) q = tt
IsNoVote-quiet (payload_asked x) q = tt
IsNoVote-quiet (payload_checked x) q = tt
IsNoVote-quiet (mempool_cleaned x y) q = tt
IsNoVote-quiet (created_vote x) q = q

IsNoVote-asked : (e : Effect) (b : Block) → IsAsked e b → IsNoVote e
IsNoVote-asked e b (inl same) = subst IsNoVote (sym same) tt
IsNoVote-asked e b (inr same) = subst IsNoVote (sym same) tt

raise-VotesFall : (n : ℕ) → Keeps VotesFall (increase_last_voted_round n)
unfolding Keeps VotesFall increase_last_voted_round modify
raise-VotesFall n s p = Falls-mono _ _ (created_rounds s.effects) (omega arith) p

create-VotesFall : (env : Env) (b : Block) → Keeps VotesFall (create_vote env b)
unfolding Keeps VotesFall create_vote make_vote none_or ◌>>=◌ gets lift pure emit modify
    increase_last_voted_round created_rounds Falls new_vote
create-VotesFall env b s p =
    ground (arith, Falls-mono (suc s.last_voted_round) b.round (created_rounds s.effects), p)

advance-VotesFall : (n : ℕ) → Keeps VotesFall (advance_round n)
unfolding Keeps VotesFall advance_round ◌>>=◌ gets pure emit modify created_rounds
advance-VotesFall n s p = ground (arith, p)

VotesFall-IsInvariant : (env : Env) → IsInvariant env VotesFall (adopting (λ _. Unit {0}))
unfolding Keeps VotesFall update_high_qc store_block aggregate_vote aggregate_timeout modify
VotesFall-IsInvariant env = record {
  emits = λ e q. emit-VotesFall e (IsNoVote-quiet e q);
  asks = λ e b s a r p. emit-VotesFall e (IsNoVote-asked e b a) s p;
  sends = λ t to s l h p. emit-VotesFall _ tt s p;
  commits = λ b0 b1 b c p1 p0 r. emit-VotesFall _ tt;
  raises = raise-VotesFall;
  advances = advance-VotesFall;
  adopts = λ qc g s p. p;
  stores = λ b s r p. p;
  creates = λ b s r p. create-VotesFall env b s p;
  loads = λ s d bytes b p e h. ((tt, omega arith), tt);
  ranks = λ b. omega arith;
  starts = tt;
  checked = λ b e. (tt, tt);
  proposes = λ s tc payload p g. tt;
  counts = λ v s e p. (p, λ o _. IsGood-Unit o);
  times = λ t s e p. (p, λ o _. IsGood-Unit o);
  tells_tc = λ tc s e. tt;
  tells_block = λ b s e p. (tt, omega arith);
}

-- Whatever messages and timeouts come, in whatever order, and whatever the mempool answers: a run of
-- the core from its start never creates two votes for one round.
pub run-votes_Distinct :
    (env : Env) (fuel : ℕ) (store : Dict (List ℕ)) (es : List Event)
    → Distinct (created_rounds (run env fuel es (new_core env store)).1.effects)
unfolding new_core Keeps VotesFall created_rounds Falls
run-votes_Distinct env fuel store es = Falls-Distinct _ _ (
    run-Keeps env fuel VotesFall (adopting (λ _. Unit {0})) (VotesFall-IsInvariant env) es
      (new_core env store) (AreTold-all env fuel _ (λ m s. tt) es _) tt)
