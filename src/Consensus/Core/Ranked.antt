-- ===== src/Consensus/Core/Ranked.antt =====
-- The round of the highest certificate of consensus/src/core.rs as a bound beside an invariant.
use accountability_gadget_pr.Base.{ℕ, ◌≤◌, ◌≡◌, refl, arith}
use accountability_gadget_pr.Consensus.Messages.{Qc, Block, Vote, Timeout}
use accountability_gadget_pr.Consensus.Core.Monad.{
  Effect, Env, State, ◌>>=◌, pure, lift, gets, modify, emit,
}
use accountability_gadget_pr.Consensus.Core.Handlers
use accountability_gadget_pr.Consensus.Core.Keeps.{Keeps}
use accountability_gadget_pr.Consensus.Core.Invariant.{Kinds, At, IsInvariant}

module _ (s : State) where
  emit-high_qc : (e : Effect) → (emit e s).1.high_qc ≡ s.high_qc
  unfolding emit modify
  emit-high_qc e = refl

  raise-high_qc : (n : ℕ) → (Handlers.increase_last_voted_round n s).1.high_qc ≡ s.high_qc
  unfolding Handlers.increase_last_voted_round modify
  raise-high_qc n = refl

  advance-high_qc : (n : ℕ) → (Handlers.advance_round n s).1.high_qc ≡ s.high_qc
  unfolding Handlers.advance_round ◌>>=◌ gets pure emit modify
  advance-high_qc n = ground arith

  pub update-high_qc_le :
      (qc : Qc) → s.high_qc.round ≤ (Handlers.update_high_qc qc s).1.high_qc.round
  unfolding Handlers.update_high_qc modify
  update-high_qc_le qc = ground arith

  pub update-high_qc_ge : (qc : Qc) → qc.round ≤ (Handlers.update_high_qc qc s).1.high_qc.round
  unfolding Handlers.update_high_qc modify
  update-high_qc_ge qc = ground arith

  store-high_qc : (env : Env) (b : Block) → (Handlers.store_block env b s).1.high_qc ≡ s.high_qc
  unfolding Handlers.store_block modify
  store-high_qc env b = refl

  create-high_qc : (env : Env) (b : Block) → (Handlers.create_vote env b s).1.high_qc ≡ s.high_qc
  unfolding Handlers.create_vote Handlers.make_vote Handlers.none_or ◌>>=◌ gets lift pure emit
      modify Handlers.increase_last_voted_round
  create-high_qc env b = ground arith

  vote-high_qc : (env : Env) (v : Vote) → (Handlers.aggregate_vote env v s).1.high_qc ≡ s.high_qc
  unfolding Handlers.aggregate_vote
  vote-high_qc env v = refl

  timeout-high_qc :
      (env : Env) (t : Timeout) → (Handlers.aggregate_timeout env t s).1.high_qc ≡ s.high_qc
  unfolding Handlers.aggregate_timeout
  timeout-high_qc env t = refl

module _ (env : Env) (P : State → Type 0) (k : Kinds) (i : IsInvariant env P k) (n : ℕ) where
  pub At-IsInvariant : IsInvariant env (At n P) k
  unfolding Keeps
  At-IsInvariant = record {
    emits = λ e q s p. (i.emits e q s p.0, rw (emit-high_qc s e) p.1);
    asks = λ e b s a r p. (i.asks e b s a r p.0, rw (emit-high_qc s e) p.1);
    sends = λ t to s l h p. (i.sends t to s l h p.0, rw (emit-high_qc s) p.1);
    commits = λ b0 b1 b c p1 p0 r s p. (i.commits b0 b1 b c p1 p0 r s p.0, rw (emit-high_qc s) p.1);
    raises = λ m s p. (i.raises m s p.0, rw (raise-high_qc s m) p.1);
    advances = λ m s p. (i.advances m s p.0, rw (advance-high_qc s m) p.1);
    adopts = λ qc g s p. (i.adopts qc g s p.0, omega (arith, update-high_qc_le s qc, p.1));
    stores = λ b s r p. (i.stores b s r p.0, rw (store-high_qc s env b) p.1);
    creates = λ b s r p. (i.creates b s r p.0, rw (create-high_qc s env b) p.1);
    loads = λ s d bytes b p. i.loads s d bytes b p.0;
    ranks = i.ranks;
    starts = i.starts;
    checked = i.checked;
    proposes = λ s tc payload p. i.proposes s tc payload p.0;
    counts = λ v s e p. let (q, g) = i.counts v s e p.0 in ((q, rw (vote-high_qc s env v) p.1), g);
    times = λ t s e p. let (q, g) = i.times t s e p.0 in ((q, rw (timeout-high_qc s env t) p.1), g);
    tells_tc = i.tells_tc;
    tells_block = λ b s e p. i.tells_block b s e p.0;
  }
