-- ===== src/Consensus/Core/Dispatch.antt =====
-- The messages and timers of consensus/src/core.rs, and invariants of the state.
use accountability_gadget_pr.Base.{
  ℕ, ◌≤◌, ◌≡◌, refl, Option, none, some, ok, if◌then◌else◌, inr, arith,
}
use accountability_gadget_pr.Crypto.{Digest, PublicKey}
use accountability_gadget_pr.Consensus.Messages.{Qc, Tc, Block, Timeout, verify_block, new_timeout}
use accountability_gadget_pr.Consensus.Core.Monad.{
  ConsensusMessage, propose_message, loop_back, vote_message, timeout_message, tc_message,
  sync_request, payload_checked, timer_reset, Env, State, ◌>>=◌, ◌>>◌, pure, gets, modify, emit,
}
use accountability_gadget_pr.Consensus.Core.Handlers.{
  none_or, process_qc, driver_verify, propose_if_leader, process_block, handle_timeout, transmit,
  local_timeout_round, handle_proposal, handle_sync_request, handle_tc, on_message, boot,
  advance_round, update_high_qc, increase_last_voted_round, read_store,
}
use accountability_gadget_pr.Consensus.Core.Keeps.{
  Keeps, Keeps-bind, Keeps-lift, Keeps-gets, Keeps-if, Keeps-none_or, Keeps-pure, Keeps-bind_with,
}
use accountability_gadget_pr.Consensus.Core.Invariant.{Kinds, At, IsInvariant, IsGood}
use accountability_gadget_pr.Consensus.Core.Ranked.{At-IsInvariant, update-high_qc_ge}
use accountability_gadget_pr.Consensus.Core.Preserves.{
  transmit-Keeps, propose_if_leader-Keeps, handle_vote-Keeps, status_result-Keeps,
  process_block-Keeps,
}

-- A certificate that is adopted bounds the round of the highest.
process_qc-result :
    (qc : Qc) (s : State)
    → process_qc qc s ≡ (ok tt, (update_high_qc qc (advance_round qc.round s).1).1)
unfolding process_qc advance_round update_high_qc ◌>>=◌ gets pure emit modify
process_qc-result qc s = ground arith

module _ (env : Env) (P : State → Type 0) (k : Kinds) (i : IsInvariant env P k) (fuel : ℕ) where
  process-Keeps : (b : Block) → k.on_block b → Keeps (At (k.rank b) P) (process_block env fuel b)
  process-Keeps = process_block-Keeps env k fuel P i

  propose-Keeps :
      (tc : Option Tc)
      → IsGood k.on_tc tc
      → Keeps P (propose_if_leader env (process_block env fuel) tc)
  propose-Keeps =
      propose_if_leader-Keeps env k P i (process_block env fuel) (process_block-Keeps env k fuel)

  jump-Keeps :
      (tc : Tc)
      → k.on_tc tc
      → Keeps P (advance_round tc.round >> propose_if_leader env (process_block env fuel) (some tc))
  jump-Keeps tc g = Keeps-bind P _ _ (i.advances tc.round) (λ _. propose-Keeps (some tc) g)

  timed-Keeps :
      (o : Option Tc)
      → IsGood k.on_tc o
      → Keeps P (
          none_or o (λ tc.
            advance_round tc.round >> propose_if_leader env (process_block env fuel) (some tc)))
  unfolding none_or
  timed-Keeps none g = Keeps-pure P _
  timed-Keeps (some tc) g = jump-Keeps tc g

  handle_timeout-Keeps : (t : Timeout) → Keeps P (handle_timeout env fuel t)
  unfolding handle_timeout
  handle_timeout-Keeps t = Keeps-gets P _ _ (λ round. Keeps-if P _ _ _ (Keeps-pure P _) (
      Keeps-lift P _ _
        (λ _ e. Keeps-bind_with P _ _ (IsGood k.on_tc) (λ s p. i.times t s e p) timed-Keeps)))

  -- A node that has marked its round as voted sends its timeout.
  send_timeout :
      (s : State)
      → P s
      → s.round ≤ s.last_voted_round
      → P
          ((do
            t ← gets (λ s. new_timeout env.primitives s.high_qc.round s.round env.name)
            emit timer_reset
            transmit env (timeout_message t) none
            handle_timeout env fuel t)
            s).1
  unfolding transmit new_timeout ◌>>=◌ gets emit modify Keeps
  send_timeout s p l =
      let t = new_timeout env.primitives s.high_qc.round s.round env.name in
      handle_timeout-Keeps t _
        (i.sends t _ (emit timer_reset s).1 l refl (i.emits timer_reset tt s p))

  pub local_timeout_round-Keeps : Keeps P (local_timeout_round env fuel)
  unfolding local_timeout_round increase_last_voted_round ◌>>=◌ gets modify Keeps
  local_timeout_round-Keeps s p =
      send_timeout (increase_last_voted_round s.round s).1 (i.raises s.round s p) (omega arith)

  -- The mempool driver is handed the block.
  hand_over : (b : Block) → k.on_block b → Keeps (At (k.rank b) P) (emit (payload_checked b))
  unfolding Keeps
  hand_over b c s p =
      (At-IsInvariant env P k i (k.rank b)).asks (payload_checked b) b s (inr refl) (c, p.1) p

  -- A block that is checked, and whose certificate was adopted.
  driver_verify-Keeps : (b : Block) → k.on_block b → Keeps (At (k.rank b) P) (driver_verify env b)
  unfolding driver_verify
  driver_verify-Keeps b c =
      let j = At-IsInvariant env P k i (k.rank b) in
      Keeps-gets (At (k.rank b) P) _ _ (λ status.
        Keeps-bind (At (k.rank b) P) _ _ (hand_over b c)
          (λ _. status_result-Keeps env k (At (k.rank b) P) j status))

  available-Keeps :
      (b : Block)
      → k.on_block b
      → Keeps (At (k.rank b) P) (do
        none_or b.tc (λ tc. advance_round tc.round)
        available ← driver_verify env b
        if available then process_block env fuel b else pure tt)
  available-Keeps b c =
      let j = At-IsInvariant env P k i (k.rank b) in
      Keeps-bind (At (k.rank b) P) _ _
        (Keeps-none_or (At (k.rank b) P) b.tc _ (λ tc. j.advances tc.round))
        (λ _. Keeps-bind (At (k.rank b) P) _ _ (driver_verify-Keeps b c) (λ available.
          Keeps-if (At (k.rank b) P) _ _ _ (process-Keeps b c) (Keeps-pure (At (k.rank b) P) _)))

  checked_proposal-Keeps :
      (b : Block)
      → verify_block env.primitives env.committee b ≡ ok tt
      → Keeps P (do
        process_qc b.qc
        none_or b.tc (λ tc. advance_round tc.round)
        available ← driver_verify env b
        if available then process_block env fuel b else pure tt)
  unfolding Keeps ◌>>=◌
  checked_proposal-Keeps b e s p =
      let (g, c) = i.checked b e in
      let s1 = (advance_round b.qc.round s).1 in
      let s2 = (update_high_qc b.qc s1).1 in
      rw (process_qc-result b.qc s)
        (available-Keeps b c s2 (
          i.adopts b.qc g s1 (i.advances b.qc.round s p),
          omega (arith, i.ranks b, update-high_qc_ge s1 b.qc),
        )).0

  handle_proposal-Keeps : (b : Block) → Keeps P (handle_proposal env fuel b)
  unfolding handle_proposal
  handle_proposal-Keeps b =
      Keeps-lift P _ _ (λ _ _. Keeps-lift P _ _ (λ _ e. checked_proposal-Keeps b e))

  read_store-Keeps : (d : Digest) → Keeps P (read_store env d)
  unfolding read_store Keeps
  read_store-Keeps d s p = p

  handle_sync_request-Keeps :
      (d : Digest) (sender : PublicKey) → Keeps P (handle_sync_request env fuel d sender)
  unfolding handle_sync_request
  handle_sync_request-Keeps d sender =
      Keeps-bind P (read_store env d) _ (read_store-Keeps d) (λ found.
        Keeps-none_or P found _ (λ bytes.
          Keeps-lift P _ _
            (λ b _. transmit-Keeps env k P i (propose_message b) (some sender) (λ _. tt))))

  handle_tc-Keeps : (tc : Tc) → k.on_tc tc → Keeps P (handle_tc env fuel tc)
  unfolding handle_tc
  handle_tc-Keeps tc g = jump-Keeps tc g

  pub on_message-Keeps :
      (m : ConsensusMessage) (s : State) → k.on_message m s → P s → P (on_message env fuel m s).1
  unfolding on_message Keeps
  on_message-Keeps (propose_message b) s a p = handle_proposal-Keeps b s p
  on_message-Keeps (vote_message v) s a p =
      handle_vote-Keeps env k P i (process_block env fuel) (process_block-Keeps env k fuel) v s p
  on_message-Keeps (timeout_message t) s a p = handle_timeout-Keeps t s p
  on_message-Keeps (tc_message tc) s a p = handle_tc-Keeps tc (i.tells_tc tc s a) s p
  on_message-Keeps (loop_back b) s a p =
      let (c, l) = i.tells_block b s a p in (process-Keeps b c s (p, l)).0
  on_message-Keeps (sync_request d sender) s a p = handle_sync_request-Keeps d sender s p

  pub boot-Keeps : Keeps P (boot env fuel)
  unfolding boot
  boot-Keeps = Keeps-bind P _ _ (i.emits _ tt) (λ _. propose-Keeps none tt)
