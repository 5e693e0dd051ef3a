-- ===== src/Consensus/Core/Preserves.antt =====
-- The handlers of consensus/src/core.rs for blocks and votes, and invariants of the state.
use accountability_gadget_pr.Base.{ℕ, zero, suc, ◌≡◌, List, Option, none, some, ok, ==_iff}
use accountability_gadget_pr.Crypto.{Digest, PublicKey}
use accountability_gadget_pr.Consensus.Messages.{Qc, Tc, Block, Vote, verify_vote, new_block}
use accountability_gadget_pr.Consensus.Core.Monad.{
  ConsensusMessage, propose_message, vote_message, transmitted, Env, State, M, ◌>>=◌, ◌>>◌,
  PayloadStatus, accept, reject, wait, pure,
}
use accountability_gadget_pr.Consensus.Core.Handlers.{
  none_or, process_qc, transmit, status_result, generate_proposal, propose_if_leader,
  aggregate_vote, handle_vote, send_vote, process_with_ancestors, process_block, create_vote,
}
use accountability_gadget_pr.Consensus.Core.Keeps.{
  Keeps, Keeps-bind, Keeps-lift, Keeps-gets, Keeps-gets_from, Keeps-if, Keeps-if_with,
  Keeps-none_or, Keeps-pure, Keeps-fail, Keeps-bind_with, Post-then,
}
use accountability_gadget_pr.Consensus.Core.Invariant.{
  Kinds, At, IsInvariant, IsParent, IsGood, IsQuiet,
}
use accountability_gadget_pr.Consensus.Core.Ranked.{At-IsInvariant}
use accountability_gadget_pr.Consensus.Core.Parents.{Ancestors, get_ancestors-Post}

module _ (env : Env) (k : Kinds) where
  -- Processing a block that is ready keeps every invariant.
  abbrev pub KeepsAll : (Block → M (Unit {0})) → Type 1
  KeepsAll process =
      (P : State → Type 0)
      → IsInvariant env P k
      → (b : Block) → k.on_block b
      → Keeps (At (k.rank b) P) (process b)

  module _ (P : State → Type 0) (i : IsInvariant env P k) where
    pub transmit-Keeps :
        (m : ConsensusMessage) (to : Option PublicKey)
        → ((addresses : List ℕ) → IsQuiet (transmitted m addresses))
        → Keeps P (transmit env m to)
    unfolding transmit
    transmit-Keeps m (some to) q = Keeps-lift P _ _ (λ a _. i.emits _ (q _))
    transmit-Keeps m none q = i.emits _ (q _)

    pub process_qc-Keeps : (qc : Qc) → k.on_qc qc → Keeps P (process_qc qc)
    unfolding process_qc
    process_qc-Keeps qc g = Keeps-bind P _ _ (i.advances qc.round) (λ _. i.adopts qc g)

    pub status_result-Keeps : (status : PayloadStatus) → Keeps P (status_result env status)
    unfolding status_result
    status_result-Keeps accept = Keeps-pure P _
    status_result-Keeps reject = Keeps-fail P _
    status_result-Keeps wait = Keeps-pure P _

    transmit-Keeps-At :
        (n : ℕ) (m : ConsensusMessage) (to : Option PublicKey)
        → ((addresses : List ℕ) → IsQuiet (transmitted m addresses))
        → Keeps (At n P) (transmit env m to)
    unfolding transmit
    transmit-Keeps-At n m (some to) q =
        Keeps-lift (At n P) _ _ (λ a _. (At-IsInvariant env P k i n).emits _ (q _))
    transmit-Keeps-At n m none q = (At-IsInvariant env P k i n).emits _ (q _)

    module _ (process : Block → M (Unit {0})) (all : KeepsAll process) where
      proposal-Keeps :
          (b : Block)
          → k.on_block b
          → Keeps (At (k.rank b) P) (transmit env (propose_message b) none >> process b)
      proposal-Keeps b c =
          Keeps-bind (At (k.rank b) P) _ _
            (transmit-Keeps-At (k.rank b) (propose_message b) none (λ _. tt)) (λ _. all P i b c)

      -- The block that is proposed is ready.
      proposal :
          (tc : Option Tc) (payload : List Digest) (s : State)
          → IsGood k.on_tc tc
          → P s
          → let b = new_block env.primitives s.high_qc tc env.name s.round payload in
            P ((transmit env (propose_message b) none >> process b) s).1
      unfolding Keeps
      proposal tc payload s g p =
          let b = new_block env.primitives s.high_qc tc env.name s.round payload in
          (proposal-Keeps b (i.proposes s tc payload p g) s (p, unfold new_block in i.ranks b)).0

      generate_proposal-Keeps :
          (tc : Option Tc) → IsGood k.on_tc tc → Keeps P (generate_proposal env process tc)
      unfolding generate_proposal
      generate_proposal-Keeps tc g = Keeps-if P _ _ _ (Keeps-pure P _) (
          Keeps-bind P _ _ (i.emits _ tt) (λ _. Keeps-gets P _ _ (λ payload.
            Keeps-bind P _ _ (i.emits _ tt)
              (λ _. Keeps-gets_from P _ _ (λ s p. proposal tc payload s g p)))))

      pub propose_if_leader-Keeps :
          (tc : Option Tc) → IsGood k.on_tc tc → Keeps P (propose_if_leader env process tc)
      unfolding propose_if_leader
      propose_if_leader-Keeps tc g =
          Keeps-gets P _ _
            (λ leader. Keeps-if P _ _ _ (generate_proposal-Keeps tc g) (Keeps-pure P _))

      adopt-Keeps :
          (o : Option Qc)
          → IsGood k.on_qc o
          → Keeps P (none_or o (λ qc. process_qc qc >> propose_if_leader env process none))
      unfolding none_or
      adopt-Keeps none g = Keeps-pure P _
      adopt-Keeps (some qc) g =
          Keeps-bind P _ _ (process_qc-Keeps qc g) (λ _. propose_if_leader-Keeps none tt)

      counted-Keeps :
          (v : Vote)
          → verify_vote env.primitives env.committee v ≡ ok tt
          → Keeps P (
              aggregate_vote env v >>= λ o.
              none_or o (λ qc. process_qc qc >> propose_if_leader env process none))
      counted-Keeps v e =
          Keeps-bind_with P _ _ (IsGood k.on_qc) (λ s p. i.counts v s e p) adopt-Keeps

      pub handle_vote-Keeps : (v : Vote) → Keeps P (handle_vote env process v)
      unfolding handle_vote
      handle_vote-Keeps v =
          Keeps-gets P _ _ (λ round.
            Keeps-if P _ _ _ (Keeps-pure P _) (Keeps-lift P _ _ (λ _ e. counted-Keeps v e)))

      send_vote-Keeps : (v : Vote) → Keeps P (send_vote env process v)
      unfolding send_vote
      send_vote-Keeps v = Keeps-gets P _ _ (λ next.
          Keeps-if P _ _ _ (handle_vote-Keeps v)
            (transmit-Keeps (vote_message v) (some next) (λ _. tt)))

  -- `process_block` after the ancestors are found, with the invariant that its block is ready.
  module _ (process : Block → M (Unit {0})) (all : KeepsAll process) (P : State → Type 0)
      (i : IsInvariant env P k) (b : Block) (c : k.on_block b) where
    abbrev WhenReady : State → Type 0
    WhenReady = At (k.rank b) P

    i' : IsInvariant env WhenReady k
    i' = At-IsInvariant env P k i (k.rank b)

    vote-Keeps :
        Keeps WhenReady (create_vote env b >>= λ vote. none_or vote (send_vote env process))
    vote-Keeps =
        Keeps-bind WhenReady _ _ (unfold Keeps in (λ s p. i'.creates b s (c, p.1) p))
          (λ vote. Keeps-none_or WhenReady vote _ (λ v. send_vote-Keeps WhenReady i' process all v))

    process_with_ancestors-Keeps :
        (ancestors : Block × Block)
        → IsParent env P k ancestors.1 b
        → IsParent env P k ancestors.0 ancestors.1
        → Keeps WhenReady (process_with_ancestors env process b ancestors)
    unfolding process_with_ancestors
    process_with_ancestors-Keeps (b0, b1) p1 p0 =
        Keeps-bind WhenReady _ _ (unfold Keeps in (λ s p. i'.stores b s (c, p.1) p)) (λ _.
          Keeps-bind WhenReady _ _
            (Keeps-if_with WhenReady _ _ _ (λ e. i'.commits b0 b1 b c p1 p0 ((==_iff _ _).0 e))
              (Keeps-pure WhenReady _))
            (λ _. Keeps-bind WhenReady _ _ (i'.emits _ tt) (λ _.
              Keeps-gets WhenReady _ _
                (λ round. Keeps-if WhenReady _ _ _ vote-Keeps (Keeps-pure WhenReady _)))))

    processed-Keeps :
        (o : Option (Block × Block)) (s : State)
        → WhenReady s
        → Ancestors env k WhenReady i' b o s
        → WhenReady (none_or o (process_with_ancestors env process b) s).1
    unfolding none_or pure Keeps
    processed-Keeps none s p a = p
    processed-Keeps (some pair) s p a = process_with_ancestors-Keeps pair a.0 a.1 s p

  pub process_block-Keeps : (fuel : ℕ) → KeepsAll (process_block env fuel)
  unfolding process_block Keeps
  process_block-Keeps zero P i b c = Keeps-fail (At (k.rank b) P) _
  process_block-Keeps (suc fuel) P i b c = λ s p.
      let all = process_block-Keeps fuel in
      Post-then (WhenReady (process_block env fuel) all P i b c) _ _
        (Ancestors env k (At (k.rank b) P) (At-IsInvariant env P k i (k.rank b)) b) s
        (get_ancestors-Post env k (At (k.rank b) P) (At-IsInvariant env P k i (k.rank b)) b s
          (c, p.1) p)
        (processed-Keeps (process_block env fuel) all P i b c)
