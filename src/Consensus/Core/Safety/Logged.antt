-- ===== src/Consensus/Core/Safety/Logged.antt =====
-- The log of consensus/src/core.rs: what stands behind its votes, its timeouts and its commits.
use accountability_gadget_pr.Base.{
  ℕ, ◌≤◌, ◌<◌, ◌≡◌, inl, inr, List, [], ◌∷◌, max, arith, subst, sym,
}
use mathlib.Core.List.{Memᴰ}
use mathlib.Core.List.Memᴰ.{cases_cons}
use accountability_gadget_pr.Crypto.{Primitives}
use accountability_gadget_pr.Consensus.Config.{Committee}
use accountability_gadget_pr.Consensus.Messages.{Block, Vote, Timeout, block_digest}
use accountability_gadget_pr.Consensus.Core.{
  Effect, timeout_message, transmitted, committed, sync_asked, payload_checked, created_vote,
}
use accountability_gadget_pr.Consensus.Core.Invariant.{IsQuiet, IsAsked}
use accountability_gadget_pr.Consensus.Core.Safety.Rules.{IsChecked, MayVote, MayCommit}

module _ (c : Primitives) (committee : Committee) where
  -- The block of a vote: it was checked and allowed, its certificate was adopted, its round is marked,
  -- and the timeouts of its round and of later rounds report its certificate or a later one.
  pub record IsBacked (es : List Effect) (high last : ℕ) (v : Vote) : Type 0 where
    pub block : Block
    pub hash : v.hash ≡ block_digest c block
    pub round : v.round ≡ block.round
    pub checked : IsChecked c committee block
    pub rule : MayVote block
    pub adopted : block.qc.round ≤ high
    pub marked : block.round ≤ last
    pub reported :
        (t : Timeout) (to : List ℕ)
        → Memᴰ (transmitted (timeout_message t) to) es
        → block.round ≤ t.round
        → block.qc.round ≤ t.high_qc_round

  pub record Logged (es : List Effect) (high last : ℕ) : Type 0 where
    pub asked :
        (e : Effect) (b : Block)
        → Memᴰ e es
        → IsAsked e b
        → IsChecked c committee b × (b.qc.round ≤ high)
    pub voted : (v : Vote) → Memᴰ (created_vote v) es → IsBacked es high last v
    pub timed :
        (t : Timeout) (to : List ℕ) → Memᴰ (transmitted (timeout_message t) to) es → t.round ≤ last
    pub decided : (b : Block) → Memᴰ (committed b) es → MayCommit c committee b

  pub nothing-Logged : Logged [] 0 0
  nothing-Logged = record {
    asked = λ e b m a. elim m [ ];
    voted = λ v m. elim m [ ];
    timed = λ t to m. elim m [ ];
    decided = λ b m. elim m [ ];
  }

  module _ (es : List Effect) (high last : ℕ) (i : Logged es high last) where
    -- A newest entry, given what it says.
    extend :
        (e : Effect) (high' last' : ℕ)
        → high ≤ high'
        → last ≤ last'
        → ((b : Block) → IsAsked e b → IsChecked c committee b × (b.qc.round ≤ high'))
        → ((v : Vote) → created_vote v ≡ e → IsBacked (e ∷ es) high' last' v)
        → ((t : Timeout) (to : List ℕ)
            → transmitted (timeout_message t) to ≡ e
            → (t.round ≤ last') × (high ≤ t.high_qc_round))
        → ((b : Block) → committed b ≡ e → MayCommit c committee b)
        → Logged (e ∷ es) high' last'
    extend e high' last' hh hl asks votes times commits = record {
      asked = λ x b m a. elim (cases_cons m) [
        | inl same ↦ asks b (subst (λ x. IsAsked x b) same a)
        | inr rest ↦ let (k, l) = i.asked x b rest a in (k, omega (arith, l))
      ];
      voted = λ v m. elim (cases_cons m) [
        | inl same ↦ votes v same
        | inr rest ↦
            let b = i.voted v rest in
            record {
              block = b.block;
              hash = b.hash;
              round = b.round;
              checked = b.checked;
              rule = b.rule;
              adopted = omega (arith, b.adopted);
              marked = omega (arith, b.marked);
              reported = λ t to member l. elim (cases_cons member) [
                | inl same ↦ omega (arith, b.adopted, times t to same)
                | inr older ↦ b.reported t to older l
              ];
            }
      ];
      timed = λ t to m. elim (cases_cons m) [
        | inl same ↦ (times t to same).0
        | inr rest ↦ omega (arith, i.timed t to rest)
      ];
      decided =
          λ b m. elim (cases_cons m) [ inl same ↦ commits b same | inr rest ↦ i.decided b rest ];
    }

    pub Logged-mono : (high' last' : ℕ) → high ≤ high' → last ≤ last' → Logged es high' last'
    Logged-mono high' last' hh hl = record {
      asked = λ e b m a. let (k, l) = i.asked e b m a in (k, omega (arith, l));
      voted = λ v m.
          let b = i.voted v m in
          record {
            block = b.block;
            hash = b.hash;
            round = b.round;
            checked = b.checked;
            rule = b.rule;
            adopted = omega (arith, b.adopted);
            marked = omega (arith, b.marked);
            reported = b.reported;
          };
      timed = λ t to m. omega (arith, i.timed t to m);
      decided = i.decided;
    }

    not_asked : (e : Effect) (b : Block) → IsQuiet e → IsAsked e b → ⊥
    not_asked e b q (inl same) = subst IsQuiet same q
    not_asked e b q (inr same) = subst IsQuiet same q

    -- An entry that is no vote, no timeout, no commit and no block that may come back.
    pub Logged-quiet : (e : Effect) → IsQuiet e → Logged (e ∷ es) high last
    Logged-quiet e q =
        extend e high last (omega arith) (omega arith) (λ b a. absurd (not_asked e b q a))
          (λ v same. absurd (subst IsQuiet (sym same) q))
          (λ t to same. absurd (subst IsQuiet (sym same) q))
          (λ b same. absurd (subst IsQuiet (sym same) q))

    pub Logged-asks :
        (e : Effect) (b : Block)
        → IsAsked e b
        → IsChecked c committee b
        → b.qc.round ≤ high
        → Logged (e ∷ es) high last
    Logged-asks e b (inl is) k l = rw is (
        extend (sync_asked b) high last (omega arith) (omega arith)
          (λ b' a. elim a [
            | inl same ↦
                let e : b ≡ b' = cc in
                subst (λ b. IsChecked c committee b × (b.qc.round ≤ high)) e (k, l)
            | inr same ↦ cc (same)
          ])
          (λ v same. cc (same)) (λ t to same. cc (same)) (λ b same. cc (same)))
    Logged-asks e b (inr is) k l = rw is (
        extend (payload_checked b) high last (omega arith) (omega arith)
          (λ b' a. elim a [
            | inl same ↦ cc (same)
            | inr same ↦
                let e : b ≡ b' = cc in
                subst (λ b. IsChecked c committee b × (b.qc.round ≤ high)) e (k, l)
          ])
          (λ v same. cc (same)) (λ t to same. cc (same)) (λ b same. cc (same)))

    pub Logged-sends :
        (t : Timeout) (to : List ℕ)
        → t.round ≤ last
        → t.high_qc_round ≡ high
        → Logged (transmitted (timeout_message t) to ∷ es) high last
    Logged-sends t to l h =
        extend _ high last (omega arith) (omega arith)
          (λ b a. elim a [ inl same ↦ cc (same) | inr same ↦ cc (same) ]) (λ v same. cc (same))
          (λ t' to' same.
            let e : t ≡ t' = cc in
            subst (λ (t : Timeout). (t.round ≤ last) × (high ≤ t.high_qc_round)) e
              (l, omega (arith, h)))
          (λ b same. cc (same))

    pub Logged-commits : (b : Block) → MayCommit c committee b → Logged (committed b ∷ es) high last
    Logged-commits b may =
        extend _ high last (omega arith) (omega arith)
          (λ b a. elim a [ inl same ↦ cc (same) | inr same ↦ cc (same) ]) (λ v same. cc (same))
          (λ t to same. cc (same))
          (λ b' same. let e : b ≡ b' = cc in subst (MayCommit c committee) e may)

    -- A vote for a block whose round is above the marked one: no timeout so far is of its round.
    new_vote-IsBacked :
        (b : Block) (v : Vote)
        → v.hash ≡ block_digest c b
        → v.round ≡ b.round
        → IsChecked c committee b
        → MayVote b
        → b.qc.round ≤ high
        → last < b.round
        → IsBacked (created_vote v ∷ es) high (max last b.round) v
    new_vote-IsBacked b v hash round k rule l later = record {
      block = b;
      hash = hash;
      round = round;
      checked = k;
      rule = rule;
      adopted = l;
      marked = omega arith;
      reported = λ t to m below. elim (cases_cons m) [
        | inl same ↦ cc (same)
        | inr rest ↦ absurd (omega (arith, i.timed t to rest))
      ];
    }

    pub Logged-votes :
        (b : Block) (v : Vote)
        → v.hash ≡ block_digest c b
        → v.round ≡ b.round
        → IsChecked c committee b
        → MayVote b
        → b.qc.round ≤ high
        → last < b.round
        → Logged (created_vote v ∷ es) high (max last b.round)
    Logged-votes b v hash round k rule l later =
        extend _ high (max last b.round) (omega arith) (omega arith)
          (λ b a. elim a [ inl same ↦ cc (same) | inr same ↦ cc (same) ])
          (λ v' same.
            let e : v ≡ v' = cc in
            subst (IsBacked (created_vote v ∷ es) high (max last b.round)) e
              (new_vote-IsBacked b v hash round k rule l later))
          (λ t to same. cc (same)) (λ b same. cc (same))
