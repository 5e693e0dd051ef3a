-- ===== src/Mynode/Proposer/Fresh.antt =====
-- Whether an iteration of mynode/src/cpproposer.rs may still accept a proposal, and the acceptances so far.
use accountability_gadget_pr.Base.{
  ℕ, suc, ◌≡◌, ◌≢◌, refl, sym, subst, inl, inr, List, [], ◌∷◌, ◌++◌, Option, none, some, Bool, true,
  false, ◌==◌, leb, not, ◌&&◌, arith, Bool-cases, Option-cases, le→leb, ==_refl, ==_iff,
  if◌then◌else◌, ok,
}
use accountability_gadget_pr.Base.Falling.{Falls, Falls-mono}
use accountability_gadget_pr.Base.Dict.{
  Dict, lookup, insert, contains_key, lookup-insert, contains_key-lookup, contains_key-none,
}
use accountability_gadget_pr.Crypto.{Digest}
use accountability_gadget_pr.Mynode.Actions.{CheckpointAction}
use accountability_gadget_pr.Mynode.Proposer.{
  Effect, submitted, proposed, proposal_asked, validated, paused, resumed, Phase, inter_delay,
  waiting, rejecting, Proposer, resume, Env, Input, asks_tree, on_input, take_input,
}

-- The iterations of the acceptances, newest first.
abbrev pub accepted_by : CheckpointAction → List ℕ → List ℕ
accepted_by (CheckpointAction.accept i b) is = i ∷ is
accepted_by (CheckpointAction.propose i b) is = is
accepted_by (CheckpointAction.reject i) is = is

unfoldable pub accepted : List Effect → List ℕ
accepted [] = []
accepted (submitted tx ∷ es) = accepted_by tx.action (accepted es)
accepted (proposed tx ∷ es) = accepted es
accepted (proposal_asked ∷ es) = accepted es
accepted (validated b v ∷ es) = accepted es
accepted (paused ∷ es) = accepted es
accepted (resumed ∷ es) = accepted es

-- Whether this iteration may still accept: before the wait, while no proposal has come, and while the
-- one that came is in the channel.
unfoldable pub IsFresh : Phase → List Digest → Option Digest → ℕ → List ℕ → Type 0
IsFresh inter_delay bs o i is = Falls i is
IsFresh waiting [] none i is = Falls i is
IsFresh waiting [] (some b) i is = Falls (suc i) is
IsFresh waiting (b ∷ []) none i is = ⊥
IsFresh waiting (b ∷ []) (some b') i is = Falls i is
IsFresh waiting (b ∷ b' ∷ bs) o i is = ⊥
IsFresh rejecting bs o i is = Falls (suc i) is

unfoldable pub VotesOnce : Proposer → Type 0
VotesOnce s =
    IsFresh s.phase s.proposal_to_act_on (lookup s.current_iteration s.proposals)
      s.current_iteration (accepted s.effects)

pub IsFresh-Falls :
    (p : Phase) (bs : List Digest) (o : Option Digest) (i : ℕ) (is : List ℕ)
    → IsFresh p bs o i is
    → Falls (suc i) is
unfolding IsFresh
IsFresh-Falls inter_delay bs o i is f = Falls-mono i (suc i) is (omega arith) f
IsFresh-Falls waiting [] none i is f = Falls-mono i (suc i) is (omega arith) f
IsFresh-Falls waiting [] (some b) i is f = f
IsFresh-Falls waiting (b ∷ []) none i is f = elim f [ ]
IsFresh-Falls waiting (b ∷ []) (some b') i is f = Falls-mono i (suc i) is (omega arith) f
IsFresh-Falls waiting (b ∷ b' ∷ bs) o i is f = elim f [ ]
IsFresh-Falls rejecting bs o i is f = f

pub accepted_if :
    (b : Bool) (es : List Effect) → accepted (if b then resumed ∷ es else es) ≡ accepted es
unfolding accepted
accepted_if true es = refl
accepted_if false es = refl

pub accepted-resume : (s : Proposer) → accepted (resume s).effects ≡ accepted s.effects
unfolding resume accepted
accepted-resume s = ground arith

pub act_on-IsFresh :
    (b : Digest) (bs : List Digest) (o : Option Digest) (i : ℕ) (is : List ℕ) (v : Bool)
    → IsFresh waiting (b ∷ bs) o i is
    → IsFresh waiting bs o i
        (accepted_by (if v then CheckpointAction.accept i b else CheckpointAction.reject i) is)
unfolding IsFresh Falls
act_on-IsFresh b [] none i is v f = elim f [ ]
act_on-IsFresh b [] (some b') i is true f = (omega arith, f)
act_on-IsFresh b [] (some b') i is false f = Falls-mono i (suc i) is (omega arith) f
act_on-IsFresh b (b' ∷ bs) o i is v f = elim f [ ]

-- A proposal for the iteration goes to the empty channel.
pub IsFresh-proposal :
    (b : Digest) (bs : List Digest) (i : ℕ) (is : List ℕ)
    → IsFresh waiting bs none i is
    → IsFresh waiting (bs ++ b ∷ []) (some b) i is
unfolding IsFresh
IsFresh-proposal b [] i is f = f
IsFresh-proposal b (b' ∷ []) i is f = elim f [ ]
IsFresh-proposal b (b' ∷ b'' ∷ bs) i is f = elim f [ ]

pub proposal-IsFresh :
    (i j : ℕ) (b : Digest) (bs : List Digest) (m : Dict Digest) (is : List ℕ)
    → IsFresh waiting bs (lookup i m) i is
    → IsFresh waiting
        (if (leb i j && not (contains_key j m)) && j == i then bs ++ b ∷ [] else bs)
        (lookup i (if leb i j && not (contains_key j m) then insert j b m else m))
        i
        is
proposal-IsFresh i j b bs m is f = elim (Bool-cases (j == i)) [
  | inl t ↦
      let q : i ≡ j = sym ((==_iff j i).0 t) in
      subst
        (λ k.
          IsFresh waiting
            (if (leb i k && not (contains_key k m)) && k == i then bs ++ b ∷ [] else bs)
            (lookup i (if leb i k && not (contains_key k m) then insert k b m else m)) i is)
        q
        (elim (Option-cases (lookup i m)) [
          | inl e ↦
              rw
                (
                  le→leb i i (omega arith),
                  contains_key-none i m e,
                  ==_refl i,
                  lookup-insert i i b m,
                  ==_refl i,
                )
                (IsFresh-proposal b bs i is (rw (sym e) f))
          | inr (b', e) ↦ rw (le→leb i i (omega arith), contains_key-lookup i b' m e) f
        ])
  | inr h ↦ elim (Bool-cases (leb i j && not (contains_key j m))) [
    | inl t ↦ rw (t, h, lookup-insert j i b m, h) f
    | inr t ↦ rw t f
  ]
]

pub later-IsFresh :
    (p : Phase) (bs : List Digest) (o o' : Option Digest) (i : ℕ) (is : List ℕ)
    → p ≢ waiting
    → IsFresh p bs o i is
    → IsFresh p bs o' i is
unfolding IsFresh
later-IsFresh inter_delay bs o o' i is n f = f
later-IsFresh waiting bs o o' i is n f = elim (n refl) [ ]
later-IsFresh rejecting bs o o' i is n f = f

-- A round that does not panic is one in which the block tree answers.
pub take_input-on_input :
    (env : Env) (i : Input) (s s' : Proposer)
    → take_input env i s ≡ ok s'
    → on_input env i s ≡ ok s'
unfolding take_input
take_input-on_input env i s s' e =
    elim (Bool-cases (asks_tree env i s.phase s && not (env.tree_answers s.effects))) [
      | inl gone ↦ let e' = rw gone at e in cc
      | inr here ↦ rw here at e
    ]
