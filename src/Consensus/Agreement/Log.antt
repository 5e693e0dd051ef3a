-- ===== src/Consensus/Agreement/Log.antt =====
-- What a run of consensus/src/core.rs signs: its votes, and the blocks and timeouts that it sends.
use accountability_gadget_pr.Base.{
  ℕ, ◌≡◌, refl, ◌⊎◌, inl, inr, List, [], ◌∷◌, ◌++◌, Bool, true, false, contains, Distinct, arith,
  subst, sym, ◌∙◌,
}
use mathlib.Core.List.{Memᴰ}
use mathlib.Core.List.Memᴰ.{cases_cons}
use accountability_gadget_pr.Base.Dict.{Dict}
use accountability_gadget_pr.Crypto.{Digest}
use accountability_gadget_pr.Consensus.Messages.{Vote}
use accountability_gadget_pr.Consensus.Messages.Preimages.{
  Statement, of_vote, block_statement, vote_statement, timeout_statement,
}
use accountability_gadget_pr.Consensus.Core.{
  propose_message, loop_back, vote_message, timeout_message, tc_message, sync_request, Effect,
  timer_reset, slept, transmitted, committed, sync_asked, payload_asked, payload_checked,
  mempool_cleaned, created_vote, Env, new_core,
}
use accountability_gadget_pr.Consensus.Core.Voting.{
  IsNoVote, created_rounds, created_rounds-quiet, run-votes_Distinct,
}
use accountability_gadget_pr.Consensus.Core.Run.{Event, run}

-- A node, what its store holds at the start and what comes in. Other tasks of the node sign with the same
-- key: `elsewhere` is what they signed, such as the transactions of mynode/src/cpactions.rs.
pub record Participant : Type 0 where
  pub env : Env
  pub fuel : ℕ
  pub store : Dict (List ℕ)
  pub events : List Event
  pub elsewhere : List (List ℕ)

unfoldable pub log : Participant → List Effect
log p = (run p.env p.fuel p.events (new_core p.env p.store)).1.effects

-- A block that is sent counts as signed, also where it is an answer to a request.
unfoldable pub signed_in : Effect → List Statement
unfolding block_statement vote_statement timeout_statement
signed_in (created_vote v) = vote_statement v ∷ []
signed_in (transmitted (propose_message b) to) = block_statement b ∷ []
signed_in (transmitted (timeout_message t) to) = timeout_statement t ∷ []
signed_in _ = []

unfoldable pub statements : List Effect → List Statement
unfolding signed_in
statements [] = []
statements (e ∷ es) = signed_in e ++ statements es

IsNoVote-cases : (e : Effect) → IsNoVote e ⊎ ((v : Vote) × (e ≡ created_vote v))
IsNoVote-cases timer_reset = inl tt
IsNoVote-cases (slept x) = inl tt
IsNoVote-cases (transmitted x y) = inl tt
IsNoVote-cases (committed x) = inl tt
IsNoVote-cases (sync_asked x) = inl tt
IsNoVote-cases (payload_asked x) = inl tt
IsNoVote-cases (payload_checked x) = inl tt
IsNoVote-cases (mempool_cleaned x y) = inl tt
IsNoVote-cases (created_vote v) = inr (v, refl)

-- Whether a statement is a vote.
is_vote : Statement → Bool
is_vote (of_vote hash round) = true
is_vote _ = false

other_kind :
    (hash : Digest) (round : ℕ) (s : Statement) (xs : List Statement)
    → is_vote s ≡ false
    → Memᴰ (of_vote hash round) (s ∷ xs)
    → Memᴰ (of_vote hash round) xs
unfolding is_vote
other_kind hash round s xs n m = elim (cases_cons m) [ inl e ↦ cc (n, e) | inr rest ↦ rest ]

module _ (hash : Digest) (round : ℕ) where
  quiet_no_vote :
      (e : Effect) (xs : List Statement)
      → IsNoVote e
      → Memᴰ (of_vote hash round) (signed_in e ++ xs)
      → Memᴰ (of_vote hash round) xs
  unfolding signed_in is_vote
  quiet_no_vote timer_reset xs q m = m
  quiet_no_vote (slept x) xs q m = m
  quiet_no_vote (transmitted (propose_message b) y) xs q m = other_kind hash round _ xs refl m
  quiet_no_vote (transmitted (timeout_message t) y) xs q m = other_kind hash round _ xs refl m
  quiet_no_vote (transmitted (loop_back b) y) xs q m = m
  quiet_no_vote (transmitted (vote_message v) y) xs q m = m
  quiet_no_vote (transmitted (tc_message t) y) xs q m = m
  quiet_no_vote (transmitted (sync_request d n) y) xs q m = m
  quiet_no_vote (committed x) xs q m = m
  quiet_no_vote (sync_asked x) xs q m = m
  quiet_no_vote (payload_asked x) xs q m = m
  quiet_no_vote (payload_checked x) xs q m = m
  quiet_no_vote (mempool_cleaned x y) xs q m = m
  quiet_no_vote (created_vote v) xs q m = elim q [ ]

  created_in :
      (v : Vote) (es : List Effect)
      → Memᴰ (of_vote hash round) (statements (created_vote v ∷ es))
      → ((hash ≡ v.hash) × (round ≡ v.round)) ⊎ Memᴰ (of_vote hash round) (statements es)
  unfolding statements signed_in vote_statement
  created_in v es m = elim (cases_cons m) [ inl e ↦ inl (cc e, cc e) | inr rest ↦ inr rest ]

  created_contains :
      (v : Vote) (es : List Effect)
      → (Memᴰ (of_vote hash round) (statements es) → contains round (created_rounds es) ≡ true)
      → Memᴰ (of_vote hash round) (statements (created_vote v ∷ es))
      → contains round (created_rounds (created_vote v ∷ es)) ≡ true
  unfolding created_rounds
  created_contains v es ih m = elim (created_in v es m) [
    | inl (same_hash, same_round) ↦ ground (arith, same_round)
    | inr rest ↦ ground (arith, ih rest)
  ]

  -- A vote that is signed is one that was created.
  vote_in :
      (es : List Effect)
      → Memᴰ (of_vote hash round) (statements es)
      → contains round (created_rounds es) ≡ true
  unfolding statements
  vote_in [] m = elim m [ ]
  vote_in (e ∷ es) m = elim (IsNoVote-cases e) [
    | inl q ↦ rw (created_rounds-quiet e es q) (vote_in es (quiet_no_vote e (statements es) q m))
    | inr (v, same) ↦ rw same (
        created_contains v es (vote_in es)
          (subst (λ e. Memᴰ (of_vote hash round) (statements (e ∷ es))) same m))
  ]

module _ (hash hash' : Digest) (round : ℕ) where
  created_unique :
      (v : Vote) (es : List Effect)
      → (Distinct (created_rounds es)
          → Memᴰ (of_vote hash round) (statements es)
          → Memᴰ (of_vote hash' round) (statements es)
          → hash ≡ hash')
      → Distinct (created_rounds (created_vote v ∷ es))
      → Memᴰ (of_vote hash round) (statements (created_vote v ∷ es))
      → Memᴰ (of_vote hash' round) (statements (created_vote v ∷ es))
      → hash ≡ hash'
  unfolding created_rounds
  created_unique v es ih d m m' = elim (created_in hash round v es m) [
    | inl (same, at) ↦ elim (created_in hash' round v es m') [
      | inl (same', at') ↦ same ∙ sym same'
      | inr rest' ↦ cc (
        d.0,
        subst (λ r. contains r (created_rounds es) ≡ true) at (vote_in hash' round es rest'),
      )
    ]
    | inr rest ↦ elim (created_in hash' round v es m') [
      | inl (same', at') ↦
          cc (
            d.0,
            subst (λ r. contains r (created_rounds es) ≡ true) at' (vote_in hash round es rest),
          )
      | inr rest' ↦ ih d.1 rest rest'
    ]
  ]

  -- Where no round is voted in twice, the votes signed in a round are for one hash.
  statements_unique :
      (es : List Effect)
      → Distinct (created_rounds es)
      → Memᴰ (of_vote hash round) (statements es)
      → Memᴰ (of_vote hash' round) (statements es)
      → hash ≡ hash'
  unfolding statements
  statements_unique [] d m m' = elim m [ ]
  statements_unique (e ∷ es) d m m' = elim (IsNoVote-cases e) [
    | inl q ↦
        statements_unique es (rw (created_rounds-quiet e es q) at d)
          (quiet_no_vote hash round e (statements es) q m)
          (quiet_no_vote hash' round e (statements es) q m')
    | inr (v, same) ↦
        created_unique v es (statements_unique es)
          (subst (λ e. Distinct (created_rounds (e ∷ es))) same d)
          (subst (λ e. Memᴰ (of_vote hash round) (statements (e ∷ es))) same m)
          (subst (λ e. Memᴰ (of_vote hash' round) (statements (e ∷ es))) same m')
  ]

  -- A node that runs the core signs votes for one hash only in each round.
  pub log-votes_unique :
      (p : Participant)
      → Memᴰ (of_vote hash round) (statements (log p))
      → Memᴰ (of_vote hash' round) (statements (log p))
      → hash ≡ hash'
  unfolding log
  log-votes_unique p m m' =
      statements_unique _ (run-votes_Distinct p.env p.fuel p.store p.events) m m'
