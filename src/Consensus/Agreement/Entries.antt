-- ===== src/Consensus/Agreement/Entries.antt =====
-- The entry of the log behind what a run of consensus/src/core.rs signs.
use accountability_gadget_pr.Base.{ℕ, ◌≡◌, refl, inl, inr, List, [], ◌∷◌}
use mathlib.Core.List.{Memᴰ}
use mathlib.Core.List.Memᴰ.{cases_cons, append_cases}
use accountability_gadget_pr.Crypto.{Digest}
use accountability_gadget_pr.Consensus.Messages.{Vote, Timeout}
use accountability_gadget_pr.Consensus.Messages.Preimages.{
  Statement, of_vote, of_timeout, block_statement, vote_statement, timeout_statement,
}
use accountability_gadget_pr.Consensus.Core.{
  propose_message, loop_back, vote_message, timeout_message, tc_message, sync_request, Effect,
  timer_reset, slept, transmitted, committed, sync_asked, payload_asked, payload_checked,
  mempool_cleaned, created_vote,
}
use accountability_gadget_pr.Consensus.Agreement.Log.{signed_in, statements}

entry_of :
    (s : Statement) (es : List Effect)
    → Memᴰ s (statements es)
    → (e : Effect) × Memᴰ e es × Memᴰ s (signed_in e)
unfolding statements
entry_of s [] m = elim m [ ]
entry_of s (e ∷ es) m = elim (append_cases (signed_in e) m) [
  | inl here ↦ (e, Memᴰ.head refl, here)
  | inr rest ↦ let (x, member, signed) = entry_of s es rest in (x, Memᴰ.tail member, signed)
]

one : (s t : Statement) → Memᴰ s (t ∷ []) → s ≡ t
one s t m = elim (cases_cons m) [ inl same ↦ same | inr rest ↦ elim rest [ ] ]

IsVoteEntry : Digest → ℕ → Effect → Type 0
IsVoteEntry hash round e = (v : Vote) × (e ≡ created_vote v) × (v.hash ≡ hash) × (v.round ≡ round)

vote_of :
    (hash : Digest) (round : ℕ) (e : Effect)
    → Memᴰ (of_vote hash round) (signed_in e)
    → IsVoteEntry hash round e
unfolding signed_in block_statement vote_statement timeout_statement IsVoteEntry
vote_of hash round timer_reset m = elim m [ ]
vote_of hash round (slept x) m = elim m [ ]
vote_of hash round (transmitted (propose_message b) y) m = cc (one _ _ m)
vote_of hash round (transmitted (timeout_message t) y) m = cc (one _ _ m)
vote_of hash round (transmitted (loop_back b) y) m = elim m [ ]
vote_of hash round (transmitted (vote_message v) y) m = elim m [ ]
vote_of hash round (transmitted (tc_message t) y) m = elim m [ ]
vote_of hash round (transmitted (sync_request d n) y) m = elim m [ ]
vote_of hash round (committed x) m = elim m [ ]
vote_of hash round (sync_asked x) m = elim m [ ]
vote_of hash round (payload_asked x) m = elim m [ ]
vote_of hash round (payload_checked x) m = elim m [ ]
vote_of hash round (mempool_cleaned x y) m = elim m [ ]
vote_of hash round (created_vote v) m = (v, refl, cc (one _ _ m), cc (one _ _ m))

IsTimeoutEntry : ℕ → ℕ → Effect → Type 0
IsTimeoutEntry round high e =
    (t : Timeout) × (to : List ℕ) × (e ≡ transmitted (timeout_message t) to)
    × (t.round ≡ round)
    × (t.high_qc_round ≡ high)

timeout_of :
    (round high : ℕ) (e : Effect)
    → Memᴰ (of_timeout round high) (signed_in e)
    → IsTimeoutEntry round high e
unfolding signed_in block_statement vote_statement timeout_statement IsTimeoutEntry
timeout_of round high timer_reset m = elim m [ ]
timeout_of round high (slept x) m = elim m [ ]
timeout_of round high (transmitted (propose_message b) y) m = cc (one _ _ m)
timeout_of round high (transmitted (timeout_message t) y) m =
    (t, y, refl, cc (one _ _ m), cc (one _ _ m))
timeout_of round high (transmitted (loop_back b) y) m = elim m [ ]
timeout_of round high (transmitted (vote_message v) y) m = elim m [ ]
timeout_of round high (transmitted (tc_message t) y) m = elim m [ ]
timeout_of round high (transmitted (sync_request d n) y) m = elim m [ ]
timeout_of round high (committed x) m = elim m [ ]
timeout_of round high (sync_asked x) m = elim m [ ]
timeout_of round high (payload_asked x) m = elim m [ ]
timeout_of round high (payload_checked x) m = elim m [ ]
timeout_of round high (mempool_cleaned x y) m = elim m [ ]
timeout_of round high (created_vote v) m = cc (one _ _ m)

-- A vote that is signed was created, a timeout that is signed was sent.
pub signed_vote :
    (hash : Digest) (round : ℕ) (es : List Effect)
    → Memᴰ (of_vote hash round) (statements es)
    → (v : Vote) × Memᴰ (created_vote v) es × (v.hash ≡ hash) × (v.round ≡ round)
unfolding IsVoteEntry
signed_vote hash round es m =
    let (e, member, signed) = entry_of (of_vote hash round) es m in
    let (v, same, same_hash, same_round) = vote_of hash round e signed in
    (v, rw same at member, same_hash, same_round)

pub signed_timeout :
    (round high : ℕ) (es : List Effect)
    → Memᴰ (of_timeout round high) (statements es)
    → (t : Timeout) × (to : List ℕ) × Memᴰ (transmitted (timeout_message t) to) es
      × (t.round ≡ round)
      × (t.high_qc_round ≡ high)
unfolding IsTimeoutEntry
signed_timeout round high es m =
    let (e, member, signed) = entry_of (of_timeout round high) es m in
    let (t, to, same, same_round, same_high) = timeout_of round high e signed in
    (t, to, rw same at member, same_round, same_high)
