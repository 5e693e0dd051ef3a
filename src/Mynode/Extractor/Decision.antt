-- ===== src/Mynode/Extractor/Decision.antt =====
-- When mynode/src/cpextractor.rs ends an iteration, and with which decision.
use accountability_gadget_pr.Base.{
  ℕ, ◌+◌, ◌*◌, ◌≤◌, ◌<◌, ◌≡◌, refl, ◌∙◌, ap, inl, inr, ◌↔◌, ◌≢◌, List, [], ◌∷◌, Option, none, some,
  true, false, contains, length, arith, Option-cases,
}
use native.Mathlib.Decide.{dec_lt, ℕ_discrete}
use accountability_gadget_pr.Crypto.{Digest}
use accountability_gadget_pr.Mynode.Extractor.{
  Vote, reject, accept, count_accept, count_reject, accepted_from, first_accepted, decide_votes,
}
use accountability_gadget_pr.Mynode.F32.{above_two_thirds, at_least_third}
use accountability_gadget_pr.Mynode.F32.Thresholds.{above_two_thirds_iff, at_least_third_iff}

-- Votes for two digests and rejections are different votes.
count_two :
    (a b : Digest) (votes : List Vote)
    → a ≢ b
    → count_accept a votes + count_accept b votes + count_reject votes ≤ length votes
unfolding count_accept count_reject
count_two a b [] ne = omega arith
count_two a b (reject ∷ votes) ne = ground (arith, count_two a b votes ne)
count_two a b (accept d ∷ votes) ne = ground (arith, count_two a b votes ne)

count_one :
    (a : Digest) (votes : List Vote) → count_accept a votes + count_reject votes ≤ length votes
unfolding count_accept count_reject
count_one a [] = omega arith
count_one a (reject ∷ votes) = ground (arith, count_one a votes)
count_one a (accept d ∷ votes) = ground (arith, count_one a votes)

-- A digest with a vote is among those that the loop walks.
accepted_from-contains :
    (a : Digest) (seen : List Digest) (votes : List Vote)
    → 0 < count_accept a votes
    → contains a seen ≡ false
    → contains a (accepted_from seen votes) ≡ true
unfolding count_accept accepted_from
accepted_from-contains a seen [] h n = absurd (omega arith)
accepted_from-contains a seen (reject ∷ votes) h n =
    ground (arith, accepted_from-contains a seen votes)
accepted_from-contains a seen (accept d ∷ votes) h n =
    ground (arith, accepted_from-contains a seen votes, accepted_from-contains a (d ∷ seen) votes)

-- Enough votes to accept.
abbrev pub IsAccepted : ℕ → List Vote → Digest → Type 0
IsAccepted n votes b = 2 * n < 3 * count_accept b votes

first_accepted-some :
    (n : ℕ) (votes : List Vote) (bs : List Digest) (b : Digest)
    → first_accepted n votes bs ≡ some b
    → above_two_thirds (count_accept b votes) n ≡ true
unfolding first_accepted
first_accepted-some n votes [] b e = cc
first_accepted-some n votes (a ∷ bs) b e = ground (arith, first_accepted-some n votes bs b)

first_accepted-none :
    (n : ℕ) (votes : List Vote) (bs : List Digest) (b : Digest)
    → first_accepted n votes bs ≡ none
    → contains b bs ≡ true
    → above_two_thirds (count_accept b votes) n ≡ false
unfolding first_accepted
first_accepted-none n votes [] b e h = cc
first_accepted-none n votes (a ∷ bs) b e h = ground (arith, first_accepted-none n votes bs b)

module _ (n : ℕ) (votes : List Vote) (small : n < 1024) (fit : length votes ≤ n) where
  abbrev first : Option Digest
  first = first_accepted n votes (accepted_from [] votes)

  above_iff :
      (b : Digest) → (above_two_thirds (count_accept b votes) n ≡ true) ↔ IsAccepted n votes b
  above_iff b =
      above_two_thirds_iff (count_accept b votes) n (omega (arith, count_one b votes)) small

  third_iff : (at_least_third (count_reject votes) n ≡ true) ↔ (n ≤ 3 * count_reject votes)
  third_iff = at_least_third_iff (count_reject votes) n (omega (arith, count_one 0 votes)) small

  -- The loop stops at the one digest that is accepted, if there is one.
  first-IsAccepted : (b : Digest) → IsAccepted n votes b → first ≡ some b
  first-IsAccepted b enough = elim (Option-cases first) [
    | inl e ↦
        let low =
          first_accepted-none n votes (accepted_from [] votes) b e
            (accepted_from-contains b [] votes (omega (arith, count_one b votes)) refl) in
        cc ((above_iff b).1 enough)
    | inr (a, e) ↦
        let high = (above_iff a).0 (first_accepted-some n votes (accepted_from [] votes) a e) in
        elim (ℕ_discrete a b) [
          | yes same ↦ e ∙ ap some same
          | no other ↦ absurd (omega (arith, count_two a b votes other))
        ]
  ]

  -- With at most as many votes as there are members, fewer than 1024: an iteration ends with checkpoint
  -- `b` exactly if more than two thirds of the members accept `b`.
  pub decide_votes-accept_iff :
      (b : Digest) → (decide_votes n votes ≡ some (some b)) ↔ IsAccepted n votes b
  unfolding decide_votes
  decide_votes-accept_iff b = (
    λ e. (above_iff b).0 (first_accepted-some n votes (accepted_from [] votes) b (ground arith)),
    λ h. rw (first-IsAccepted b h, decide_votes) refl,
  )

  no_accept : n ≤ 3 * count_reject votes → first ≡ none
  no_accept h = elim (Option-cases first) [
    | inl e ↦ e
    | inr (a, e) ↦
        let high = (above_iff a).0 (first_accepted-some n votes (accepted_from [] votes) a e) in
        absurd (omega (arith, count_one a votes))
  ]

  -- With at most as many votes as there are members, fewer than 1024: an iteration ends without a
  -- checkpoint exactly if at least a third of the members reject.
  pub decide_votes-reject_iff : (decide_votes n votes ≡ some none) ↔ (n ≤ 3 * count_reject votes)
  unfolding decide_votes
  decide_votes-reject_iff =
      (λ e. third_iff.0 (ground arith), λ h. rw (no_accept h, third_iff.1 h, decide_votes) refl)

  -- With at most as many votes as there are members, fewer than 1024: if every member either accepts
  -- `b` or rejects, the iteration is over.
  pub decide_votes_complete :
      (b : Digest) → count_accept b votes + count_reject votes ≡ n → decide_votes n votes ≢ none
  decide_votes_complete b all e = elim (dec_lt (2 * n) (3 * count_accept b votes)) [
    | yes h ↦ cc ((decide_votes-accept_iff b).1 h)
    | no h ↦ cc (decide_votes-reject_iff.1 (omega arith))
  ]
