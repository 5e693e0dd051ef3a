-- ===== src/Consensus/Config/Stakes.antt =====
-- Distinct authorities together hold no more than the whole stake, and a quorum is more than half.
use accountability_gadget_pr.Base.{
  ℕ, ◌+◌, ◌*◌, ◌≤◌, ◌<◌, ◌≡◌, refl, List, [], ◌∷◌, ◌++◌, Bool, true, false, not, ◌==◌, arith,
  contains, Distinct, All, All-others, filter, set_remove,
}
use accountability_gadget_pr.Base.Dict.{Dict, lookup}
use accountability_gadget_pr.Crypto.{PublicKey}
use accountability_gadget_pr.Consensus.Config.Defs.{
  Authority, Committee, stake_in, sum_stakes, total_votes, quorum_threshold, u32_mod,
}

-- The stake of a list of names.
unfoldable pub weigh : Dict Authority → List PublicKey → ℕ
weigh m [] = 0
weigh m (x ∷ xs) = stake_in m x + weigh m xs

pub weigh-append :
    (m : Dict Authority) (xs ys : List PublicKey) → weigh m (xs ++ ys) ≡ weigh m xs + weigh m ys
unfolding weigh
weigh-append m [] ys = omega arith
weigh-append m (x ∷ xs) ys = omega (arith, weigh-append m xs ys)

-- A name that the list does not hold may as well not be an authority.
weigh-absent :
    (k : ℕ) (a : Authority) (m : Dict Authority) (xs : List PublicKey)
    → contains k xs ≡ false
    → weigh ((k, a) ∷ m) xs ≡ weigh m xs
unfolding weigh stake_in lookup
weigh-absent k a m [] h = refl
weigh-absent k a m (x ∷ xs) h = ground (arith, weigh-absent k a m xs)

weigh-cons :
    (k : ℕ) (a : Authority) (m : Dict Authority) (xs : List PublicKey)
    → Distinct xs
    → weigh ((k, a) ∷ m) xs ≤ a.stake + weigh m xs
unfolding weigh stake_in lookup
weigh-cons k a m [] d = omega arith
weigh-cons k a m (x ∷ xs) d = ground (arith, weigh-cons k a m xs, weigh-absent k a m xs)

weigh-nil : (xs : List PublicKey) → weigh [] xs ≡ 0
unfolding weigh stake_in lookup
weigh-nil [] = refl
weigh-nil (x ∷ xs) = omega (arith, weigh-nil xs)

pub weigh-le-sum_stakes :
    (m : Dict Authority) (xs : List PublicKey) → Distinct xs → weigh m xs ≤ sum_stakes m
unfolding sum_stakes
weigh-le-sum_stakes [] xs d = omega (arith, weigh-nil xs)
weigh-le-sum_stakes ((k, a) ∷ m) xs d =
    omega (arith, weigh-cons k a m xs d, weigh-le-sum_stakes m xs d)

weigh-filter-le :
    (m : Dict Authority) (p : PublicKey → Bool) (xs : List PublicKey)
    → weigh m (filter p xs) ≤ weigh m xs
unfolding weigh
weigh-filter-le m p [] = omega arith
weigh-filter-le m p (x ∷ xs) = ground (arith, weigh-filter-le m p xs)

weigh-set_remove :
    (m : Dict Authority) (x : PublicKey) (ys : List PublicKey)
    → contains x ys ≡ true
    → stake_in m x + weigh m (set_remove x ys) ≤ weigh m ys
unfolding weigh set_remove
weigh-set_remove m x [] h = cc
weigh-set_remove m x (y ∷ ys) h =
    ground (arith, weigh-set_remove m x ys, weigh-filter-le m (λ z. not (z == x)) ys)

-- Distinct members of a list weigh at most what the list weighs.
pub weigh-members :
    (m : Dict Authority) (xs ys : List PublicKey)
    → Distinct xs
    → All (λ x. contains x ys ≡ true) xs
    → weigh m xs ≤ weigh m ys
unfolding weigh set_remove
weigh-members m [] ys d h = omega arith
weigh-members m (x ∷ xs) ys d h = omega (
  arith,
  weigh-set_remove m x ys h.0,
  weigh-members m xs (set_remove x ys) d.1 (All-others x xs ys d.0 h.1),
)

-- What the `u32` arithmetic of the quorum needs: twice the whole stake is a `u32`.
abbrev pub Fits : Committee → Type 0
Fits c = 2 * sum_stakes c.authorities < u32_mod

pub quorum_threshold-majority :
    (c : Committee) → Fits c → 2 * sum_stakes c.authorities < 3 * quorum_threshold c
unfolding quorum_threshold total_votes
quorum_threshold-majority c h = omega arith
