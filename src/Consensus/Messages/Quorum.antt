-- ===== src/Consensus/Messages/Quorum.antt =====
-- What the checks of certificates in consensus/src/messages.rs accept, and why two quorums meet.
use accountability_gadget_pr.Base.{
  ℕ, ◌+◌, ◌*◌, ◌%◌, ◌≤◌, ◌<◌, ◌≡◌, refl, List, [], ◌∷◌, ◌++◌, map, Bool, true, false, not, ltb,
  contains, Distinct, All, ok, arith, filter, contains-append, contains-filter,
}
use accountability_gadget_pr.Base.Dict.{Dict}
use accountability_gadget_pr.Crypto.{PublicKey}
use accountability_gadget_pr.Consensus.Config.{
  Authority, Committee, stake, quorum_threshold, u32_mod, sum_stakes, weigh, weigh-append,
  weigh-le-sum_stakes, Fits, quorum_threshold-majority,
}
use accountability_gadget_pr.Consensus.Messages.{Qc, count_weight}

abbrev pub HasStake : Committee → PublicKey → Type 0
HasStake c name = 0 < stake c name

abbrev pub Fresh : List PublicKey → List PublicKey → Type 0
Fresh used names = All (λ n. contains n used ≡ false) names

Fresh-cons :
    (x : PublicKey) (used names : List PublicKey)
    → contains x names ≡ false
    → Fresh used names
    → Fresh (x ∷ used) names
Fresh-cons x used [] h f = tt
Fresh-cons x used (n ∷ names) h f = (ground arith, Fresh-cons x used names (ground arith) f.1)

Fresh-uncons :
    (x : PublicKey) (used names : List PublicKey)
    → Fresh (x ∷ used) names
    → (contains x names ≡ false) × Fresh used names
Fresh-uncons x used [] f = (refl, tt)
Fresh-uncons x used (n ∷ names) f =
    let (a, b) = Fresh-uncons x used names f.1 in (ground arith, (ground arith, b))

pub Fresh-nil : (names : List PublicKey) → Fresh [] names
Fresh-nil [] = tt
Fresh-nil (n ∷ names) = (refl, Fresh-nil names)

-- The names of an accepted list differ, are new and have a stake.
pub count_weight-IsDistinct :
    (c : Committee) (names used : List PublicKey) (w w' : ℕ)
    → count_weight c names used w ≡ ok w'
    → Distinct names × Fresh used names × All (HasStake c) names
unfolding count_weight
count_weight-IsDistinct c [] used w w' e = (tt, tt, tt)
count_weight-IsDistinct c (n ∷ names) used w w' e =
    let new : contains n used ≡ false = ground arith in
    let has : ltb 0 (stake c n) ≡ true = ground arith in
    let (d, f, s) =
      count_weight-IsDistinct c names (n ∷ used) ((w + stake c n) % u32_mod) w' (ground arith) in
    let (a, b) = Fresh-uncons n used names f in ((a, d), (new, b), (ground arith, s))

-- Where nothing wraps, the weight is the stake of the names.
pub count_weight-weigh :
    (c : Committee) (names used : List PublicKey) (w : ℕ)
    → Distinct names
    → Fresh used names
    → All (HasStake c) names
    → w + weigh c.authorities names < u32_mod
    → count_weight c names used w ≡ ok (w + weigh c.authorities names)
unfolding count_weight weigh stake
count_weight-weigh c [] used w d f s h = ground arith
count_weight-weigh c (n ∷ names) used w d f s h =
    let rest =
      count_weight-weigh c names (n ∷ used) ((w + stake c n) % u32_mod) d.1
        (Fresh-cons n used names d.0 f.1) s.1 (omega arith) in
    ground (arith, rest)

-- The names of the first list that the second has too.
abbrev pub common : List PublicKey → List PublicKey → List PublicKey
common xs ys = filter (λ x. contains x ys) xs

abbrev others : List PublicKey → List PublicKey → List PublicKey
others xs ys = filter (λ x. not (contains x ys)) xs

weigh-common-others :
    (m : Dict Authority) (xs ys : List PublicKey)
    → weigh m xs ≡ weigh m (common xs ys) + weigh m (others xs ys)
unfolding weigh
weigh-common-others m [] ys = omega arith
weigh-common-others m (x ∷ xs) ys = ground (arith, weigh-common-others m xs ys)

pub Distinct-filter :
    (p : PublicKey → Bool) (xs : List PublicKey) → Distinct xs → Distinct (filter p xs)
Distinct-filter p [] d = tt
Distinct-filter p (x ∷ xs) d = ground (arith, Distinct-filter p xs d.1, contains-filter x p xs)

Distinct-others :
    (xs ys : List PublicKey) → Distinct xs → Distinct ys → Distinct (others xs ys ++ ys)
Distinct-others [] ys d e = e
Distinct-others (x ∷ xs) ys d e = ground (
  arith,
  Distinct-others xs ys d.1 e,
  contains-append x (others xs ys) ys,
  contains-filter x (λ x. not (contains x ys)) xs,
)

-- Two lists of distinct authorities hold at most the whole stake and what they share.
pub weigh-common :
    (m : Dict Authority) (xs ys : List PublicKey)
    → Distinct xs
    → Distinct ys
    → weigh m xs + weigh m ys ≤ sum_stakes m + weigh m (common xs ys)
weigh-common m xs ys d e = omega (
  arith,
  weigh-common-others m xs ys,
  weigh-append m (others xs ys) ys,
  weigh-le-sum_stakes m (others xs ys ++ ys) (Distinct-others xs ys d e),
)

-- The authorities that signed a certificate.
abbrev pub voters : Qc → List PublicKey
voters qc = map (λ v. v.0) qc.votes

-- What an accepted certificate means.
pub record IsQuorum (committee : Committee) (names : List PublicKey) : Type 0 where
  pub distinct : Distinct names
  pub authorised : All (HasStake committee) names
  pub enough : quorum_threshold committee ≤ weigh committee.authorities names

pub IsQuorum-weight :
    (committee : Committee) (names : List PublicKey) (w : ℕ)
    → Fits committee
    → count_weight committee names [] 0 ≡ ok w
    → quorum_threshold committee ≤ w
    → IsQuorum committee names
IsQuorum-weight committee names w fits e q =
    let (d, f, s) = count_weight-IsDistinct committee names [] 0 w e in
    let exact =
      count_weight-weigh committee names [] 0 d f s
        (omega (arith, weigh-le-sum_stakes committee.authorities names d)) in
    record { distinct = d; authorised = s; enough = ground (arith, exact) }

-- And what is needed for acceptance.
pub count_weight-IsQuorum :
    (committee : Committee) (names : List PublicKey)
    → Fits committee
    → IsQuorum committee names
    → count_weight committee names [] 0 ≡ ok (weigh committee.authorities names)
count_weight-IsQuorum committee names fits q =
    let exact =
      count_weight-weigh committee names [] 0 q.distinct (Fresh-nil names) q.authorised
        (omega (arith, weigh-le-sum_stakes committee.authorities names q.distinct)) in
    ground (arith, exact)

-- Two quorums share more than a third of the stake.
pub IsQuorum-common :
    (committee : Committee) (xs ys : List PublicKey)
    → Fits committee
    → IsQuorum committee xs
    → IsQuorum committee ys
    → sum_stakes committee.authorities < 3 * weigh committee.authorities (common xs ys)
IsQuorum-common committee xs ys fits p q = omega (
  arith,
  weigh-common committee.authorities xs ys p.distinct q.distinct,
  quorum_threshold-majority committee fits,
)
