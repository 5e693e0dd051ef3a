-- ===== src/Base/Lists.antt =====
-- Lists with native lengths, and finite sets of numbers as lists.
use Prim.Native.Nat.{ℕ, zero, suc, ◌+◌, ◌≤◌}
use mathlib.Core.Path.{◌≡◌, refl, subst, sym}
use mathlib.Core.Logic.{inl, inr}
use mathlib.Core.Bool.{Bool, true, false, ◌||◌, ◌&&◌, not}
use mathlib.Core.List.{List, [], ◌∷◌, ◌++◌, map}
use mathlib.Core.Option.{Option, none, some}
use native.Mathlib.Omega.{arith}
use accountability_gadget_pr.Base.Tests.{◌==◌, if◌then◌else◌, Bool-cases, ==_iff}

module _ {ℓ} {A : Type ℓ} where
  abbrev pub length : List A → ℕ
  length [] = 0
  length (x ∷ xs) = suc (length xs)

  abbrev pub take : ℕ → List A → List A
  take zero xs = []
  take (suc n) [] = []
  take (suc n) (x ∷ xs) = x ∷ take n xs

  abbrev pub get_elem? : List A → ℕ → Option A
  get_elem? [] i = none
  get_elem? (x ∷ xs) zero = some x
  get_elem? (x ∷ xs) (suc i) = get_elem? xs i

  abbrev pub replicate : ℕ → A → List A
  replicate zero x = []
  replicate (suc n) x = x ∷ replicate n x

  -- The elements that a Boolean test keeps, in order: `retain`.
  abbrev pub filter : (A → Bool) → List A → List A
  filter p [] = []
  filter p (x ∷ xs) = if p x then x ∷ filter p xs else filter p xs

  pub length-append : (xs ys : List A) → length (xs ++ ys) ≡ length xs + length ys
  length-append [] ys = omega arith
  length-append (x ∷ xs) ys = omega (arith, length-append xs ys)

  -- Lists that begin with equally many elements agree on both parts.
  pub append_injective :
      (xs ys us vs : List A) → length xs ≡ length ys → xs ++ us ≡ ys ++ vs → (xs ≡ ys) × (us ≡ vs)
  append_injective [] [] us vs l e = (refl, e)
  append_injective [] (y ∷ ys) us vs l e = absurd (omega arith)
  append_injective (x ∷ xs) [] us vs l e = absurd (omega arith)
  append_injective (x ∷ xs) (y ∷ ys) us vs l e =
      let (a, b) = append_injective xs ys us vs (omega arith) cc in (cc, b)

  pub length-filter-le : (p : A → Bool) (xs : List A) → length (filter p xs) ≤ length xs
  length-filter-le p [] = omega arith
  length-filter-le p (x ∷ xs) = ground (arith, length-filter-le p xs)

-- A predicate that holds of every element.
abbrev pub All {ℓ κ} : {A : Type ℓ} → (A → Type κ) → List A → Type κ
All P [] = Unit
All P (x ∷ xs) = P x × All P xs

pub All-append {ℓ κ} :
    {A : Type ℓ} (P : A → Type κ) (xs ys : List A) → All P xs → All P ys → All P (xs ++ ys)
All-append P [] ys hx hy = hy
All-append P (x ∷ xs) ys hx hy = (hx.0, All-append P xs ys hx.1 hy)

pub All-filter {ℓ κ} :
    {A : Type ℓ} (P : A → Type κ) (p : A → Bool) (xs : List A) → All P xs → All P (filter p xs)
All-filter P p [] h = tt
All-filter P p (x ∷ xs) h = ground (arith, All-filter P p xs h.1)

pub All-take {ℓ κ} :
    {A : Type ℓ} (P : A → Type κ) (n : ℕ) (xs : List A) → All P xs → All P (take n xs)
All-take P zero xs h = tt
All-take P (suc n) [] h = tt
All-take P (suc n) (x ∷ xs) h = (h.0, All-take P n xs h.1)

pub All-map {ℓ κ μ} :
    {A : Type ℓ} {B : Type κ} (P : B → Type μ) (f : A → B) (xs : List A)
    → All (λ x. P (f x)) xs
    → All P (map f xs)
All-map P f [] h = tt
All-map P f (x ∷ xs) h = (h.0, All-map P f xs h.1)

-- Whether the second list begins with the first.
abbrev pub starts_with : List ℕ → List ℕ → Bool
starts_with [] ys = true
starts_with (x ∷ xs) [] = false
starts_with (x ∷ xs) (y ∷ ys) = x == y && starts_with xs ys

abbrev pub contains : ℕ → List ℕ → Bool
contains a [] = false
contains a (x ∷ xs) = a == x || contains a xs

pub All_of_contains {ℓ} :
    {P : ℕ → Type ℓ} (xs : List ℕ) → ((x : ℕ) → contains x xs ≡ true → P x) → All P xs
All_of_contains [] h = tt
All_of_contains (x ∷ xs) h = (h x (ground arith), All_of_contains xs (λ y e. h y (ground arith)))

pub All_at {ℓ} : (P : ℕ → Type ℓ) (xs : List ℕ) (x : ℕ) → All P xs → contains x xs ≡ true → P x
All_at P [] x h e = cc
All_at P (y ∷ xs) x h e = elim (Bool-cases (x == y)) [
  | inl here ↦ subst P (sym ((==_iff x y).0 here)) h.0
  | inr there ↦ All_at P xs x h.1 (ground arith)
]

abbrev pub Distinct : List ℕ → Type 0
Distinct [] = Unit {0}
Distinct (x ∷ xs) = (contains x xs ≡ false) × Distinct xs

pub contains-append :
    (a : ℕ) (xs ys : List ℕ) → contains a (xs ++ ys) ≡ (contains a xs || contains a ys)
contains-append a [] ys = refl
contains-append a (x ∷ xs) ys = ground (arith, contains-append a xs ys)

pub Distinct-snoc :
    (a : ℕ) (xs : List ℕ) → Distinct xs → contains a xs ≡ false → Distinct (xs ++ a ∷ [])
Distinct-snoc a [] d h = (refl, tt)
Distinct-snoc a (x ∷ xs) d h =
    (ground (arith, contains-append x xs (a ∷ [])), Distinct-snoc a xs d.1 (ground arith))

pub contains-filter :
    (a : ℕ) (p : ℕ → Bool) (xs : List ℕ)
    → contains a (filter p xs) ≡ (if p a then contains a xs else false)
contains-filter a p [] = ground arith
contains-filter a p (x ∷ xs) = ground (arith, contains-filter a p xs)

length-filter_lt :
    (x : ℕ) (ys : List ℕ)
    → contains x ys ≡ true
    → suc (length (filter (λ y. not (y == x)) ys)) ≤ length ys
length-filter_lt x [] h = cc
length-filter_lt x (y ∷ ys) h =
    ground (arith, length-filter_lt x ys, length-filter-le (λ y. not (y == x)) ys)

pub All-others :
    (x : ℕ) (xs ys : List ℕ)
    → contains x xs ≡ false
    → All (λ z. contains z ys ≡ true) xs
    → All (λ z. contains z (filter (λ y. not (y == x)) ys) ≡ true) xs
All-others x [] ys n a = tt
All-others x (z ∷ xs) ys n a = (
  ground (arith, contains-filter z (λ y. not (y == x)) ys),
  All-others x xs ys (ground arith) a.1,
)

-- Distinct members of a list are no more than the list is long.
pub length-Distinct-le :
    (xs ys : List ℕ) → Distinct xs → All (λ z. contains z ys ≡ true) xs → length xs ≤ length ys
length-Distinct-le [] ys d a = omega arith
length-Distinct-le (x ∷ xs) ys d a = omega (
  arith,
  length-filter_lt x ys a.0,
  length-Distinct-le xs (filter (λ y. not (y == x)) ys) d.1 (All-others x xs ys d.0 a.1),
)

-- A hash set: `insert` keeps it free of repetitions, `remove` drops the element.
unfoldable pub set_insert : ℕ → List ℕ → List ℕ
set_insert a xs = if contains a xs then xs else xs ++ a ∷ []

unfoldable pub set_remove : ℕ → List ℕ → List ℕ
set_remove a xs = filter (λ x. not (x == a)) xs

pub contains-set_remove :
    (a b : ℕ) (xs : List ℕ)
    → contains a (set_remove b xs) ≡ (if a == b then false else contains a xs)
unfolding set_remove
contains-set_remove a b xs = ground (arith, contains-filter a (λ x. not (x == b)) xs)

pub contains-set_insert :
    (a b : ℕ) (xs : List ℕ) → contains a (set_insert b xs) ≡ (a == b || contains a xs)
unfolding set_insert
contains-set_insert a b xs = ground (arith, contains-append a xs (b ∷ []))

-- The list without the element of that index.
unfoldable pub remove_at {ℓ} : {A : Type ℓ} → ℕ → List A → List A
remove_at i [] = []
remove_at zero (x ∷ xs) = xs
remove_at (suc i) (x ∷ xs) = x ∷ remove_at i xs
