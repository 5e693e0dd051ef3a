-- ===== src/Base/Results.antt =====
-- What a call of fallible code comes to: a value, an error of its error type, a panic of the task
-- that runs it (`unwrap`, `expect`, an index that is missing, `panic!`), or no more fuel for a
-- recursion that the source does not bound.
use mathlib.Core.Path.{◌≡◌, refl}
use mathlib.Core.Bool.{Bool, true, false}
use mathlib.Core.Option.{Option, none, some}
use accountability_gadget_pr.Base.Tests.{if◌then◌else◌}

pub data Outcome {ℓ κ} (E : Type ℓ) (A : Type κ) : Type (ℓ ⊔ κ) where
  ok : A → Outcome E A
  err : E → Outcome E A
  panic : Outcome E A
  out_of_fuel : Outcome E A

infixl 5 ◌>>=◌ ◌>>◌
abbrev pub ◌>>=◌ {ℓ κ μ} :
    {E : Type ℓ} {A : Type κ} {B : Type μ} → Outcome E A → (A → Outcome E B) → Outcome E B
ok a >>= f = f a
err e >>= f = err e
panic >>= f = panic
out_of_fuel >>= f = out_of_fuel

abbrev pub ◌>>◌ {ℓ κ} : {E : Type ℓ} {B : Type κ} → Outcome E (Unit {0}) → Outcome E B → Outcome E B
m >> k = m >>= λ _. k

pub ok_injective {ℓ κ} :
    {E : Type ℓ} {A : Type κ} {a b : A} → (let r : Outcome E A = ok a in r ≡ ok b) → a ≡ b
ok_injective e = cc

-- Inversion of an `assert!`.
pub assert-eq-ok {ℓ κ} :
    {E : Type ℓ} {A : Type κ} {a b : A} (c : Bool)
    → (let r : Outcome E A = if c then ok a else panic in r ≡ ok b)
    → (c ≡ true) × (a ≡ b)
assert-eq-ok true e = (refl, ok_injective e)
assert-eq-ok false e = cc

-- Inversion of a successful bind.
pub >>=-eq-ok {ℓ κ μ} :
    {E : Type ℓ} {A : Type κ} {B : Type μ} (head : Outcome E A) (next : A → Outcome E B) {last : B}
    → (head >>= next) ≡ ok last
    → (first : A) × (head ≡ ok first) × (next first ≡ ok last)
>>=-eq-ok panic next done = cc
>>=-eq-ok out_of_fuel next done = cc
>>=-eq-ok (err stop) next done = cc
>>=-eq-ok (ok first) next done = (first, refl, done)

-- `ensure!(test, e)`
abbrev pub ensure {ℓ} : {E : Type ℓ} → Bool → E → Outcome E (Unit {0})
ensure true e = ok tt
ensure false e = err e

-- `unwrap` and `expect` of an `Option`, and an index of a map
abbrev pub expect {ℓ κ} : {E : Type ℓ} {A : Type κ} → Option A → Outcome E A
expect none = panic
expect (some a) = ok a

-- `unwrap` of a `Result`: its error is a panic of the caller
abbrev pub unwrap {ℓ κ μ} : {E : Type ℓ} {F : Type κ} {A : Type μ} → Outcome E A → Outcome F A
unwrap (ok a) = ok a
unwrap (err e) = panic
unwrap panic = panic
unwrap out_of_fuel = out_of_fuel

abbrev pub ok_or {ℓ κ} : {E : Type ℓ} {A : Type κ} → Option A → E → Outcome E A
ok_or none e = err e
ok_or (some a) e = ok a
