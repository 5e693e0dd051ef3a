-- ===== src/Base/Falling.antt =====
-- Lists of numbers that fall strictly.
use Prim.Native.Nat.{ℕ, ◌≤◌, ◌<◌}
use mathlib.Core.Path.{◌≡◌, refl}
use mathlib.Core.Bool.{false}
use mathlib.Core.List.{List, [], ◌∷◌}
use native.Mathlib.Omega.{arith}
use accountability_gadget_pr.Base.Lists.{contains, Distinct}

-- A list that falls strictly, from below `n`.
unfoldable pub Falls : ℕ → List ℕ → Type 0
Falls n [] = Unit {0}
Falls n (x ∷ xs) = (x < n) × Falls x xs

pub Falls-mono : (m n : ℕ) (xs : List ℕ) → m ≤ n → Falls m xs → Falls n xs
unfolding Falls
Falls-mono m n [] l f = tt
Falls-mono m n (x ∷ xs) l f = (omega (arith, f.0), f.1)

pub Falls-absent : (n m : ℕ) (xs : List ℕ) → n ≤ m → Falls n xs → contains m xs ≡ false
unfolding Falls
Falls-absent n m [] l f = refl
Falls-absent n m (x ∷ xs) l f = ground (arith, Falls-absent x m xs, f.0, f.1)

pub Falls-Distinct : (n : ℕ) (xs : List ℕ) → Falls n xs → Distinct xs
unfolding Falls
Falls-Distinct n [] f = tt
Falls-Distinct n (x ∷ xs) f = (Falls-absent x x xs (omega arith) f.1, Falls-Distinct x xs f.1)
