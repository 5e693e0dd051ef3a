-- ===== src/Crypto/Bytes.antt =====
-- Numbers as bytes: the arrays of crypto/src/lib.rs, and `to_le_bytes` of a machine word.
use Prim.Native.Nat.{ℕ, zero, suc, ◌+◌, ◌*◌, ◌/◌, ◌%◌, ◌^◌, ◌<◌}
use native.Mathlib.Nat.{
  pow-suc, pow-zero, div-div-eq-div-mul, div-add-mod, mod-add-div, add-mul-div_left, one-le-pow,
}
use accountability_gadget_pr.Base.{◌≡◌, refl, List, [], ◌∷◌, arith, ap, sym, ◌∙◌, length}

-- The `n` lowest bytes of a number, the highest first.
unfoldable pub be_bytes : ℕ → ℕ → List ℕ
be_bytes zero x = []
be_bytes (suc n) x = (x / 256 ^ n) % 256 ∷ be_bytes n x

-- `to_le_bytes` of a word of `n` bytes.
unfoldable pub le_bytes : ℕ → ℕ → List ℕ
le_bytes zero x = []
le_bytes (suc n) x = x % 256 ∷ le_bytes n (x / 256)

-- The number that bytes write, the lowest first.
pub le_value : List ℕ → ℕ
le_value [] = 0
le_value (b ∷ bs) = b + 256 * le_value bs

pub length-be_bytes : (n x : ℕ) → length (be_bytes n x) ≡ n
unfolding be_bytes
length-be_bytes zero x = refl
length-be_bytes (suc n) x = omega (arith, length-be_bytes n x)

pub length-le_bytes : (n x : ℕ) → length (le_bytes n x) ≡ n
unfolding le_bytes
length-le_bytes zero x = refl
length-le_bytes (suc n) x = omega (arith, length-le_bytes n (x / 256))

pub le_value-le_bytes : (n x : ℕ) → x < 256 ^ n → le_value (le_bytes n x) ≡ x
unfolding le_value le_bytes
le_value-le_bytes zero x h = omega (arith, pow-zero 256)
le_value-le_bytes (suc n) x h =
    omega (arith, le_value-le_bytes n (x / 256) (omega (arith, pow-suc 256 n)))

-- Words with the same bytes are the same.
pub le_bytes-injective :
    (n x y : ℕ) → x < 256 ^ n → y < 256 ^ n → le_bytes n x ≡ le_bytes n y → x ≡ y
le_bytes-injective n x y hx hy e =
    sym (le_value-le_bytes n x hx) ∙ ap le_value e ∙ le_value-le_bytes n y hy

-- The number that bytes write, the highest first.
pub be_value : List ℕ → ℕ
be_value [] = 0
be_value (b ∷ bs) = b * 256 ^ length bs + be_value bs

be_bytes_split : (n x : ℕ) → x ≡ 256 ^ n * (x / 256 ^ n) + be_value (be_bytes n x)
unfolding be_value be_bytes
be_bytes_split zero x = rw pow-zero (omega arith)
be_bytes_split (suc n) x =
    rw (length-be_bytes, pow-suc, ← div-div-eq-div-mul)
      (omega
        (arith, be_bytes_split n x, ap (λ (q : ℕ). 256 ^ n * q) (div-add-mod (x / 256 ^ n) 256)))

pub be_value-be_bytes : (n x : ℕ) → x < 256 ^ n → be_value (be_bytes n x) ≡ x
be_value-be_bytes n x h = grind (arith, be_bytes_split n x)

-- Words with the same bytes are the same.
pub be_bytes-injective :
    (n x y : ℕ) → x < 256 ^ n → y < 256 ^ n → be_bytes n x ≡ be_bytes n y → x ≡ y
be_bytes-injective n x y hx hy e =
    sym (be_value-be_bytes n x hx) ∙ ap be_value e ∙ be_value-be_bytes n y hy

suc_power : (n k : ℕ) → 256 ^ suc n * k ≡ 256 ^ n * (256 * k)
suc_power n k = rw pow-suc (grind arith)

-- Only the lowest bytes count.
pub be_bytes-more : (n x k : ℕ) → be_bytes n (x + 256 ^ n * k) ≡ be_bytes n x
unfolding be_bytes
be_bytes-more zero x k = refl
be_bytes-more (suc n) x k =
    let above = add-mul-div_left x (256 * k) (one-le-pow n 256 (omega arith)) in
    let head : (x + 256 ^ n * (256 * k)) / 256 ^ n % 256 ≡ x / 256 ^ n % 256 =
      omega (arith, above) in
    rw (suc_power n k, head, be_bytes-more n x (256 * k)) refl

pub le_bytes-more : (n x k : ℕ) → le_bytes n (x + 256 ^ n * k) ≡ le_bytes n x
unfolding le_bytes
le_bytes-more zero x k = refl
le_bytes-more (suc n) x k =
    let step : 256 ^ suc n * k ≡ 256 * (256 ^ n * k) = rw pow-suc (grind arith) in
    let head : (x + 256 * (256 ^ n * k)) % 256 ≡ x % 256 = omega arith in
    let rest : (x + 256 * (256 ^ n * k)) / 256 ≡ x / 256 + 256 ^ n * k = omega arith in
    rw (step, head, rest, le_bytes-more n (x / 256) k) refl

pub be_bytes-low : (n x : ℕ) → be_bytes n (x % 256 ^ n) ≡ be_bytes n x
be_bytes-low n x =
    sym (be_bytes-more n (x % 256 ^ n) (x / 256 ^ n)) ∙ ap (be_bytes n) (mod-add-div x (256 ^ n))

pub le_bytes-low : (n x : ℕ) → le_bytes n (x % 256 ^ n) ≡ le_bytes n x
le_bytes-low n x =
    sym (le_bytes-more n (x % 256 ^ n) (x / 256 ^ n)) ∙ ap (le_bytes n) (mod-add-div x (256 ^ n))
