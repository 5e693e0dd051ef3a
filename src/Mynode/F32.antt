-- ===== src/Mynode/F32.antt =====
-- The `f32` arithmetic of mynode/src/cpextractor.rs, exactly: a positive `f32` here is an integer
-- times a fixed power of two, and each operation rounds to 24 significant bits, ties to even.
pub mod Thresholds
use accountability_gadget_pr.Base.{
  ℕ, zero, suc, ◌+◌, ◌*◌, ◌/◌, ◌%◌, ◌^◌, Bool, ◌&&◌, ◌||◌, ◌==◌, ltb, leb, if◌then◌else◌,
}

-- How many low bits a number has beyond the 24 that are kept (64 rounds serve every `usize`).
unfoldable pub excess : ℕ → ℕ → ℕ
excess zero x = 0
excess (suc fuel) x = let more = suc (excess fuel (x / 2)) in if ltb x (2 ^ 24) then 0 else more

unfoldable pub round_at : ℕ → ℕ → ℕ
round_at e x =
    let q = x / 2 ^ e in
    let r = x % 2 ^ e in
    if ltb (2 * r) (2 ^ e) || (2 * r == 2 ^ e && q % 2 == 0) then q * 2 ^ e else (q + 1) * 2 ^ e

-- Rounding of an integer, in whatever unit it counts.
unfoldable pub round_f32 : ℕ → ℕ
unfolding excess round_at
round_f32 x = round_at (excess 64 x) x

-- The significand of `2.0/3.0` (in units of 2^-24) and of `1.0/3.0` (in units of 2^-25).
abbrev pub third_significand : ℕ
third_significand = 11_184_811

-- `2.0/3.0 * (n as f32)` in units of 2^-24, and `1.0/3.0 * (n as f32)` in units of 2^-25.
unfoldable pub scaled_thirds : ℕ → ℕ
unfolding round_f32
scaled_thirds n = round_f32 (round_f32 n * third_significand)

-- `count as f32 > 2.0/3.0 * (n as f32)`
unfoldable pub above_two_thirds : ℕ → ℕ → Bool
unfolding scaled_thirds
above_two_thirds count n = ltb (scaled_thirds n) (round_f32 count * 2 ^ 24)

-- `count as f32 >= 1.0/3.0 * (n as f32)`
unfoldable pub at_least_third : ℕ → ℕ → Bool
unfolding scaled_thirds
at_least_third count n = leb (scaled_thirds n) (round_f32 count * 2 ^ 25)
