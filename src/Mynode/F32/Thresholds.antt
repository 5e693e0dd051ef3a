-- ===== src/Mynode/F32/Thresholds.antt =====
-- For committees of fewer than 1024 the rounding of the `f32` thresholds in mynode/src/cpextractor.rs
-- changes no comparison.
use accountability_gadget_pr.Base.{
  ◌-◌, ℕ, zero, suc, ◌+◌, ◌*◌, ◌/◌, ◌^◌, ◌≤◌, ◌<◌, ◌≡◌, refl, ◌↔◌, Bool, true, ◌&&◌, ◌==◌, arith,
  ltb→lt, lt→ltb, leb→le, le→leb,
}
use accountability_gadget_pr.Mynode.F32.{
  excess, round_at, round_f32, scaled_thirds, above_two_thirds, at_least_third,
}

-- A test that passes for every number of a table passes for each.
passes : (ℕ → Bool) → ℕ → Bool
passes test zero = true
passes test (suc size) = passes test size && test size

passes-lt : (test : ℕ → Bool) (size at : ℕ) → at < size → passes test size ≡ true → test at ≡ true
unfolding passes
passes-lt test zero at less e = absurd (omega arith)
passes-lt test (suc size) at less e = ground (arith, passes-lt test size at)

is_exact : ℕ → Bool
is_exact n =
    scaled_thirds n / 2 ^ 24 == (2 * n) / 3
    && (scaled_thirds n + (2 ^ 25 - 1)) / 2 ^ 25 == (n + 2) / 3

is_exact_table : passes is_exact 1024 ≡ true
unfolding passes is_exact scaled_thirds round_f32 excess round_at
is_exact_table = refl

round_f32_small : (n : ℕ) → n < 1024 → round_f32 n ≡ n
unfolding round_f32 excess round_at
round_f32_small n h = ground arith

exact_at :
    (n : ℕ)
    → n < 1024
    → (scaled_thirds n / 2 ^ 24 ≡ (2 * n) / 3)
      × ((scaled_thirds n + (2 ^ 25 - 1)) / 2 ^ 25 ≡ (n + 2) / 3)
exact_at n h =
    let e = passes-lt is_exact 1024 n h is_exact_table in unfold is_exact in ground (arith, e)

above_only_if : (c n s : ℕ) → s / 2 ^ 24 ≡ (2 * n) / 3 → s < c * 2 ^ 24 → 2 * n < 3 * c
above_only_if c n s e h = omega arith

above_if : (c n s : ℕ) → s / 2 ^ 24 ≡ (2 * n) / 3 → 2 * n < 3 * c → s < c * 2 ^ 24
above_if c n s e h = omega arith

at_least_only_if :
    (c n s : ℕ) → (s + (2 ^ 25 - 1)) / 2 ^ 25 ≡ (n + 2) / 3 → s ≤ c * 2 ^ 25 → n ≤ 3 * c
at_least_only_if c n s e h = omega arith

at_least_if : (c n s : ℕ) → (s + (2 ^ 25 - 1)) / 2 ^ 25 ≡ (n + 2) / 3 → n ≤ 3 * c → s ≤ c * 2 ^ 25
at_least_if c n s e h = omega arith

-- For fewer than 1024 voters of a committee of fewer than 1024, the comparison of the source with its
-- `f32` fraction of two thirds is the comparison of whole numbers.
pub above_two_thirds_iff :
    (count n : ℕ)
    → count < 1024
    → n < 1024
    → (above_two_thirds count n ≡ true) ↔ (2 * n < 3 * count)
unfolding above_two_thirds
above_two_thirds_iff count n hc hn =
    let (e, _) = exact_at n hn in
    rw (round_f32_small count hc) (
      λ h. above_only_if count n (scaled_thirds n) e (ltb→lt _ _ h),
      λ h. lt→ltb _ _ (above_if count n (scaled_thirds n) e h),
    )

-- For fewer than 1024 voters of a committee of fewer than 1024, the comparison of the source with its
-- `f32` fraction of one third is the comparison of whole numbers.
pub at_least_third_iff :
    (count n : ℕ) → count < 1024 → n < 1024 → (at_least_third count n ≡ true) ↔ (n ≤ 3 * count)
unfolding at_least_third
at_least_third_iff count n hc hn =
    let (_, e) = exact_at n hn in
    rw (round_f32_small count hc) (
      λ h. at_least_only_if count n (scaled_thirds n) e (leb→le _ _ h),
      λ h. le→leb _ _ (at_least_if count n (scaled_thirds n) e h),
    )
