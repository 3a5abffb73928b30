-- ===== src/Backoff/Curve.antt =====
-- The shape of the backoff curve of src/backoff.rs: doubling, saturation, monotonicity.
use native.Mathlib.Nat.{pow-le-pow_right, two-pow-succ, mul-le-mul_left}
use artemis_light.Prelude.{
  ℕ, suc, ◌*◌, ◌^◌, ◌≤◌, ◌<◌, min, ◌≡◌, ap, arith, u32_max, checked_pow, unwrap_or,
}
use artemis_light.Backoff.{duration_max, delay}

pow_small : (n : ℕ) → n < 32 → 2 ^ n ≤ u32_max
pow_small n h = omega (arith, pow-le-pow_right {n = 2} (omega arith) {i = n} {j = 31} (omega arith))

pow_large : (n : ℕ) → 32 ≤ n → u32_max < 2 ^ n
pow_large n h = omega (arith, pow-le-pow_right {n = 2} (omega arith) {i = 32} {j = n} h)

-- Below 32 attempts the delay is base * 2 ^ n, and from 32 on base * u32::MAX, each cut off at
-- Duration::MAX.
pub delay-eq :
    (base n : ℕ)
    → (n < 32 → delay base n ≡ min (base * 2 ^ n) duration_max)
      × (32 ≤ n → delay base n ≡ min (base * u32_max) duration_max)
unfolding delay
delay-eq base n = (λ h. ground (arith, pow_small n h), λ h. ground (arith, pow_large n h))

-- The exponent factor of the curve, saturated.
factor : ℕ → ℕ
factor n = unwrap_or (checked_pow u32_max 2 n) u32_max

factor_mono : (m n : ℕ) → m ≤ n → factor m ≤ factor n
unfolding factor
factor_mono m n h = ground (arith, pow-le-pow_right {n = 2} (omega arith) {i = m} {j = n} h)

-- For a base up to Duration::MAX the first delay is the base, a later attempt never waits less than
-- an earlier one, and no delay passes Duration::MAX.
pub delay_mono :
    (base m n : ℕ)
    → m ≤ n
    → base ≤ duration_max
    → (delay base 0 ≡ base) × (delay base m ≤ delay base n) × (delay base n ≤ duration_max)
unfolding delay factor
delay_mono base m n h b =
    (omega arith, omega (arith, mul-le-mul_left base (factor_mono m n h)), omega arith)

-- Below attempt 31 one more attempt doubles the delay, up to Duration::MAX.
pub delay_double : (base n : ℕ) → n < 31 → delay base (suc n) ≡ min (2 * delay base n) duration_max
delay_double base n h = omega (
  arith,
  (delay-eq base n).0 (omega arith),
  (delay-eq base (suc n)).0 (omega arith),
  ap (λ t. base * t) (two-pow-succ n),
)
