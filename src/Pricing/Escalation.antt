-- ===== src/Pricing/Escalation.antt =====
-- The replacement bump, `escalate` of src/executors/pricing.rs: how far it raises a pair of fees.
use native.Mathlib.Nat.{mul-le-mul_left}
use artemis_light.Prelude.{ℕ, ◌*◌, ◌/◌, ◌≤◌, ◌<◌, min, ◌≡◌, arith, u128_max}
use artemis_light.Pricing.{Fees, clamped, scale_percent, escalate}
use artemis_light.Pricing.Bounds.{IsValid, scale_percent-le-max, scale_percent_mono}

-- Scaling by 110 percent or more raises a fee by a tenth, rounded down, or to u128::MAX.
scale_percent_raises :
    (v percent : ℕ) → 110 ≤ percent → min (v * 110 / 100) u128_max ≤ scale_percent v percent
unfolding scale_percent
scale_percent_raises v percent h = ground (arith, mul-le-mul_left v h)

-- On a valid pair escalate scales both fields, its clamp changes nothing, and the result is valid.
pub escalate-IsValid :
    (fees : Fees) (percent : ℕ)
    → IsValid fees
    → ((escalate fees percent).max_fee_per_gas ≡ scale_percent fees.max_fee_per_gas percent)
      × ((escalate fees percent).max_priority_fee_per_gas
          ≡ scale_percent fees.max_priority_fee_per_gas percent)
      × IsValid (escalate fees percent)
unfolding escalate clamped
escalate-IsValid fees percent v = ground (
  arith,
  scale_percent_mono fees.max_priority_fee_per_gas fees.max_fee_per_gas percent v.tip_below_cap,
  scale_percent-le-max fees.max_fee_per_gas percent,
)

-- With 110 percent or more, both fields of a valid pair rise by at least a tenth, rounded down, or
-- reach u128::MAX.
pub escalate_raises :
    (fees : Fees) (percent : ℕ)
    → IsValid fees
    → 110 ≤ percent
    → (min (fees.max_fee_per_gas * 110 / 100) u128_max ≤ (escalate fees percent).max_fee_per_gas)
      × (min (fees.max_priority_fee_per_gas * 110 / 100) u128_max
          ≤ (escalate fees percent).max_priority_fee_per_gas)
escalate_raises fees percent v h =
    let (cap, tip, _) = escalate-IsValid fees percent v in
    (
      rw cap (scale_percent_raises fees.max_fee_per_gas percent h),
      rw tip (scale_percent_raises fees.max_priority_fee_per_gas percent h),
    )

-- A valid pair whose cap is under ten units is left as it is by the least escalation, 110 percent.
pub escalate_stalls :
    (fees : Fees) → IsValid fees → fees.max_fee_per_gas < 10 → escalate fees 110 ≡ fees
unfolding escalate clamped scale_percent
escalate_stalls fees v h = ground arith
