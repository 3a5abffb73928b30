-- ===== src/Pricing/Bounds.antt =====
-- What `price_1559` of src/executors/pricing.rs guarantees of the fees it returns and refuses.
use native.Mathlib.Nat.{mul-le-mul_right, mul-le-mul_left}
use artemis_light.Prelude.{
  ℕ, ◌*◌, ◌/◌, ◌≤◌, ◌<◌, ◌≡◌, ◌↔◌, ◌⊎◌, Option, none, some, arith, u128_max,
}
use artemis_light.Pricing.{
  Fees, clamped, FeeEstimate, GasBidInfo, PricingError, bid_exceeds_profit, zero_gas, priced,
  refused, scale_percent, price_1559,
}

-- The invariant that `Fees` holds by construction, within the machine words.
pub record IsValid (f : Fees) : Type 0 where
  pub tip_below_cap : f.max_priority_fee_per_gas ≤ f.max_fee_per_gas
  pub in_range : f.max_fee_per_gas ≤ u128_max

pub scale_percent-le-max : (v percent : ℕ) → scale_percent v percent ≤ u128_max
unfolding scale_percent
scale_percent-le-max v percent = ground arith

pub scale_percent_mono :
    (v w percent : ℕ) → v ≤ w → scale_percent v percent ≤ scale_percent w percent
unfolding scale_percent
scale_percent_mono v w percent h = ground (arith, mul-le-mul_right percent h)

-- At most 100 percent, without overflow, is at most the value.
pub scale_percent-le :
    (v percent : ℕ) → percent ≤ 100 → v * percent ≤ u128_max → scale_percent v percent ≤ v
unfolding scale_percent
scale_percent-le v percent h k = ground (arith, mul-le-mul_left v h)

-- Every pair of fees that price_1559 returns has its tip at most its cap and its cap within a u128.
pub price_1559-IsValid :
    (est : FeeEstimate) (gas_usage bump_percent : ℕ) (bid : Option GasBidInfo) {fees : Fees}
    → price_1559 est gas_usage bump_percent bid ≡ priced fees
    → IsValid fees
unfolding price_1559 clamped
price_1559-IsValid est g b none e =
    ground (arith, scale_percent-le-max est.max_priority_fee_per_gas b)
price_1559-IsValid est g b (some bid) e =
    ground (arith, scale_percent-le-max (bid.total_profit / g) bid.bid_percentage)

-- With a bid, price_1559 refuses exactly a bid over 100 percent and, among the others, one on a gas
-- usage of zero, each with its own error.
pub price_1559-refused_iff :
    (est : FeeEstimate) (gas_usage bump_percent : ℕ) (bid : GasBidInfo) (x : PricingError)
    → (price_1559 est gas_usage bump_percent (some bid) ≡ refused x) ↔ (
        (100 < bid.bid_percentage) × (x ≡ bid_exceeds_profit bid.bid_percentage)
        ⊎ (bid.bid_percentage ≤ 100) × (gas_usage ≡ 0) × (x ≡ zero_gas))
unfolding price_1559
price_1559-refused_iff est g b bid x = ground arith

-- The parts of a priced bid.
price_bid_parts :
    (est : FeeEstimate) (g b : ℕ) (bid : GasBidInfo) {fees : Fees}
    → price_1559 est g b (some bid) ≡ priced fees
    → (fees.max_fee_per_gas ≡ scale_percent (bid.total_profit / g) bid.bid_percentage)
      × (bid.bid_percentage ≤ 100)
unfolding price_1559 clamped
price_bid_parts est g b bid e = ground arith

-- A bid prices the whole gas at no more than the total profit of the opportunity, where the share
-- of the break-even price does not overflow a u128.
pub price_1559-le-profit :
    (est : FeeEstimate) (gas_usage bump_percent : ℕ) (bid : GasBidInfo) {fees : Fees}
    → price_1559 est gas_usage bump_percent (some bid) ≡ priced fees
    → bid.total_profit / gas_usage * bid.bid_percentage ≤ u128_max
    → fees.max_fee_per_gas * gas_usage ≤ bid.total_profit
price_1559-le-profit est g b bid {fees} e h =
    let (cap, pct) = price_bid_parts est g b bid e in
    let share : fees.max_fee_per_gas ≤ bid.total_profit / g =
      rw cap (scale_percent-le (bid.total_profit / g) bid.bid_percentage pct h) in
    grind (arith, mul-le-mul_right g share)

-- Without a bid and at a bump of 100 percent, price_1559 returns the estimate itself, for an
-- estimate whose tip is at most its cap and which does not overflow a u128.
pub price_1559_no_bid :
    (est : FeeEstimate) (gas_usage : ℕ)
    → est.max_priority_fee_per_gas ≤ est.max_fee_per_gas
    → est.max_fee_per_gas ≤ u128_max
    → est.max_priority_fee_per_gas * 100 ≤ u128_max
    → price_1559 est gas_usage 100 none
      ≡ priced (record {
        max_fee_per_gas = est.max_fee_per_gas;
        max_priority_fee_per_gas = est.max_priority_fee_per_gas;
      })
unfolding price_1559 clamped scale_percent
price_1559_no_bid est g h k m = ground arith
