-- ===== src/Pricing.antt =====
-- The EIP-1559 fee arithmetic of src/executors/pricing.rs. Fees are u128, gas and percentages u64;
-- a checked product past u128::MAX saturates, as in the source.
pub mod Bounds
pub mod Escalation
use artemis_light.Prelude.{
  ℕ, ◌-◌, ◌/◌, min, Option, none, some, ltb, ◌==◌, if◌then◌else◌, u128_max, saturating_add,
  checked_mul,
}

pub record Fees : Type 0 where
  pub max_fee_per_gas : ℕ
  pub max_priority_fee_per_gas : ℕ

-- `Fees::clamped`
unfoldable pub clamped : ℕ → ℕ → Fees
clamped max_fee priority = record {
  max_fee_per_gas = max_fee;
  max_priority_fee_per_gas = min priority max_fee;
}

pub record FeeEstimate : Type 0 where
  pub max_fee_per_gas : ℕ
  pub max_priority_fee_per_gas : ℕ

pub record GasBidInfo : Type 0 where
  pub total_profit : ℕ
  pub bid_percentage : ℕ

-- The two refusals of `price_1559`.
pub data PricingError : Type 0 where
  bid_exceeds_profit : ℕ → PricingError
  zero_gas : PricingError

pub data Priced : Type 0 where
  priced : Fees → Priced
  refused : PricingError → Priced

unfoldable pub scale_percent : ℕ → ℕ → ℕ
scale_percent v percent = elim (checked_mul u128_max v percent) [
  | some product ↦ product / 100
  | none ↦ u128_max
]

-- The two arms of the `match bid`.
price_bid : FeeEstimate → ℕ → ℕ → GasBidInfo → Priced
price_bid est gas_usage bump_percent bid =
    let bumped_priority = scale_percent est.max_priority_fee_per_gas bump_percent in
    if ltb 100 bid.bid_percentage
    then refused (bid_exceeds_profit bid.bid_percentage)
    else if gas_usage == 0
    then refused zero_gas
    else priced
        (clamped (scale_percent (bid.total_profit / gas_usage) bid.bid_percentage) bumped_priority)

price_no_bid : FeeEstimate → ℕ → Priced
price_no_bid est bump_percent =
    let base_headroom = est.max_fee_per_gas - est.max_priority_fee_per_gas in
    let bumped_priority = scale_percent est.max_priority_fee_per_gas bump_percent in
    priced (clamped (saturating_add u128_max base_headroom bumped_priority) bumped_priority)

unfoldable pub price_1559 : FeeEstimate → ℕ → ℕ → Option GasBidInfo → Priced
unfolding price_bid price_no_bid
price_1559 est gas_usage bump_percent none = price_no_bid est bump_percent
price_1559 est gas_usage bump_percent (some bid) = price_bid est gas_usage bump_percent bid

unfoldable pub escalate : Fees → ℕ → Fees
escalate fees escalation_percent =
    clamped (scale_percent fees.max_fee_per_gas escalation_percent)
      (scale_percent fees.max_priority_fee_per_gas escalation_percent)
