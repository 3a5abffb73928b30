-- ===== src/Tests/Arithmetic.antt =====
-- Concrete runs of the backoff, the reconnect policy, the pricing and the positions.
use artemis_light.Prelude.{ℕ, ◌*◌, ◌≤◌, ◌≡◌, refl, Option, none, some, List, [], ◌∷◌, arith}
use artemis_light.Reconnect.{default, ReconnectPolicy}
use artemis_light.Reconnect.Signals.{Signal, delivered, creation_failed, stream_ended}
use artemis_light.Pricing.{
  Fees, clamped, FeeEstimate, GasBidInfo, priced, scale_percent, price_1559, escalate,
}
use artemis_light.Pricing.Bounds.{IsValid, price_1559-IsValid, price_1559-le-profit}
use artemis_light.Pricing.Escalation.{escalate_stalls}
use artemis_light.Position.Decimal.{parse_u64}
use artemis_light.Position.Frontier.{TimeFrontier}

-- Two failed creations, a delivery and three short streams.
abbrev history : List Signal
history =
    creation_failed
    ∷ creation_failed
    ∷ delivered
    ∷ stream_ended 5
    ∷ stream_ended 0
    ∷ creation_failed
    ∷ []

-- One failure counted, of the three that the default allows.
abbrev once : ReconnectPolicy
once = record { config = default; failures = 1 }

abbrev estimate : FeeEstimate
estimate = record { max_fee_per_gas = 100; max_priority_fee_per_gas = 20 }

abbrev bid : GasBidInfo
bid = record { total_profit = 10000; bid_percentage = 50 }

abbrev pair : Fees
pair = record { max_fee_per_gas = 50; max_priority_fee_per_gas = 20 }

pair-IsValid : IsValid pair
pair-IsValid = record { tip_below_cap = omega arith; in_range = omega arith }

priced_pair : price_1559 estimate 100 100 (some bid) ≡ priced pair
unfolding price_1559 clamped scale_percent
priced_pair = refl

price_1559-IsValid_example : IsValid pair
price_1559-IsValid_example = price_1559-IsValid estimate 100 100 (some bid) priced_pair

abbrev no_gas : ℕ
no_gas = 0

price_1559-le-profit_example : 50 * 100 ≤ 10000
price_1559-le-profit_example = price_1559-le-profit estimate 100 100 bid priced_pair (omega arith)

abbrev tiny : Fees
tiny = record { max_fee_per_gas = 9; max_priority_fee_per_gas = 1 }

escalate_stalls_example : escalate tiny 110 ≡ tiny
escalate_stalls_example =
    escalate_stalls tiny (record { tip_below_cap = omega arith; in_range = omega arith })
      (omega arith)

signed : parse_u64 (43 ∷ 52 ∷ 50 ∷ []) ≡ some 42
unfolding parse_u64
signed = refl

abbrev frontier : TimeFrontier
frontier = record { time_ms = 10; seen = "a" ∷ [] }

abbrev event : TimeFrontier
event = record { time_ms = 10; seen = "b" ∷ [] }

abbrev no_text : TimeFrontier → List ℕ
no_text f = []

abbrev no_frontier : List ℕ → Option TimeFrontier
no_frontier s = none
