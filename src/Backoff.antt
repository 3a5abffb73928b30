-- ===== src/Backoff.antt =====
-- The exponential backoff curve of src/backoff.rs. A duration is its number of nanoseconds.
pub mod Curve
use artemis_light.Prelude.{ℕ, ◌*◌, min, u32_max, checked_pow, unwrap_or}

-- `Duration::MAX`: u64::MAX seconds and 999,999,999 nanoseconds.
abbrev pub duration_max : ℕ
duration_max = 18446744073709551615999999999

-- `Duration::saturating_mul`
abbrev pub saturating_mul : ℕ → ℕ → ℕ
saturating_mul d k = min (d * k) duration_max

-- `Backoff::delay`: the exponent saturates at u32::MAX, the product at the longest duration.
unfoldable pub delay : ℕ → ℕ → ℕ
delay base attempt = saturating_mul base (unwrap_or (checked_pow u32_max 2 attempt) u32_max)
