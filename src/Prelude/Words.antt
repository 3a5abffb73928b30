-- ===== src/Prelude/Words.antt =====
-- The unsigned machine words of the program as native numbers: each type's largest value, and
-- the saturating and checked operations of Rust's integers over it.
use Prim.Native.Nat.{ℕ, ◌+◌, ◌-◌, ◌*◌, ◌^◌, min}
use mathlib.Core.Option.{Option, none, some}
use artemis_light.Prelude.Tests.{leb, if◌then◌else◌}

abbrev pub u32_max : ℕ
u32_max = 4294967295

abbrev pub u64_max : ℕ
u64_max = 18446744073709551615

abbrev pub i64_max : ℕ
i64_max = 9223372036854775807

abbrev pub u128_max : ℕ
u128_max = 340282366920938463463374607431768211455

-- `a.saturating_add(b)` in the type whose largest value is `top`; `saturating_sub` is `◌-◌`.
abbrev pub saturating_add : ℕ → ℕ → ℕ → ℕ
saturating_add top a b = min (a + b) top

-- `a.checked_mul(b)`
abbrev pub checked_mul : ℕ → ℕ → ℕ → Option ℕ
checked_mul top a b = if leb (a * b) top then some (a * b) else none

-- `b.checked_pow(e)`
abbrev pub checked_pow : ℕ → ℕ → ℕ → Option ℕ
checked_pow top b e = if leb (b ^ e) top then some (b ^ e) else none

-- `a.checked_sub(b)`
abbrev pub checked_sub : ℕ → ℕ → Option ℕ
checked_sub a b = if leb b a then some (a - b) else none

abbrev pub unwrap_or {ℓ} : {A : Type ℓ} → Option A → A → A
unwrap_or none d = d
unwrap_or (some a) d = a
