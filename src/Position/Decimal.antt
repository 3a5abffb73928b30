-- ===== src/Position/Decimal.antt =====
-- Decimal texts of unsigned integers, as Rust's `to_string` writes and `parse::<u64>` reads them.
use artemis_light.Prelude.{
  ℕ, zero, suc, ◌+◌, ◌-◌, ◌*◌, ◌/◌, ◌%◌, ◌≤◌, ◌<◌, ◌≡◌, refl, ◌∙◌, inl, inr, Bool, ◌&&◌, Option,
  none, some, List, [], ◌∷◌, ◌++◌, arith, ltb, leb, ◌==◌, if◌then◌else◌, Bool-cases, u64_max,
}

-- `n.to_string()`: the fuel counts the digits, and `n + 1` is more than enough.
decimal_from : ℕ → ℕ → List ℕ
decimal_from zero n = []
decimal_from (suc fuel) n =
    let higher = decimal_from fuel (n / 10) in
    if ltb n 10 then (b'0' + n) ∷ [] else higher ++ (b'0' + n % 10) ∷ []

unfoldable pub to_decimal : ℕ → List ℕ
unfolding decimal_from
to_decimal n = decimal_from (n + 1) n

is_digit : ℕ → Bool
is_digit c = leb b'0' c && leb c b'9'

-- One digit onto the value read so far; `none` on another character or past u64::MAX.
next_digit : Option ℕ → ℕ → Option ℕ
next_digit none c = none
next_digit (some acc) c =
    if is_digit c && leb (acc * 10 + (c - b'0')) u64_max then some (acc * 10 + (c - b'0')) else none

digits_from : Option ℕ → List ℕ → Option ℕ
digits_from acc [] = acc
digits_from acc (c ∷ cs) = digits_from (next_digit acc c) cs

-- `s.parse::<u64>()`: one sign `+` is accepted, and at least one digit is wanted.
after_sign : List ℕ → Option ℕ
after_sign [] = none
after_sign (c ∷ cs) = digits_from (some 0) (c ∷ cs)

unfoldable pub parse_u64 : List ℕ → Option ℕ
unfolding after_sign digits_from next_digit is_digit
parse_u64 [] = none
parse_u64 (c ∷ cs) = if c == b'+' then after_sign cs else digits_from (some 0) (c ∷ cs)

digits_from-append :
    (acc : Option ℕ) (xs ys : List ℕ)
    → digits_from acc (xs ++ ys) ≡ digits_from (digits_from acc xs) ys
unfolding digits_from
digits_from-append acc [] ys = refl
digits_from-append acc (x ∷ xs) ys = digits_from-append (next_digit acc x) xs ys

next_digit_lem :
    (q d : ℕ) → d < 10 → q * 10 + d ≤ u64_max → next_digit (some q) (b'0' + d) ≡ some (q * 10 + d)
unfolding next_digit is_digit
next_digit_lem q d h k = ground arith

digits_from-decimal :
    (fuel n : ℕ) → n < fuel → n ≤ u64_max → digits_from (some 0) (decimal_from fuel n) ≡ some n
unfolding decimal_from digits_from
digits_from-decimal zero n h k = absurd (omega arith)
digits_from-decimal (suc fuel) n h k = elim (Bool-cases (ltb n 10)) [
  | inl e ↦ rw e (ground (arith, next_digit_lem 0 n))
  | inr e ↦
      rw
        (
          e,
          digits_from-append (some 0) (decimal_from fuel (n / 10)),
          digits_from-decimal fuel (n / 10) (ground arith) (omega arith),
        )
        (ground (arith, next_digit_lem (n / 10) (n % 10)))
]

-- The text begins with a digit, so no sign is taken off it.
Starts : List ℕ → Type 0
Starts [] = ⊥
Starts (c ∷ cs) = b'0' ≤ c

Starts-append : (xs ys : List ℕ) → Starts xs → Starts (xs ++ ys)
unfolding Starts
Starts-append [] ys h = absurd h
Starts-append (x ∷ xs) ys h = h

Starts-decimal : (fuel n : ℕ) → n < fuel → Starts (decimal_from fuel n)
unfolding decimal_from Starts
Starts-decimal zero n h = absurd (omega arith)
Starts-decimal (suc fuel) n h = elim (Bool-cases (ltb n 10)) [
  | inl e ↦ rw e (omega arith)
  | inr e ↦
      rw e
        (Starts-append (decimal_from fuel (n / 10)) _ (Starts-decimal fuel (n / 10) (ground arith)))
]

unsigned : (s : List ℕ) → Starts s → parse_u64 s ≡ digits_from (some 0) s
unfolding parse_u64 Starts
unsigned [] h = absurd h
unsigned (c ∷ cs) h = ground arith

-- Reading back the decimal text of a u64 gives it.
pub parse_u64-to_decimal : (n : ℕ) → n ≤ u64_max → parse_u64 (to_decimal n) ≡ some n
unfolding to_decimal
parse_u64-to_decimal n h =
    unsigned (decimal_from (n + 1) n) (Starts-decimal (n + 1) n (omega arith))
    ∙ digits_from-decimal (n + 1) n (omega arith) h

digits_from-bound :
    (acc : Option ℕ) (s : List ℕ) {n : ℕ}
    → ((m : ℕ) → acc ≡ some m → m ≤ u64_max)
    → digits_from acc s ≡ some n
    → n ≤ u64_max
unfolding digits_from next_digit
digits_from-bound acc [] {n} h e = h n e
digits_from-bound none (c ∷ cs) h e = digits_from-bound none cs (λ m k. cc) e
digits_from-bound (some a) (c ∷ cs) h e =
    digits_from-bound (next_digit (some a) c) cs (λ m k. ground arith) e

after_sign-le : (s : List ℕ) {n : ℕ} → after_sign s ≡ some n → n ≤ u64_max
unfolding after_sign
after_sign-le [] e = cc
after_sign-le (c ∷ cs) e = digits_from-bound (some 0) (c ∷ cs) (λ m k. ground arith) e

-- Every number that is read from a text fits a u64.
pub parse_u64-le : (s : List ℕ) {n : ℕ} → parse_u64 s ≡ some n → n ≤ u64_max
unfolding parse_u64
parse_u64-le [] e = cc
parse_u64-le (c ∷ cs) e = elim (Bool-cases (c == b'+')) [
  | inl h ↦ after_sign-le cs (ground arith)
  | inr h ↦ digits_from-bound (some 0) (c ∷ cs) (λ m k. ground arith) (ground arith)
]
