-- ===== src/Serving/Rows.antt =====
-- The query parameters of src/serving/rows.rs: parsing, defaults and clamping.
use mathlib.Core.List.{reverse}
use artemis_light.Prelude.{
  ℕ, ◌≤◌, min, max, ◌≡◌, refl, subst, Bool, ◌&&◌, ◌||◌, Option, none, some, List, [], ◌∷◌, arith,
  ok, err, leb, ◌==◌, if◌then◌else◌, i64_max, codes, ◌>>=◌, Result,
}
use artemis_light.Position.Decimal.{parse_u64}
use artemis_light.Serving.{Bounds, ServingError, invalid_query}

pub record RowsQueryParams : Type 0 where
  pub from_block : Option (List ℕ)
  pub to_block : Option (List ℕ)
  pub limit : Option (List ℕ)
  pub offset : Option (List ℕ)

-- `char::is_whitespace`
is_whitespace : ℕ → Bool
is_whitespace c =
    (leb 0x9 c && leb c 0xd)
    || (c == 0x20)
    || (c == 0x85)
    || (c == 0xa0)
    || (c == 0x1680)
    || (leb 0x2000 c && leb c 0x200a)
    || (c == 0x2028)
    || (c == 0x2029)
    || (c == 0x202f)
    || (c == 0x205f)
    || (c == 0x3000)

trim_start : List ℕ → List ℕ
unfolding is_whitespace
trim_start [] = []
trim_start (c ∷ s) = let rest = trim_start s in if is_whitespace c then rest else c ∷ s

-- `str::trim`
unfoldable pub trim : List ℕ → List ℕ
unfolding trim_start
trim s = reverse (trim_start (reverse (trim_start s)))

-- `v.clamp(low, high)`
abbrev pub clamp : ℕ → ℕ → ℕ → ℕ
clamp low high v = min (max v low) high

-- The bounds of a page are within an i64, and its limit is at least one row and at most the larger
-- of one and the maximum.
pub record InRange (max_limit : ℕ) (b : Bounds) : Type 0 where
  pub from_fits : b.from_block ≤ i64_max
  pub to_fits : b.to_block ≤ i64_max
  pub offset_fits : b.offset ≤ i64_max
  pub some_row : 1 ≤ b.limit
  pub limited : b.limit ≤ max 1 max_limit
  pub limit_fits : b.limit ≤ i64_max

resolved_fits :
    (max_limit from to limit offset : ℕ)
    → InRange max_limit (record {
      from_block = min from i64_max;
      to_block = min to i64_max;
      limit = clamp 1 (clamp 1 i64_max max_limit) limit;
      offset = min offset i64_max;
    })
resolved_fits max_limit from to limit offset = record {
  from_fits = omega arith;
  to_fits = omega arith;
  offset_fits = omega arith;
  some_row = omega arith;
  limited = omega arith;
  limit_fits = omega arith;
}

module _ {Failure : Type 0} where
  abbrev pub parsed : List ℕ → Option ℕ → Result (ServingError Failure) ℕ
  parsed name none = err (invalid_query name)
  parsed name (some v) = ok v

  -- `parse_u64` of rows.rs
  unfoldable pub parse_param : List ℕ → Option (List ℕ) → ℕ → Result (ServingError Failure) ℕ
  unfolding trim
  parse_param name none default = ok default
  parse_param name (some s) default = parsed name (parse_u64 (trim s))

  -- `RowsQueryParams::resolve`
  unfoldable pub resolve_bounds : ℕ → ℕ → RowsQueryParams → Result (ServingError Failure) Bounds
  unfolding parse_param
  resolve_bounds default_limit max_limit params = do
    from ← parse_param (codes "from_block") params.from_block 0
    to ← parse_param (codes "to_block") params.to_block i64_max
    limit ← parse_param (codes "limit") params.limit default_limit
    offset ← parse_param (codes "offset") params.offset 0
    ok (record {
      from_block = min from i64_max;
      to_block = min to i64_max;
      limit = clamp 1 (clamp 1 i64_max max_limit) limit;
      offset = min offset i64_max;
    })

  of_ok : {A : Type 0} (a b : A) → ◌≡◌ {A = Result (ServingError Failure) A} (ok a) (ok b) → a ≡ b
  of_ok a b e = cc

  then_ok :
      {A B : Type 0} (m : Result (ServingError Failure) A) (k : A → Result (ServingError Failure) B)
      (b : B)
      → (m >>= k) ≡ ok b
      → (a : A) × (m ≡ ok a) × (k a ≡ ok b)
  then_ok (ok a) k b e = (a, refl, e)
  then_ok (err f) k b e = cc

  pub resolve_bounds-InRange :
      (default_limit max_limit : ℕ) (params : RowsQueryParams) (b : Bounds)
      → resolve_bounds default_limit max_limit params ≡ ok b
      → InRange max_limit b
  unfolding resolve_bounds
  resolve_bounds-InRange default_limit max_limit params b e =
      let (from, e1, f1) = then_ok (parse_param (codes "from_block") params.from_block 0) _ b e in
      let (to, e2, f2) = then_ok (parse_param (codes "to_block") params.to_block i64_max) _ b f1 in
      let (limit, e3, f3) =
        then_ok (parse_param (codes "limit") params.limit default_limit) _ b f2 in
      let (offset, e4, f4) = then_ok (parse_param (codes "offset") params.offset 0) _ b f3 in
      subst (InRange max_limit) (of_ok _ b f4) (resolved_fits max_limit from to limit offset)
