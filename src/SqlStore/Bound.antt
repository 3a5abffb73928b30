-- ===== src/SqlStore/Bound.antt =====
-- The arguments that the writes of src/persistence/sqlstore.rs bind.
use mathlib.Core.List.{append_assoc, append-nil}
use native.Mathlib.Nat.{le-div_iff_mul-le}
use artemis_light.Prelude.{
  ℕ, suc, ◌*◌, ◌/◌, ◌≤◌, ◌<◌, max, ◌≡◌, refl, ap, ◌∙◌, ◌⊎◌, inl, inr, List, [], ◌∷◌, ◌++◌, map,
  arith, ok, err, leb, ◌==◌, leb→le, Bool-cases, length, length-append, concat, Sized, All, i64_max,
}
use artemis_light.Schema.{TableSchema, pos, SqlValue, integer_value, Row}
use artemis_light.Query.{check_row_shape}
use artemis_light.SqlStore.{Sqlx}
use artemis_light.SqlStore.Session.{
  bound, sort_key_to_i64, bind_param_cap, rows_per_chunk, Fallible, Value, bind_each, bind_value,
  bind_all, of_shape, shaped_args, chunk_args,
}

pub sort_key_to_i64-ok :
    {Failure Real : Type 0} (key : ℕ) (v : SqlValue Real)
    → sort_key_to_i64 {Failure = Failure} key ≡ ok v
    → (key ≤ i64_max) × (v ≡ integer_value (pos key))
unfolding sort_key_to_i64
sort_key_to_i64-ok key v e = ground arith

capped :
    (count columns : ℕ)
    → count ≤ rows_per_chunk (suc columns)
    → (count * suc columns ≤ bind_param_cap) ⊎ (count ≤ 1)
unfolding rows_per_chunk
capped count columns h = elim (Bool-cases (leb count 1)) [
  | inl one ↦ inr (leb→le count 1 one)
  | inr more ↦
      let width : max (suc columns) 1 ≡ suc columns = omega arith in
      let positive : 0 < suc columns = omega arith in
      let many : count ≤ bind_param_cap / suc columns = rw (← width) (ground (arith, h)) in
      inl ((le-div_iff_mul-le positive).0 many)
]

module _ (x : Sqlx) where
  bind_each-ok :
      (r : Fallible x (List (Value x))) (k : List (Value x) → Fallible x (List (Value x)))
      (out : List (Value x))
      → bind_each x r k ≡ ok out
      → (args : List (Value x)) × (r ≡ ok args) × (k args ≡ ok out)
  bind_each-ok (ok args) k out e = (args, refl, e)
  bind_each-ok (err f) k out e = cc

  bind_value-ok :
      (args : List (Value x)) (v : Value x) (out : List (Value x))
      → bind_value x args v ≡ ok out
      → out ≡ args ++ v ∷ []
  unfolding bind_value
  bind_value-ok args v out e = ground arith

  pub bind_all-ok :
      (args values out : List (Value x)) → bind_all x args values ≡ ok out → out ≡ args ++ values
  unfolding bind_all
  bind_all-ok args [] out e = rw append-nil (cc)
  bind_all-ok args (v ∷ values) out e =
      let (more, one, rest) =
        bind_each-ok (bind_value x args v) (λ more. bind_all x more values) out e in
      bind_all-ok more values out rest
      ∙ ap (λ a. a ++ values) (bind_value-ok args v more one)
      ∙ append_assoc args (v ∷ []) values

  -- The arguments of the rows: each row's cells behind the sort key.
  abbrev pub cells_of : Value x → List (Row x.Real) → List (Value x)
  cells_of key rows = concat (map (λ row. key ∷ row) rows)

  abbrev pub Shaped : TableSchema → List (Row x.Real) → Type 0
  Shaped s rows = All (λ row. length row ≡ length s.columns) rows

  shaped_args-ok :
      (s : TableSchema) (row : Row x.Real) (r : Fallible x (List (Value x))) (out : List (Value x))
      → shaped_args x (of_shape x (check_row_shape s row)) r ≡ ok out
      → (length row ≡ length s.columns) × (r ≡ ok out)
  unfolding check_row_shape
  shaped_args-ok s row r out e = elim (Bool-cases (length row == length s.columns)) [
    | inl same ↦ ground arith
    | inr other ↦ absurd (ground arith)
  ]

  pub chunk_args-ok :
      (s : TableSchema) (key : Value x) (args : List (Value x)) (rows : List (Row x.Real))
      (out : List (Value x))
      → chunk_args x s key args rows ≡ ok out
      → (out ≡ args ++ cells_of key rows) × Shaped s rows
  unfolding chunk_args
  chunk_args-ok s key args [] out e = (rw append-nil (cc), tt)
  chunk_args-ok s key args (row ∷ rows) out e =
      let (more, one, rest) =
        bind_each-ok
          (shaped_args x (of_shape x (check_row_shape s row)) (bind_all x args (key ∷ row)))
          (λ more. chunk_args x s key more rows) out e in
      let (shape, bound) = shaped_args-ok s row (bind_all x args (key ∷ row)) more one in
      let (q, shapes) = chunk_args-ok s key more rows out rest in
      (
        q
            ∙ ap (λ a. a ++ cells_of key rows) (bind_all-ok args (key ∷ row) more bound)
            ∙ append_assoc args (key ∷ row) (cells_of key rows),
        (shape, shapes),
      )

  length-cells_of :
      (s : TableSchema) (key : Value x) (rows : List (Row x.Real))
      → Shaped s rows
      → length (cells_of key rows) ≡ length rows * suc (length s.columns)
  length-cells_of s key [] h = omega arith
  length-cells_of s key (row ∷ rows) h =
      let rest = length-cells_of s key rows h.1 in
      let split = length-append (key ∷ row) (cells_of key rows) in
      let row_length : length row ≡ length s.columns = h.0 in grind arith

  cells_of-capped :
      (s : TableSchema) (key : Value x) (rows : List (Row x.Real))
      → Shaped s rows
      → length rows ≤ rows_per_chunk (suc (length s.columns))
      → (length (cells_of key rows) ≡ length rows * suc (length s.columns))
        × ((length (cells_of key rows) ≤ bind_param_cap) ⊎ (length rows ≤ 1))
  cells_of-capped s key rows h k =
      let size = length-cells_of s key rows h in
      (size, rw size (capped (length rows) (length s.columns) k))

  -- The insert of these rows has as many arguments as placeholders, and no more than the cap unless
  -- it is of a single row.
  abbrev pub Capped : TableSchema → Value x → List (Row x.Real) → Type 0
  Capped s key rows =
      (length (cells_of key rows) ≡ length rows * suc (length s.columns))
      × ((length (cells_of key rows) ≤ bind_param_cap) ⊎ (length rows ≤ 1))

  pub Sized-Capped :
      (s : TableSchema) (key : Value x) (cs : List (List (Row x.Real)))
      → All (Shaped s) cs
      → Sized (rows_per_chunk (suc (length s.columns))) cs
      → All (Capped s key) cs
  Sized-Capped s key [] h k = tt
  Sized-Capped s key (c ∷ cs) h k = (cells_of-capped s key c h.0 k.1, Sized-Capped s key cs h.1 k.2)

  pub rows_per_chunk_pos : (n : ℕ) → 1 ≤ rows_per_chunk n
  unfolding rows_per_chunk
  rows_per_chunk_pos n = omega arith
