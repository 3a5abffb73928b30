-- ===== src/SqlStore/Session.antt =====
-- The steps of a write in src/persistence/sqlstore.rs, each on an open transaction: they stop at the
-- first error.
use artemis_light.Prelude.{
  ℕ, ◌/◌, max, Option, List, [], ◌∷◌, ◌++◌, ok, err, leb, if◌then◌else◌, i64_max, Result,
}
use artemis_light.Schema.{pos, SqlValue, integer_value, TableSchema, Row}
use artemis_light.Query.{ShapeError, wrong_shape, check_row_shape}
use artemis_light.SqlStore.{
  Sqlx, StoreError, sort_key_too_large, cannot_bind, row_shape, sqlx_failed,
}

abbrev pub Session : Type 0 → Type 0 → Type 0 → Type 0
Session F Tx A = Tx → Result F A × Tx

abbrev pub bound : {F Tx A B : Type 0} → Result F A × Tx → (A → Session F Tx B) → Result F B × Tx
bound (ok a, tx) k = k a tx
bound (err e, tx) k = (err e, tx)

infixl 5 ◌>>=◌
abbrev pub ◌>>=◌ : {F Tx A B : Type 0} → Session F Tx A → (A → Session F Tx B) → Session F Tx B
◌>>=◌ m k tx = bound (m tx) k

-- A result that does not touch the transaction.
abbrev pub lift : {F Tx A : Type 0} → Result F A → Session F Tx A
lift r tx = (r, tx)

-- `sort_key_to_i64`
unfoldable pub sort_key_to_i64 :
    {Failure Real : Type 0} → ℕ → Result (StoreError Failure) (SqlValue Real)
sort_key_to_i64 key =
    if leb key i64_max then ok (integer_value (pos key)) else err (sort_key_too_large key)

abbrev pub bind_param_cap : ℕ
bind_param_cap = 999

unfoldable pub rows_per_chunk : ℕ → ℕ
rows_per_chunk params_per_row = max (bind_param_cap / max params_per_row 1) 1

module _ (x : Sqlx) where
  abbrev pub Fallible : Type 0 → Type 0
  Fallible A = Result (StoreError x.Failure) A

  abbrev pub Value : Type 0
  Value = SqlValue x.Real

  abbrev pub bind_each :
      Fallible (List Value) → (List Value → Fallible (List Value)) → Fallible (List Value)
  bind_each (err e) k = err e
  bind_each (ok args) k = k args

  unfoldable pub bind_value : List Value → Value → Fallible (List Value)
  bind_value args value = if x.accepts value then ok (args ++ value ∷ []) else err cannot_bind

  -- These values bound after `args`, one at a time.
  unfoldable pub bind_all : List Value → List Value → Fallible (List Value)
  unfolding bind_value
  bind_all args [] = ok args
  bind_all args (v ∷ values) = bind_each (bind_value args v) (λ more. bind_all more values)

  abbrev pub of_shape : Result ShapeError (Unit {0}) → Fallible (Unit {0})
  of_shape (ok _) = ok tt
  of_shape (err (wrong_shape values columns)) = err (row_shape values columns)

  abbrev pub shaped_args : Fallible (Unit {0}) → Fallible (List Value) → Fallible (List Value)
  shaped_args (err e) args = err e
  shaped_args (ok _) args = args

  -- The arguments of the rows of one insert: for each row the sort key and then its cells.
  unfoldable pub chunk_args :
      TableSchema → Value → List Value → List (Row x.Real) → Fallible (List Value)
  unfolding bind_all
  chunk_args s key args [] = ok args
  chunk_args s key args (row ∷ rows) =
      bind_each (shaped_args (of_shape (check_row_shape s row)) (bind_all args (key ∷ row)))
        (λ more. chunk_args s key more rows)

  abbrev pub of_execute : Result x.Failure (Unit {0}) × x.Tx → Fallible (Unit {0}) × x.Tx
  of_execute (ok _, tx) = (ok tt, tx)
  of_execute (err e, tx) = (err (sqlx_failed e), tx)

  -- `sqlx::query_with(sql, args).execute(conn).await?`
  unfoldable pub run : List ℕ → List Value → Session (StoreError x.Failure) x.Tx (Unit {0})
  run sql args tx = of_execute (x.execute sql args tx)

  abbrev pub of_fetch : Result x.Failure (Option x.Cells) × x.Tx → Fallible (Option x.Cells) × x.Tx
  of_fetch (ok r, tx) = (ok r, tx)
  of_fetch (err e, tx) = (err (sqlx_failed e), tx)

  unfoldable pub fetch : List ℕ → List Value → Session (StoreError x.Failure) x.Tx (Option x.Cells)
  fetch sql args tx = of_fetch (x.fetch_optional sql args tx)
