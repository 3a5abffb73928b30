-- ===== src/SqlStore/Read.antt =====
-- The reads of src/persistence/sqlstore.rs: where to resume, and the rows to replay.
use artemis_light.Prelude.{
  ℕ, suc, Option, none, some, List, [], ◌++◌, ok, err, if◌then◌else◌, codes, Result,
}
use artemis_light.Position.{Position}
use artemis_light.Position.Decimal.{to_decimal}
use artemis_light.Schema.{
  SqlType, integer, real, text, blob, numeric, TableSchema, ℤ, pos, negsuc, integer_value,
  real_value, text_value, blob_value, Row,
}
use artemis_light.Dialect.{Dialect}
use artemis_light.Query.{stored_position_query, last_block_query, replay_query, collect_rows}
use artemis_light.SqlStore.{Sqlx, sqlx_failed, null_last_block}
use artemis_light.SqlStore.Session.{sort_key_to_i64, Fallible, Value, bind_value}
use artemis_light.SqlStore.Write.{decoded}

-- `i64::to_string`
unfoldable pub integer_text : ℤ → List ℕ
integer_text (pos n) = to_decimal n
integer_text (negsuc n) = codes "-" ++ to_decimal (suc n)

module _ (x : Sqlx) (d : Dialect x.Failure) where
  abbrev pub of_cell_as : {A : Type 0} → (A → Value x) → Result x.Failure A → Fallible x (Value x)
  of_cell_as make (ok a) = ok (make a)
  of_cell_as make (err e) = err (sqlx_failed e)

  -- A cell of the declared type.
  unfoldable pub decode_value : x.Cells → ℕ → SqlType → Fallible x (Value x)
  decode_value r idx integer = of_cell_as integer_value (x.try_get_integer r idx)
  decode_value r idx real = of_cell_as real_value (x.try_get_real r idx)
  decode_value r idx text = of_cell_as text_value (x.try_get_text r idx)
  decode_value r idx numeric = of_cell_as text_value (x.try_get_text r idx)
  decode_value r idx blob = of_cell_as blob_value (x.try_get_blob r idx)

  abbrev pub of_rows :
      TableSchema → Result x.Failure (List x.Cells) × x.Db → Fallible x (List (Row x.Real)) × x.Db
  of_rows s (ok rows, db) = (collect_rows decode_value rows s, db)
  of_rows s (err e, db) = (if d.is_undefined_table e then ok [] else err (sqlx_failed e), db)

  -- A query over the pool with these arguments, unless one of them cannot be bound.
  abbrev pub query_with :
      {A : Type 0}
      → Fallible x (List (Value x))
      → (List (Value x) → Fallible x A × x.Db)
      → x.Db
      → Fallible x A × x.Db
  query_with (ok args) ask db = ask args
  query_with (err e) ask db = (err e, db)

  module _ {P : Type 0} (p : Position P) where
    abbrev pub replay_args : Fallible x (Value x) → Fallible x (List (Value x))
    replay_args (ok up_to) = bind_value x [] up_to
    replay_args (err e) = err e

    -- `Store::replay`
    unfoldable pub replay : TableSchema → P → x.Db → Fallible x (List (Row x.Real)) × x.Db
    unfolding decode_value
    replay s up_to db =
        query_with (replay_args (sort_key_to_i64 (p.sort_key up_to)))
          (λ args. of_rows s (x.pool_fetch_all (replay_query d s) args db)) db

    abbrev pub of_last_block : Result x.Failure (Option ℤ) → Fallible x (Option P)
    of_last_block (err e) = err (sqlx_failed e)
    of_last_block (ok none) = err null_last_block
    of_last_block (ok (some last_block)) =
        decoded x d p (integer_text last_block) (p.decode (integer_text last_block))

    abbrev pub of_last_row : Result x.Failure (Option x.Cells) × x.Db → Fallible x (Option P) × x.Db
    of_last_row (ok none, db) = (ok none, db)
    of_last_row (ok (some r), db) = (of_last_block (x.try_get_nullable_integer r 0), db)
    of_last_row (err e, db) = (if d.is_undefined_table e then ok none else err (sqlx_failed e), db)

    unfoldable pub resume_from_last_block : List ℕ → x.Db → Fallible x (Option P) × x.Db
    unfolding integer_text
    resume_from_last_block table db =
        query_with (bind_value x [] (text_value table))
          (λ args. of_last_row (x.pool_fetch_optional (last_block_query d) args db)) db

    abbrev pub of_encoded :
        List ℕ → Result x.Failure (Option (List ℕ)) → x.Db → Fallible x (Option P) × x.Db
    of_encoded table (err e) db = (err (sqlx_failed e), db)
    of_encoded table (ok none) db = resume_from_last_block table db
    of_encoded table (ok (some t)) db = (decoded x d p t (p.decode t), db)

    abbrev pub of_position_row :
        List ℕ → Result x.Failure (Option x.Cells) × x.Db → Fallible x (Option P) × x.Db
    of_position_row table (ok none, db) = (ok none, db)
    of_position_row table (ok (some r), db) = of_encoded table (x.try_get_nullable_text r 0) db
    of_position_row table (err e, db) =
        if d.is_undefined_table e
        then (ok none, db)
        else (if d.is_undefined_column e
            then resume_from_last_block table db
            else (err (sqlx_failed e), db))

    -- `Store::stored_position`
    unfoldable pub stored_position : List ℕ → x.Db → Fallible x (Option P) × x.Db
    unfolding resume_from_last_block
    stored_position table db =
        query_with (bind_value x [] (text_value table))
          (λ args. of_position_row table (x.pool_fetch_optional (stored_position_query d) args db))
          db
