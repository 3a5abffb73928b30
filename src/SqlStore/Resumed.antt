-- ===== src/SqlStore/Resumed.antt =====
-- Where a stream resumes by src/persistence/sqlstore.rs, for each shape of an archive.
use artemis_light.Prelude.{
  ℕ, ◌≤◌, ◌≡◌, refl, ◌⊎◌, inl, inr, true, false, Option, none, some, List, [], ◌∷◌, ok, err,
  u64_max, Result,
}
use artemis_light.Position.Block.{block_position}
use artemis_light.Position.Decimal.{to_decimal, parse_u64-to_decimal}
use artemis_light.Position.{Position}
use artemis_light.Schema.{pos, text_value}
use artemis_light.Dialect.{Dialect}
use artemis_light.Query.{stored_position_query, last_block_query}
use artemis_light.SqlStore.{Sqlx}
use artemis_light.SqlStore.Session.{bind_value}
use artemis_light.SqlStore.Write.{decoded}
use artemis_light.SqlStore.Read.{
  integer_text, of_last_row, resume_from_last_block, of_position_row, stored_position,
}

module _ (x : Sqlx) (d : Dialect x.Failure) where
  -- An answer that says that nothing has been stored.
  abbrev pub SaysNothing : Result x.Failure (Option x.Cells) → Type 0
  SaysNothing (ok none) = Unit
  SaysNothing (ok (some r)) = ⊥
  SaysNothing (err e) = d.is_undefined_table e ≡ true

  abbrev pub position_answer : List ℕ → x.Db → Result x.Failure (Option x.Cells) × x.Db
  position_answer table db =
      x.pool_fetch_optional (stored_position_query d) (text_value table ∷ []) db

  abbrev pub last_answer : List ℕ → x.Db → Result x.Failure (Option x.Cells) × x.Db
  last_answer table db = x.pool_fetch_optional (last_block_query d) (text_value table ∷ []) db

  -- An answer with the row of a block archive whose last block is `k`: its encoded position, NULL in
  -- its place, or the error of an archive that has no such column.
  abbrev pub HoldsPosition : ℕ → Result x.Failure (Option x.Cells) → Type 0
  HoldsPosition k (ok none) = ⊥
  HoldsPosition k (ok (some r)) =
      (x.try_get_nullable_text r 0 ≡ ok (some (to_decimal k)))
      ⊎ (x.try_get_nullable_text r 0 ≡ ok none)
  HoldsPosition k (err e) = (d.is_undefined_table e ≡ false) × (d.is_undefined_column e ≡ true)

  -- An answer with the last block `k`.
  abbrev pub HoldsBlock : ℕ → Result x.Failure (Option x.Cells) → Type 0
  HoldsBlock k (ok (some r)) = x.try_get_nullable_integer r 0 ≡ ok (some (pos k))
  HoldsBlock k (ok none) = ⊥
  HoldsBlock k (err e) = ⊥

  decoded_block :
      (k : ℕ)
      → k ≤ u64_max
      → decoded x d block_position (to_decimal k) (block_position.decode (to_decimal k))
        ≡ ok (some k)
  unfolding block_position
  decoded_block k h = rw (parse_u64-to_decimal k h) refl

  of_last_row-block :
      (k : ℕ) (r : Result x.Failure (Option x.Cells)) (db : x.Db)
      → k ≤ u64_max
      → HoldsBlock k r
      → (of_last_row x d block_position (r, db)).0 ≡ ok (some k)
  unfolding integer_text
  of_last_row-block k (ok none) db h b = absurd b
  of_last_row-block k (err e) db h b = absurd b
  of_last_row-block k (ok (some r)) db h b = rw b (decoded_block k h)

  module _ (table : List ℕ) (k : ℕ) (h : k ≤ u64_max)
      (a : x.accepts (text_value table) ≡ true) where
    resume_block :
        (db : x.Db)
        → HoldsBlock k (last_answer table db).0
        → (resume_from_last_block x d block_position table db).0 ≡ ok (some k)
    unfolding resume_from_last_block bind_value
    resume_block db b =
        rw a (of_last_row-block k (last_answer table db).0 (last_answer table db).1 h b)

    of_position_row-block :
        (r : Result x.Failure (Option x.Cells)) (db : x.Db)
        → HoldsPosition k r
        → HoldsBlock k (last_answer table db).0
        → (of_position_row x d block_position table (r, db)).0 ≡ ok (some k)
    of_position_row-block (ok none) db q b = absurd q
    of_position_row-block (ok (some r)) db (inl cell) b = rw cell (decoded_block k h)
    of_position_row-block (ok (some r)) db (inr cell) b = rw cell (resume_block db b)
    of_position_row-block (err e) db (table_there, no_column) b =
        rw (table_there, no_column) (resume_block db b)

    -- A block archive resumes at its last block whatever its age: with an encoded position, with NULL
    -- in its place, and without the column.
    pub stored_position-block :
        (db : x.Db)
        → HoldsPosition k (position_answer table db).0
        → HoldsBlock k (last_answer table (position_answer table db).1).0
        → (stored_position x d block_position table db).0 ≡ ok (some k)
    unfolding stored_position bind_value
    stored_position-block db q b =
        rw a (of_position_row-block (position_answer table db).0 (position_answer table db).1 q b)
