-- ===== src/Query.antt =====
-- The SQL text of src/persistence/query.rs, as functions of the schema and the dialect. A text is the
-- list of its code points.
pub mod Placeholders
pub mod Reading
use artemis_light.Prelude.{
  ℕ, zero, suc, ◌+◌, ◌*◌, Option, none, some, List, [], ◌∷◌, map, ok, err, ◌==◌, if◌then◌else◌,
  length, codes, format, ◌>>=◌, collect, Result,
}
use artemis_light.Schema.{
  Column, TableSchema, SqlType, integer, SqlValue, Row, quote_ident, block_number_column,
  progress_table,
}
use artemis_light.Dialect.{Dialect}

-- `parts.join(separator)`
unfoldable pub join : List ℕ → List (List ℕ) → List ℕ
join separator [] = []
join separator (x ∷ []) = x
join separator (x ∷ y ∷ xs) = format (x ∷ separator ∷ join separator (y ∷ xs) ∷ [])

-- The `count` numbers from `first` on.
unfoldable pub count_from : ℕ → ℕ → List ℕ
count_from first zero = []
count_from first (suc count) = first ∷ count_from (suc first) count

abbrev pub comma : List ℕ
comma = codes ", "

unfoldable pub migration_savepoint_begin : List ℕ
migration_savepoint_begin = codes "SAVEPOINT artemis_position_probe"

unfoldable pub migration_savepoint_release : List ℕ
migration_savepoint_release = codes "RELEASE SAVEPOINT artemis_position_probe"

unfoldable pub migration_savepoint_rollback : List ℕ
migration_savepoint_rollback = codes "ROLLBACK TO SAVEPOINT artemis_position_probe"

unfoldable pub quoted_names : TableSchema → List (List ℕ)
quoted_names s = map (λ c. quote_ident c.name) s.columns

unfoldable pub insert_column_names : TableSchema → List (List ℕ)
unfolding quoted_names
insert_column_names s = block_number_column ∷ quoted_names s

unfoldable pub select_column_list : TableSchema → List ℕ
unfolding quoted_names join
select_column_list s = join comma (quoted_names s)

unfoldable pub add_position_column : List ℕ
add_position_column =
    format (codes "ALTER TABLE " ∷ progress_table ∷ codes " ADD COLUMN position TEXT" ∷ [])

unfoldable pub backfill_position_from_last_block : List ℕ
backfill_position_from_last_block = format (
    codes "UPDATE "
    ∷ progress_table
    ∷ codes " SET position = CAST(last_block AS TEXT) WHERE position IS NULL"
    ∷ [])

unfoldable pub probe_position_column : List ℕ
probe_position_column =
    format (codes "SELECT position FROM " ∷ progress_table ∷ codes " LIMIT 1" ∷ [])

module _ {Failure : Type 0} (d : Dialect Failure) where
  unfoldable pub create_progress_table : List ℕ
  create_progress_table = format (
      codes "CREATE TABLE IF NOT EXISTS "
      ∷ progress_table
      ∷ codes " (table_name TEXT PRIMARY KEY, last_block "
      ∷ d.column_type integer
      ∷ codes " NOT NULL, position TEXT NOT NULL)"
      ∷ [])

  unfoldable pub column_def : Column → List ℕ
  column_def c = format (quote_ident c.name ∷ codes " " ∷ d.column_type c.ty ∷ [])

  unfoldable pub create_event_table : TableSchema → List ℕ
  unfolding join column_def
  create_event_table s =
      let defs =
        format (block_number_column ∷ codes " " ∷ d.column_type integer ∷ codes " NOT NULL" ∷ [])
        ∷ map column_def s.columns in
      format (
        codes "CREATE TABLE IF NOT EXISTS "
        ∷ quote_ident s.table
        ∷ codes " ("
        ∷ join comma defs
        ∷ codes ")"
        ∷ [])

  -- The placeholders of the row numbered `row`, of `width` columns.
  unfoldable pub row_placeholders : ℕ → ℕ → List (List ℕ)
  unfolding count_from
  row_placeholders width row = map (λ i. d.placeholder (row * width + i)) (count_from 1 width)

  unfoldable pub row_group : ℕ → ℕ → List ℕ
  unfolding row_placeholders join
  row_group width row =
      format (codes "(" ∷ join comma (row_placeholders width row) ∷ codes ")" ∷ [])

  unfoldable pub insert_statement : TableSchema → ℕ → List ℕ
  unfolding insert_column_names row_group join count_from
  insert_statement s rows =
      let col_names = insert_column_names s in
      format (
        codes "INSERT INTO "
        ∷ quote_ident s.table
        ∷ codes " ("
        ∷ join comma col_names
        ∷ codes ") VALUES "
        ∷ join comma (map (row_group (length col_names)) (count_from 0 rows))
        ∷ [])

  unfoldable pub watermark_upsert : List ℕ
  watermark_upsert = format (
      codes "INSERT INTO "
      ∷ progress_table
      ∷ codes " (table_name, last_block, position) VALUES ("
      ∷ d.placeholder 1
      ∷ comma
      ∷ d.placeholder 2
      ∷ comma
      ∷ d.placeholder 3
      ∷ codes
          ") ON CONFLICT (table_name) DO UPDATE SET last_block = excluded.last_block, position = excluded.position"
      ∷ [])

  unfoldable pub locked_progress_select : List ℕ
  locked_progress_select = format (
      codes "SELECT position FROM "
      ∷ progress_table
      ∷ codes " WHERE table_name = "
      ∷ d.placeholder 1
      ∷ d.progress_row_lock
      ∷ [])

  unfoldable pub stored_position_query : List ℕ
  stored_position_query = format (
      codes "SELECT position FROM "
      ∷ progress_table
      ∷ codes " WHERE table_name = "
      ∷ d.placeholder 1
      ∷ [])

  unfoldable pub last_block_query : List ℕ
  last_block_query = format (
      codes "SELECT last_block FROM "
      ∷ progress_table
      ∷ codes " WHERE table_name = "
      ∷ d.placeholder 1
      ∷ [])

  unfoldable pub replay_query : TableSchema → List ℕ
  unfolding select_column_list
  replay_query s = format (
      codes "SELECT "
      ∷ select_column_list s
      ∷ codes " FROM "
      ∷ quote_ident s.table
      ∷ codes " WHERE "
      ∷ block_number_column
      ∷ codes " <= "
      ∷ d.placeholder 1
      ∷ codes " ORDER BY "
      ∷ block_number_column
      ∷ codes " ASC, "
      ∷ d.tiebreak
      ∷ codes " ASC"
      ∷ [])

  -- The table that a range query reads, under a schema if one is given.
  abbrev pub table_ref : List ℕ → Option (List ℕ) → List ℕ
  table_ref table none = quote_ident table
  table_ref table (some schema) = format (quote_ident schema ∷ codes "." ∷ quote_ident table ∷ [])

  unfoldable pub range_query : List ℕ → Option (List ℕ) → List ℕ
  range_query table schema =
      let block = quote_ident block_number_column in
      format (
        codes "SELECT * FROM "
        ∷ table_ref table schema
        ∷ codes " WHERE "
        ∷ block
        ∷ codes " BETWEEN "
        ∷ d.placeholder 1
        ∷ codes " AND "
        ∷ d.placeholder 2
        ∷ codes " ORDER BY "
        ∷ block
        ∷ codes " ASC, "
        ∷ d.tiebreak
        ∷ codes " ASC LIMIT "
        ∷ d.placeholder 3
        ∷ codes " OFFSET "
        ∷ d.placeholder 4
        ∷ [])

-- A row that has this many values where its table has that many columns.
pub data ShapeError : Type 0 where
  wrong_shape : ℕ → ℕ → ShapeError

unfoldable pub check_row_shape :
    {Real : Type 0} → TableSchema → Row Real → Result ShapeError (Unit {0})
check_row_shape s row =
    if length row == length s.columns
    then ok tt
    else err (wrong_shape (length row) (length s.columns))

module _ {F Real R : Type 0} (decode : R → ℕ → SqlType → Result F (SqlValue Real)) where
  -- The cells of the columns, which are numbered from `idx` on.
  unfoldable pub decode_cells : R → ℕ → List Column → Result F (Row Real)
  decode_cells r idx [] = ok []
  decode_cells r idx (c ∷ cs) = do
    v ← decode r idx c.ty
    vs ← decode_cells r (suc idx) cs
    ok (v ∷ vs)

  unfoldable pub collect_rows : List R → TableSchema → Result F (List (Row Real))
  unfolding decode_cells
  collect_rows rows s = collect (λ r. decode_cells r 0 s.columns) rows
