-- ===== src/Serving/Catalog.antt =====
-- The two backends of src/serving: SQLite's (catalog.rs, rows.rs, backend.rs) and PostgreSQL's
-- (backend.rs). The read-only pool and its rows are sqlx's, and a parameter.
use artemis_light.Prelude.{
  ℕ, suc, ◌-◌, ◌^◌, Bool, true, false, Option, none, some, List, [], ◌∷◌, map, ok, err, leb,
  if◌then◌else◌, i64_max, codes, format, same_text, collect, Result,
}
use artemis_light.Schema.{progress_table, ℤ, pos, negsuc, quote_ident}
use artemis_light.Dialect.{DatabaseError, Dialect, sqlite_dialect, pg_dialect}
use artemis_light.Query.{range_query}
use artemis_light.Serving.{Bounds, ServingBackend}
use artemis_light.Serving.Cells.{JsonValues, Cell, to_ascii_uppercase, row_to_json}

-- A bound argument of a query.
pub data Arg : Type 0 where
  text_arg : List ℕ → Arg
  integer_arg : ℤ → Arg

-- What the backends call of sqlx. The columns of a catalog's answer have the types that they are read
-- as, so reading one does not fail.
pub record ReadPool (j : JsonValues) : Type 1 where
  pub Db : Type 0
  pub cell : Cell j
  pub as_database : cell.Failure → Option DatabaseError
  pub fetch_all : List ℕ → List Arg → Db → Result cell.Failure (List cell.R) × Db
  pub fetch_optional : List ℕ → List Arg → Db → Result cell.Failure (Option cell.R) × Db
  pub fetch_one : List ℕ → List Arg → Db → Result cell.Failure cell.R × Db
  pub get_text : cell.R → List ℕ → List ℕ
  pub get_integer : cell.R → List ℕ → ℤ

-- `bound as i64`
unfoldable pub as_i64 : ℕ → ℤ
as_i64 n = if leb n i64_max then pos n else negsuc (2 ^ 64 - suc n)

-- `normalize_type` of catalog.rs
unfoldable pub normalize_type : List ℕ → List ℕ
unfolding to_ascii_uppercase
normalize_type declared =
    let upper = to_ascii_uppercase declared in
    if same_text upper (codes "NUMERIC") then codes "TEXT" else upper

-- `normalize_type` of backend.rs
unfoldable pub pg_normalize_type : List ℕ → List ℕ
unfolding to_ascii_uppercase
pg_normalize_type data_type =
    if same_text data_type (codes "bigint")
    then codes "INTEGER"
    else (if same_text data_type (codes "double precision")
        then codes "REAL"
        else (if same_text data_type (codes "bytea")
            then codes "BLOB"
            else (if same_text data_type (codes "text")
                then codes "TEXT"
                else to_ascii_uppercase data_type)))

module _ (j : JsonValues) (q : ReadPool j) where
  abbrev pub Failing : Type 0 → Type 0
  Failing A = Result q.cell.Failure A

  abbrev pub then_map : {A B : Type 0} → (A → B) → Failing A × q.Db → Failing B × q.Db
  then_map f (ok a, db) = (ok (f a), db)
  then_map f (err e, db) = (err e, db)

  abbrev pub is_row : Option q.cell.R → Bool
  is_row none = false
  is_row (some r) = true

  abbrev pub names : List ℕ → List q.cell.R → List (List ℕ)
  names column rows = map (λ r. q.get_text r column) rows

  abbrev pub watermark_of : q.cell.R → List ℕ × ℤ
  watermark_of r = (q.get_text r (codes "table_name"), q.get_integer r (codes "last_block"))

  -- No progress table: nothing has been written.
  abbrev pub of_watermark_rows :
      Dialect q.cell.Failure → Failing (List q.cell.R) × q.Db → Failing (List (List ℕ × ℤ)) × q.Db
  of_watermark_rows d (ok rows, db) = (ok (map watermark_of rows), db)
  of_watermark_rows d (err e, db) = (if d.is_undefined_table e then ok [] else err e, db)

  abbrev pub page_args : Bounds → List Arg
  page_args b =
      integer_arg (as_i64 b.from_block)
      ∷ integer_arg (as_i64 b.to_block)
      ∷ integer_arg (as_i64 b.limit)
      ∷ integer_arg (as_i64 b.offset)
      ∷ []

  abbrev pub Objects : Type 0
  Objects = List (List (List ℕ × j.Value))

  abbrev pub of_row_set :
      List (List ℕ × List ℕ) → Failing (List q.cell.R) × q.Db → Failing Objects × q.Db
  of_row_set columns (ok rows, db) = (collect (λ r. row_to_json j q.cell r columns) rows, db)
  of_row_set columns (err e, db) = (err e, db)

  abbrev pub with_columns :
      (List (List ℕ × List ℕ) → q.Db → Failing Objects × q.Db)
      → Failing (List (List ℕ × List ℕ)) × q.Db
      → Failing Objects × q.Db
  with_columns k (ok columns, db) = k columns db
  with_columns k (err e, db) = (err e, db)

  -- `SELECT 1` over the pool.
  unfoldable pub health : q.Db → Failing (Unit {0}) × q.Db
  health db = then_map (λ _. tt) (q.fetch_one (codes "SELECT 1") [] db)

  -- `catalog::list_tables`
  unfoldable pub list_tables : q.Db → Failing (List (List ℕ)) × q.Db
  list_tables db = then_map (names (codes "name")) (
      q.fetch_all
        (codes
          "SELECT name FROM sqlite_master WHERE type = 'table' AND name <> ? AND name NOT LIKE 'sqlite_%' ORDER BY name")
        (text_arg progress_table ∷ []) db)

  -- `catalog::table_exists`
  unfoldable pub table_exists : List ℕ → q.Db → Failing Bool × q.Db
  table_exists table db = then_map is_row (
      q.fetch_optional
        (codes
          "SELECT 1 FROM sqlite_master WHERE type = 'table' AND name = ? AND name <> ? AND name NOT LIKE 'sqlite_%'")
        (text_arg table ∷ text_arg progress_table ∷ []) db)

  -- `catalog::table_columns`
  unfoldable pub table_columns : List ℕ → q.Db → Failing (List (List ℕ × List ℕ)) × q.Db
  table_columns table db =
      then_map
        (map (λ r. (q.get_text r (codes "name"), normalize_type (q.get_text r (codes "type")))))
        (q.fetch_all (format (codes "PRAGMA table_info(" ∷ quote_ident table ∷ codes ")" ∷ [])) []
          db)

  -- `catalog::table_watermarks`
  unfoldable pub table_watermarks : q.Db → Failing (List (List ℕ × ℤ)) × q.Db
  table_watermarks db = of_watermark_rows (sqlite_dialect q.as_database) (
      q.fetch_all (codes "SELECT table_name, last_block FROM _artemis_progress ORDER BY table_name")
        [] db)

  -- `rows::query_rows`
  unfoldable pub query_rows :
      List ℕ → List (List ℕ × List ℕ) → Bounds → q.Db → Failing Objects × q.Db
  query_rows table columns bounds db =
      of_row_set columns
        (q.fetch_all (range_query (sqlite_dialect q.as_database) table none) (page_args bounds) db)

  -- `SqliteBackend`
  abbrev pub sqlite_backend : ServingBackend
  sqlite_backend = record {
    State = q.Db;
    Failure = q.cell.Failure;
    Object = List (List ℕ × j.Value);
    health = health;
    list_tables = list_tables;
    table_exists = table_exists;
    table_columns = table_columns;
    query_rows = λ table bounds db.
        with_columns (λ columns db. query_rows table columns bounds db) (table_columns table db);
    watermarks = table_watermarks;
  }

  abbrev pub table_exists_sql : List ℕ
  table_exists_sql =
      codes
        "SELECT 1 FROM information_schema.tables WHERE table_schema = 'public' AND table_type = 'BASE TABLE' AND table_name = $1 AND table_name <> $2"

  abbrev pub watermarks_sql : List ℕ
  watermarks_sql = format (
      codes "SELECT table_name, last_block FROM public."
      ∷ progress_table
      ∷ codes " ORDER BY table_name"
      ∷ [])

  unfoldable pub range_query_public : List ℕ → List ℕ
  range_query_public table = range_query (pg_dialect q.as_database) table (some (codes "public"))

  unfoldable pub pg_list_tables : q.Db → Failing (List (List ℕ)) × q.Db
  pg_list_tables db = then_map (names (codes "table_name")) (
      q.fetch_all
        (codes
          "SELECT table_name FROM information_schema.tables WHERE table_schema = 'public' AND table_type = 'BASE TABLE' AND table_name <> $1 ORDER BY table_name")
        (text_arg progress_table ∷ []) db)

  unfoldable pub pg_table_exists : List ℕ → q.Db → Failing Bool × q.Db
  pg_table_exists table db =
      then_map is_row
        (q.fetch_optional table_exists_sql (text_arg table ∷ text_arg progress_table ∷ []) db)

  unfoldable pub pg_table_columns : List ℕ → q.Db → Failing (List (List ℕ × List ℕ)) × q.Db
  pg_table_columns table db =
      then_map
        (map (λ r. (
          q.get_text r (codes "column_name"),
          pg_normalize_type (q.get_text r (codes "data_type")),
        )))
        (q.fetch_all
          (codes
            "SELECT column_name, data_type FROM information_schema.columns WHERE table_schema = 'public' AND table_name = $1 ORDER BY ordinal_position")
          (text_arg table ∷ []) db)

  unfoldable pub pg_query_rows : List ℕ → Bounds → q.Db → Failing Objects × q.Db
  unfolding range_query_public
  pg_query_rows table bounds db =
      with_columns
        (λ columns db.
          of_row_set columns (q.fetch_all (range_query_public table) (page_args bounds) db))
        (pg_table_columns table db)

  unfoldable pub pg_watermarks : q.Db → Failing (List (List ℕ × ℤ)) × q.Db
  pg_watermarks db = of_watermark_rows (pg_dialect q.as_database) (q.fetch_all watermarks_sql [] db)

  -- `PgBackend`
  abbrev pub pg_backend : ServingBackend
  pg_backend = record {
    State = q.Db;
    Failure = q.cell.Failure;
    Object = List (List ℕ × j.Value);
    health = health;
    list_tables = pg_list_tables;
    table_exists = pg_table_exists;
    table_columns = pg_table_columns;
    query_rows = pg_query_rows;
    watermarks = pg_watermarks;
  }
