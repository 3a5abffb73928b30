-- ===== src/Tests/Served.antt =====
-- Concrete runs of the serving layer.
use artemis_light.Prelude.{
  ℕ, ◌+◌, ◌≡◌, refl, Bool, ◌||◌, Option, none, some, List, [], ◌∷◌, map, ok, if◌then◌else◌, codes,
  same_text,
}
use artemis_light.Schema.{
  sql, TableSchema, schema_new, block_number_column, ℤ, pos, SqlValue, integer_value, real_value,
  text_value, null, Row,
}
use artemis_light.Dialect.{DatabaseError, pg_column_type}
use artemis_light.Serving.{Bounds}
use artemis_light.Serving.Rows.{RowsQueryParams}
use artemis_light.Serving.Routes.{AppState, query_rows_handler}
use artemis_light.Serving.Guarded.{PageEnd, query_rows_handler-Guarded}
use artemis_light.Serving.Cells.{JsonValues, Cell, to_hex}
use artemis_light.Serving.Catalog.{
  ReadPool, table_columns, sqlite_backend, pg_table_columns, pg_backend,
}
use artemis_light.Serving.Agreeing.{table_of, served_columns, integer_cell, object_onto}
use artemis_light.Serving.Served.{SqliteAnswers, PgAnswers, backends-agree}

zero_padded : to_hex (0 ∷ 255 ∷ []) ≡ codes "0x00ff"
unfolding to_hex
zero_padded = refl

-- The values themselves as JSON.
abbrev plain : JsonValues
plain = record {
  Value = SqlValue Bool;
  Real = Bool;
  null_value = null;
  from_i64 = integer_value;
  from_f64 = λ r. some (real_value r);
  from_string = text_value;
  from_str = λ s. none;
}

-- A row with a name, a type and a number.
abbrev NamedRow : Type 0
NamedRow = List ℕ × List ℕ × ℤ

abbrev cells : Cell plain
cells = record {
  R = NamedRow;
  Failure = Option DatabaseError;
  try_i64 = λ r name. ok (some r.2);
  try_f64 = λ r name. ok none;
  try_bytes = λ r name. ok none;
  try_string = λ r name. ok none;
}

abbrev pool_of : List ℕ → ReadPool plain
pool_of declared = record {
  Db = ℕ;
  cell = cells;
  as_database = λ e. e;
  fetch_all = λ sql args db. (ok ((block_number_column, declared, pos 5) ∷ []), db + 1);
  fetch_optional = λ sql args db. (ok (some (block_number_column, declared, pos 5)), db + 1);
  fetch_one = λ sql args db. (ok (block_number_column, declared, pos 5), db + 1);
  get_text = λ r column.
      if same_text column (codes "type") || same_text column (codes "data_type") then r.1 else r.0;
  get_integer = λ r column. r.2;
}

abbrev sqlite_pool_of : ReadPool plain
sqlite_pool_of = pool_of (codes "INTEGER")

abbrev pg_pool_of : ReadPool plain
pg_pool_of = pool_of (codes "bigint")

abbrev blocks : TableSchema
blocks = schema_new (codes "blocks")

abbrev page_of : Bounds
page_of = record { from_block = 0; to_block = 9; limit = 10; offset = 0 }

abbrev one_row : Row Bool
one_row = integer_value (pos 5) ∷ []

sqlite_answers :
    SqliteAnswers plain sqlite_pool_of blocks page_of 0
      ((block_number_column, codes "INTEGER", pos 5) ∷ [])
      ((block_number_column, codes "INTEGER", pos 5) ∷ [])
      (one_row ∷ [])
unfolding sql
sqlite_answers = record {
  table_info = refl;
  lists = (refl, refl, tt);
  range = refl;
  holds = ((integer_cell (pos 5) refl, tt), tt);
}

pg_answers :
    PgAnswers plain pg_pool_of blocks page_of 0
      ((block_number_column, codes "bigint", pos 5) ∷ [])
      ((block_number_column, codes "bigint", pos 5) ∷ [])
      (one_row ∷ [])
unfolding pg_column_type
pg_answers = record {
  information_schema = refl;
  lists = (refl, refl, tt);
  range = refl;
  holds = ((integer_cell (pos 5) refl, tt), tt);
}

backends-agree_example :
    ((table_columns plain sqlite_pool_of blocks.table 0).0 ≡ ok (served_columns (table_of blocks)))
    × ((pg_table_columns plain pg_pool_of blocks.table 0).0 ≡ ok (served_columns (table_of blocks)))
    × (((sqlite_backend plain sqlite_pool_of).query_rows blocks.table page_of 0).0
        ≡ ok (map (object_onto plain [] (table_of blocks)) (one_row ∷ [])))
    × (((pg_backend plain pg_pool_of).query_rows blocks.table page_of 0).0
        ≡ ok (map (object_onto plain [] (table_of blocks)) (one_row ∷ [])))
backends-agree_example =
    backends-agree plain sqlite_pool_of pg_pool_of blocks page_of (one_row ∷ []) 0 _ _ 0 _ _
      sqlite_answers pg_answers

abbrev app : AppState (sqlite_backend plain sqlite_pool_of)
app = record { backend = 0; default_limit = 100; max_limit = 1000 }

abbrev no_params : RowsQueryParams
no_params = record { from_block = none; to_block = none; limit = some (codes " 5 "); offset = none }

query_rows_handler-Guarded_example :
    PageEnd
      (sqlite_backend plain sqlite_pool_of)
      blocks.table
      app
      (query_rows_handler (sqlite_backend plain sqlite_pool_of) blocks.table no_params app)
query_rows_handler-Guarded_example =
    query_rows_handler-Guarded (sqlite_backend plain sqlite_pool_of) blocks.table app no_params
