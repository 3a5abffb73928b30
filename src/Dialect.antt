-- ===== src/Dialect.antt =====
-- The facts of src/persistence/dialect.rs in which the SQL of the backends differs. The errors of sqlx
-- are a parameter, of which only the database's own message and code are read.
use artemis_light.Prelude.{
  ℕ, Bool, false, ◌||◌, Option, none, some, List, [], ◌++◌, codes, same_text, contains_text,
}
use artemis_light.Position.Decimal.{to_decimal}
use artemis_light.Schema.{SqlType, integer, real, text, blob, numeric, sql}

-- `sqlx::error::DatabaseError`
pub record DatabaseError : Type 0 where
  pub message : List ℕ
  pub code : Option (List ℕ)

-- The trait `Dialect`; `Failure` is `sqlx::Error`.
pub record Dialect (Failure : Type 0) : Type 0 where
  pub placeholder : ℕ → List ℕ
  pub tiebreak : List ℕ
  pub column_type : SqlType → List ℕ
  pub progress_row_lock : List ℕ
  pub is_undefined_table : Failure → Bool
  pub is_undefined_column : Failure → Bool
  pub is_duplicate_object : Failure → Bool

-- `matches!(err, sqlx::Error::Database(e) if e.message().contains(needle))`
abbrev pub says : List ℕ → Option DatabaseError → Bool
says needle none = false
says needle (some e) = contains_text needle e.message

abbrev pub same_code : List ℕ → Option (List ℕ) → Bool
same_code expected none = false
same_code expected (some code) = same_text code expected

-- `matches!(err, sqlx::Error::Database(e) if e.code().as_deref() == Some(expected))`
abbrev pub coded : List ℕ → Option DatabaseError → Bool
coded expected none = false
coded expected (some e) = same_code expected e.code

unfoldable pub pg_column_type : SqlType → List ℕ
pg_column_type integer = codes "BIGINT"
pg_column_type real = codes "DOUBLE PRECISION"
pg_column_type text = codes "TEXT"
pg_column_type blob = codes "BYTEA"
pg_column_type numeric = codes "TEXT"

module _ {Failure : Type 0} (as_database : Failure → Option DatabaseError) where
  -- `SqliteDialect`; what it does not define has the trait's default.
  unfoldable pub sqlite_dialect : Dialect Failure
  sqlite_dialect = record {
    placeholder = λ n. codes "?";
    tiebreak = codes "rowid";
    column_type = sql;
    progress_row_lock = [];
    is_undefined_table = λ e. says (codes "no such table") (as_database e);
    is_undefined_column = λ e. says (codes "no such column") (as_database e);
    is_duplicate_object = λ e. false;
  }

  -- `PgDialect`
  unfoldable pub pg_dialect : Dialect Failure
  pg_dialect = record {
    placeholder = λ n. codes "$" ++ to_decimal n;
    tiebreak = codes "ctid";
    column_type = pg_column_type;
    progress_row_lock = codes " FOR UPDATE";
    is_undefined_table = λ e. coded (codes "42P01") (as_database e);
    is_undefined_column = λ e. coded (codes "42703") (as_database e);
    is_duplicate_object = λ e.
        coded (codes "42P07") (as_database e)
        || coded (codes "42701") (as_database e)
        || coded (codes "23505") (as_database e);
  }
