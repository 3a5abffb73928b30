-- ===== src/Serving/Layer.antt =====
-- The builder of src/serving/mod.rs, the choice of its backend by the URL, and the guard of pool.rs.
-- What opens a pool is sqlx's and a parameter.
use artemis_light.Prelude.{
  ℕ, Bool, not, ◌||◌, Option, none, some, List, [], ◌∷◌, ok, err, ◌==◌, if◌then◌else◌, unwrap_or,
  codes, same_text, starts_with, contains_text, Result,
}

-- What opens the read-only pools, from a URL and a number of connections.
pub record Opener : Type 1 where
  pub Address : Type 0
  pub SqlitePool : Type 0
  pub PgPool : Type 0
  pub Failure : Type 0
  pub open_sqlite : List ℕ → ℕ → Result Failure SqlitePool
  pub open_pg : List ℕ → ℕ → Result Failure PgPool

pub data BackendSource (o : Opener) : Type 0 where
  from_url : List ℕ → BackendSource o
  injected_pg : o.PgPool → BackendSource o

pub record ServingLayer (o : Opener) : Type 0 where
  pub source : BackendSource o
  pub addr : o.Address
  pub max_connections : ℕ
  pub default_limit : ℕ
  pub max_limit : ℕ

pub data OpenedBackend (o : Opener) : Type 0 where
  sqlite_pool : o.SqlitePool → OpenedBackend o
  pg_pool : o.PgPool → OpenedBackend o

pub data BuildError (Failure : Type 0) : Type 0 where
  in_memory : BuildError Failure
  unsupported_scheme : List ℕ → BuildError Failure
  cannot_start : Failure → BuildError Failure

-- `s.strip_prefix(prefix)`
abbrev pub strip_prefix : List ℕ → List ℕ → Option (List ℕ)
strip_prefix [] s = some s
strip_prefix (c ∷ prefix) [] = none
strip_prefix (c ∷ prefix) (d ∷ s) = if c == d then strip_prefix prefix s else none

abbrev pub or_stripped : Option (List ℕ) → Option (List ℕ) → Option (List ℕ)
or_stripped none other = other
or_stripped (some s) other = some s

-- The path that a SQLite URL names.
unfoldable pub path_of : List ℕ → List ℕ
path_of url =
    unwrap_or
      (or_stripped (strip_prefix (codes "sqlite://") url) (strip_prefix (codes "sqlite:") url)) url

unfoldable pub is_in_memory : List ℕ → Bool
unfolding path_of
is_in_memory url =
    same_text (path_of url) (codes ":memory:") || contains_text (codes "mode=memory") (path_of url)

unfoldable pub is_postgres : List ℕ → Bool
is_postgres url = starts_with (codes "postgres://") url || starts_with (codes "postgresql://") url

unfoldable pub is_sqlite : List ℕ → Bool
is_sqlite url = starts_with (codes "sqlite:") url || not (contains_text (codes "://") url)

module _ (o : Opener) where
  -- `ServingLayer::with_source`
  abbrev pub with_source : BackendSource o → o.Address → ServingLayer o
  with_source source addr = record {
    source = source;
    addr = addr;
    max_connections = 4;
    default_limit = 100;
    max_limit = 1000;
  }

  -- `ServingLayer::new`
  abbrev pub layer_new : List ℕ → o.Address → ServingLayer o
  layer_new database_url addr = with_source (from_url database_url) addr

  -- `ServingLayer::from_pg_pool`
  abbrev pub from_pg_pool : o.PgPool → o.Address → ServingLayer o
  from_pg_pool pool addr = with_source (injected_pg pool) addr

  abbrev pub with_max_connections : ℕ → ServingLayer o → ServingLayer o
  with_max_connections n l = record l { max_connections = n }

  abbrev pub with_default_limit : ℕ → ServingLayer o → ServingLayer o
  with_default_limit n l = record l { default_limit = n }

  abbrev pub with_max_limit : ℕ → ServingLayer o → ServingLayer o
  with_max_limit n l = record l { max_limit = n }

  abbrev pub started :
      {A : Type 0}
      → (A → OpenedBackend o)
      → Result o.Failure A
      → Result (BuildError o.Failure) (OpenedBackend o)
  started make (ok pool) = ok (make pool)
  started make (err e) = err (cannot_start e)

  -- `open_read_only_pool`
  unfoldable pub open_read_only_pool : List ℕ → ℕ → Result (BuildError o.Failure) (OpenedBackend o)
  unfolding is_in_memory
  open_read_only_pool url n =
      if is_in_memory url then err in_memory else started sqlite_pool (o.open_sqlite url n)

  unfoldable pub of_url : List ℕ → ℕ → Result (BuildError o.Failure) (OpenedBackend o)
  unfolding is_postgres is_sqlite open_read_only_pool
  of_url url n =
      if is_postgres url
      then started pg_pool (o.open_pg url n)
      else (if is_sqlite url then open_read_only_pool url n else err (unsupported_scheme url))

  abbrev pub of_source : BackendSource o → ℕ → Result (BuildError o.Failure) (OpenedBackend o)
  of_source (injected_pg pool) n = ok (pg_pool pool)
  of_source (from_url url) n = of_url url n

  -- `ServingLayer::build_backend`, with the postgres feature.
  unfoldable pub build_backend : ServingLayer o → Result (BuildError o.Failure) (OpenedBackend o)
  unfolding of_url
  build_backend l = of_source l.source l.max_connections
