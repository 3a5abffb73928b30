-- ===== src/Serving/Routes.antt =====
-- The handlers of src/serving/routes.rs: each calls the backend and returns the response with the
-- state that the calls leave.
use artemis_light.Prelude.{ℕ, suc, ◌-◌, ◌^◌, Bool, true, false, List, map, ok, err, codes, Result}
use artemis_light.Schema.{ℤ, pos, negsuc}
use artemis_light.Serving.{
  Bounds, ServingBackend, ServingError, unknown_table, database, unavailable, Body, health_body,
  tables_body, schema_body, rows_body, status_body, Response, into_response,
}
use artemis_light.Serving.Rows.{RowsQueryParams, resolve_bounds}

-- `AppState`, with the backend's state.
pub record AppState (b : ServingBackend) : Type 0 where
  pub backend : b.State
  pub default_limit : ℕ
  pub max_limit : ℕ

-- `last_block as u64`
abbrev pub as_u64 : ℤ → ℕ
as_u64 (pos n) = n
as_u64 (negsuc n) = 2 ^ 64 - suc n

module _ (b : ServingBackend) where
  abbrev pub Answer : Type 0
  Answer = Response b.Object × b.State

  abbrev pub refuse : ServingError b.Failure → b.State → Answer
  refuse e s = (into_response e, s)

  abbrev pub accept : Body b.Object → b.State → Answer
  accept body s = (record { status = 200; body = body }, s)

  -- `get_health_handler`
  abbrev pub of_health : Result b.Failure (Unit {0}) × b.State → Answer
  of_health (ok _, s) = accept (health_body (codes "ok")) s
  of_health (err e, s) = refuse unavailable s

  unfoldable pub get_health_handler : AppState b → Answer
  get_health_handler app = of_health (b.health app.backend)

  abbrev pub of_tables : Result b.Failure (List (List ℕ)) × b.State → Answer
  of_tables (ok tables, s) = accept (tables_body tables) s
  of_tables (err e, s) = refuse (database e) s

  unfoldable pub list_tables_handler : AppState b → Answer
  list_tables_handler app = of_tables (b.list_tables app.backend)

  -- The guard of a handler that is given a table name.
  abbrev pub guarded : List ℕ → Result b.Failure Bool × b.State → (b.State → Answer) → Answer
  guarded table (ok true, s) k = k s
  guarded table (ok false, s) k = refuse (unknown_table table) s
  guarded table (err e, s) k = refuse (database e) s

  abbrev pub of_columns : List ℕ → Result b.Failure (List (List ℕ × List ℕ)) × b.State → Answer
  of_columns table (ok columns, s) = accept (schema_body table columns) s
  of_columns table (err e, s) = refuse (database e) s

  unfoldable pub get_schema_handler : List ℕ → AppState b → Answer
  get_schema_handler table app =
      guarded table (b.table_exists table app.backend)
        (λ s. of_columns table (b.table_columns table s))

  abbrev pub of_page : Bounds → Result b.Failure (List b.Object) × b.State → Answer
  of_page bounds (ok rows, s) = accept (rows_body rows bounds.limit bounds.offset) s
  of_page bounds (err e, s) = refuse (database e) s

  abbrev pub with_bounds : List ℕ → Result (ServingError b.Failure) Bounds → b.State → Answer
  with_bounds table (err e) s = refuse e s
  with_bounds table (ok bounds) s = of_page bounds (b.query_rows table bounds s)

  unfoldable pub query_rows_handler : List ℕ → RowsQueryParams → AppState b → Answer
  query_rows_handler table params app =
      guarded table (b.table_exists table app.backend)
        (λ s. with_bounds table (resolve_bounds app.default_limit app.max_limit params) s)

  abbrev pub of_watermarks : Result b.Failure (List (List ℕ × ℤ)) × b.State → Answer
  of_watermarks (ok ws, s) = accept (status_body (map (λ w. (w.0, as_u64 w.1)) ws)) s
  of_watermarks (err e, s) = refuse (database e) s

  unfoldable pub get_status_handler : AppState b → Answer
  get_status_handler app = of_watermarks (b.watermarks app.backend)
