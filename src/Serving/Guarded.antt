-- ===== src/Serving/Guarded.antt =====
-- What the handlers of src/serving/routes.rs let through to the tables.
use artemis_light.Prelude.{
  ℕ, ◌≡◌, refl, ◌≢◌, ◌⊎◌, inl, inr, Bool, true, false, List, arith, ok, err, Result,
}
use artemis_light.Serving.{
  Bounds, ServingBackend, ServingError, unknown_table, invalid_query, database, unavailable,
  rows_body, into_response,
}
use artemis_light.Serving.Rows.{RowsQueryParams, InRange, resolve_bounds, resolve_bounds-InRange}
use artemis_light.Serving.Routes.{
  AppState, Answer, guarded, of_page, with_bounds, query_rows_handler,
}

module _ (b : ServingBackend) (table : List ℕ) (app : AppState b) where
  -- The answer to whether the table exists.
  abbrev pub existence : Result b.Failure Bool × b.State
  existence = b.table_exists table app.backend

  -- The end of a request for rows: its page is of bounds in range and of a table that exists, or it
  -- is an error and its rows have not been asked for, unless the backend failed to answer for them.
  abbrev pub PageEnd : Answer b → Type 0
  PageEnd r =
      ((bounds : Bounds) × (rows : List b.Object) × (existence.0 ≡ ok true)
        × InRange app.max_limit bounds
        × (b.query_rows table bounds existence.1 ≡ (ok rows, r.1))
        × (r.0 ≡ record { status = 200; body = rows_body rows bounds.limit bounds.offset }))
      ⊎ ((r.0.status ≢ 200)
          × ((r.1 ≡ existence.1)
              ⊎ ((bounds : Bounds) × (e : b.Failure) × (existence.0 ≡ ok true)
                  × InRange app.max_limit bounds
                  × (b.query_rows table bounds existence.1 ≡ (err e, r.1))
                  × (r.0 ≡ into_response {Failure = b.Failure} (database e)))))

  page_end :
      (bounds : Bounds) (r : Result b.Failure (List b.Object)) (s : b.State)
      → existence.0 ≡ ok true
      → InRange app.max_limit bounds
      → b.query_rows table bounds existence.1 ≡ (r, s)
      → PageEnd (of_page b bounds (r, s))
  page_end bounds (ok rows) s there fit asked = inl (bounds, rows, there, fit, asked, refl)
  page_end bounds (err e) s there fit asked =
      inr (λ s. ground arith, inr (bounds, e, there, fit, asked, refl))

  bounds_end :
      (r : Result (ServingError b.Failure) Bounds)
      → existence.0 ≡ ok true
      → ((bounds : Bounds) → r ≡ ok bounds → InRange app.max_limit bounds)
      → PageEnd (with_bounds b table r existence.1)
  bounds_end (ok bounds) there fit = page_end bounds _ _ there (fit bounds refl) refl
  bounds_end (err (unknown_table t)) there fit = inr (λ s. ground arith, inl refl)
  bounds_end (err (invalid_query t)) there fit = inr (λ s. ground arith, inl refl)
  bounds_end (err (database e)) there fit = inr (λ s. ground arith, inl refl)
  bounds_end (err unavailable) there fit = inr (λ s. ground arith, inl refl)

  guarded_end :
      (params : RowsQueryParams) (r : Result b.Failure Bool)
      → existence.0 ≡ r
      → PageEnd (
          guarded b table
            (r, existence.1)
            (λ s. with_bounds b table (resolve_bounds app.default_limit app.max_limit params) s))
  guarded_end params (ok true) q =
      bounds_end (resolve_bounds app.default_limit app.max_limit params) q
        (resolve_bounds-InRange app.default_limit app.max_limit params)
  guarded_end params (ok false) q = inr (λ s. ground arith, inl refl)
  guarded_end params (err e) q = inr (λ s. ground arith, inl refl)

  -- A table name reaches the query for rows only if the backend says that the table exists, and with
  -- bounds in range; a response with status 200 has exactly the rows of that query, and any other
  -- leaves the backend as the existence check left it, unless the query itself failed.
  pub query_rows_handler-Guarded :
      (params : RowsQueryParams) → PageEnd (query_rows_handler b table params app)
  unfolding query_rows_handler
  query_rows_handler-Guarded params = guarded_end params existence.0 refl
