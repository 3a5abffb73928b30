-- ===== src/Serving/Served.antt =====
-- The page that each backend of src/serving serves of a table that its store has created.
use artemis_light.Prelude.{ℕ, ◌≡◌, refl, ap, ◌∙◌, none, List, [], ◌∷◌, map, ok, err, codes, format}
use artemis_light.Schema.{sql, Column, TableSchema, Row, quote_ident}
use artemis_light.Dialect.{pg_column_type, sqlite_dialect}
use artemis_light.Query.{range_query}
use artemis_light.Serving.{Bounds}
use artemis_light.Serving.Cells.{JsonValues}
use artemis_light.Serving.Catalog.{
  text_arg, ReadPool, normalize_type, pg_normalize_type, Failing, then_map, page_args, Objects,
  of_row_set, with_columns, table_columns, query_rows, sqlite_backend, range_query_public,
  pg_table_columns, pg_query_rows, pg_backend,
}
use artemis_light.Serving.Agreeing.{
  lowered, normalize_type-sql, pg_normalize_type-lowered, table_of, served_columns, Lists, listed,
  object_onto, HoldsRows, rows_to_json-objects,
}

module _ (j : JsonValues) (q : ReadPool j) where
  then_map-ok :
      {A B : Type 0} (f : A → B) (r : Failing j q A × q.Db) (a : A)
      → r.0 ≡ ok a
      → (then_map j q f r).0 ≡ ok (f a)
  then_map-ok f (ok b, db) a e = let same : b ≡ a = cc in rw same refl
  then_map-ok f (err x, db) a e = cc

  page :
      (ks : List Column) (r : Failing j q (List q.cell.R) × q.Db) (rs : List q.cell.R)
      (rows : List (Row j.Real))
      → r.0 ≡ ok rs
      → HoldsRows j q.cell ks rs rows
      → (of_row_set j q (served_columns ks) r).0 ≡ ok (map (object_onto j [] ks) rows)
  page ks (ok us, db) rs rows e h =
      let same : us ≡ rs = cc in rw same (rows_to_json-objects j q.cell ks rs rows h)
  page ks (err x, db) rs rows e h = cc

  paged :
      (k : List (List ℕ × List ℕ) → q.Db → Failing j q (Objects j q) × q.Db)
      (r : Failing j q (List (List ℕ × List ℕ)) × q.Db) (columns : List (List ℕ × List ℕ))
      → r.0 ≡ ok columns
      → with_columns j q k r ≡ k columns r.1
  paged k (ok other, db) columns e = let same : other ≡ columns = cc in rw same refl
  paged k (err x, db) columns e = cc

  module _ (s : TableSchema) (bounds : Bounds) (db : q.Db) (catalog rs : List q.cell.R)
      (rows : List (Row j.Real)) where
    -- What SQLite answers: its catalog of the table, and rows of the range that hold these values.
    pub record SqliteAnswers : Type 0 where
      pub table_info :
          (q.fetch_all
            (format (codes "PRAGMA table_info(" ∷ quote_ident s.table ∷ codes ")" ∷ []))
            []
            db).0
          ≡ ok catalog
      pub lists :
          Lists
            (λ r. q.get_text r (codes "name"))
            (λ r. q.get_text r (codes "type"))
            sql
            (table_of s)
            catalog
      pub range :
          (q.fetch_all
            (range_query (sqlite_dialect q.as_database) s.table none)
            (page_args j q bounds)
            (table_columns j q s.table db).1).0
          ≡ ok rs
      pub holds : HoldsRows j q.cell (table_of s) rs rows

    -- The same of PostgreSQL, whose catalog reports the types in lower case.
    pub record PgAnswers : Type 0 where
      pub information_schema :
          (q.fetch_all
            (codes
              "SELECT column_name, data_type FROM information_schema.columns WHERE table_schema = 'public' AND table_name = $1 ORDER BY ordinal_position")
            (text_arg s.table ∷ [])
            db).0
          ≡ ok catalog
      pub lists :
          Lists
            (λ r. q.get_text r (codes "column_name"))
            (λ r. q.get_text r (codes "data_type"))
            (λ t. lowered (pg_column_type t))
            (table_of s)
            catalog
      pub range :
          (q.fetch_all
            (range_query_public j q s.table)
            (page_args j q bounds)
            (pg_table_columns j q s.table db).1).0
          ≡ ok rs
      pub holds : HoldsRows j q.cell (table_of s) rs rows

    sqlite_page :
        SqliteAnswers
        → ((table_columns j q s.table db).0 ≡ ok (served_columns (table_of s)))
          × (((sqlite_backend j q).query_rows s.table bounds db).0
              ≡ ok (map (object_onto j [] (table_of s)) rows))
    unfolding table_columns query_rows
    sqlite_page a =
        let columns : (table_columns j q s.table db).0 ≡ ok (served_columns (table_of s)) =
          then_map-ok _
            (q.fetch_all
              (format (codes "PRAGMA table_info(" ∷ quote_ident s.table ∷ codes ")" ∷ [])) [] db)
            catalog a.table_info
          ∙ ap ok (listed _ _ sql normalize_type normalize_type-sql (table_of s) catalog a.lists) in
        (
          columns,
          ap (λ r. r.0) (paged _ (table_columns j q s.table db) _ columns)
              ∙ page (table_of s)
                  (q.fetch_all (range_query (sqlite_dialect q.as_database) s.table none)
                    (page_args j q bounds) (table_columns j q s.table db).1)
                  rs rows a.range a.holds,
        )

    pg_page :
        PgAnswers
        → ((pg_table_columns j q s.table db).0 ≡ ok (served_columns (table_of s)))
          × (((pg_backend j q).query_rows s.table bounds db).0
              ≡ ok (map (object_onto j [] (table_of s)) rows))
    unfolding pg_table_columns pg_query_rows
    pg_page a =
        let columns : (pg_table_columns j q s.table db).0 ≡ ok (served_columns (table_of s)) =
          then_map-ok _
            (q.fetch_all
              (codes
                "SELECT column_name, data_type FROM information_schema.columns WHERE table_schema = 'public' AND table_name = $1 ORDER BY ordinal_position")
              (text_arg s.table ∷ []) db)
            catalog a.information_schema
          ∙ ap ok (
              listed _ _ (λ t. lowered (pg_column_type t)) pg_normalize_type
                pg_normalize_type-lowered (table_of s) catalog a.lists) in
        (
          columns,
          ap (λ r. r.0) (paged _ (pg_table_columns j q s.table db) _ columns)
              ∙ page (table_of s)
                  (q.fetch_all (range_query_public j q s.table) (page_args j q bounds)
                    (pg_table_columns j q s.table db).1)
                  rs rows a.range a.holds,
        )

-- Of a table that the store has created both backends report the same columns and serve the same
-- page: for each row the object that maps every column's name to the JSON of the value stored in it.
pub backends-agree :
    (j : JsonValues) (q r : ReadPool j) (s : TableSchema) (bounds : Bounds)
    (rows : List (Row j.Real)) (db : q.Db) (catalog rs : List q.cell.R) (db' : r.Db)
    (catalog' rs' : List r.cell.R)
    → SqliteAnswers j q s bounds db catalog rs rows
    → PgAnswers j r s bounds db' catalog' rs' rows
    → ((table_columns j q s.table db).0 ≡ ok (served_columns (table_of s)))
      × ((pg_table_columns j r s.table db').0 ≡ ok (served_columns (table_of s)))
      × (((sqlite_backend j q).query_rows s.table bounds db).0
          ≡ ok (map (object_onto j [] (table_of s)) rows))
      × (((pg_backend j r).query_rows s.table bounds db').0
          ≡ ok (map (object_onto j [] (table_of s)) rows))
backends-agree j q r s bounds rows db catalog rs db' catalog' rs' a b =
    let (c1, p1) = sqlite_page j q s bounds db catalog rs rows a in
    let (c2, p2) = pg_page j r s bounds db' catalog' rs' rows b in (c1, c2, p1, p2)
