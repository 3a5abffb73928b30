-- ===== src/SqlStore/Sent.antt =====
-- The statements that each step of a write of src/persistence/sqlstore.rs has sent when it succeeds.
use mathlib.Core.List.{append-nil}
use artemis_light.Prelude.{
  ℕ, ◌≤◌, ◌≡◌, refl, sym, ap, ◌∙◌, Bool, true, false, Option, List, [], ◌∷◌, map, ok, err,
  if◌then◌else◌, length, All, i64_max, Result,
}
use artemis_light.Position.{Position}
use artemis_light.Schema.{sql, TableSchema, pos, integer_value, text_value, Row}
use artemis_light.Dialect.{Dialect}
use artemis_light.Query.{
  migration_savepoint_begin, migration_savepoint_release, migration_savepoint_rollback,
  add_position_column, backfill_position_from_last_block, probe_position_column,
  create_progress_table, create_event_table, insert_statement, watermark_upsert,
  locked_progress_select,
}
use artemis_light.SqlStore.{Sqlx}
use artemis_light.SqlStore.Session.{sort_key_to_i64, Value, bind_all, chunk_args, run, fetch}
use artemis_light.SqlStore.Write.{
  of_ddl, run_ddl, create_tables, of_probe, probe, after_probe, migrate_if_needed, insert_chunk,
  insert_chunks, previous, advance_watermark,
}
use artemis_light.SqlStore.Does.{
  Statement, IsTransactional, Does, Does-bind, Does-weaken, Does-run, Does-fetch, Sends, Sends-bind,
  Does-after, Does-given,
}
use artemis_light.SqlStore.Bound.{sort_key_to_i64-ok, bind_all-ok, cells_of, Shaped, chunk_args-ok}

module _ {x : Sqlx} (h : IsTransactional x) (d : Dialect x.Failure) where
  of_ddl-tx : (r : Result x.Failure (Unit {0}) × x.Tx) → (of_ddl x d r).1 ≡ r.1
  of_ddl-tx (ok u, tx) = refl
  of_ddl-tx (err e, tx) = refl

  Does-run_ddl : (sql : List ℕ) → Sends h (run_ddl x d sql) ((sql, []) ∷ [])
  unfolding run_ddl
  Does-run_ddl sql tx a e =
      ((sql, []) ∷ [], ap h.sent (of_ddl-tx (x.execute sql [] tx)) ∙ h.execute_sent sql [] tx, refl)

  of_probe-tx : (r : Result x.Failure (Option x.Cells) × x.Tx) → (of_probe x d r).1 ≡ r.1
  of_probe-tx (ok u, tx) = refl
  of_probe-tx (err e, tx) = refl

  Does-probe : Sends h (probe x d) ((probe_position_column, []) ∷ [])
  unfolding probe
  Does-probe tx a e = (
    (probe_position_column, []) ∷ [],
    ap h.sent (of_probe-tx (x.fetch_optional probe_position_column [] tx))
        ∙ h.fetch_sent probe_position_column [] tx,
    refl,
  )

  abbrev pub ddl_statements : TableSchema → List (Statement x)
  ddl_statements s = (create_progress_table d, []) ∷ (create_event_table d s, []) ∷ []

  pub Sends-create_tables : (s : TableSchema) → Sends h (create_tables x d s) (ddl_statements s)
  unfolding create_tables
  Sends-create_tables s =
      Sends-bind h _ _ _ _ (Does-run_ddl (create_progress_table d))
        (λ _. Does-run_ddl (create_event_table d s))

  -- The migration's statements: on a table that has the `position` column, and on one without.
  abbrev pub kept : List (Statement x)
  kept = (migration_savepoint_release, []) ∷ []

  abbrev pub upgraded : List (Statement x)
  upgraded =
      (migration_savepoint_rollback, [])
      ∷ (migration_savepoint_release, [])
      ∷ (add_position_column, [])
      ∷ (backfill_position_from_last_block, [])
      ∷ []

  Sends-after_probe :
      (present : Bool) → Sends h (after_probe x d present) (if present then kept else upgraded)
  unfolding after_probe
  Sends-after_probe true = Does-run h migration_savepoint_release []
  Sends-after_probe false = Sends-bind h _ _ _ _ (Does-run h migration_savepoint_rollback []) (λ _.
      Sends-bind h _ _ _ _ (Does-run h migration_savepoint_release []) (λ _.
        Sends-bind h _ _ _ _ (Does-run_ddl add_position_column)
          (λ _. Does-run h backfill_position_from_last_block [])))

  abbrev pub IsMigration : Bool → List (Statement x) → Type 0
  IsMigration true l = l ≡ []
  IsMigration false l =
      (present : Bool) × (l
        ≡ (migration_savepoint_begin, [])
          ∷ (probe_position_column, [])
          ∷ (if present then kept else upgraded))

  pub Does-migrate :
      (checked : Bool) → Does h (migrate_if_needed x d checked) (λ _ l. IsMigration checked l)
  unfolding migrate_if_needed
  Does-migrate true = λ tx a e. ([], sym (append-nil (h.sent tx)), refl)
  Does-migrate false =
      Does-weaken h _ _ _
        (Does-after h _ _ _ _ (Does-run h migration_savepoint_begin [])
          (Does-bind h (probe x d) (after_probe x d) _ _ Does-probe Sends-after_probe))
        (λ a l (l2, (present, m1, m2, p, q, r), e). (present, rw (e, r, p, q) refl))

  -- The insert of a chunk of rows under their sort key.
  abbrev pub insert_of : TableSchema → Value x → List (Row x.Real) → Statement x
  insert_of s key chunk = (insert_statement d s (length chunk), cells_of x key chunk)

  Does-insert_chunk :
      (s : TableSchema) (key : Value x) (chunk : List (Row x.Real))
      → Does h
          (insert_chunk x d s key chunk)
          (λ _ l. (l ≡ insert_of s key chunk ∷ []) × Shaped x s chunk)
  unfolding insert_chunk
  Does-insert_chunk s key chunk =
      Does-weaken h _ _ _
        (Does-given h (chunk_args x s key [] chunk) (run x (insert_statement d s (length chunk))) _
          (Does-run h (insert_statement d s (length chunk))))
        (λ a l (args, e, q).
          let (r, shapes) = chunk_args-ok x s key [] chunk args e in
          (q ∙ ap (λ v. (insert_statement d s (length chunk), v) ∷ []) r, shapes))

  pub Does-insert_chunks :
      (s : TableSchema) (key : Value x) (cs : List (List (Row x.Real)))
      → Does h
          (insert_chunks x d s key cs)
          (λ _ l. (l ≡ map (insert_of s key) cs) × All (Shaped x s) cs)
  unfolding insert_chunks
  Does-insert_chunks s key [] = λ tx a e. ([], sym (append-nil (h.sent tx)), (refl, tt))
  Does-insert_chunks s key (c ∷ cs) =
      Does-weaken h _ _ _
        (Does-bind h (insert_chunk x d s key c) (λ _. insert_chunks x d s key cs) _ _
          (Does-insert_chunk s key c) (λ _. Does-insert_chunks s key cs))
        (λ a l (u, l1, l2, (e1, s1), (e2, s2), e). (rw (e, e1, e2) refl, (s1, s2)))

  module _ {P : Type 0} (p : Position P) where
    -- The locked read of the watermark and its update to `next`.
    abbrev pub watermark_statements : TableSchema → P → List (Statement x)
    watermark_statements s next =
        (locked_progress_select d, text_value s.table ∷ [])
        ∷ (
          watermark_upsert d,
          text_value s.table
              ∷ integer_value (pos (p.sort_key next))
              ∷ text_value (p.encode next)
              ∷ [],
        )
        ∷ []

    abbrev pub IsAdvance : TableSchema → P → List (Statement x) → Type 0
    IsAdvance s position l =
        (prev : Option P) × (p.sort_key (p.advance prev position) ≤ i64_max)
        × (l ≡ watermark_statements s (p.advance prev position))

    pub Does-advance_watermark :
        (s : TableSchema) (position : P)
        → Does h (advance_watermark x d p s position) (λ _ l. IsAdvance s position l)
    unfolding advance_watermark
    Does-advance_watermark s position =
        Does-weaken h _ _ _
          (Does-given h (bind_all x [] (text_value s.table ∷ [])) _ _ (λ args.
            Does-bind h (fetch x (locked_progress_select d) args) _ _ _
              (Does-fetch h (locked_progress_select d) args)
              (λ row. Does-given h (previous x d p row) _ _ (λ prev.
                Does-given h (sort_key_to_i64 (p.sort_key (p.advance prev position))) _ _ (λ key.
                  Does-given h
                    (bind_all x [] (
                      text_value s.table
                      ∷ key
                      ∷ text_value (p.encode (p.advance prev position))
                      ∷ []))
                    _ _ (λ all. Does-run h (watermark_upsert d) all))))))
          (λ a l (args, e1, (row, m1, m2, q1, (prev, e2, (key, e3, (all, e4, q2))), q)).
            let (fits, is_key) = sort_key_to_i64-ok (p.sort_key (p.advance prev position)) key e3 in
            (
              prev,
              fits,
              rw
                  (
                    q,
                    q1,
                    q2,
                    bind_all-ok x [] (text_value s.table ∷ []) args e1,
                    bind_all-ok x []
                        (text_value s.table
                          ∷ key
                          ∷ text_value (p.encode (p.advance prev position))
                          ∷ [])
                        all e4,
                    is_key,
                  )
                  refl,
            ))
