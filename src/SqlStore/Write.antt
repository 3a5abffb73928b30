-- ===== src/SqlStore/Write.antt =====
-- The write of src/persistence/sqlstore.rs: one transaction of DDL, migration, inserts and watermark,
-- which is tried a second time after a race for the DDL.
use artemis_light.Prelude.{
  ℕ, suc, Bool, true, false, Option, none, some, List, [], ◌∷◌, ok, err, if◌then◌else◌, length,
  chunks, Result,
}
use artemis_light.Position.{Position}
use artemis_light.Schema.{TableSchema, text_value, Row}
use artemis_light.Dialect.{Dialect}
use artemis_light.Query.{
  migration_savepoint_begin, migration_savepoint_release, migration_savepoint_rollback,
  add_position_column, backfill_position_from_last_block, probe_position_column,
  create_progress_table, create_event_table, insert_statement, watermark_upsert,
  locked_progress_select,
}
use artemis_light.SqlStore.{Sqlx, StoreError, ddl_race, sqlx_failed, undecodable, SqlStore}
use artemis_light.SqlStore.Session.{
  Session, ◌>>=◌, lift, sort_key_to_i64, rows_per_chunk, Fallible, Value, bind_all, chunk_args, run,
  fetch,
}

module _ (x : Sqlx) (d : Dialect x.Failure) where
  abbrev pub Step : Type 0 → Type 0
  Step A = Session (StoreError x.Failure) x.Tx A

  -- `SqlStore::classify_ddl`
  unfoldable pub classify_ddl : x.Failure → StoreError x.Failure
  classify_ddl e = if d.is_duplicate_object e then ddl_race e else sqlx_failed e

  abbrev pub of_ddl : Result x.Failure (Unit {0}) × x.Tx → Fallible x (Unit {0}) × x.Tx
  of_ddl (ok _, tx) = (ok tt, tx)
  of_ddl (err e, tx) = (err (classify_ddl e), tx)

  unfoldable pub run_ddl : List ℕ → Step (Unit {0})
  unfolding classify_ddl
  run_ddl sql tx = of_ddl (x.execute sql [] tx)

  unfoldable pub create_tables : TableSchema → Step (Unit {0})
  create_tables s = do _ ← run_ddl (create_progress_table d); run_ddl (create_event_table d s)

  -- Whether the progress table has its `position` column.
  abbrev pub of_probe : Result x.Failure (Option x.Cells) × x.Tx → Fallible x Bool × x.Tx
  of_probe (ok _, tx) = (ok true, tx)
  of_probe (err e, tx) = (if d.is_undefined_column e then ok false else err (sqlx_failed e), tx)

  unfoldable pub probe : Step Bool
  probe tx = of_probe (x.fetch_optional probe_position_column [] tx)

  unfoldable pub after_probe : Bool → Step (Unit {0})
  after_probe true = run x migration_savepoint_release []
  after_probe false = do
    _ ← run x migration_savepoint_rollback []
    _ ← run x migration_savepoint_release []
    _ ← run_ddl add_position_column
    run x backfill_position_from_last_block []

  -- Nothing to do once a write of this store has been committed.
  unfoldable pub migrate_if_needed : Bool → Step (Unit {0})
  unfolding probe after_probe
  migrate_if_needed true = lift (ok tt)
  migrate_if_needed false = do
    _ ← run x migration_savepoint_begin []
    present ← probe
    after_probe present

  unfoldable pub insert_chunk : TableSchema → Value x → List (Row x.Real) → Step (Unit {0})
  insert_chunk s key chunk = do
    args ← lift (chunk_args x s key [] chunk)
    run x (insert_statement d s (length chunk)) args

  unfoldable pub insert_chunks : TableSchema → Value x → List (List (Row x.Real)) → Step (Unit {0})
  unfolding insert_chunk
  insert_chunks s key [] = lift (ok tt)
  insert_chunks s key (c ∷ cs) = do _ ← insert_chunk s key c; insert_chunks s key cs

  unfoldable pub insert_rows : TableSchema → Value x → List (Row x.Real) → Step (Unit {0})
  unfolding insert_chunks
  insert_rows s key rows =
      insert_chunks s key (chunks (rows_per_chunk (suc (length s.columns))) rows)

  module _ {P : Type 0} (p : Position P) where
    -- `P::decode(text)?`
    abbrev pub decoded : List ℕ → Option P → Fallible x (Option P)
    decoded t none = err (undecodable t)
    decoded t (some w) = ok (some w)

    abbrev pub of_cell : Result x.Failure (Option (List ℕ)) → Fallible x (Option P)
    of_cell (err e) = err (sqlx_failed e)
    of_cell (ok none) = ok none
    of_cell (ok (some t)) = decoded t (p.decode t)

    abbrev pub previous : Option x.Cells → Fallible x (Option P)
    previous none = ok none
    previous (some r) = of_cell (x.try_get_nullable_text r 0)

    -- The assertion of the source that the key does not fall is compiled in debug builds only.
    unfoldable pub advance_watermark : TableSchema → P → Step (Unit {0})
    advance_watermark s position = do
      args ← lift (bind_all x [] (text_value s.table ∷ []))
      row ← fetch x (locked_progress_select d) args
      prev ← lift (previous row)
      let next = p.advance prev position
      key ← lift (sort_key_to_i64 (p.sort_key next))
      args ← lift (bind_all x [] (text_value s.table ∷ key ∷ text_value (p.encode next) ∷ []))
      run x (watermark_upsert d) args

    unfoldable pub transaction : TableSchema → P → List (Row x.Real) → Bool → Step (Unit {0})
    unfolding create_tables migrate_if_needed insert_rows advance_watermark
    transaction s position rows checked = do
      _ ← create_tables s
      _ ← migrate_if_needed checked
      key ← lift (sort_key_to_i64 (p.sort_key position))
      _ ← insert_rows s key rows
      advance_watermark s position

    -- The flag is set after the commit; a transaction that is not committed is dropped.
    abbrev pub committed_with :
        Result x.Failure (Unit {0}) × x.Db → SqlStore x → Fallible x (Unit {0}) × SqlStore x
    committed_with (ok _, db) w = (ok tt, record w { pool = db; migration_checked = true })
    committed_with (err e, db) w = (err (sqlx_failed e), record w { pool = db })

    abbrev pub ended :
        Fallible x (Unit {0}) × x.Tx → SqlStore x → Fallible x (Unit {0}) × SqlStore x
    ended (ok _, tx) w = committed_with (x.commit tx w.pool) w
    ended (err e, tx) w = (err e, record w { pool = x.abandon tx w.pool })

    abbrev pub begun :
        Result x.Failure x.Tx × x.Db
        → TableSchema
        → P
        → List (Row x.Real)
        → SqlStore x
        → Fallible x (Unit {0}) × SqlStore x
    begun (err e, db) s position rows w = (err (sqlx_failed e), record w { pool = db })
    begun (ok tx, db) s position rows w =
        ended (transaction s position rows w.migration_checked tx) (record w { pool = db })

    unfoldable pub write_once :
        TableSchema → P → List (Row x.Real) → SqlStore x → Fallible x (Unit {0}) × SqlStore x
    unfolding transaction
    write_once s position rows w = begun (x.begin w.pool) s position rows w

    abbrev pub retried :
        Fallible x (Unit {0}) × SqlStore x
        → (SqlStore x → Fallible x (Unit {0}) × SqlStore x)
        → Fallible x (Unit {0}) × SqlStore x
    retried (err (ddl_race e), w) once = once w
    retried r once = r

    -- `Store::write`
    unfoldable pub write :
        TableSchema → P → List (Row x.Real) → SqlStore x → Fallible x (Unit {0}) × SqlStore x
    unfolding write_once
    write s position rows w = retried (write_once s position rows w) (write_once s position rows)
