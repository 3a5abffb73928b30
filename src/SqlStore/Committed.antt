-- ===== src/SqlStore/Committed.antt =====
-- What a write of src/persistence/sqlstore.rs commits: all of its statements in one transaction, or
-- nothing.
use artemis_light.Prelude.{
  suc, ◌≤◌, ◌≡◌, refl, sym, ap, subst, ◌∙◌, Bool, true, List, [], ◌∷◌, ◌++◌, map, ok, err, length,
  concat, chunks, chunks-lem, All, i64_max, Result,
}
use artemis_light.Position.{Position}
use artemis_light.Schema.{TableSchema, pos, integer_value, Row}
use artemis_light.Dialect.{Dialect}
use artemis_light.SqlStore.{
  Sqlx, ddl_race, sqlx_failed, cannot_bind, null_last_block, sort_key_too_large, row_shape,
  undecodable, SqlStore,
}
use artemis_light.SqlStore.Session.{sort_key_to_i64, rows_per_chunk, Fallible, Value}
use artemis_light.SqlStore.Write.{
  migrate_if_needed, insert_chunks, insert_rows, advance_watermark, transaction, committed_with,
  ended, begun, write_once, retried, write,
}
use artemis_light.SqlStore.Does.{
  Statement, IsTransactional, Does, Does-bind, Does-weaken, Does-after, Does-given,
}
use artemis_light.SqlStore.Bound.{
  sort_key_to_i64-ok, Shaped, Capped, Sized-Capped, rows_per_chunk_pos,
}
use artemis_light.SqlStore.Sent.{
  ddl_statements, Sends-create_tables, kept, IsMigration, Does-migrate, insert_of,
  Does-insert_chunks, IsAdvance, Does-advance_watermark,
}

module _ {x : Sqlx} (h : IsTransactional x) (d : Dialect x.Failure) {P : Type 0}
    (p : Position P) where
  abbrev pub key_of : P → Value x
  key_of position = integer_value (pos (p.sort_key position))

  abbrev pub chunks_of : TableSchema → List (Row x.Real) → List (List (Row x.Real))
  chunks_of s rows = chunks (rows_per_chunk (suc (length s.columns))) rows

  -- The statements of a write: the tables, the migration, one insert for each chunk of the rows, and
  -- the watermark advanced by the position.
  pub record IsWrite (s : TableSchema) (position : P) (rows : List (Row x.Real)) (checked : Bool)
      (l : List (Statement x)) : Type 0 where
    pub migration : List (Statement x)
    pub watermark : List (Statement x)
    pub is_migration : IsMigration h d checked migration
    pub is_advance : IsAdvance h d p s position watermark
    pub key_fits : p.sort_key position ≤ i64_max
    pub shaped : All (Shaped x s) (chunks_of s rows)
    pub cut : concat (chunks_of s rows) ≡ rows
    pub capped : All (Capped x s (key_of position)) (chunks_of s rows)
    pub whole :
        l
        ≡ ddl_statements h d s
          ++ (migration
              ++ (map (insert_of h d s (key_of position)) (chunks_of s rows) ++ watermark))

  Does-transaction :
      (s : TableSchema) (position : P) (rows : List (Row x.Real)) (checked : Bool)
      → Does h
          (transaction x d p s position rows checked)
          (λ _ l. IsWrite s position rows checked l)
  unfolding transaction insert_rows
  Does-transaction s position rows checked =
      Does-weaken h _ _ _
        (Does-after h _ _ _ _ (Sends-create_tables h d s) (
          Does-bind h (migrate_if_needed x d checked) _ _ _ (Does-migrate h d checked) (λ _.
            Does-given h (sort_key_to_i64 (p.sort_key position)) _ _ (λ key.
              Does-bind h (insert_chunks x d s key (chunks_of s rows))
                (λ _. advance_watermark x d p s position) _ _
                (Does-insert_chunks h d s key (chunks_of s rows))
                (λ _. Does-advance_watermark h d p s position)))))
        (λ a l (l2, (u, mig, l3, is_mig, (key, ek, (u2, ins, wm, (qi, shapes), adv, q3)), q2), q1).
          let (fits, is_key) = sort_key_to_i64-ok (p.sort_key position) key ek in
          let width = rows_per_chunk (suc (length s.columns)) in
          record {
            migration = mig;
            watermark = wm;
            is_migration = is_mig;
            is_advance = adv;
            key_fits = fits;
            shaped = shapes;
            cut = (chunks-lem width rows (rows_per_chunk_pos x (suc (length s.columns)))).0;
            capped =
                Sized-Capped x s (key_of position) (chunks_of s rows) shapes
                  (chunks-lem width rows (rows_per_chunk_pos x (suc (length s.columns)))).1;
            whole = rw (q1, q2, q3, qi, is_key) refl;
          })

  -- What a write leaves of a store `w`: it commits one transaction of its statements, or fails and
  -- leaves what is committed and the flag alone.
  abbrev pub Outcome :
      TableSchema → P → List (Row x.Real) → SqlStore x → Fallible x (Unit {0}) × SqlStore x → Type 0
  Outcome s position rows w (ok _, v) =
      (v.migration_checked ≡ true)
      × (l : List (Statement x)) × (h.committed v.pool ≡ h.committed w.pool ++ l ∷ [])
      × IsWrite s position rows w.migration_checked l
  Outcome s position rows w (err e, v) =
      (h.committed v.pool ≡ h.committed w.pool) × (v.migration_checked ≡ w.migration_checked)

  module _ (s : TableSchema) (position : P) (rows : List (Row x.Real)) where
    commit-Outcome :
        (w v : SqlStore x) (l : List (Statement x)) (r : Result x.Failure (Unit {0})) (db : x.Db)
        → h.committed v.pool ≡ h.committed w.pool
        → v.migration_checked ≡ w.migration_checked
        → (r ≡ ok tt → h.committed db ≡ h.committed v.pool ++ l ∷ [])
        → ((e : x.Failure) → r ≡ err e → h.committed db ≡ h.committed v.pool)
        → IsWrite s position rows w.migration_checked l
        → Outcome s position rows w (committed_with x d p (r, db) v)
    commit-Outcome w v l (ok tt) db kept flag good bad is =
        (refl, l, good refl ∙ ap (λ c. c ++ l ∷ []) kept, is)
    commit-Outcome w v l (err e) db kept flag good bad is = (bad e refl ∙ kept, flag)

    ended-Outcome :
        (w v : SqlStore x) (r : Fallible x (Unit {0})) (tx : x.Tx)
        → h.committed v.pool ≡ h.committed w.pool
        → v.migration_checked ≡ w.migration_checked
        → (r ≡ ok tt → IsWrite s position rows w.migration_checked (h.sent tx))
        → Outcome s position rows w (ended x d p (r, tx) v)
    ended-Outcome w v (ok tt) tx kept flag is =
        commit-Outcome w v (h.sent tx) (x.commit tx v.pool).0 (x.commit tx v.pool).1 kept flag
          (h.commit_ok tx v.pool) (h.commit_err tx v.pool) (is refl)
    ended-Outcome w v (err e) tx kept flag is = (h.abandon_keeps tx v.pool ∙ kept, flag)

    begun-Outcome :
        (w : SqlStore x) (r : Result x.Failure x.Tx) (db : x.Db)
        → h.committed db ≡ h.committed w.pool
        → ((tx : x.Tx) → r ≡ ok tx → h.sent tx ≡ [])
        → Outcome s position rows w (begun x d p (r, db) s position rows w)
    begun-Outcome w (err e) db kept fresh = (kept, refl)
    begun-Outcome w (ok tx) db kept fresh =
        let r = transaction x d p s position rows w.migration_checked tx in
        ended-Outcome w (record w { pool = db }) r.0 r.1 kept refl
          (λ e.
            let (l, sent, is) = Does-transaction s position rows w.migration_checked tx tt e in
            subst (IsWrite s position rows w.migration_checked)
              (sym (sent ∙ ap (λ a. a ++ l) (fresh tx refl))) is)

    write_once-Outcome :
        (w : SqlStore x) → Outcome s position rows w (write_once x d p s position rows w)
    unfolding write_once
    write_once-Outcome w =
        begun-Outcome w (x.begin w.pool).0 (x.begin w.pool).1 (h.begin_keeps w.pool)
          (λ tx. h.begin_sent w.pool tx)

    Outcome-from :
        (w v : SqlStore x) (r : Fallible x (Unit {0}) × SqlStore x)
        → h.committed v.pool ≡ h.committed w.pool
        → v.migration_checked ≡ w.migration_checked
        → Outcome s position rows v r
        → Outcome s position rows w r
    Outcome-from w v (ok u, z) kept flag (checked, l, one, is) = (
      checked,
      l,
      one ∙ ap (λ c. c ++ l ∷ []) kept,
      subst (λ b. IsWrite s position rows b l) flag is,
    )
    Outcome-from w v (err e, z) kept flag (same, still) = (same ∙ kept, still ∙ flag)

    retried-Outcome :
        (w : SqlStore x) (r : Fallible x (Unit {0}) × SqlStore x)
        (once : SqlStore x → Fallible x (Unit {0}) × SqlStore x)
        → Outcome s position rows w r
        → ((v : SqlStore x) → Outcome s position rows v (once v))
        → Outcome s position rows w (retried x d p r once)
    retried-Outcome w (ok u, v) once first second = first
    retried-Outcome w (err (ddl_race e), v) once first second =
        Outcome-from w v (once v) first.0 first.1 (second v)
    retried-Outcome w (err (sqlx_failed e), v) once first second = first
    retried-Outcome w (err cannot_bind, v) once first second = first
    retried-Outcome w (err null_last_block, v) once first second = first
    retried-Outcome w (err (sort_key_too_large k), v) once first second = first
    retried-Outcome w (err (row_shape m n), v) once first second = first
    retried-Outcome w (err (undecodable t), v) once first second = first

    pub write-Outcome : (w : SqlStore x) → Outcome s position rows w (write x d p s position rows w)
    unfolding write
    write-Outcome w = retried-Outcome w _ _ (write_once-Outcome w) write_once-Outcome
