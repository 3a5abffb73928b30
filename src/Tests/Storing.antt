-- ===== src/Tests/Storing.antt =====
-- Concrete runs of the SQL store, its queries and the writers before it, over a store that keeps the transactions themselves.
use artemis_light.Prelude.{
  ℕ, ◌≤◌, ◌<◌, ◌≡◌, refl, ◌≢◌, inr, Bool, true, false, Option, none, some, List, [], ◌∷◌, ◌++◌, map,
  arith, ok, err, All, i64_max, codes, Result,
}
use artemis_light.Position.Decimal.{to_decimal}
use artemis_light.Query.{insert_statement, replay_query, range_query}
use artemis_light.Query.Reading.{read_select, read_from, replay_filter, range_filter, queries-read}
use artemis_light.SqlStore.Session.{rows_per_chunk}
use artemis_light.SqlStore.Read.{replay, stored_position}
use artemis_light.SqlStore.Resumed.{stored_position-block}
use artemis_light.SqlStore.Replayed.{Fits, replay-Fits}
use artemis_light.Position.Block.{block_position}
use artemis_light.Schema.{text, TableSchema, ℤ, pos, SqlValue, text_value, Row, quote_ident}
use artemis_light.Dialect.{DatabaseError, Dialect, sqlite_dialect, pg_dialect}
use artemis_light.SqlStore.{Sqlx, sort_key_too_large, SqlStore, sql_store_new}
use artemis_light.Position.Block.{block_position-IsLawful}
use artemis_light.SqlStore.Writers.{
  journaled, opened, CommitsPrefix, backfill-CommitsPrefix, CommitsLive, tail-CommitsLive,
}
use artemis_light.Writer.Core.{Backend, core_new}
use artemis_light.Position.{halt}
use artemis_light.Writer.Window.{seed_key, window_new}
use artemis_light.Writer.Window.Tail.{Indexed, event, retraction, follow}
use artemis_light.Writer.Block.Feed.{rows_of, backfill}
use artemis_light.SqlStore.Does.{IsTransactional}

abbrev Log : Type 0
Log = List (List ℕ × List (SqlValue Bool))

-- A row of an answer: a text and an integer, either of which may be missing.
abbrev Cells : Type 0
Cells = Option (List ℕ) × Option ℤ

-- Once something has been committed the progress row has no encoded position and the last block 7.
abbrev progress_of : List Log → Option Cells
progress_of [] = none
progress_of (l ∷ ls) = some (none, some (pos 7))

abbrev pub memory : Sqlx
memory = record {
  Failure = Option DatabaseError;
  Real = Bool;
  Db = List Log;
  Tx = Log;
  Cells = Cells;
  as_database = λ e. e;
  begin = λ db. (ok [], db);
  commit = λ tx db. (ok tt, db ++ tx ∷ []);
  abandon = λ tx db. db;
  execute = λ sql args tx. (ok tt, tx ++ (sql, args) ∷ []);
  fetch_optional = λ sql args tx. (ok none, tx ++ (sql, args) ∷ []);
  pool_fetch_optional = λ sql args db. (ok (progress_of db), db);
  pool_fetch_all = λ sql args db. (ok ((some (codes "x"), none) ∷ []), db);
  accepts = λ v. true;
  try_get_integer = λ r i. ok (pos 0);
  try_get_real = λ r i. ok true;
  try_get_text = λ r i. ok (codes "x");
  try_get_blob = λ r i. ok [];
  try_get_nullable_integer = λ r i. ok r.1;
  try_get_nullable_text = λ r i. ok r.0;
}

fresh : (tx : Log) → ◌≡◌ {A = Result (Option DatabaseError) Log} (ok []) (ok tx) → tx ≡ []
fresh tx e = cc

committed_ok :
    (f : Option DatabaseError)
    → ◌≡◌ {A = Result (Option DatabaseError) (Unit {0})} (ok tt) (err f)
    → ⊥
committed_ok f e = cc

memory-IsTransactional : IsTransactional memory
memory-IsTransactional = record {
  sent = λ tx. tx;
  committed = λ db. db;
  begin_sent = λ db tx e. fresh tx e;
  begin_keeps = λ db. refl;
  execute_sent = λ sql args tx. refl;
  fetch_sent = λ sql args tx. refl;
  commit_ok = λ tx db e. refl;
  commit_err = λ tx db f e. absurd (committed_ok f e);
  abandon_keeps = λ tx db. refl;
}

abbrev sqlite : Dialect (Option DatabaseError)
sqlite = sqlite_dialect (λ e. e)

abbrev notes : TableSchema
notes = record { table = codes "no\"tes"; columns = record { name = codes "body"; ty = text } ∷ [] }

abbrev store : SqlStore memory
store = sql_store_new []

abbrev note_rows : List (Row Bool)
note_rows = (text_value (codes "a") ∷ []) ∷ (text_value (codes "b") ∷ []) ∷ []

stored_position-block_example :
    (stored_position memory sqlite block_position (codes "t") ([] ∷ [])).0 ≡ ok (some 7)
stored_position-block_example =
    stored_position-block memory sqlite (codes "t") 7 (omega arith) refl ([] ∷ []) (inr refl) refl

replay-Fits_example :
    (i64_max < block_position.sort_key 7
      → replay memory sqlite block_position notes 7 []
        ≡ (err (sort_key_too_large (block_position.sort_key 7)), []))
    × ((rows : List (Row Bool))
        → (replay memory sqlite block_position notes 7 []).0 ≡ ok rows
        → (block_position.sort_key 7 ≤ i64_max) × All (Fits notes.columns) rows)
replay-Fits_example = replay-Fits memory sqlite block_position notes 7 []

abbrev postgres : Dialect (Option DatabaseError)
postgres = pg_dialect (λ e. e)

queries-read_example :
    (notes.columns ≢ []
      → read_select (replay_query sqlite notes)
        ≡ some (map (λ c. c.name) notes.columns, notes.table, replay_filter sqlite))
    × (read_from false (range_query sqlite (codes "a\"b") none)
        ≡ some (codes "a\"b" ∷ [], range_filter sqlite))
    × (read_from true (range_query sqlite (codes "a\"b") (some (codes "public")))
        ≡ some (codes "public" ∷ codes "a\"b" ∷ [], range_filter sqlite))
queries-read_example = queries-read sqlite notes (codes "a\"b") (codes "public")

-- The text that the tests of the source expect.
numbered_values :
    insert_statement postgres notes 2
    ≡ codes "INSERT INTO \"no\"\"tes\" (block_number, \"body\") VALUES ($1, $2), ($3, $4)"
unfolding insert_statement pg_dialect quote_ident to_decimal
numbered_values = refl

full_chunk : rows_per_chunk 2 ≡ 499
unfolding rows_per_chunk
full_chunk = refl

-- Two notes at block 7 and one at block 8, through a record that has its schema after the first.
abbrev note_encode : ℕ → Bool → Option (Row Bool) × Bool
note_encode e r = (some (text_value (codes "a") ∷ []), true)

abbrev note_schema : Bool → Option TableSchema
note_schema true = some notes
note_schema false = none

abbrev note_backend : Backend
note_backend =
    journaled memory-IsTransactional sqlite block_position (λ a b. false) note_encode note_schema
      store

abbrev first_notes : List (ℕ × ℕ)
first_notes = (7, 1) ∷ (7, 2) ∷ (8, 3) ∷ []

backfill-CommitsPrefix_example :
    CommitsPrefix memory-IsTransactional sqlite block_position
      (λ a b. false)
      note_encode
      note_schema
      store
      (rows_of note_backend
        (backfill note_backend
          (opened memory-IsTransactional sqlite block_position
            (λ a b. false)
            note_encode
            note_schema
            store)
          false
          none
          first_notes).0
        false)
      (backfill note_backend
        (opened memory-IsTransactional sqlite block_position
          (λ a b. false)
          note_encode
          note_schema
          store)
        false
        none
        first_notes).1
backfill-CommitsPrefix_example =
    backfill-CommitsPrefix memory-IsTransactional sqlite block_position (λ a b. false) note_encode
      note_schema store block_position-IsLawful (λ e r row q n. cc) false none first_notes

-- A reorg at block 8 and a retraction.
abbrev note_items : List (Indexed note_backend)
note_items = event 7 1 ∷ event 8 2 ∷ event 9 3 ∷ event 8 4 ∷ retraction 8 ∷ event 12 5 ∷ []

blocks_halt : block_position.reobservation ≡ halt
unfolding block_position
blocks_halt = refl

tail-CommitsLive_example :
    CommitsLive memory-IsTransactional sqlite block_position
      (λ a b. false)
      note_encode
      note_schema
      store
      (seed_key note_backend (some 5))
      (follow note_backend note_items (
        window_new note_backend
          (core_new note_backend
            (opened memory-IsTransactional sqlite block_position
              (λ a b. false)
              note_encode
              note_schema
              store)
            false)
          1
          (some 5)))
tail-CommitsLive_example =
    tail-CommitsLive memory-IsTransactional sqlite block_position (λ a b. false) note_encode
      note_schema store block_position-IsLawful (λ e r row q n. cc) blocks_halt false 1 (some 5)
      note_items
