-- ===== src/SqlStore/Writers.antt =====
-- What a backfill of src/persistence/writer/block.rs and a live tail of src/persistence/writer/window.rs
-- commit through the store of src/persistence/sqlstore.rs.
use mathlib.Core.List.{append-nil}
use artemis_light.Prelude.{ℕ, ◌≡◌, sym, subst, ◌≢◌, Bool, true, Option, none, some, List, [], ◌++◌}
use artemis_light.Position.{Position, IsLawful, halt}
use artemis_light.Schema.{TableSchema, Row}
use artemis_light.Dialect.{Dialect}
use artemis_light.SqlStore.{Sqlx, SqlStore}
use artemis_light.SqlStore.Does.{Statement, IsTransactional}
use artemis_light.SqlStore.Ledger.{Group, Each, Ledger, sql_backend, sql_backend-IsFaithful}
use artemis_light.Writer.Core.{Backend, IsFaithful, core_new}
use artemis_light.Writer.Window.{ConfirmationWindow, seed_key, window_new}
use artemis_light.Writer.Window.Flush.{Later}
use artemis_light.Writer.Window.Tail.{Indexed, follow, tail-IsLive}
use artemis_light.Writer.Log.{Ascending, flat}
use artemis_light.Writer.Block.{BlockWriter}
use artemis_light.Writer.Block.Feed.{rows_of, backfill}
use artemis_light.Writer.Block.Grouping.{backfill-IsPrefix}

module _ {x : Sqlx} (h : IsTransactional x) (d : Dialect x.Failure) {P : Type 0} (p : Position P)
    {E Rec : Type 0} (row_eq : Row x.Real → Row x.Real → Bool)
    (encode : E → Rec → Option (Row x.Real) × Rec) (schema : Rec → Option TableSchema)
    (store : SqlStore x) where
  -- The journal begins with nothing, whatever the database has committed before.
  abbrev pub opened : Ledger h d p (h.committed store.pool)
  opened = record {
    store = store;
    journal = [];
    transactions = [];
    committed_are = sym (append-nil (h.committed store.pool));
    each = tt;
  }

  abbrev pub journaled : Backend
  journaled = sql_backend h d p (h.committed store.pool) row_eq encode schema

  faithful :
      IsLawful p
      → ((e : E) (r : Rec) (row : Row x.Real)
          → (encode e r).0 ≡ some row
          → schema (encode e r).1 ≢ none)
      → IsFaithful journaled
  faithful = sql_backend-IsFaithful h d p (h.committed store.pool) row_eq encode schema

  -- The database has committed what it had before and then, as one transaction each, the writes of
  -- groups whose keys rise strictly and whose rows are a prefix of `rows`, and all of them if the
  -- writer has not halted.
  pub record CommitsPrefix (rows : List (ℕ × Row x.Real)) (w : BlockWriter journaled) : Type 0 where
    pub groups : List (Group h d p)
    pub rest : List (ℕ × Row x.Real)
    pub transactions : List (List (Statement x))
    pub committed_are : h.committed w.core.store.store.pool ≡ h.committed store.pool ++ transactions
    pub each : Each h d p groups transactions
    pub ascending : Ascending p groups
    pub split : flat p groups ++ rest ≡ rows
    pub complete : w.core.healthy ≡ true → rest ≡ []

  -- Over a lawful position and a record that has a schema once it has encoded, and whatever the
  -- database and the encoding answer, a backfill through the SQL store into a fresh writer has
  -- committed the write of each of its groups and no other transaction, in order of strictly rising
  -- sort keys, and each as one transaction with the watermark that covers it; the rows of the groups
  -- are, without a gap, the first rows of the events delivered, and if the writer is healthy at the
  -- end they are all of them.
  pub backfill-CommitsPrefix :
      (lawful : IsLawful p)
      (encode_schema : (e : E) (r : Rec) (row : Row x.Real)
        → (encode e r).0 ≡ some row
        → schema (encode e r).1 ≢ none)
      (rec : Rec) (seed : Option P) (events : List (P × E))
      → CommitsPrefix
          (rows_of journaled (backfill journaled opened rec seed events).0 rec)
          (backfill journaled opened rec seed events).1
  unfolding faithful sql_backend-IsFaithful
  backfill-CommitsPrefix lawful encode_schema rec seed events =
      let prefix =
        backfill-IsPrefix journaled (faithful lawful encode_schema) opened rec seed events in
      let end = (backfill journaled opened rec seed events).1.core.store in
      record {
        groups = prefix.log;
        rest = prefix.rest;
        transactions = end.transactions;
        committed_are = end.committed_are;
        each = subst (λ gs. Each h d p gs end.transactions) prefix.stored end.each;
        ascending = prefix.ascending;
        split = prefix.split;
        complete = prefix.complete;
      }

  -- The database has committed what it had before and then, as one transaction each, the writes of
  -- groups whose keys rise strictly and, where the window resumed at a key, above it.
  pub record CommitsLive (resumed : Option ℕ) (w : ConfirmationWindow journaled) : Type 0 where
    pub groups : List (Group h d p)
    pub transactions : List (List (Statement x))
    pub committed_are : h.committed w.core.store.store.pool ≡ h.committed store.pool ++ transactions
    pub each : Each h d p groups transactions
    pub ascending : Ascending p groups
    pub later : Later journaled resumed groups

  -- Over a lawful position that halts on a re-observation and a record that has a schema once it has
  -- encoded, and whatever is observed, retracted, encoded and answered by the database, a window
  -- resumed at a seed has committed through the SQL store, each as one transaction with the watermark
  -- that covers it, the writes of groups of strictly rising sort keys above the seed's, and nothing
  -- else.
  pub tail-CommitsLive :
      (lawful : IsLawful p)
      (encode_schema : (e : E) (r : Rec) (row : Row x.Real)
        → (encode e r).0 ≡ some row
        → schema (encode e r).1 ≢ none)
      (halts : p.reobservation ≡ halt) (rec : Rec) (depth : ℕ) (seed : Option P)
      (items : List (Indexed journaled))
      → CommitsLive
          (seed_key journaled seed)
          (follow journaled items (window_new journaled (core_new journaled opened rec) depth seed))
  unfolding faithful sql_backend-IsFaithful
  tail-CommitsLive lawful encode_schema halts rec depth seed items =
      let live =
        tail-IsLive journaled (faithful lawful encode_schema) halts opened rec depth seed items in
      let end =
        (follow journaled items
          (window_new journaled (core_new journaled opened rec) depth seed)).core.store in
      record {
        groups = live.log;
        transactions = end.transactions;
        committed_are = end.committed_are;
        each = subst (λ gs. Each h d p gs end.transactions) live.stored end.each;
        ascending = live.ascending;
        later = live.later;
      }
