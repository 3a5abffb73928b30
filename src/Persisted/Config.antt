-- ===== src/Persisted/Config.antt =====
-- The configuration of `Persisted` in src/persistence/persisted.rs: its fields beside the collector
-- and the store, and its builder methods.
use artemis_light.Prelude.{
  ℕ, ◌≡◌, refl, subst, Bool, false, Option, none, some, List, ok, err, ◌>>=◌, Result,
}
use artemis_light.Schema.{TableSchema, SchemaError, ensure_no_reserved_names}
use artemis_light.Record.{declared_columns, Record, inferred, declared, table_name}

pub record Persisted : Type 0 where
  pub schema : Option TableSchema
  pub table : Option (List ℕ)
  pub start_block : ℕ
  pub backfill_chunk_size : ℕ
  pub confirmation_depth : ℕ
  pub to_block : Option ℕ
  pub replayed : Bool

abbrev default_backfill_chunk_size : ℕ
default_backfill_chunk_size = 1000

-- `Persisted::new`
abbrev pub persisted_new : Persisted
persisted_new = record {
  schema = none;
  table = none;
  start_block = 0;
  backfill_chunk_size = default_backfill_chunk_size;
  confirmation_depth = 1;
  to_block = none;
  replayed = false;
}

-- `with_to_block`
abbrev pub with_to_block : ℕ → Persisted → Persisted
with_to_block block p = record p { to_block = some block }

-- `with_table`
abbrev pub with_table : List ℕ → Persisted → Persisted
with_table name p = record p { table = some name }

-- `try_with_schema`
unfoldable pub try_with_schema : TableSchema → Persisted → Result SchemaError Persisted
try_with_schema s p = do _ ← ensure_no_reserved_names s; ok (record p { schema = some s })

-- `with_start_block`
abbrev pub with_start_block : ℕ → Persisted → Persisted
with_start_block block p = record p { start_block = block }

-- `with_backfill_chunk_size`, for a `NonZeroU64`.
abbrev pub with_backfill_chunk_size : ℕ → Persisted → Persisted
with_backfill_chunk_size blocks p = record p { backfill_chunk_size = blocks }

-- `with_confirmation_depth`, for a `NonZeroU64`.
abbrev pub with_confirmation_depth : ℕ → Persisted → Persisted
with_confirmation_depth depth p = record p { confirmation_depth = depth }

-- `PersistExt::with_persistence`, for an event type with this Solidity signature.
abbrev pub with_persistence : List ℕ → Persisted
with_persistence signature = with_table (table_name signature) persisted_new

-- `PersistExt::with_persistence_named`
abbrev pub with_persistence_named : List ℕ → Persisted
with_persistence_named name = with_table name persisted_new

-- `PersistExt::persisted`
abbrev pub persisted : List ℕ → ℕ → ℕ → Persisted
persisted signature start_block depth =
    with_confirmation_depth depth (with_start_block start_block (with_persistence signature))

pub data ResolveError : Type 0 where
  no_table_name : ResolveError
  invalid_schema : SchemaError → ResolveError

declared_or : Result SchemaError Record → Result ResolveError Record
declared_or (ok r) = ok r
declared_or (err e) = err (invalid_schema e)

-- `resolve_record`
unfoldable pub resolve_record : Option TableSchema → Option (List ℕ) → Result ResolveError Record
unfolding declared_or
resolve_record (some s) table = declared_or (declared s)
resolve_record none (some table) = ok (inferred table)
resolve_record none none = err no_table_name

-- After a schema was accepted every subscribe has its record, with that schema's table and columns,
-- whatever table name is set beside it.
pub resolve_record-try_with_schema :
    (s : TableSchema) (p q : Persisted) (table : Option (List ℕ))
    → try_with_schema s p ≡ ok q
    → resolve_record q.schema table
      ≡ ok (record { table = s.table; columns = declared_columns s.columns })
unfolding try_with_schema resolve_record declared
resolve_record-try_with_schema s p q table h = go (ensure_no_reserved_names s) refl h
  where
    go :
        (x : Result SchemaError (Unit {0}))
        → ensure_no_reserved_names s ≡ x
        → (x >>= λ _. ok (record p { schema = some s })) ≡ ok q
        → resolve_record q.schema table
          ≡ ok (record { table = s.table; columns = declared_columns s.columns })
    go (err e) y k = cc
    go (ok u) y k =
        let set : some s ≡ q.schema = cc in
        subst
          (λ o.
            resolve_record o table
            ≡ ok (record { table = s.table; columns = declared_columns s.columns }))
          set (rw y refl)
