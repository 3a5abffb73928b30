-- ===== src/SqlStore.antt =====
-- `SqlStore` of src/persistence/sqlstore.rs. sqlx is a parameter: its pool, transactions and rows, and
-- whether it accepts a value as an argument.
pub mod Session
pub mod Write
pub mod Read
pub mod Does
pub mod Bound
pub mod Sent
pub mod Committed
pub mod Resumed
pub mod Replayed
pub mod Ledger
pub mod Writers
use artemis_light.Prelude.{ℕ, Bool, false, Option, List, Result}
use artemis_light.Schema.{ℤ, SqlValue}
use artemis_light.Dialect.{DatabaseError}

-- What the store calls of sqlx. `Db` is what the pool reaches, `Tx` a transaction on a connection of
-- it and `Cells` a row of an answer. `abandon` is the end of a transaction that is dropped.
pub record Sqlx : Type 1 where
  pub Failure : Type 0
  pub Real : Type 0
  pub Db : Type 0
  pub Tx : Type 0
  pub Cells : Type 0
  pub as_database : Failure → Option DatabaseError
  pub begin : Db → Result Failure Tx × Db
  pub commit : Tx → Db → Result Failure (Unit {0}) × Db
  pub abandon : Tx → Db → Db
  pub execute : List ℕ → List (SqlValue Real) → Tx → Result Failure (Unit {0}) × Tx
  pub fetch_optional : List ℕ → List (SqlValue Real) → Tx → Result Failure (Option Cells) × Tx
  pub pool_fetch_optional : List ℕ → List (SqlValue Real) → Db → Result Failure (Option Cells) × Db
  pub pool_fetch_all : List ℕ → List (SqlValue Real) → Db → Result Failure (List Cells) × Db
  pub accepts : SqlValue Real → Bool
  pub try_get_integer : Cells → ℕ → Result Failure ℤ
  pub try_get_real : Cells → ℕ → Result Failure Real
  pub try_get_text : Cells → ℕ → Result Failure (List ℕ)
  pub try_get_blob : Cells → ℕ → Result Failure (List ℕ)
  pub try_get_nullable_integer : Cells → ℕ → Result Failure (Option ℤ)
  pub try_get_nullable_text : Cells → ℕ → Result Failure (Option (List ℕ))

-- The errors that a store returns. `ddl_race` is the marker `DdlRace`.
pub data StoreError (Failure : Type 0) : Type 0 where
  ddl_race sqlx_failed : Failure → StoreError Failure
  cannot_bind null_last_block : StoreError Failure
  sort_key_too_large : ℕ → StoreError Failure
  row_shape : ℕ → ℕ → StoreError Failure
  undecodable : List ℕ → StoreError Failure

-- The pool and the flag of the one-shot migration.
pub record SqlStore (x : Sqlx) : Type 0 where
  pub pool : x.Db
  pub migration_checked : Bool

-- `SqlStore::new`
abbrev pub sql_store_new : {x : Sqlx} → x.Db → SqlStore x
sql_store_new pool = record { pool = pool; migration_checked = false }
