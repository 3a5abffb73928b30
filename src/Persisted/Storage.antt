-- ===== src/Persisted/Storage.antt =====
-- What a `Persisted` of src/persistence/persisted.rs is paired with: a store and a collector, both
-- parameters, and the writers' backend that the store and the record make together.
use artemis_light.Prelude.{ℕ, ◌≡◌, refl, ◌≢◌, Bool, Option, none, some, List, ok, err, Result}
use artemis_light.Position.{Position}
use artemis_light.Schema.{TableSchema, Row}
use artemis_light.Record.{Record, write_schema, EncodeError, encode_row}
use artemis_light.Record.Json.{Serde}
use artemis_light.Record.Rows.{encode_row-MadeFrom}
use artemis_light.Writer.Core.{Backend}
use artemis_light.Writer.Window.Tail.{Indexed}
use artemis_light.Persisted.Source.{Ranged}

-- The trait `Store` and the position type.
pub record Storage (j : Serde) : Type 1 where
  pub P : Type 0
  pub Db : Type 0
  pub Failure : Type 0
  pub pos : Position P
  pub same_row : Row j.Real → Row j.Real → Bool
  pub write : TableSchema → P → List (Row j.Real) → Db → Bool × Db
  pub stored_position : List ℕ → Db → Result Failure (Option P) × Db
  pub replay : TableSchema → P → Db → Result Failure (List (Row j.Real)) × Db

-- The trait `PersistableCollector`.
pub record Collector (P E : Type 0) (Item : Type 0) : Type 1 where
  pub State : Type 0
  pub Failure : Type 0
  pub text : Failure → List ℕ
  pub subscribe_indexed : State → Result Failure (List Item) × State
  pub query_range : P → P → State → Result Failure (List (P × E)) × State
  pub tip : State → Result Failure P × State

module _ (j : Serde) (s : Storage j) where
  abbrev pub row_or_none : Result EncodeError (Row j.Real) → Option (Row j.Real)
  row_or_none (ok row) = some row
  row_or_none (err e) = none

  -- The store and the record as the writers use them.
  abbrev pub record_backend : Backend
  record_backend = record {
    P = s.P;
    E = j.E;
    Row = Row j.Real;
    Schema = TableSchema;
    Db = s.Db;
    Rec = Record;
    pos = s.pos;
    row_eq = s.same_row;
    write = s.write;
    encode = λ e r. (row_or_none (encode_row j e r).0, (encode_row j e r).1);
    schema = write_schema;
  }

  -- The ranges that the collector answers.
  abbrev pub ranged : Collector s.P j.E (Indexed record_backend) → Ranged
  ranged c = record {
    P = s.P;
    E = j.E;
    State = c.State;
    Failure = c.Failure;
    pos = s.pos;
    text = c.text;
    query_range = c.query_range;
  }

  -- The record keeps the promise that the writers rely on: after a row it has a schema to write
  -- under, the columns of the row and then the payload's.
  pub record_backend-schema :
      (e : j.E) (r : Record) (row : Row j.Real)
      → (record_backend.encode e r).0 ≡ some row
      → record_backend.schema (record_backend.encode e r).1 ≢ none
  record_backend-schema e r row h = go (encode_row j e r).0 refl h
    where
      go :
          (x : Result EncodeError (Row j.Real))
          → (encode_row j e r).0 ≡ x
          → row_or_none x ≡ some row
          → write_schema (encode_row j e r).1 ≢ none
      go (err f) q k = cc
      go (ok v) q k = λ n. let made = encode_row-MadeFrom j e r v q in cc (made.from_record)
