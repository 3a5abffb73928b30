-- ===== src/Serving.antt =====
-- The read-only HTTP serving of src/serving: its errors and their responses (error.rs), and the
-- storage backend that the handlers use (the trait of backend.rs).
pub mod Rows
pub mod Routes
pub mod Guarded
pub mod Cells
pub mod Catalog
pub mod Agreeing
pub mod Served
pub mod Layer
use artemis_light.Prelude.{ℕ, Bool, List, [], ◌∷◌, codes, format, Result}
use artemis_light.Schema.{ℤ}

-- `Bounds` of rows.rs: the page that a query asks for.
pub record Bounds : Type 0 where
  pub from_block : ℕ
  pub to_block : ℕ
  pub limit : ℕ
  pub offset : ℕ

-- The trait `ServingBackend`. Each call may change the state of what it reads from.
pub record ServingBackend : Type 1 where
  pub State : Type 0
  pub Failure : Type 0
  pub Object : Type 0
  pub health : State → Result Failure (Unit {0}) × State
  pub list_tables : State → Result Failure (List (List ℕ)) × State
  pub table_exists : List ℕ → State → Result Failure Bool × State
  pub table_columns : List ℕ → State → Result Failure (List (List ℕ × List ℕ)) × State
  pub query_rows : List ℕ → Bounds → State → Result Failure (List Object) × State
  pub watermarks : State → Result Failure (List (List ℕ × ℤ)) × State

pub data ServingError (Failure : Type 0) : Type 0 where
  unknown_table invalid_query : List ℕ → ServingError Failure
  database : Failure → ServingError Failure
  unavailable : ServingError Failure

-- The bodies of the responses, before serde writes them.
pub data Body (Object : Type 0) : Type 0 where
  error_body health_body : List ℕ → Body Object
  tables_body : List (List ℕ) → Body Object
  schema_body : List ℕ → List (List ℕ × List ℕ) → Body Object
  rows_body : List Object → ℕ → ℕ → Body Object
  status_body : List (List ℕ × ℕ) → Body Object

pub record Response (Object : Type 0) : Type 0 where
  pub status : ℕ
  pub body : Body Object

-- `ServingError::into_response`
abbrev pub into_response : {Failure Object : Type 0} → ServingError Failure → Response Object
into_response (unknown_table table) = record {
  status = 404;
  body = error_body (format (codes "unknown table: " ∷ table ∷ []));
}
into_response (invalid_query param) = record {
  status = 400;
  body = error_body (format (codes "invalid query parameter: " ∷ param ∷ []));
}
into_response (database e) = record { status = 500; body = error_body (codes "database error") }
into_response unavailable = record {
  status = 503;
  body = error_body (codes "database unavailable");
}
