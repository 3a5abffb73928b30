-- ===== src/Record.antt =====
-- `Record` of src/persistence/record.rs: the mapping between one event type and its SQL rows.
pub mod Json
pub mod Frozen
pub mod Rows
pub mod First
use artemis_light.Prelude.{
  ℕ, ◌+◌, ◌&&◌, Option, none, some, List, [], ◌∷◌, ◌++◌, ok, err, leb, ◌==◌, if◌then◌else◌, ◌>>=◌,
  Result,
}
use artemis_light.Schema.{
  SqlType, integer, text, Column, TableSchema, schema_new, col, payload_column, is_implicit,
  SchemaError, ensure_no_reserved_names, SqlValue, text_value, null, Row,
}
use artemis_light.Record.Json.{Serde, get, Fields, field_map}

-- `ColumnsSource`, the lock of the inferred columns being unset or set for good.
pub data ColumnsSource : Type 0 where
  declared_columns : List Column → ColumnsSource
  inferred_columns : Option (List Column) → ColumnsSource

pub record Record : Type 0 where
  pub table : List ℕ
  pub columns : ColumnsSource

-- `Record::inferred`
abbrev pub inferred : List ℕ → Record
inferred table = record { table = table; columns = inferred_columns none }

-- `Record::declared`
unfoldable pub declared : TableSchema → Result SchemaError Record
declared s = do
  _ ← ensure_no_reserved_names s
  ok (record { table = s.table; columns = declared_columns s.columns })

-- `Record::new`, with the name that `table_name` derives from the signature.
unfoldable pub record_new : List ℕ → Option TableSchema → Result SchemaError Record
record_new name none = ok (inferred name)
record_new name (some s) = declared s

event_columns : ColumnsSource → Option (List Column)
event_columns (declared_columns cs) = some cs
event_columns (inferred_columns lock) = lock

with_payload : List ℕ → Option (List Column) → Option TableSchema
with_payload table none = none
with_payload table (some cs) =
    some
      (record { table = table; columns = cs ++ record { name = payload_column; ty = text } ∷ [] })

-- `Record::schema`
unfoldable pub write_schema : Record → Option TableSchema
unfolding event_columns with_payload
write_schema r = with_payload r.table (event_columns r.columns)

-- `Record::payload_schema`
unfoldable pub payload_schema : Record → TableSchema
payload_schema r = col payload_column text (schema_new r.table)

pub data EncodeError : Type 0 where
  not_serialisable not_an_object : EncodeError
  reserved_field does_not_fit : List ℕ → EncodeError

module _ (j : Serde) where
  ensure_fields : Fields j → Result EncodeError (Unit {0})
  ensure_fields [] = ok tt
  ensure_fields ((name, field) ∷ rest) =
      let later = ensure_fields rest in
      if is_implicit name then err (reserved_field name) else later

  columns_of : Fields j → List Column
  columns_of [] = []
  columns_of ((name, (ty, value)) ∷ rest) = record { name = name; ty = ty } ∷ columns_of rest

  frozen_by :
      Fields j → Result EncodeError (Unit {0}) → Result EncodeError (List Column) × ColumnsSource
  unfolding columns_of
  frozen_by fields (ok _) = (ok (columns_of fields), inferred_columns (some (columns_of fields)))
  frozen_by fields (err e) = (err e, inferred_columns none)

  -- `Record::freeze_columns`
  unfoldable pub freeze_columns :
      Fields j → ColumnsSource → Result EncodeError (List Column) × ColumnsSource
  unfolding frozen_by ensure_fields
  freeze_columns fields (declared_columns cs) = (ok cs, declared_columns cs)
  freeze_columns fields (inferred_columns (some cs)) = (ok cs, inferred_columns (some cs))
  freeze_columns fields (inferred_columns none) = frozen_by fields (ensure_fields fields)

  -- `ensure_value_fits`
  unfoldable pub ensure_value_fits : Column → SqlValue j.Real → Result EncodeError (Unit {0})
  ensure_value_fits c v = fits c.ty v
    where
      fits : SqlType → SqlValue j.Real → Result EncodeError (Unit {0})
      fits integer (text_value t) = err (does_not_fit c.name)
      fits _ _ = ok tt

  field_value : Option (SqlType × SqlValue j.Real) → SqlValue j.Real
  field_value none = null
  field_value (some (ty, v)) = v

  -- The loop of `Record::encode` over the columns.
  unfoldable pub values_for : List Column → Fields j → Result EncodeError (Row j.Real)
  unfolding field_value
  values_for [] fields = ok []
  values_for (c ∷ cs) fields = do
    let value = field_value (get c.name fields)
    _ ← ensure_value_fits c value
    rest ← values_for cs fields
    ok (value ∷ rest)

  aligned : j.Value → Fields j → Result EncodeError (List Column) → Result EncodeError (Row j.Real)
  aligned json fields columns = do
    cs ← columns
    values ← values_for cs fields
    ok (values ++ text_value (j.to_string json) ∷ [])

  encode_fields : j.Value → Option (Fields j) → Record → Result EncodeError (Row j.Real) × Record
  unfolding aligned
  encode_fields json none r = (err not_an_object, r)
  encode_fields json (some fields) r =
      let (columns, source) = freeze_columns fields r.columns in
      (aligned json fields columns, record r { columns = source })

  encode_json : Option j.Value → Record → Result EncodeError (Row j.Real) × Record
  unfolding encode_fields
  encode_json none r = (err not_serialisable, r)
  encode_json (some json) r = encode_fields json (field_map j json) r

  -- `Record::encode`
  unfoldable pub encode_row : j.E → Record → Result EncodeError (Row j.Real) × Record
  unfolding encode_json
  encode_row e r = encode_json (j.to_value e) r

  -- `Record::decode`
  abbrev pub decode : List ℕ → Option j.E
  decode payload = j.from_str payload

-- `to_snake_case` past the first character.
snake_rest : List ℕ → List ℕ
snake_rest [] = []
snake_rest (c ∷ s) =
    let rest = snake_rest s in if leb b'A' c && leb c b'Z' then b'_' ∷ (c + 32) ∷ rest else c ∷ rest

-- `to_snake_case`
unfoldable pub to_snake_case : List ℕ → List ℕ
unfolding snake_rest
to_snake_case [] = []
to_snake_case (c ∷ s) = (if leb b'A' c && leb c b'Z' then c + 32 else c) ∷ snake_rest s

before_paren : List ℕ → List ℕ
before_paren [] = []
before_paren (c ∷ s) = let rest = before_paren s in if c == b'(' then [] else c ∷ rest

-- `table_name` of an event signature.
unfoldable pub table_name : List ℕ → List ℕ
unfolding before_paren
table_name signature = to_snake_case (before_paren signature)
