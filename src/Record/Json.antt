-- ===== src/Record/Json.antt =====
-- The JSON side of src/persistence/record.rs: the fields of an event with their SQL types and values.
-- serde_json is a parameter.
pub mod Ordered
use artemis_light.Prelude.{
  ℕ, Bool, true, false, Option, none, some, List, [], ◌∷◌, ltb, if◌then◌else◌, i64_max, unwrap_or,
  same_text, text_before,
}
use artemis_light.Position.Decimal.{to_decimal}
use artemis_light.Schema.{
  SqlType, integer, real, text, ℤ, pos, SqlValue, integer_value, real_value, text_value, null,
}

-- The cases of a JSON value that the program tells apart.
pub data Shape (Number Value : Type 0) : Type 0 where
  null_json array_json : Shape Number Value
  bool_json : Bool → Shape Number Value
  number_json : Number → Shape Number Value
  string_json : List ℕ → Shape Number Value
  object_json : List (List ℕ × Value) → Shape Number Value

-- What the program calls of serde and serde_json on the event type `E`.
pub record Serde : Type 1 where
  pub E : Type 0
  pub Value : Type 0
  pub Number : Type 0
  pub Real : Type 0
  pub zero_real : Real
  pub to_value : E → Option Value
  pub from_str : List ℕ → Option E
  pub to_string : Value → List ℕ
  pub shape : Value → Shape Number Value
  pub is_i64 : Number → Bool
  pub is_u64 : Number → Bool
  pub as_i64 : Number → Option ℤ
  pub as_u64 : Number → Option ℕ
  pub as_f64 : Number → Option Real

-- A `BTreeMap<String, _>` as the list of its entries in the order of their names.
module _ {V : Type 0} where
  abbrev pub get : List ℕ → List (List ℕ × V) → Option V
  get name [] = none
  get name ((k, v) ∷ m) = if same_text name k then some v else get name m

  unfoldable pub insert : List ℕ → V → List (List ℕ × V) → List (List ℕ × V)
  insert name v [] = (name, v) ∷ []
  insert name v ((k, w) ∷ m) =
      let later = insert name v m in
      if same_text name k
      then (name, v) ∷ m
      else (if text_before name k then (name, v) ∷ (k, w) ∷ m else (k, w) ∷ later)

module _ (j : Serde) where
  abbrev pub Fields : Type 0
  Fields = List (List ℕ × (SqlType × SqlValue j.Real))

  u64_type : Option ℕ → SqlType
  u64_type none = integer
  u64_type (some u) = if ltb i64_max u then text else integer

  number_type : j.Number → SqlType
  unfolding u64_type
  number_type n =
      if j.is_i64 n then integer else (if j.is_u64 n then u64_type (j.as_u64 n) else real)

  shape_type : Shape j.Number j.Value → SqlType
  unfolding number_type
  shape_type (bool_json b) = integer
  shape_type (number_json n) = number_type n
  shape_type (string_json s) = text
  shape_type null_json = text
  shape_type array_json = text
  shape_type (object_json fields) = text

  -- `infer_type`
  unfoldable pub infer_type : j.Value → SqlType
  unfolding shape_type
  infer_type v = shape_type (j.shape v)

  number_value : j.Number → Option ℤ → Option ℕ → SqlValue j.Real
  number_value n (some i) u = integer_value i
  number_value n none (some u) = text_value (to_decimal u)
  number_value n none none = real_value (unwrap_or (j.as_f64 n) j.zero_real)

  bool_value : Bool → SqlValue j.Real
  bool_value true = integer_value (pos 1)
  bool_value false = integer_value (pos 0)

  shape_value : j.Value → Shape j.Number j.Value → SqlValue j.Real
  unfolding number_value bool_value
  shape_value v null_json = null
  shape_value v (bool_json b) = bool_value b
  shape_value v (number_json n) = number_value n (j.as_i64 n) (j.as_u64 n)
  shape_value v (string_json s) = text_value s
  shape_value v array_json = text_value (j.to_string v)
  shape_value v (object_json fields) = text_value (j.to_string v)

  -- `json_to_sql`
  unfoldable pub json_to_sql : j.Value → SqlValue j.Real
  unfolding shape_value
  json_to_sql v = shape_value v (j.shape v)

  collected : List (List ℕ × j.Value) → Fields → Fields
  collected [] m = m
  collected ((name, v) ∷ rest) m = collected rest (insert name (infer_type v, json_to_sql v) m)

  object_fields : Shape j.Number j.Value → Option Fields
  unfolding collected
  object_fields (object_json fields) = some (collected fields [])
  object_fields null_json = none
  object_fields array_json = none
  object_fields (bool_json b) = none
  object_fields (number_json n) = none
  object_fields (string_json s) = none

  -- `field_map`: `none` where the event is not a JSON object.
  unfoldable pub field_map : j.Value → Option Fields
  unfolding object_fields
  field_map v = object_fields (j.shape v)
