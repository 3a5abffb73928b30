-- ===== src/Tests/Records.antt =====
-- Concrete runs of the record and of quoting, on events that are amounts.
use artemis_light.Prelude.{
  ℕ, ◌≡◌, refl, subst, ◌≢◌, ◌⊎◌, inl, inr, Bool, true, false, none, some, List, [], ◌∷◌, arith, ok,
  leb, if◌then◌else◌, leb→le, le→leb, u64_max, i64_max, codes,
}
use artemis_light.Position.Decimal.{to_decimal, parse_u64, parse_u64-to_decimal}
use artemis_light.Schema.{
  integer, TableSchema, ensure_no_reserved_names, pos, integer_value, text_value, Row,
}
use artemis_light.Record.{
  declared_columns, Record, declared, freeze_columns, ensure_value_fits, values_for, encode_row,
}
use artemis_light.Record.Json.{
  Shape, number_json, object_json, Serde, insert, Fields, infer_type, json_to_sql, field_map,
}
use artemis_light.Record.Json.Ordered.{IsDocumented}
use artemis_light.Record.Rows.{MadeFrom, encode_row-MadeFrom}
use artemis_light.Persisted.Config.{
  Persisted, persisted_new, try_with_schema, resolve_record, resolve_record-try_with_schema,
}

-- An amount up to u64::MAX is an object with one field; a real number is left to a Boolean.
abbrev amount_shape : ℕ ⊎ ℕ → Shape ℕ (ℕ ⊎ ℕ)
amount_shape (inl e) = object_json ((codes "amount", inr e) ∷ [])
amount_shape (inr n) = number_json n

abbrev amount_text : ℕ ⊎ ℕ → List ℕ
amount_text (inl e) = to_decimal e
amount_text (inr n) = to_decimal n

abbrev pub amounts : Serde
amounts = record {
  E = ℕ;
  Value = ℕ ⊎ ℕ;
  Number = ℕ;
  Real = Bool;
  zero_real = false;
  to_value = λ e. if leb e u64_max then some (inl e) else none;
  from_str = parse_u64;
  to_string = amount_text;
  shape = amount_shape;
  is_i64 = λ n. leb n i64_max;
  is_u64 = λ n. leb n u64_max;
  as_i64 = λ n. if leb n i64_max then some (pos n) else none;
  as_u64 = λ n. if leb n u64_max then some n else none;
  as_f64 = λ n. none;
}

if_some :
    {A : Type 0} (b : Bool) (x y : A) → (if b then some x else none) ≡ some y → (b ≡ true) × (x ≡ y)
if_some true x y h = let same : x ≡ y = cc in (refl, same)
if_some false x y h = cc

if_not_none : {A : Type 0} (b : Bool) (x : A) → b ≡ true → (if b then some x else none) ≢ none
if_not_none true x h = λ e. cc
if_not_none false x h = cc

amounts-IsDocumented : IsDocumented amounts
amounts-IsDocumented = record {
  reads_i64 = λ n h. if_not_none (leb n i64_max) (pos n) h;
  small_u64 = λ n u h l.
      let same : n ≡ u = (if_some (leb n u64_max) n u h).1 in le→leb n i64_max (omega arith);
}

pub amounts_read_back :
    (e : ℕ) (json : ℕ ⊎ ℕ)
    → amounts.to_value e ≡ some json
    → amounts.from_str (amounts.to_string json) ≡ some e
amounts_read_back e json h =
    let (small, same) = if_some {A = ℕ ⊎ ℕ} (leb e u64_max) (inl e) json h in
    subst (λ v. parse_u64 (amount_text v) ≡ some e) same
      (parse_u64-to_decimal e (leb→le e u64_max small))

abbrev pub payments : TableSchema
payments = record {
  table = codes "payments";
  columns = record { name = codes "amount"; ty = integer } ∷ [];
}

abbrev pub payments_record : Record
payments_record = record { table = codes "payments"; columns = declared_columns payments.columns }

payments_made : declared payments ≡ ok payments_record
unfolding declared ensure_no_reserved_names
payments_made = refl

abbrev five : Row Bool
five = integer_value (pos 5) ∷ text_value (codes "5") ∷ []

five_encoded : (encode_row amounts 5 payments_record).0 ≡ ok five
unfolding encode_row freeze_columns values_for ensure_value_fits infer_type json_to_sql field_map
    insert to_decimal
five_encoded = refl

encode_row-MadeFrom_example : MadeFrom amounts 5 (encode_row amounts 5 payments_record).1 five
encode_row-MadeFrom_example = encode_row-MadeFrom amounts 5 payments_record five five_encoded

abbrev five_fields : Fields amounts
five_fields = (codes "amount", (integer, integer_value (pos 5))) ∷ []

five_mapped : field_map amounts (inl 5) ≡ some five_fields
unfolding field_map infer_type json_to_sql insert
five_mapped = refl

abbrev with_payments : Persisted
with_payments = record persisted_new { schema = some payments }

payments_accepted : try_with_schema payments persisted_new ≡ ok with_payments
unfolding try_with_schema ensure_no_reserved_names
payments_accepted = refl

resolve_record-try_with_schema_example :
    resolve_record with_payments.schema (some (codes "other")) ≡ ok payments_record
resolve_record-try_with_schema_example =
    resolve_record-try_with_schema payments persisted_new with_payments (some (codes "other"))
      payments_accepted
