-- ===== src/Record/First.antt =====
-- The first event of an inferred `Record` of src/persistence/record.rs against the columns that it
-- freezes itself.
use artemis_light.Prelude.{ℕ, ◌≡◌, refl, ◌≢◌, false, some, List, [], ◌∷◌, ◌++◌, map, ok, All}
use artemis_light.Schema.{
  SqlType, integer, real, text, blob, numeric, is_implicit, SqlValue, integer_value, real_value,
  text_value, blob_value, null,
}
use artemis_light.Record.{
  inferred, freeze_columns, ensure_value_fits, values_for, encode_row, columns_of, ensure_fields,
  aligned,
}
use artemis_light.Record.Json.{Serde, get, Fields, field_map}
use artemis_light.Record.Json.Ordered.{get-Ascending, IsDocumented, FitsOwn, field_map-Ordered}

module _ (j : Serde) where
  ensure_value_fits_lem :
      (name : List ℕ) (ty : SqlType) (v : SqlValue j.Real)
      → (ty ≡ integer → (t : List ℕ) → v ≢ text_value t)
      → ensure_value_fits j (record { name = name; ty = ty }) v ≡ ok tt
  unfolding ensure_value_fits
  ensure_value_fits_lem name integer (integer_value i) h = refl
  ensure_value_fits_lem name integer (real_value x) h = refl
  ensure_value_fits_lem name integer (text_value t) h = absurd (h refl t refl)
  ensure_value_fits_lem name integer (blob_value b) h = refl
  ensure_value_fits_lem name integer null h = refl
  ensure_value_fits_lem name real v h = refl
  ensure_value_fits_lem name text v h = refl
  ensure_value_fits_lem name blob v h = refl
  ensure_value_fits_lem name numeric v h = refl

  ensure_fields_lem :
      (fields : Fields j)
      → All (λ f. is_implicit f.0 ≡ false) fields
      → ensure_fields j fields ≡ ok tt
  unfolding ensure_fields
  ensure_fields_lem [] h = refl
  ensure_fields_lem ((name, field) ∷ rest) h = rw h.0 (ensure_fields_lem rest h.1)

module _ (j : Serde) (d : IsDocumented j) where
  values_for-own :
      (part fields : Fields j)
      → All (λ e. get e.0 fields ≡ some e.1) part
      → All (FitsOwn j d) part
      → values_for j (columns_of j part) fields ≡ ok (map (λ e. e.1.1) part)
  unfolding values_for columns_of FitsOwn
  values_for-own [] fields h k = refl
  values_for-own ((name, (ty, v)) ∷ rest) fields h k =
      rw (h.0, ensure_value_fits_lem j name ty v k.0, values_for-own rest fields h.1 k.1) refl

  -- The first event of an inferred record always fits the columns that it freezes: a JSON object
  -- without a reserved field name has as its row the values of its fields, in the order of their
  -- names, and its payload.
  pub encode_first :
      (e : j.E) (table : List ℕ) (json : j.Value) (fields : Fields j)
      → j.to_value e ≡ some json
      → field_map j json ≡ some fields
      → All (λ f. is_implicit f.0 ≡ false) fields
      → (encode_row j e (inferred table)).0
        ≡ ok (map (λ f. f.1.1) fields ++ text_value (j.to_string json) ∷ [])
  unfolding encode_row freeze_columns aligned
  encode_first e table json fields p q h =
      let (ordered, fit) = field_map-Ordered j d json fields q in
      rw
        (
          p,
          q,
          ensure_fields_lem j fields h,
          values_for-own fields fields (get-Ascending fields ordered) fit,
        )
        refl
