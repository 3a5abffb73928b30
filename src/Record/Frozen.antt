-- ===== src/Record/Frozen.antt =====
-- What an encode of src/persistence/record.rs makes of the record and of the event.
use artemis_light.Prelude.{
  ◌≡◌, refl, ap, subst, ◌≢◌, Option, none, some, [], ◌∷◌, arith, ok, err, ◌>>=◌, Result,
}
use artemis_light.Schema.{
  TableSchema, progress_table, SchemaError, ensure_no_reserved_names, Unreserved,
  ensure_no_reserved_names-Unreserved,
}
use artemis_light.Record.{
  ColumnsSource, declared_columns, inferred_columns, Record, declared, write_schema, EncodeError,
  freeze_columns, encode_row, event_columns, ensure_fields, frozen_by, with_payload, columns_of,
  encode_fields, encode_json,
}
use artemis_light.Record.Json.{Serde, Fields, field_map}

-- No column of the record is named like one that the persistence layer adds.
pub IsUnreserved : ColumnsSource → Type 0
IsUnreserved (declared_columns cs) = Unreserved cs
IsUnreserved (inferred_columns none) = Unit
IsUnreserved (inferred_columns (some cs)) = Unreserved cs

-- A record that is made from a schema has none of the reserved names, and neither that of the
-- store's progress table.
pub declared-IsUnreserved :
    (s : TableSchema) (r : Record)
    → declared s ≡ ok r
    → IsUnreserved r.columns × (r.table ≢ progress_table)
unfolding declared IsUnreserved
declared-IsUnreserved s r h = go (ensure_no_reserved_names s) refl h
  where
    made : Record
    made = record { table = s.table; columns = declared_columns s.columns }

    go :
        (x : Result SchemaError (Unit {0}))
        → ensure_no_reserved_names s ≡ x
        → (x >>= λ _. ok made) ≡ ok r
        → IsUnreserved r.columns × (r.table ≢ progress_table)
    go (ok u) q k =
        let same : made ≡ r = cc in
        subst (λ r. IsUnreserved r.columns × (r.table ≢ progress_table)) same
          (ensure_no_reserved_names-Unreserved s q)
    go (err e) q k = cc

module _ (j : Serde) where
  ensure_fields-Unreserved :
      (fields : Fields j) → ensure_fields j fields ≡ ok tt → Unreserved (columns_of j fields)
  unfolding ensure_fields columns_of
  ensure_fields-Unreserved [] h = tt
  ensure_fields-Unreserved ((name, (ty, v)) ∷ rest) h =
      (ground arith, ensure_fields-Unreserved rest (ground arith))

  freeze_columns-IsUnreserved :
      (fields : Fields j) (s : ColumnsSource)
      → IsUnreserved s
      → IsUnreserved (freeze_columns j fields s).1
  unfolding freeze_columns IsUnreserved
  freeze_columns-IsUnreserved fields (declared_columns cs) h = h
  freeze_columns-IsUnreserved fields (inferred_columns (some cs)) h = h
  freeze_columns-IsUnreserved fields (inferred_columns none) h = go (ensure_fields j fields) refl
    where
      go :
          (x : Result EncodeError (Unit {0}))
          → ensure_fields j fields ≡ x
          → IsUnreserved (frozen_by j fields x).1
      go (ok u) q = ensure_fields-Unreserved fields q
      go (err e) q = tt

  freeze_columns_kept :
      (fields : Fields j) (s : ColumnsSource)
      → event_columns s ≢ none
      → (freeze_columns j fields s).1 ≡ s
  unfolding freeze_columns event_columns
  freeze_columns_kept fields (declared_columns cs) h = refl
  freeze_columns_kept fields (inferred_columns (some cs)) h = refl
  freeze_columns_kept fields (inferred_columns none) h = absurd (h refl)

  -- An encode, whatever it returns, keeps the reserved names out of the columns, and leaves a record
  -- that has its columns just as it was.
  pub encode_row-IsUnreserved :
      (e : j.E) (r : Record)
      → (IsUnreserved r.columns → IsUnreserved (encode_row j e r).1.columns)
        × (write_schema r ≢ none → (encode_row j e r).1 ≡ r)
  unfolding encode_row write_schema
  encode_row-IsUnreserved e r = go (j.to_value e)
    where
      Keeps : Record → Type 0
      Keeps s = (IsUnreserved r.columns → IsUnreserved s.columns) × (write_schema r ≢ none → s ≡ r)

      has_columns : write_schema r ≢ none → event_columns r.columns ≢ none
      has_columns h = λ q. h (ap (with_payload r.table) q)

      by_fields : (json : j.Value) (x : Option (Fields j)) → Keeps (encode_fields j json x r).1
      by_fields json none = (λ h. h, λ h. refl)
      by_fields json (some fields) = (
        freeze_columns-IsUnreserved fields r.columns,
        λ h.
            ap (λ s. record r { columns = s })
              (freeze_columns_kept fields r.columns (has_columns h)),
      )

      go : (x : Option j.Value) → Keeps (encode_json j x r).1
      go none = (λ h. h, λ h. refl)
      go (some json) = by_fields json (field_map j json)
