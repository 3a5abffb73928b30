-- ===== src/Record/Rows.antt =====
-- The rows that `Record::encode` of src/persistence/record.rs makes.
use artemis_light.Prelude.{
  ℕ, ◌≡◌, refl, ap, subst, ◌≢◌, Option, none, some, List, [], ◌∷◌, ◌++◌, ok, err, ◌>>=◌, Result,
}
use artemis_light.Schema.{integer, text, Column, payload_column, SqlValue, text_value, Row}
use artemis_light.Record.{
  ColumnsSource, declared_columns, inferred_columns, Record, write_schema, EncodeError,
  freeze_columns, ensure_value_fits, values_for, encode_row, field_value, event_columns, aligned,
  frozen_by, with_payload, encode_fields, ensure_fields, encode_json,
}
use artemis_light.Record.Json.{Serde, get, Fields, field_map}

module _ (j : Serde) where
  -- Each value is that of the field of its column's name, or null if the event has none, and an
  -- INTEGER column has no text.
  pub Fits : List Column → Fields j → Row j.Real → Type 0
  Fits [] fields [] = Unit
  Fits [] fields (v ∷ vs) = ⊥
  Fits (c ∷ cs) fields [] = ⊥
  Fits (c ∷ cs) fields (v ∷ vs) =
      (v ≡ field_value j (get c.name fields))
      × (c.ty ≡ integer → (t : List ℕ) → v ≢ text_value t)
      × Fits cs fields vs

  ensure_value_fits-ok :
      (c : Column) (v : SqlValue j.Real)
      → ensure_value_fits j c v ≡ ok tt
      → c.ty ≡ integer
      → (t : List ℕ) → v ≢ text_value t
  unfolding ensure_value_fits
  ensure_value_fits-ok c v h i t q = cc (h, i, q)

  values_for-Fits :
      (cs : List Column) (fields : Fields j) (row : Row j.Real)
      → values_for j cs fields ≡ ok row
      → Fits cs fields row
  unfolding values_for Fits
  values_for-Fits [] fields [] h = tt
  values_for-Fits [] fields (v ∷ vs) h = cc
  values_for-Fits (c ∷ cs) fields row h =
      go (ensure_value_fits j c value) refl (values_for j cs fields)
        (λ vs q. values_for-Fits cs fields vs q) h
    where
      value : SqlValue j.Real
      value = field_value j (get c.name fields)

      go :
          (x : Result EncodeError (Unit {0}))
          → ensure_value_fits j c value ≡ x
          → (y : Result EncodeError (Row j.Real))
          → ((vs : Row j.Real) → y ≡ ok vs → Fits cs fields vs)
          → (x >>= λ _. y >>= λ vs. ok (value ∷ vs)) ≡ ok row
          → Fits (c ∷ cs) fields row
      go (err e) q y f k = cc
      go (ok u) q (err e) f k = cc
      go (ok u) q (ok vs) f k =
          let same : value ∷ vs ≡ row = cc in
          let fitting : Fits (c ∷ cs) fields (value ∷ vs) =
            (refl, ensure_value_fits-ok c value q, f vs refl) in
          subst (Fits (c ∷ cs) fields) same fitting

  -- The row stands for the event in the columns of the record, with its payload at the end.
  pub record MadeFrom (e : j.E) (r : Record) (row : Row j.Real) : Type 0 where
    pub json : j.Value
    pub fields : Fields j
    pub columns : List Column
    pub values : Row j.Real
    pub from_event : j.to_value e ≡ some json
    pub from_json : field_map j json ≡ some fields
    pub from_record :
        write_schema r
        ≡ some (record {
          table = r.table;
          columns = columns ++ record { name = payload_column; ty = text } ∷ [];
        })
    pub fits : Fits columns fields values
    pub with_payload_last : row ≡ values ++ text_value (j.to_string json) ∷ []

  freeze_columns-ok :
      (fields : Fields j) (s : ColumnsSource) (cs : List Column)
      → (freeze_columns j fields s).0 ≡ ok cs
      → event_columns (freeze_columns j fields s).1 ≡ some cs
  unfolding freeze_columns event_columns
  freeze_columns-ok fields (declared_columns ds) cs h = cc
  freeze_columns-ok fields (inferred_columns (some ds)) cs h = cc
  freeze_columns-ok fields (inferred_columns none) cs h = go (ensure_fields j fields) h
    where
      go :
          (x : Result EncodeError (Unit {0}))
          → (frozen_by j fields x).0 ≡ ok cs
          → event_columns (frozen_by j fields x).1 ≡ some cs
      go (ok u) q = cc
      go (err e) q = cc

  -- A row that an encode returns stands for the event in the columns that the record then has: each
  -- value is its column's field or null, an INTEGER column has no text, and the payload is the last.
  pub encode_row-MadeFrom :
      (e : j.E) (r : Record) (row : Row j.Real)
      → (encode_row j e r).0 ≡ ok row
      → MadeFrom e (encode_row j e r).1 row
  unfolding encode_row aligned write_schema
  encode_row-MadeFrom e r row h = go (j.to_value e) refl h
    where
      by_values :
          (json : j.Value) (fields : Fields j) (cs : List Column)
          → j.to_value e ≡ some json
          → field_map j json ≡ some fields
          → (freeze_columns j fields r.columns).0 ≡ ok cs
          → (x : Result EncodeError (Row j.Real)) → values_for j cs fields ≡ x
          → (x >>= λ values. ok (values ++ text_value (j.to_string json) ∷ [])) ≡ ok row
          → MadeFrom e (record r { columns = (freeze_columns j fields r.columns).1 }) row
      by_values json fields cs p q f (err b) w k = cc
      by_values json fields cs p q f (ok values) w k = record {
        json = json;
        fields = fields;
        columns = cs;
        values = values;
        from_event = p;
        from_json = q;
        from_record = ap (with_payload r.table) (freeze_columns-ok fields r.columns cs f);
        fits = values_for-Fits cs fields values w;
        with_payload_last = cc;
      }

      by_columns :
          (json : j.Value) (fields : Fields j)
          → j.to_value e ≡ some json
          → field_map j json ≡ some fields
          → (x : Result EncodeError (List Column)) → (freeze_columns j fields r.columns).0 ≡ x
          → aligned j json fields x ≡ ok row
          → MadeFrom e (record r { columns = (freeze_columns j fields r.columns).1 }) row
      by_columns json fields p q (err b) f k = cc
      by_columns json fields p q (ok cs) f k =
          by_values json fields cs p q f (values_for j cs fields) refl k

      by_fields :
          (json : j.Value)
          → j.to_value e ≡ some json
          → (x : Option (Fields j)) → field_map j json ≡ x
          → (encode_fields j json x r).0 ≡ ok row
          → MadeFrom e (encode_fields j json x r).1 row
      by_fields json p none q k = cc
      by_fields json p (some fields) q k =
          by_columns json fields p q (freeze_columns j fields r.columns).0 refl k

      go :
          (x : Option j.Value)
          → j.to_value e ≡ x
          → (encode_json j x r).0 ≡ ok row
          → MadeFrom e (encode_json j x r).1 row
      go none p k = cc
      go (some json) p k = by_fields json p (field_map j json) refl k
