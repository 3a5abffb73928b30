-- ===== src/Serving/Agreeing.antt =====
-- What the two backends of src/serving report and serve of a table that its store has created.
use artemis_light.Prelude.{
  ℕ, ◌+◌, ◌≡◌, refl, ◌&&◌, none, some, List, [], ◌∷◌, map, ok, leb, if◌then◌else◌, codes, same_text,
  collect,
}
use artemis_light.Record.Json.{insert}
use artemis_light.Schema.{
  SqlType, integer, real, text, blob, numeric, sql, Column, TableSchema, block_number_column,
  payload_column, ℤ, SqlValue, integer_value, real_value, text_value, blob_value, null, Row,
}
use artemis_light.Dialect.{pg_column_type}
use artemis_light.Serving.Cells.{
  JsonValues, Cell, to_hex, parse_payload, finite, cell_to_json, cells_to_json, row_to_json,
}
use artemis_light.Serving.Catalog.{normalize_type, pg_normalize_type}

-- A text in lower case.
abbrev pub lowered : List ℕ → List ℕ
lowered s = map (λ c. if leb b'A' c && leb c b'Z' then c + 32 else c) s

-- The type that is reported of a column.
abbrev pub serving_type : SqlType → List ℕ
serving_type integer = codes "INTEGER"
serving_type real = codes "REAL"
serving_type text = codes "TEXT"
serving_type numeric = codes "TEXT"
serving_type blob = codes "BLOB"

pub normalize_type-sql : (ty : SqlType) → normalize_type (sql ty) ≡ serving_type ty
unfolding normalize_type sql
normalize_type-sql integer = refl
normalize_type-sql real = refl
normalize_type-sql text = refl
normalize_type-sql numeric = refl
normalize_type-sql blob = refl

pub pg_normalize_type-lowered :
    (ty : SqlType) → pg_normalize_type (lowered (pg_column_type ty)) ≡ serving_type ty
unfolding pg_normalize_type pg_column_type
pg_normalize_type-lowered integer = refl
pg_normalize_type-lowered real = refl
pg_normalize_type-lowered text = refl
pg_normalize_type-lowered numeric = refl
pg_normalize_type-lowered blob = refl

-- The columns of the table that the store creates for the schema.
abbrev pub table_of : TableSchema → List Column
table_of s = record { name = block_number_column; ty = integer } ∷ s.columns

abbrev pub served_columns : List Column → List (List ℕ × List ℕ)
served_columns cs = map (λ c. (c.name, serving_type c.ty)) cs

module _ {R : Type 0} (name ty : R → List ℕ) (declared : SqlType → List ℕ) where
  -- The rows of a catalog are of these columns in their order, with the types as the catalog has them.
  abbrev pub Lists : List Column → List R → Type 0
  Lists [] [] = Unit
  Lists [] (r ∷ rs) = ⊥
  Lists (c ∷ cs) [] = ⊥
  Lists (c ∷ cs) (r ∷ rs) = (name r ≡ c.name) × (ty r ≡ declared c.ty) × Lists cs rs

  pub listed :
      (normal : List ℕ → List ℕ)
      → ((t : SqlType) → normal (declared t) ≡ serving_type t)
      → (cs : List Column) (rs : List R) → Lists cs rs
      → map (λ r. (name r, normal (ty r))) rs ≡ served_columns cs
  listed normal f [] [] h = refl
  listed normal f [] (r ∷ rs) h = absurd h
  listed normal f (c ∷ cs) [] h = absurd h
  listed normal f (c ∷ cs) (r ∷ rs) (n, t, h) = rw (n, t, f c.ty, listed normal f cs rs h) refl

-- The cell of a column of a row holds this value of the column's type.
pub data Holds (j : JsonValues) (c : Cell j) (r : c.R) (name : List ℕ)
    : SqlType → SqlValue j.Real → Type 0 where
  integer_cell :
      (i : ℤ) → c.try_i64 r name ≡ ok (some i) → Holds j c r name integer (integer_value i)
  no_integer : c.try_i64 r name ≡ ok none → Holds j c r name integer null
  real_cell : (x : j.Real) → c.try_f64 r name ≡ ok (some x) → Holds j c r name real (real_value x)
  no_real : c.try_f64 r name ≡ ok none → Holds j c r name real null
  blob_cell : (b : List ℕ) → c.try_bytes r name ≡ ok (some b) → Holds j c r name blob (blob_value b)
  no_blob : c.try_bytes r name ≡ ok none → Holds j c r name blob null
  text_cell :
      (t : List ℕ) → c.try_string r name ≡ ok (some t) → Holds j c r name text (text_value t)
  no_text : c.try_string r name ≡ ok none → Holds j c r name text null
  numeric_cell :
      (t : List ℕ) → c.try_string r name ≡ ok (some t) → Holds j c r name numeric (text_value t)
  no_numeric : c.try_string r name ≡ ok none → Holds j c r name numeric null

module _ (j : JsonValues) where
  -- The JSON of a stored value under its column's name.
  abbrev pub json_of : List ℕ → SqlValue j.Real → j.Value
  json_of name null = j.null_value
  json_of name (integer_value i) = j.from_i64 i
  json_of name (real_value r) = finite j (j.from_f64 r)
  json_of name (blob_value b) = j.from_string (to_hex b)
  json_of name (text_value t) =
      if same_text name payload_column then parse_payload j t else j.from_string t

  -- The object of a stored row, onto these entries.
  abbrev pub object_onto :
      List (List ℕ × j.Value) → List Column → Row j.Real → List (List ℕ × j.Value)
  object_onto obj [] vs = obj
  object_onto obj (c ∷ cs) [] = obj
  object_onto obj (c ∷ cs) (v ∷ vs) = object_onto (insert c.name (json_of c.name v) obj) cs vs

  module _ (c : Cell j) where
    abbrev pub HoldsRow : c.R → List Column → Row j.Real → Type 0
    HoldsRow r [] [] = Unit
    HoldsRow r [] (v ∷ vs) = ⊥
    HoldsRow r (k ∷ ks) [] = ⊥
    HoldsRow r (k ∷ ks) (v ∷ vs) = Holds j c r k.name k.ty v × HoldsRow r ks vs

    abbrev pub HoldsRows : List Column → List c.R → List (Row j.Real) → Type 0
    HoldsRows ks [] [] = Unit
    HoldsRows ks [] (row ∷ rows) = ⊥
    HoldsRows ks (r ∷ rs) [] = ⊥
    HoldsRows ks (r ∷ rs) (row ∷ rows) = HoldsRow r ks row × HoldsRows ks rs rows

    cell_to_json-Holds :
        {ty : SqlType} {v : SqlValue j.Real} (r : c.R) (name : List ℕ)
        → Holds j c r name ty v
        → cell_to_json j c r name (serving_type ty) ≡ ok (json_of name v)
    unfolding cell_to_json
    cell_to_json-Holds r name (integer_cell i e) = rw e refl
    cell_to_json-Holds r name (no_integer e) = rw e refl
    cell_to_json-Holds r name (real_cell x e) = rw e refl
    cell_to_json-Holds r name (no_real e) = rw e refl
    cell_to_json-Holds r name (blob_cell b e) = rw e refl
    cell_to_json-Holds r name (no_blob e) = rw e refl
    cell_to_json-Holds r name (text_cell t e) = rw e refl
    cell_to_json-Holds r name (no_text e) = rw e refl
    cell_to_json-Holds r name (numeric_cell t e) = rw e refl
    cell_to_json-Holds r name (no_numeric e) = rw e refl

    cells_to_json-object :
        (r : c.R) (ks : List Column) (vs : Row j.Real) (obj : List (List ℕ × j.Value))
        → HoldsRow r ks vs
        → cells_to_json j c r (served_columns ks) obj ≡ ok (object_onto obj ks vs)
    unfolding cells_to_json
    cells_to_json-object r [] [] obj h = refl
    cells_to_json-object r [] (v ∷ vs) obj h = absurd h
    cells_to_json-object r (k ∷ ks) [] obj h = absurd h
    cells_to_json-object r (k ∷ ks) (v ∷ vs) obj h =
        rw (cell_to_json-Holds r k.name h.0)
          (cells_to_json-object r ks vs (insert k.name (json_of k.name v) obj) h.1)

    -- The page of rows as the JSON objects of the values that they hold.
    pub rows_to_json-objects :
        (ks : List Column) (rs : List c.R) (rows : List (Row j.Real))
        → HoldsRows ks rs rows
        → collect (λ r. row_to_json j c r (served_columns ks)) rs
          ≡ ok (map (object_onto [] ks) rows)
    unfolding row_to_json
    rows_to_json-objects ks [] [] h = refl
    rows_to_json-objects ks [] (row ∷ rows) h = absurd h
    rows_to_json-objects ks (r ∷ rs) [] h = absurd h
    rows_to_json-objects ks (r ∷ rs) (row ∷ rows) h =
        rw (cells_to_json-object r ks row [] h.0, rows_to_json-objects ks rs rows h.1) refl
