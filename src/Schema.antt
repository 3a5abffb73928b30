-- ===== src/Schema.antt =====
-- The table schemas and row values of src/persistence/schema.rs. A text is the list of its code points.
use mathlib.Core.List.{append_assoc}
use artemis_light.Prelude.{
  ℕ, ◌≡◌, refl, ap, subst, ◌∙◌, ◌≢◌, inl, inr, Bool, false, ◌||◌, Option, none, some, List, [], ◌∷◌,
  ◌++◌, arith, ok, err, ◌==◌, if◌then◌else◌, Bool-cases, All, codes, same_text, Result,
}

pub data SqlType : Type 0 where
  integer real text blob numeric : SqlType

-- `SqlType::sql`
unfoldable pub sql : SqlType → List ℕ
sql integer = codes "INTEGER"
sql real = codes "REAL"
sql text = codes "TEXT"
sql blob = codes "BLOB"
sql numeric = codes "NUMERIC"

pub record Column : Type 0 where
  pub name : List ℕ
  pub ty : SqlType

pub record TableSchema : Type 0 where
  pub table : List ℕ
  pub columns : List Column

-- `TableSchema::new`
abbrev pub schema_new : List ℕ → TableSchema
schema_new table = record { table = table; columns = [] }

-- `TableSchema::col`
abbrev pub col : List ℕ → SqlType → TableSchema → TableSchema
col name ty s = record s { columns = s.columns ++ record { name = name; ty = ty } ∷ [] }

abbrev pub block_number_column : List ℕ
block_number_column = codes "block_number"

abbrev pub payload_column : List ℕ
payload_column = codes "_payload"

abbrev pub progress_table : List ℕ
progress_table = codes "_artemis_progress"

-- The name of one of the two columns that the persistence layer adds.
abbrev pub is_implicit : List ℕ → Bool
is_implicit name = same_text name block_number_column || same_text name payload_column

pub data SchemaError : Type 0 where
  reserved_table : SchemaError
  reserved_column : List ℕ → SchemaError

ensure_columns : List Column → Result SchemaError (Unit {0})
ensure_columns [] = ok tt
ensure_columns (c ∷ cs) =
    let rest = ensure_columns cs in
    if is_implicit c.name then err (reserved_column c.name) else rest

-- `TableSchema::ensure_no_reserved_names`
unfoldable pub ensure_no_reserved_names : TableSchema → Result SchemaError (Unit {0})
unfolding ensure_columns
ensure_no_reserved_names s =
    if same_text s.table progress_table then err reserved_table else ensure_columns s.columns

-- None of the columns is named like one that the persistence layer adds.
abbrev pub Unreserved : List Column → Type 0
Unreserved cs = All (λ c. is_implicit c.name ≡ false) cs

ensure_columns-Unreserved : (cs : List Column) → ensure_columns cs ≡ ok tt → Unreserved cs
unfolding ensure_columns
ensure_columns-Unreserved [] h = tt
ensure_columns-Unreserved (c ∷ cs) h = (ground arith, ensure_columns-Unreserved cs (ground arith))

pub ensure_no_reserved_names-Unreserved :
    (s : TableSchema)
    → ensure_no_reserved_names s ≡ ok tt
    → Unreserved s.columns × (s.table ≢ progress_table)
unfolding ensure_no_reserved_names
ensure_no_reserved_names-Unreserved s h = elim (Bool-cases (same_text s.table progress_table)) [
  | inl x ↦ absurd (ground (arith, x))
  | inr x ↦ (
    ensure_columns-Unreserved s.columns (ground (arith, x)),
    λ e.
        let y : same_text progress_table progress_table ≡ false =
          subst (λ t. same_text t progress_table ≡ false) e x in
        cc,
  )
]

-- An i64 as an integer.
pub data ℤ : Type 0 where
  pos negsuc : ℕ → ℤ

-- The floating-point numbers are a parameter.
pub data SqlValue (Real : Type 0) : Type 0 where
  integer_value : ℤ → SqlValue Real
  real_value : Real → SqlValue Real
  text_value : List ℕ → SqlValue Real
  blob_value : List ℕ → SqlValue Real
  null : SqlValue Real

-- `Row`
abbrev pub Row : Type 0 → Type 0
Row Real = List (SqlValue Real)

abbrev double_quote : ℕ
double_quote = b'"'

-- `name.replace('"', "\"\"")`
doubled : List ℕ → List ℕ
doubled [] = []
doubled (c ∷ s) = let rest = doubled s in if c == double_quote then c ∷ c ∷ rest else c ∷ rest

-- `quote_ident`
unfoldable pub quote_ident : List ℕ → List ℕ
unfolding doubled
quote_ident name = double_quote ∷ doubled name ++ double_quote ∷ []

abbrev prefixed : ℕ → Option (List ℕ × List ℕ) → Option (List ℕ × List ℕ)
prefixed x none = none
prefixed x (some (name, rest)) = some (x ∷ name, rest)

-- How SQL reads a delimited identifier: up to a quote that is not doubled.
read_doubled : List ℕ → Option (List ℕ × List ℕ)
read_doubled [] = none
read_doubled (c ∷ []) = if c == double_quote then some ([], []) else none
read_doubled (c ∷ d ∷ s) =
    let past_pair = read_doubled s in
    let past_one = read_doubled (d ∷ s) in
    if c == double_quote
    then (if d == double_quote then prefixed double_quote past_pair else some ([], d ∷ s))
    else prefixed c past_one

pub read_ident : List ℕ → Option (List ℕ × List ℕ)
unfolding read_doubled
read_ident [] = none
read_ident (c ∷ s) = if c == double_quote then read_doubled s else none

-- The text after an identifier does not begin with a quote.
abbrev pub EndsIdent : List ℕ → Type 0
EndsIdent [] = Unit
EndsIdent (c ∷ s) = c ≢ double_quote

read_plain :
    (c : ℕ) (s : List ℕ) (name rest : List ℕ)
    → c ≢ double_quote
    → read_doubled s ≡ some (name, rest)
    → read_doubled (c ∷ s) ≡ some (c ∷ name, rest)
unfolding read_doubled
read_plain c [] name rest h q = cc
read_plain c (d ∷ s) name rest h q =
    let other : (c == double_quote) ≡ false = ground (arith, h) in rw other (ap (prefixed c) q)

read_doubled-doubled :
    (name rest : List ℕ)
    → EndsIdent rest
    → read_doubled (doubled name ++ double_quote ∷ rest) ≡ some (name, rest)
unfolding read_doubled doubled
read_doubled-doubled [] [] h = refl
read_doubled-doubled [] (d ∷ s) h =
    let other : (d == double_quote) ≡ false = ground (arith, h) in rw other refl
read_doubled-doubled (c ∷ s) rest h = elim (Bool-cases (c == double_quote)) [
  | inl x ↦
      let same : c ≡ double_quote = ground (arith, x) in
      rw same (ap (prefixed double_quote) (read_doubled-doubled s rest h))
  | inr x ↦ rw x (
      read_plain c (doubled s ++ double_quote ∷ rest) s rest (ground (arith, x))
        (read_doubled-doubled s rest h))
]

-- SQL reads a quoted identifier back as the name, and stops where the quoting ends, whatever the name
-- holds and whatever follows that does not begin with a quote.
pub read_ident-quote_ident :
    (name rest : List ℕ)
    → EndsIdent rest
    → read_ident (quote_ident name ++ rest) ≡ some (name, rest)
unfolding read_ident quote_ident
read_ident-quote_ident name rest h =
    ap read_doubled (append_assoc (doubled name) (double_quote ∷ []) rest)
    ∙ read_doubled-doubled name rest h
