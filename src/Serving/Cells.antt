-- ===== src/Serving/Cells.antt =====
-- The conversion of stored cells to JSON in src/serving/json.rs. serde_json and the cells of a row are
-- parameters.
use artemis_light.Prelude.{
  ℕ, ◌+◌, ◌-◌, ◌*◌, ◌/◌, ◌%◌, ◌<◌, ◌≡◌, refl, ap, ◌&&◌, Option, none, some, List, [], ◌∷◌, map,
  arith, ok, err, ltb, leb, ◌==◌, if◌then◌else◌, All, codes, same_text, Result,
}
use artemis_light.Schema.{payload_column, ℤ}
use artemis_light.Record.Json.{insert}

-- What is called of serde_json: a `Value` made of what a cell holds, and one that is parsed.
pub record JsonValues : Type 1 where
  pub Value : Type 0
  pub Real : Type 0
  pub null_value : Value
  pub from_i64 : ℤ → Value
  pub from_f64 : Real → Option Value
  pub from_string : List ℕ → Value
  pub from_str : List ℕ → Option Value

-- The trait `Cell`: a cell of a row by its column's name.
pub record Cell (j : JsonValues) : Type 1 where
  pub R : Type 0
  pub Failure : Type 0
  pub try_i64 : R → List ℕ → Result Failure (Option ℤ)
  pub try_f64 : R → List ℕ → Result Failure (Option j.Real)
  pub try_bytes : R → List ℕ → Result Failure (Option (List ℕ))
  pub try_string : R → List ℕ → Result Failure (Option (List ℕ))

-- `str::to_ascii_uppercase`
unfoldable pub to_ascii_uppercase : List ℕ → List ℕ
to_ascii_uppercase s = map (λ c. if leb b'a' c && leb c b'z' then c - 32 else c) s

hex_digit : ℕ → ℕ
hex_digit d = if ltb d 10 then b'0' + d else b'a' + (d - 10)

hex_bytes : List ℕ → List ℕ
unfolding hex_digit
hex_bytes [] = []
hex_bytes (b ∷ bytes) = hex_digit (b / 16) ∷ hex_digit (b % 16) ∷ hex_bytes bytes

-- `to_hex`
unfoldable pub to_hex : List ℕ → List ℕ
unfolding hex_bytes
to_hex bytes = b'0' ∷ b'x' ∷ hex_bytes bytes

module _ (j : JsonValues) where
  -- `parse_payload`
  abbrev pub parsed_or : List ℕ → Option j.Value → j.Value
  parsed_or raw none = j.from_string raw
  parsed_or raw (some v) = v

  unfoldable pub parse_payload : List ℕ → j.Value
  parse_payload raw = parsed_or raw (j.from_str raw)

  abbrev pub of_integer_cell : Option ℤ → j.Value
  of_integer_cell none = j.null_value
  of_integer_cell (some i) = j.from_i64 i

  abbrev pub finite : Option j.Value → j.Value
  finite none = j.null_value
  finite (some v) = v

  abbrev pub of_real_cell : Option j.Real → j.Value
  of_real_cell none = j.null_value
  of_real_cell (some r) = finite (j.from_f64 r)

  abbrev pub of_blob_cell : Option (List ℕ) → j.Value
  of_blob_cell none = j.null_value
  of_blob_cell (some bytes) = j.from_string (to_hex bytes)

  abbrev pub of_text_cell : List ℕ → Option (List ℕ) → j.Value
  of_text_cell name none = j.null_value
  of_text_cell name (some s) =
      if same_text name payload_column then parse_payload s else j.from_string s

  module _ (c : Cell j) where
    abbrev pub mapped : {A : Type 0} → (A → j.Value) → Result c.Failure A → Result c.Failure j.Value
    mapped f (ok a) = ok (f a)
    mapped f (err e) = err e

    -- `cell_to_json`
    unfoldable pub cell_to_json : c.R → List ℕ → List ℕ → Result c.Failure j.Value
    unfolding to_ascii_uppercase parse_payload to_hex
    cell_to_json row name ty =
        let upper = to_ascii_uppercase ty in
        if same_text upper (codes "INTEGER")
        then mapped of_integer_cell (c.try_i64 row name)
        else (if same_text upper (codes "REAL")
            then mapped of_real_cell (c.try_f64 row name)
            else (if same_text upper (codes "BLOB")
                then mapped of_blob_cell (c.try_bytes row name)
                else mapped (of_text_cell name) (c.try_string row name)))

    abbrev pub put :
        List ℕ
        → Result c.Failure j.Value
        → (j.Value → Result c.Failure (List (List ℕ × j.Value)))
        → Result c.Failure (List (List ℕ × j.Value))
    put name (err e) k = err e
    put name (ok v) k = k v

    unfoldable pub cells_to_json :
        c.R
        → List (List ℕ × List ℕ)
        → List (List ℕ × j.Value)
        → Result c.Failure (List (List ℕ × j.Value))
    unfolding cell_to_json
    cells_to_json row [] obj = ok obj
    cells_to_json row ((name, ty) ∷ columns) obj =
        put name (cell_to_json row name ty) (λ v. cells_to_json row columns (insert name v obj))

    -- `row_to_json`
    unfoldable pub row_to_json :
        c.R → List (List ℕ × List ℕ) → Result c.Failure (List (List ℕ × j.Value))
    unfolding cells_to_json
    row_to_json row columns = cells_to_json row columns []

hex_value : ℕ → Option ℕ
hex_value c =
    if leb b'0' c && leb c b'9'
    then some (c - b'0')
    else (if leb b'a' c && leb c b'f' then some (c - b'a' + 10) else none)

abbrev pair : Option ℕ → Option ℕ → Option (List ℕ) → Option (List ℕ)
pair (some h) (some l) (some bytes) = some ((h * 16 + l) ∷ bytes)
pair none low bytes = none
pair (some h) none bytes = none
pair (some h) (some l) none = none

read_hex_bytes : List ℕ → Option (List ℕ)
unfolding hex_value
read_hex_bytes [] = some []
read_hex_bytes (c ∷ []) = none
read_hex_bytes (c ∷ d ∷ s) = pair (hex_value c) (hex_value d) (read_hex_bytes s)

-- How a client reads a blob: the prefix `0x` and then two lowercase hexadecimal digits for each byte.
pub read_hex : List ℕ → Option (List ℕ)
unfolding read_hex_bytes
read_hex [] = none
read_hex (c ∷ []) = none
read_hex (c ∷ d ∷ s) = if (c == b'0') && (d == b'x') then read_hex_bytes s else none

hex_value-digit : (d : ℕ) → d < 16 → hex_value (hex_digit d) ≡ some d
unfolding hex_value hex_digit
hex_value-digit d h = ground arith

read_hex_bytes-lem :
    (bytes : List ℕ) → All (λ b. b < 256) bytes → read_hex_bytes (hex_bytes bytes) ≡ some bytes
unfolding read_hex_bytes hex_bytes
read_hex_bytes-lem [] h = refl
read_hex_bytes-lem (b ∷ bytes) h =
    let whole : b / 16 * 16 + b % 16 ≡ b = omega arith in
    rw
      (
        hex_value-digit (b / 16) (omega arith),
        hex_value-digit (b % 16) (omega arith),
        read_hex_bytes-lem bytes h.1,
      )
      (ap (λ n. some (n ∷ bytes)) whole)

-- The text of a blob of bytes reads back as these bytes.
pub read_hex-to_hex :
    (bytes : List ℕ) → All (λ b. b < 256) bytes → read_hex (to_hex bytes) ≡ some bytes
unfolding read_hex to_hex
read_hex-to_hex bytes h = read_hex_bytes-lem bytes h
