-- ===== src/Record/Json/Ordered.antt =====
-- The field maps of src/persistence/record.rs: their order, and how their types and values agree.
use artemis_light.Prelude.{
  ℕ, ◌≤◌, ◌≡◌, refl, sym, subst, ◌≢◌, inl, inr, Bool, true, false, Option, none, some, List, [],
  ◌∷◌, arith, ltb, if◌then◌else◌, Bool-cases, All, All-map, i64_max, same_text, same_text_refl,
  same_text→≡, text_before, text_before_irrefl, text_before_trans, text_before-total,
}
use artemis_light.Schema.{SqlType, integer, real, text, ℤ, SqlValue, text_value}
use artemis_light.Record.Json.{
  Shape, null_json, array_json, bool_json, number_json, string_json, object_json, Serde, get,
  insert, Fields, infer_type, json_to_sql, field_map, object_fields, shape_type, collected,
  number_value, u64_type, shape_value, number_type, bool_value,
}

other_name : (a b : List ℕ) → text_before a b ≡ true → same_text b a ≡ false
other_name a b h = elim (Bool-cases (same_text b a)) [
  | inl x ↦
      let same : b ≡ a = same_text→≡ b a x in
      let less : text_before a a ≡ true = subst (λ t. text_before a t ≡ true) same h in
      cc (text_before_irrefl a)
  | inr x ↦ x
]

-- The entries of a `BTreeMap` in the strict order of their names.
module _ {V : Type 0} where
  abbrev pub Ascending : List (List ℕ × V) → Type 0
  Ascending [] = Unit
  Ascending ((k, v) ∷ m) = All (λ e. text_before k e.0 ≡ true) m × Ascending m

  insert-All :
      (P : List ℕ × V → Type 0) (name : List ℕ) (v : V) (m : List (List ℕ × V))
      → P (name, v)
      → All P m
      → All P (insert name v m)
  unfolding insert
  insert-All P name v [] p h = (p, tt)
  insert-All P name v ((k, w) ∷ m) p h = elim (Bool-cases (same_text name k)) [
    | inl x ↦ rw x (p, h.1)
    | inr x ↦ elim (Bool-cases (text_before name k)) [
      | inl y ↦ rw (x, y) (p, h)
      | inr y ↦ rw (x, y) (h.0, insert-All P name v m p h.1)
    ]
  ]

  pub insert-Ascending :
      (name : List ℕ) (v : V) (m : List (List ℕ × V)) → Ascending m → Ascending (insert name v m)
  unfolding insert
  insert-Ascending name v [] h = (tt, tt)
  insert-Ascending name v ((k, w) ∷ m) h = elim (Bool-cases (same_text name k)) [
    | inl x ↦
        let same : name ≡ k = same_text→≡ name k x in
        rw x (subst (λ n. All (λ e. text_before n e.0 ≡ true) m) (sym same) h.0, h.1)
    | inr x ↦ elim (Bool-cases (text_before name k)) [
      | inl y ↦ rw (x, y) ((y, All-map _ _ (λ e z. text_before_trans name k e.0 y z) m h.0), h)
      | inr y ↦
          rw (x, y)
            (
              insert-All _ name v m (text_before-total name k x y) h.0,
              insert-Ascending name v m h.1,
            )
    ]
  ]

  -- In a map with its names in order each entry is found under its name.
  pub get-Ascending : (m : List (List ℕ × V)) → Ascending m → All (λ e. get e.0 m ≡ some e.1) m
  get-Ascending [] h = tt
  get-Ascending ((k, w) ∷ m) h = (rw (same_text_refl k) refl, later m h.0 (get-Ascending m h.1))
    where
      later :
          (rest : List (List ℕ × V))
          → All (λ e. text_before k e.0 ≡ true) rest
          → All (λ e. get e.0 m ≡ some e.1) rest
          → All (λ e. get e.0 ((k, w) ∷ m) ≡ some e.1) rest
      later [] a b = tt
      later (e ∷ rest) a b = (rw (other_name k e.0 a.0) b.0, later rest a.1 b.1)

-- What serde_json documents of its numbers: a number that is an i64 is read as one, and a u64 that
-- fits an i64 is one.
pub record IsDocumented (j : Serde) : Type 0 where
  pub reads_i64 : (n : j.Number) → j.is_i64 n ≡ true → j.as_i64 n ≢ none
  pub small_u64 : (n : j.Number) (u : ℕ) → j.as_u64 n ≡ some u → u ≤ i64_max → j.is_i64 n ≡ true

module _ (j : Serde) (d : IsDocumented j) where
  -- The value fits the type inferred from it.
  unfoldable pub FitsOwn : List ℕ × (SqlType × SqlValue j.Real) → Type 0
  FitsOwn (name, (ty, v)) = ty ≡ integer → (t : List ℕ) → v ≢ text_value t

  fits_number :
      (n : j.Number) (i : Option ℤ) (u : Option ℕ) (a b : Bool) (t : List ℕ)
      → (a ≡ true → i ≢ none)
      → ((x : ℕ) → u ≡ some x → x ≤ i64_max → a ≡ true)
      → (if a then integer else (if b then u64_type j u else real)) ≡ integer
      → number_value j n i u ≢ text_value t
  unfolding number_value u64_type
  fits_number n (some i) u a b t f g h q = cc
  fits_number n none none a b t f g h q = cc
  fits_number n none (some u) true b t f g h q = f refl refl
  fits_number n none (some u) false false t f g h q = cc
  fits_number n none (some u) false true t f g h q = elim (Bool-cases (ltb i64_max u)) [
    | inl x ↦
        let other : (if ltb i64_max u then text else integer) ≡ text = rw x refl in cc (h, other)
    | inr x ↦ let fits : false ≡ true = g u refl (ground (arith, x)) in cc
  ]

  shape-FitsOwn :
      (name : List ℕ) (v : j.Value) (s : Shape j.Number j.Value)
      → FitsOwn (name, (shape_type j s, shape_value j v s))
  unfolding FitsOwn shape_type shape_value number_type bool_value
  shape-FitsOwn name v null_json h t q = cc
  shape-FitsOwn name v array_json h t q = cc
  shape-FitsOwn name v (bool_json true) h t q = cc
  shape-FitsOwn name v (bool_json false) h t q = cc
  shape-FitsOwn name v (number_json n) h t q =
      fits_number n (j.as_i64 n) (j.as_u64 n) (j.is_i64 n) (j.is_u64 n) t (d.reads_i64 n)
        (d.small_u64 n) h q
  shape-FitsOwn name v (string_json s) h t q = cc
  shape-FitsOwn name v (object_json fields) h t q = cc

  collected-Ordered :
      (object : List (List ℕ × j.Value)) (m : Fields j)
      → Ascending m × All FitsOwn m
      → Ascending (collected j object m) × All FitsOwn (collected j object m)
  unfolding collected infer_type json_to_sql
  collected-Ordered [] m h = h
  collected-Ordered ((name, v) ∷ rest) m h =
      collected-Ordered rest (insert name (infer_type j v, json_to_sql j v) m) (
        insert-Ascending name (infer_type j v, json_to_sql j v) m h.0,
        insert-All FitsOwn name (infer_type j v, json_to_sql j v) m
            (shape-FitsOwn name v (j.shape v)) h.1,
      )

  -- The fields of a JSON object stand in the order of their names, each once, and each has a value
  -- that fits its inferred type.
  pub field_map-Ordered :
      (v : j.Value) (fields : Fields j)
      → field_map j v ≡ some fields
      → Ascending fields × All FitsOwn fields
  unfolding field_map object_fields
  field_map-Ordered v fields h = go (j.shape v) h
    where
      go :
          (s : Shape j.Number j.Value)
          → object_fields j s ≡ some fields
          → Ascending fields × All FitsOwn fields
      go null_json q = cc
      go array_json q = cc
      go (bool_json b) q = cc
      go (number_json n) q = cc
      go (string_json s) q = cc
      go (object_json object) q =
          let same : collected j object [] ≡ fields = cc in
          subst (λ m. Ascending m × All FitsOwn m) same (collected-Ordered object [] (tt, tt))
