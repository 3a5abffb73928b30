-- ===== src/SqlStore/Replayed.antt =====
-- The rows that a replay of src/persistence/sqlstore.rs returns.
use artemis_light.Prelude.{
  ℕ, suc, ◌≤◌, ◌<◌, ◌≡◌, refl, subst, inl, inr, false, List, [], ◌∷◌, arith, ok, err, leb,
  Bool-cases, All, i64_max, ◌>>=◌, collect, Result,
}
use artemis_light.Position.{Position}
use artemis_light.Schema.{
  SqlType, integer, real, text, blob, numeric, Column, TableSchema, ℤ, SqlValue, integer_value,
  real_value, text_value, blob_value, Row,
}
use artemis_light.Dialect.{Dialect}
use artemis_light.Query.{decode_cells, collect_rows, replay_query}
use artemis_light.SqlStore.{Sqlx, sort_key_too_large}
use artemis_light.SqlStore.Session.{sort_key_to_i64, Fallible, Value}
use artemis_light.SqlStore.Bound.{sort_key_to_i64-ok}
use artemis_light.SqlStore.Read.{of_cell_as, decode_value, of_rows, replay, query_with, replay_args}

-- A value of the kind that a column of the type is read as; a NUMERIC is read as its text.
pub data HasType (Real : Type 0) : SqlType → SqlValue Real → Type 0 where
  an_integer : (i : ℤ) → HasType Real integer (integer_value i)
  a_real : (r : Real) → HasType Real real (real_value r)
  a_text : (t : List ℕ) → HasType Real text (text_value t)
  a_numeric : (t : List ℕ) → HasType Real numeric (text_value t)
  a_blob : (b : List ℕ) → HasType Real blob (blob_value b)

-- One value of each column's kind, in the order of the columns.
abbrev pub Fits : {Real : Type 0} → List Column → Row Real → Type 0
Fits {Real} [] [] = Unit
Fits {Real} [] (v ∷ vs) = ⊥
Fits {Real} (c ∷ cs) [] = ⊥
Fits {Real} (c ∷ cs) (v ∷ vs) = HasType Real c.ty v × Fits cs vs

module _ (x : Sqlx) (d : Dialect x.Failure) where
  typed :
      {A : Type 0} (ty : SqlType) (make : A → Value x) (r : Result x.Failure A) (v : Value x)
      → ((a : A) → HasType x.Real ty (make a))
      → of_cell_as x d make r ≡ ok v
      → HasType x.Real ty v
  typed ty make (ok a) v h e = let same : make a ≡ v = cc in subst (HasType x.Real ty) same (h a)
  typed ty make (err f) v h e = cc

  decode_value-HasType :
      (r : x.Cells) (idx : ℕ) (ty : SqlType) (v : Value x)
      → decode_value x d r idx ty ≡ ok v
      → HasType x.Real ty v
  unfolding decode_value
  decode_value-HasType r idx integer v e =
      typed integer integer_value (x.try_get_integer r idx) v an_integer e
  decode_value-HasType r idx real v e = typed real real_value (x.try_get_real r idx) v a_real e
  decode_value-HasType r idx text v e = typed text text_value (x.try_get_text r idx) v a_text e
  decode_value-HasType r idx numeric v e =
      typed numeric text_value (x.try_get_text r idx) v a_numeric e
  decode_value-HasType r idx blob v e = typed blob blob_value (x.try_get_blob r idx) v a_blob e

  then_ok :
      {A B : Type 0} (m : Fallible x A) (k : A → Fallible x B) (b : B)
      → (m >>= k) ≡ ok b
      → (a : A) × (m ≡ ok a) × (k a ≡ ok b)
  then_ok (ok a) k b e = (a, refl, e)
  then_ok (err f) k b e = cc

  decode_cells-Fits :
      (r : x.Cells) (idx : ℕ) (cs : List Column) (row : Row x.Real)
      → decode_cells (decode_value x d) r idx cs ≡ ok row
      → Fits cs row
  unfolding decode_cells
  decode_cells-Fits r idx [] row e = let same : [] ≡ row = cc in subst (Fits []) same tt
  decode_cells-Fits r idx (c ∷ cs) row e =
      let (v, hv, e') = then_ok (decode_value x d r idx c.ty) _ row e in
      let (vs, hvs, e'') = then_ok (decode_cells (decode_value x d) r (suc idx) cs) _ row e' in
      let same : v ∷ vs ≡ row = cc in
      subst (Fits (c ∷ cs)) same
        (decode_value-HasType r idx c.ty v hv, decode_cells-Fits r (suc idx) cs vs hvs)

  collected-Fits :
      (rs : List x.Cells) (s : TableSchema) (rows : List (Row x.Real))
      → collect (λ r. decode_cells (decode_value x d) r 0 s.columns) rs ≡ ok rows
      → All (Fits s.columns) rows
  collected-Fits [] s rows e = let same : [] ≡ rows = cc in subst (All (Fits s.columns)) same tt
  collected-Fits (r ∷ rs) s rows e =
      let (row, hr, e') = then_ok (decode_cells (decode_value x d) r 0 s.columns) _ rows e in
      let (more, hm, e'') =
        then_ok (collect (λ r. decode_cells (decode_value x d) r 0 s.columns) rs) _ rows e' in
      let same : row ∷ more ≡ rows = cc in
      subst (All (Fits s.columns)) same
        (decode_cells-Fits r 0 s.columns row hr, collected-Fits rs s more hm)

  of_rows-Fits :
      (s : TableSchema) (r : Result x.Failure (List x.Cells)) (db : x.Db) (rows : List (Row x.Real))
      → (of_rows x d s (r, db)).0 ≡ ok rows
      → All (Fits s.columns) rows
  unfolding collect_rows
  of_rows-Fits s (ok rs) db rows e = collected-Fits rs s rows e
  of_rows-Fits s (err f) db rows e = elim (Bool-cases (d.is_undefined_table f)) [
    | inl missing ↦
        let none_stored : [] ≡ rows = ground (arith, missing, e) in
        subst (All (Fits s.columns)) none_stored tt
    | inr other ↦ absurd (ground (arith, other, e))
  ]

  asked :
      {A : Type 0} (r : Fallible x (List (Value x))) (ask : List (Value x) → Fallible x A × x.Db)
      (db : x.Db) (v : A)
      → (query_with x d r ask db).0 ≡ ok v
      → (args : List (Value x)) × (r ≡ ok args) × ((ask args).0 ≡ ok v)
  asked (ok args) ask db v h = (args, refl, h)
  asked (err e) ask db v h = cc

  replay_key :
      {P : Type 0} (p : Position P) (r : Fallible x (Value x)) (args : List (Value x))
      → replay_args x d p r ≡ ok args
      → (key : Value x) × (r ≡ ok key)
  replay_key p (ok key) args h = (key, refl)
  replay_key p (err e) args h = cc

  too_large :
      (key : ℕ)
      → i64_max < key
      → sort_key_to_i64 {Failure = x.Failure} {Real = x.Real} key ≡ err (sort_key_too_large key)
  unfolding sort_key_to_i64
  too_large key big = let over : leb key i64_max ≡ false = ground arith in rw over refl

  module _ {P : Type 0} (p : Position P) (s : TableSchema) (up_to : P) (db : x.Db) where
    -- A replay is refused without a query if the sort key is beyond i64::MAX. One that succeeds
    -- returns rows with one value for each column of the schema, of the kind of its type.
    pub replay-Fits :
        (i64_max < p.sort_key up_to
          → replay x d p s up_to db ≡ (err (sort_key_too_large (p.sort_key up_to)), db))
        × ((rows : List (Row x.Real))
            → (replay x d p s up_to db).0 ≡ ok rows
            → (p.sort_key up_to ≤ i64_max) × All (Fits s.columns) rows)
    unfolding replay
    replay-Fits = (
      λ big. rw (too_large (p.sort_key up_to) big) refl,
      λ rows e.
          let (args, bound, answer) =
            asked (replay_args x d p (sort_key_to_i64 (p.sort_key up_to)))
              (λ args. of_rows x d s (x.pool_fetch_all (replay_query d s) args db)) db rows e in
          let (key, fits) = replay_key p (sort_key_to_i64 (p.sort_key up_to)) args bound in
          (
            (sort_key_to_i64-ok (p.sort_key up_to) key fits).0,
            of_rows-Fits s (x.pool_fetch_all (replay_query d s) args db).0
                (x.pool_fetch_all (replay_query d s) args db).1 rows answer,
          ),
    )
