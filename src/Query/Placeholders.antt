-- ===== src/Query/Placeholders.antt =====
-- The numbering of the placeholders of a multi-row insert of src/persistence/query.rs.
use artemis_light.Prelude.{
  ℕ, zero, suc, ◌+◌, ◌*◌, ◌≡◌, refl, ap, subst, ◌∙◌, List, [], ◌∷◌, ◌++◌, map, arith, length, take,
  drop, take-length_append, drop-length_append, length-map, map-append, codes, format,
}
use native.Mathlib.Nat.{zero-add, add-zero}
use artemis_light.Schema.{TableSchema, quote_ident}
use artemis_light.Dialect.{Dialect}
use artemis_light.Query.{
  join, count_from, comma, insert_column_names, row_placeholders, row_group, insert_statement,
}

module _ {A : Type 0} where
  -- A list in `count` groups of `width`.
  abbrev pub groups_of : ℕ → ℕ → List A → List (List A)
  groups_of zero width xs = []
  groups_of (suc count) width xs = take width xs ∷ groups_of count width (drop width xs)

grouped :
    {A : Type 0} (xs ys : List A) (count width : ℕ)
    → length xs ≡ width
    → xs ∷ groups_of count width ys
      ≡ take width (xs ++ ys) ∷ groups_of count width (drop width (xs ++ ys))
grouped xs ys count width e =
    subst
      (λ w. xs ∷ groups_of count w ys ≡ take w (xs ++ ys) ∷ groups_of count w (drop w (xs ++ ys))) e
      (rw (take-length_append xs ys, drop-length_append xs ys) refl)

count_from-add :
    (first m n : ℕ) → count_from first (m + n) ≡ count_from first m ++ count_from (first + m) n
unfolding count_from
count_from-add first zero n = rw (zero-add n, add-zero first) refl
count_from-add first (suc m) n =
    let e : suc m + n ≡ suc (m + n) = omega arith in
    let f : first + suc m ≡ suc first + m = omega arith in
    rw (e, f) (ap (λ xs. first ∷ xs) (count_from-add (suc first) m n))

length-count_from : (first n : ℕ) → length (count_from first n) ≡ n
unfolding count_from
length-count_from first zero = refl
length-count_from first (suc n) = ap suc (length-count_from (suc first) n)

abbrev pub bracketed : List (List ℕ) → List ℕ
bracketed parts = format (codes "(" ∷ join comma parts ∷ codes ")" ∷ [])

-- An insert of these bracketed groups.
abbrev pub inserted : TableSchema → List (List ℕ) → List ℕ
inserted s groups = format (
    codes "INSERT INTO "
    ∷ quote_ident s.table
    ∷ codes " ("
    ∷ join comma (insert_column_names s)
    ∷ codes ") VALUES "
    ∷ join comma groups
    ∷ [])

module _ {Failure : Type 0} (d : Dialect Failure) where
  -- The placeholders with the `count` numbers from `first` on.
  abbrev pub numbered : ℕ → ℕ → List (List ℕ)
  numbered first count = map d.placeholder (count_from first count)

  shifted :
      (base first n : ℕ)
      → map (λ i. d.placeholder (base + i)) (count_from first n) ≡ numbered (base + first) n
  unfolding count_from
  shifted base first zero = refl
  shifted base first (suc n) =
      let e : suc (base + first) ≡ base + suc first = omega arith in
      rw e (ap (λ ps. d.placeholder (base + first) ∷ ps) (shifted base (suc first) n))

  numbered-add :
      (first m n : ℕ) → numbered first (m + n) ≡ numbered first m ++ numbered (first + m) n
  numbered-add first m n =
      ap (map d.placeholder) (count_from-add first m n)
      ∙ map-append d.placeholder (count_from first m) (count_from (first + m) n)

  length-numbered : (first n : ℕ) → length (numbered first n) ≡ n
  length-numbered first n =
      length-map d.placeholder (count_from first n) ∙ length-count_from first n

  groups :
      (rows width row : ℕ)
      → map (row_placeholders d width) (count_from row rows)
        ≡ groups_of rows width (numbered (row * width + 1) (rows * width))
  unfolding count_from row_placeholders
  groups zero width row = refl
  groups (suc rows) width row =
      let total : suc rows * width ≡ width + rows * width = grind arith in
      let next : suc row * width + 1 ≡ row * width + 1 + width = grind arith in
      let cut = numbered-add (row * width + 1) width (rows * width) in
      let here : row_placeholders d width row ≡ numbered (row * width + 1) width =
        shifted (row * width) 1 width in
      let size = length-numbered (row * width + 1) width in
      rw (total, cut, here, groups rows width (suc row), next)
        (grouped (numbered (row * width + 1) width)
          (numbered (row * width + 1 + width) (rows * width)) rows width size)

  bracketed_groups :
      (rows width row : ℕ)
      → map (row_group d width) (count_from row rows)
        ≡ map bracketed (map (row_placeholders d width) (count_from row rows))
  unfolding count_from row_group
  bracketed_groups zero width row = refl
  bracketed_groups (suc rows) width row =
      ap (λ gs. row_group d width row ∷ gs) (bracketed_groups rows width (suc row))

  -- An insert of `rows` rows of a table numbers its placeholders from 1 on without a break, in one
  -- bracketed group for each row, as many in each as the columns that it names.
  pub insert_statement-numbered :
      (s : TableSchema) (rows : ℕ)
      → insert_statement d s rows
        ≡ inserted s (
            map bracketed (
              groups_of rows (suc (length s.columns)) (numbered 1 (rows * suc (length s.columns)))))
  unfolding insert_statement
  insert_statement-numbered s rows =
      let width = suc (length s.columns) in
      let first : 0 * width + 1 ≡ 1 = omega arith in
      let values = bracketed_groups rows width 0 ∙ ap (map bracketed) (groups rows width 0) in
      rw (length-map (λ c. quote_ident c.name) s.columns) (
        ap (inserted s) (
          values
          ∙ ap (λ n. map bracketed (groups_of rows width (numbered n (rows * width)))) first))
