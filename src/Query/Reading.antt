-- ===== src/Query/Reading.antt =====
-- What SQL reads of the quoted names in the texts of src/persistence/query.rs.
use mathlib.Core.List.{append_assoc, append-nil}
use artemis_light.Prelude.{
  ℕ, zero, suc, ◌≤◌, ◌<◌, ◌≡◌, refl, ap, ◌≢◌, Bool, true, false, Option, none, some, List, [], ◌∷◌,
  ◌++◌, map, arith, ◌==◌, if◌then◌else◌, length, length-append, codes, format,
}
use artemis_light.Schema.{
  Column, TableSchema, quote_ident, read_ident, read_ident-quote_ident, EndsIdent,
  block_number_column,
}
use artemis_light.Dialect.{Dialect}
use artemis_light.Query.{join, comma, replay_query, range_query}

-- What follows a keyword, if the text begins with it.
abbrev pub after : List ℕ → List ℕ → Option (List ℕ)
after [] t = some t
after (c ∷ keyword) [] = none
after (c ∷ keyword) (d ∷ t) = if c == d then after keyword t else none

abbrev pub then_read : {A B : Type 0} → Option A → (A → Option B) → Option B
then_read none k = none
then_read (some a) k = k a

abbrev Names : Type 0
Names = List (List ℕ) × List ℕ

abbrev with_name : List ℕ → Option Names → Option Names
with_name name none = none
with_name name (some (names, rest)) = some (name ∷ names, rest)

abbrev continued : (List ℕ → Option Names) → List ℕ × List ℕ → Option (List ℕ) → Option Names
continued more (name, rest) none = some (name ∷ [], rest)
continued more (name, rest) (some next) = with_name name (more next)

-- How SQL reads a list of delimited identifiers, of at most `fuel` names.
read_names : ℕ → List ℕ → Option Names
read_names zero t = none
read_names (suc fuel) t =
    then_read (read_ident t) (λ r. continued (read_names fuel) r (after comma r.1))

-- How SQL reads the columns and the table of a `SELECT`.
pub read_select : List ℕ → Option (List (List ℕ) × List ℕ × List ℕ)
unfolding read_names
read_select t = then_read (after (codes "SELECT ") t) λ t. then_read (read_names (length t) t) λ r.
    then_read (after (codes " FROM ") r.1) λ u. then_read (read_ident u) λ v. some (r.0, v.0, v.1)

-- The names as an identifier list.
abbrev quoted : List Column → List (List ℕ)
quoted cs = map (λ c. quote_ident c.name) cs

regroup : (x y rest : List ℕ) → format (x ∷ comma ∷ y ∷ []) ++ rest ≡ x ++ (comma ++ (y ++ rest))
regroup x y rest = simp (append_assoc, append-nil)

regroup_pinned :
    (x y rest : List ℕ) → format (x ∷ codes "." ∷ y ∷ []) ++ rest ≡ x ++ (codes "." ++ (y ++ rest))
regroup_pinned x y rest = simp (append_assoc, append-nil)

read_names-join :
    (fuel : ℕ) (c : Column) (cs : List Column) (rest : List ℕ)
    → length cs ≤ fuel
    → EndsIdent rest
    → after comma rest ≡ none
    → read_names (suc fuel) (join comma (quoted (c ∷ cs)) ++ rest)
      ≡ some (map (λ c. c.name) (c ∷ cs), rest)
unfolding read_names join
read_names-join fuel c [] rest h e k = rw (read_ident-quote_ident c.name rest e, k) refl
read_names-join zero c (d ∷ cs) rest h e k = absurd (omega arith)
read_names-join (suc fuel) c (d ∷ cs) rest h e k =
    let more = join comma (quoted (d ∷ cs)) ++ rest in
    rw (regroup (quote_ident c.name) (join comma (quoted (d ∷ cs))) rest) (
      rw (read_ident-quote_ident c.name (comma ++ more) (λ x. ground (arith, x)))
        (ap (with_name c.name) (read_names-join fuel d cs rest (omega arith) e k)))

quote_ident-length_pos : (name : List ℕ) → 0 < length (quote_ident name)
unfolding quote_ident
quote_ident-length_pos name = omega arith

quoted_size : (c : Column) (cs : List Column) → length cs < length (join comma (quoted (c ∷ cs)))
unfolding join
quoted_size c [] = omega (arith, quote_ident-length_pos c.name)
quoted_size c (d ∷ cs) =
    rw (length-append (quote_ident c.name) (comma ++ (join comma (quoted (d ∷ cs)) ++ [])))
      (rw append-nil (omega (arith, quoted_size d cs)))

read_names-quoted :
    (n : ℕ) (c : Column) (cs : List Column) (rest : List ℕ)
    → length cs < n
    → EndsIdent rest
    → after comma rest ≡ none
    → read_names n (join comma (quoted (c ∷ cs)) ++ rest) ≡ some (map (λ c. c.name) (c ∷ cs), rest)
read_names-quoted zero c cs rest h e k = absurd (omega arith)
read_names-quoted (suc n) c cs rest h e k = read_names-join n c cs rest (omega arith) e k

read_select-names :
    (c : Column) (cs : List Column) (table rest : List ℕ)
    → EndsIdent rest
    → read_select (
        codes "SELECT "
        ++ (join comma (quoted (c ∷ cs)) ++ (codes " FROM " ++ (quote_ident table ++ rest))))
      ≡ some (map (λ c. c.name) (c ∷ cs), table, rest)
unfolding read_select
read_select-names c cs table rest e =
    let from = codes " FROM " ++ (quote_ident table ++ rest) in
    let size : length cs < length (join comma (quoted (c ∷ cs)) ++ from) =
      rw (length-append (join comma (quoted (c ∷ cs))) from) (omega (arith, quoted_size c cs)) in
    rw
      (read_names-quoted (length (join comma (quoted (c ∷ cs)) ++ from)) c cs from size
        (λ x. ground (arith, x)) refl)
      (rw (read_ident-quote_ident table rest e) refl)

-- How SQL reads the table of a query for all columns, under a schema or not.
pub read_from : Bool → List ℕ → Option (List (List ℕ) × List ℕ)
read_from true t = then_read (after (codes "SELECT * FROM ") t) λ t. then_read (read_ident t) λ r.
    then_read (after (codes ".") r.1) λ u. then_read (read_ident u) λ v. some (r.0 ∷ v.0 ∷ [], v.1)
read_from false t =
    then_read (after (codes "SELECT * FROM ") t)
      λ t. then_read (read_ident t) λ r. some (r.0 ∷ [], r.1)

module _ {Failure : Type 0} (d : Dialect Failure) where
  -- What stands behind the table name of a replay query.
  abbrev pub replay_filter : List ℕ
  replay_filter = format (
      codes " WHERE "
      ∷ block_number_column
      ∷ codes " <= "
      ∷ d.placeholder 1
      ∷ codes " ORDER BY "
      ∷ block_number_column
      ∷ codes " ASC, "
      ∷ d.tiebreak
      ∷ codes " ASC"
      ∷ [])

  -- What stands behind the table name of a range query.
  abbrev pub range_filter : List ℕ
  range_filter =
      let block = quote_ident block_number_column in
      format (
        codes " WHERE "
        ∷ block
        ∷ codes " BETWEEN "
        ∷ d.placeholder 1
        ∷ codes " AND "
        ∷ d.placeholder 2
        ∷ codes " ORDER BY "
        ∷ block
        ∷ codes " ASC, "
        ∷ d.tiebreak
        ∷ codes " ASC LIMIT "
        ∷ d.placeholder 3
        ∷ codes " OFFSET "
        ∷ d.placeholder 4
        ∷ [])

  replay_query-names :
      (cs : List Column) (table : List ℕ)
      → cs ≢ []
      → read_select (replay_query d (record { table = table; columns = cs }))
        ≡ some (map (λ c. c.name) cs, table, replay_filter)
  unfolding replay_query
  replay_query-names [] table h = absurd (h refl)
  replay_query-names (c ∷ cs) table h =
      read_select-names c cs table replay_filter (λ x. ground (arith, x))

  -- From the replay query of a table with columns SQL reads exactly the schema's column names, in
  -- their order, and its table name; from a range query the table name, behind the schema if there
  -- is one. What follows depends on the dialect alone, whatever the names hold.
  pub queries-read :
      (s : TableSchema) (table schema : List ℕ)
      → (s.columns ≢ []
          → read_select (replay_query d s)
            ≡ some (map (λ c. c.name) s.columns, s.table, replay_filter))
        × (read_from false (range_query d table none) ≡ some (table ∷ [], range_filter))
        × (read_from true (range_query d table (some schema))
            ≡ some (schema ∷ table ∷ [], range_filter))
  unfolding read_from range_query
  queries-read s table schema = (
    replay_query-names s.columns s.table,
    rw (read_ident-quote_ident table range_filter (λ x. ground (arith, x))) refl,
    rw (regroup_pinned (quote_ident schema) (quote_ident table) range_filter) (
        rw
          (read_ident-quote_ident schema (codes "." ++ (quote_ident table ++ range_filter))
            (λ x. ground (arith, x)))
          (rw (read_ident-quote_ident table range_filter (λ x. ground (arith, x))) refl)),
  )
