-- ===== src/Writer/Window/Slots.antt =====
-- The pending groups of `ConfirmationWindow` (src/persistence/writer/window.rs) and the operations
-- on the map that holds them.
use artemis_light.Prelude.{
  ℕ, ◌≡◌, refl, ap, ◌∙◌, Bool, true, false, not, ◌&&◌, Option, none, some, List, [], ◌∷◌, ◌++◌,
  arith, ltb, leb, ◌==◌, if◌then◌else◌, u64_max, saturating_add,
}
use artemis_light.Position.{IsLawful}
use artemis_light.Writer.Core.{Backend}
use artemis_light.Writer.Block.{is_dedupe}

pub record Pending (b : Backend) : Type 0 where
  pub position : b.P
  pub rows : List b.Row
  pub expected : List b.Row
  pub seeded : Bool

-- The last element in front, which is where `swap_remove` puts it.
abbrev rotated {ℓ} : {A : Type ℓ} → A → List A → List A
rotated x [] = x ∷ []
rotated x (y ∷ ys) = elim (rotated y ys) [ [] ↦ x ∷ [] | z ∷ zs ↦ z ∷ x ∷ zs ]

module _ (b : Backend) where
  -- `BTreeMap::get`, `remove` and `insert`
  unfoldable pub slot : ℕ → List (ℕ × Pending b) → Option (Pending b)
  slot k [] = none
  slot k ((j, p) ∷ slots) = if j == k then some p else slot k slots

  unfoldable pub remove : ℕ → List (ℕ × Pending b) → List (ℕ × Pending b)
  remove k [] = []
  remove k ((j, p) ∷ slots) = if j == k then slots else (j, p) ∷ remove k slots

  unfoldable pub put : ℕ → Pending b → List (ℕ × Pending b) → List (ℕ × Pending b)
  put k p [] = (k, p) ∷ []
  put k p ((j, q) ∷ slots) =
      if ltb k j
      then (k, p) ∷ (j, q) ∷ slots
      else if ltb j k
      then (j, q) ∷ put k p slots
      else (k, p) ∷ slots

  -- A backfill copy becomes what the live tail is expected to repeat.
  unfoldable pub unseed : Pending b → Pending b
  unseed p = record p { expected = p.rows; rows = []; seeded = false }

  -- `ConfirmationWindow::rewind`
  unfoldable pub rewind : ℕ → List (ℕ × Pending b) → List (ℕ × Pending b)
  unfolding unseed
  rewind key [] = []
  rewind key ((k, p) ∷ slots) =
      let rest = rewind key slots in
      if leb key k then (if p.seeded then (k, unseed p) ∷ rest else rest) else (k, p) ∷ rest

  -- Buried `depth` deep under `head`.
  abbrev pub is_matured : ℕ → ℕ → ℕ → Bool
  is_matured head depth k = leb (saturating_add u64_max k depth) head

  unfoldable pub matured : ℕ → ℕ → List (ℕ × Pending b) → List ℕ
  matured head depth [] = []
  matured head depth ((k, p) ∷ slots) =
      let rest = matured head depth slots in if is_matured head depth k then k ∷ rest else rest

  -- `expected` less the first row equal to `row`, in the order that `swap_remove` leaves; `none`
  -- without such a row.
  unmatched : b.Row → List b.Row → Option (List b.Row)
  unmatched row [] = none
  unmatched row (x ∷ xs) =
      let rest = unmatched row xs in
      if b.row_eq x row
      then some (elim xs [ [] ↦ [] | y ∷ ys ↦ rotated y ys ])
      else elim rest [ none ↦ none | some ys ↦ some (x ∷ ys) ]

  extended : b.P → b.Row → Pending b → Pending b
  extended position row p = record p {
    position = b.pos.advance (some p.position) position;
    rows = p.rows ++ row ∷ [];
  }

  repeated : b.P → b.Row → Pending b → Option (List b.Row) → Bool × Pending b
  unfolding extended
  repeated position row p none = (true, extended position row p)
  repeated position row p (some rest) =
      (false, record (extended position row p) { expected = rest })

  -- The live event's slot, and whether the event is delivered: a row that the backfill has already
  -- delivered is not.
  pub live_group : b.P → b.Row → Option (Pending b) → Bool × Pending b
  unfolding repeated unseed unmatched
  live_group position row none =
      (true, record { position = position; rows = row ∷ []; expected = []; seeded = false })
  live_group position row (some p) =
      let q = if not (is_dedupe b.pos.reobservation) && p.seeded then unseed p else p in
      repeated position row q (unmatched row q.expected)

  -- The slot of an event of the backfill tail.
  pub seeded_group : b.P → b.Row → Option (Pending b) → Pending b
  unfolding extended
  seeded_group position row none = record {
    position = position;
    rows = row ∷ [];
    expected = [];
    seeded = true;
  }
  seeded_group position row (some p) = extended position row p

-- The slot's group keeps its sort key.
module _ (b : Backend) (l : IsLawful b.pos) where
  pub live_group_key :
      (position : b.P) (row : b.Row) (o : Option (Pending b))
      → ((p : Pending b) → o ≡ some p → b.pos.sort_key p.position ≡ b.pos.sort_key position)
      → b.pos.sort_key (live_group b position row o).1.position ≡ b.pos.sort_key position
  unfolding live_group
  live_group_key position row none h = refl
  live_group_key position row (some p) h = go (not (is_dedupe b.pos.reobservation) && p.seeded)
    where
      key : b.pos.sort_key (b.pos.advance (some p.position) position) ≡ b.pos.sort_key position
      key = l.monotone p.position position ∙ ground (arith, h p refl)

      entered :
          (q : Pending b) (o : Option (List b.Row))
          → q.position ≡ p.position
          → b.pos.sort_key (repeated b position row q o).1.position ≡ b.pos.sort_key position
      entered q none e = ap (λ x. b.pos.sort_key (b.pos.advance (some x) position)) e ∙ key
      entered q (some rest) e = ap (λ x. b.pos.sort_key (b.pos.advance (some x) position)) e ∙ key

      go :
          (x : Bool)
          → b.pos.sort_key
              (repeated b position row
                (if x then unseed b p else p)
                (unmatched b row (if x then unseed b p else p).expected)).1.position
            ≡ b.pos.sort_key position
      go true = entered (unseed b p) _ refl
      go false = entered p _ refl
