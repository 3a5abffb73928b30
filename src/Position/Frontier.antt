-- ===== src/Position/Frontier.antt =====
-- `TimeFrontier` of src/persistence/position.rs: a boundary instant and the identities seen at it.
-- The set is a list without repetition; the order of `BTreeSet` shows only in the encoded text, which
-- is serde_json's and a parameter.
use text.Mathlib.Text.{◌==◌ as str_eq}
use text.Mathlib.TextEquality.{eq_iff}
use Prim.Native.String.{String}
use artemis_light.Prelude.{
  ℕ, ◌≡◌, refl, inl, inr, Bool, true, false, ◌&&◌, ◌||◌, Option, none, some, List, [], ◌∷◌, ◌++◌,
  arith, ltb, ◌==◌, if◌then◌else◌, Bool-cases,
}
use artemis_light.Position.{dedupe, Position, IsLawful}

pub record TimeFrontier : Type 0 where
  pub time_ms : ℕ
  pub seen : List String

unfoldable pub member : String → List String → Bool
member k [] = false
member k (x ∷ xs) = str_eq x k || member k xs

-- `BTreeSet::insert` and `BTreeSet::extend`
insert : String → List String → List String
unfolding member
insert k s = if member k s then s else s ++ k ∷ []

unfoldable pub extend : List String → List String → List String
unfolding insert
extend s [] = s
extend s (k ∷ ks) = extend (insert k s) ks

-- `self.is_superset(other)`
unfoldable pub is_superset : List String → List String → Bool
unfolding member
is_superset s [] = true
is_superset s (k ∷ ks) = member k s && is_superset s ks

-- `TimeFrontier::advance`, `contains`
unfoldable pub frontier_advance : Option TimeFrontier → TimeFrontier → TimeFrontier
unfolding extend
frontier_advance none next = next
frontier_advance (some prev) next =
    if ltb prev.time_ms next.time_ms
    then next
    else if ltb next.time_ms prev.time_ms
    then prev
    else record { time_ms = prev.time_ms; seen = extend prev.seen next.seen }

unfoldable pub frontier_contains : TimeFrontier → TimeFrontier → Bool
unfolding is_superset
frontier_contains w p =
    ltb p.time_ms w.time_ms || (p.time_ms == w.time_ms && is_superset w.seen p.seen)

unfoldable pub time_frontier :
    (TimeFrontier → List ℕ) → (List ℕ → Option TimeFrontier) → Position TimeFrontier
unfolding frontier_advance frontier_contains
time_frontier to_json from_json = record {
  reobservation = dedupe;
  sort_key = λ p. p.time_ms;
  from_sort_key = λ key. record { time_ms = key; seen = [] };
  advance = frontier_advance;
  contains = frontier_contains;
  resume_key = λ p. p.time_ms;
  encode = to_json;
  decode = from_json;
}

extend-superset : (s ks : List String) → is_superset s ks ≡ true → extend s ks ≡ s
unfolding extend is_superset insert
extend-superset s [] h = refl
extend-superset s (k ∷ ks) h = elim (Bool-cases (member k s)) [
  | inl e ↦ rw e (extend-superset s ks (ground arith))
  | inr e ↦ absurd (ground arith)
]

-- TimeFrontier obeys the laws of the Position trait, whatever its texts are.
pub time_frontier-IsLawful :
    (to_json : TimeFrontier → List ℕ) (from_json : List ℕ → Option TimeFrontier)
    → IsLawful (time_frontier to_json from_json)
unfolding time_frontier frontier_advance frontier_contains
time_frontier-IsLawful to_json from_json = record {
  first = λ p. refl;
  monotone = λ w p. ground arith;
  identity = λ w p h. ground (arith, extend-superset w.seen p.seen);
  minimal = λ k. refl;
  covers = λ w p h. ground arith;
  bounded = λ w p h. ground arith;
}

-- Membership after the operations on the set.
member-append :
    (k : String) (xs ys : List String) → member k (xs ++ ys) ≡ (member k xs || member k ys)
unfolding member
member-append k [] ys = refl
member-append k (x ∷ xs) ys = ground (arith, member-append k xs ys)

member-insert :
    (k j : String) (s : List String) → member k (insert j s) ≡ (str_eq j k || member k s)
unfolding insert member
member-insert k j s = ground (arith, member-append k s (j ∷ []), eq_iff j k)

member-extend :
    (k : String) (s ks : List String) → member k (extend s ks) ≡ (member k s || member k ks)
unfolding extend member
member-extend k s [] = ground arith
member-extend k s (j ∷ ks) = ground (arith, member-extend k (insert j s) ks, member-insert k j s)

superset_of_member :
    (s ks : List String)
    → ((k : String) → member k ks ≡ true → member k s ≡ true)
    → is_superset s ks ≡ true
unfolding is_superset member
superset_of_member s [] h = refl
superset_of_member s (k ∷ ks) h =
    ground
      (arith, h k (ground (arith, eq_iff k k)), superset_of_member s ks (λ j m. h j (ground arith)))

member_of_superset :
    (k : String) (s ks : List String)
    → is_superset s ks ≡ true
    → member k ks ≡ true
    → member k s ≡ true
unfolding is_superset member
member_of_superset k s [] h m = cc
member_of_superset k s (j ∷ ks) h m = ground (arith, eq_iff j k, member_of_superset k s ks)

superset-extend :
    (s ks qs : List String) → is_superset s qs ≡ true → is_superset (extend s ks) qs ≡ true
superset-extend s ks qs h =
    superset_of_member (extend s ks) qs
      (λ k m. ground (arith, member-extend k s ks, member_of_superset k s qs))

-- A frontier advanced over an event covers the event and all that it covered before.
pub frontier_advance_covers :
    (w p : TimeFrontier)
    → (frontier_contains (frontier_advance (some w) p) p ≡ true)
      × ((q : TimeFrontier)
          → frontier_contains w q ≡ true
          → frontier_contains (frontier_advance (some w) p) q ≡ true)
unfolding frontier_contains frontier_advance
frontier_advance_covers w p = (
  ground (
    arith,
    superset_of_member p.seen p.seen (λ k m. m),
    superset_of_member (extend w.seen p.seen) p.seen
        (λ k m. ground (arith, member-extend k w.seen p.seen)),
  ),
  λ q h. ground (arith, superset-extend w.seen p.seen q.seen),
)
