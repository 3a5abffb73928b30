-- ===== src/Collectors/Merging.antt =====
-- The combinators map.rs, filter_map.rs and merge.rs of src/collector_ext. `select` and `select_all` are
-- the futures crate's, and parameters: which order they take is not the library's.
use artemis_light.Prelude.{
  ◌≡◌, refl, ap, ◌∙◌, ◌⊎◌, inl, inr, Option, none, some, List, [], ◌∷◌, ◌++◌, ok, err, Result,
}
use artemis_light.Collectors.Combining.{SourceError, no_sources, Source, subscribe_each}

abbrev pub kept_onto : {B : Type 0} → Option B → List B → List B
kept_onto none l = l
kept_onto (some b) l = b ∷ l

-- The items for which `f` gives a value, in their order.
abbrev pub select_mapped : {A B : Type 0} → (A → Option B) → List A → List B
select_mapped f [] = []
select_mapped f (a ∷ l) = kept_onto (f a) (select_mapped f l)

kept_onto-append :
    {B : Type 0} (o : Option B) (xs ys : List B) → kept_onto o (xs ++ ys) ≡ kept_onto o xs ++ ys
kept_onto-append none xs ys = refl
kept_onto-append (some b) xs ys = refl

pub select_mapped-append :
    {A B : Type 0} (f : A → Option B) (xs ys : List A)
    → select_mapped f (xs ++ ys) ≡ select_mapped f xs ++ select_mapped f ys
select_mapped-append f [] ys = refl
select_mapped-append f (x ∷ xs) ys =
    ap (kept_onto (f x)) (select_mapped-append f xs ys)
    ∙ kept_onto-append (f x) (select_mapped f xs) (select_mapped f ys)

-- The third list has the items of the first and of the second, of each in its order.
pub data Interleaves {E : Type 0} : List E → List E → List E → Type 0 where
  both_ended : Interleaves [] [] []
  from_this : {x : E} {xs ys zs : List E} → Interleaves xs ys zs → Interleaves (x ∷ xs) ys (x ∷ zs)
  from_other : {y : E} {xs ys zs : List E} → Interleaves xs ys zs → Interleaves xs (y ∷ ys) (y ∷ zs)

module _ {A B : Type 0} (f : A → Option B) where
  from_this_kept :
      (o : Option B) {xs ys zs : List B}
      → Interleaves xs ys zs
      → Interleaves (kept_onto o xs) ys (kept_onto o zs)
  from_this_kept none i = i
  from_this_kept (some b) i = from_this i

  from_other_kept :
      (o : Option B) {xs ys zs : List B}
      → Interleaves xs ys zs
      → Interleaves xs (kept_onto o ys) (kept_onto o zs)
  from_other_kept none i = i
  from_other_kept (some b) i = from_other i

  pub select_mapped-Interleaves :
      {xs ys zs : List A}
      → Interleaves xs ys zs
      → Interleaves (select_mapped f xs) (select_mapped f ys) (select_mapped f zs)
  select_mapped-Interleaves both_ended = both_ended
  select_mapped-Interleaves (from_this {x = x} i) =
      from_this_kept (f x) (select_mapped-Interleaves i)
  select_mapped-Interleaves (from_other {y = y} i) =
      from_other_kept (f y) (select_mapped-Interleaves i)

module _ {World F : Type 0} where
  abbrev pub stream_mapped :
      {A B : Type 0}
      → (A → Option B)
      → Result (SourceError F) (List A) × World
      → Result (SourceError F) (List B) × World
  stream_mapped f (ok items, w) = (ok (select_mapped f items), w)
  stream_mapped f (err e, w) = (err e, w)

  -- `FilterMap::subscribe`, which is `subscribe_filter_mapped`
  unfoldable pub filter_map : {A B : Type 0} → (A → Option B) → Source World F A → Source World F B
  filter_map f collector w = stream_mapped f (collector w)

  -- `Map::subscribe`
  unfoldable pub map_collector : {A B : Type 0} → (A → B) → Source World F A → Source World F B
  unfolding filter_map
  map_collector f collector = filter_map (λ a. some (f a)) collector

  module _ {E : Type 0} (select : List E → List E → List E) where
    abbrev pub selected :
        List E → Result (SourceError F) (List E) × World → Result (SourceError F) (List E) × World
    selected events (ok more, w) = (ok (select events more), w)
    selected events (err e, w) = (err e, w)

    abbrev pub merge_then :
        Result (SourceError F) (List E) × World
        → Source World F E
        → Result (SourceError F) (List E) × World
    merge_then (ok events, w) other = selected events (other w)
    merge_then (err e, w) other = (err e, w)

    -- `Merge::subscribe`
    unfoldable pub merge : Source World F E → Source World F E → Source World F E
    merge this other w = merge_then (this w) other

  module _ {E : Type 0} (select_all : List (List E) → List E) where
    abbrev pub all_selected :
        Result (SourceError F) (List (List E)) × World → Result (SourceError F) (List E) × World
    all_selected (ok streams, w) = (ok (select_all streams), w)
    all_selected (err e, w) = (err e, w)

    -- `MergeAll::subscribe`
    unfoldable pub merge_all : List (Source World F E) → Source World F E
    unfolding subscribe_each
    merge_all [] w = (err no_sources, w)
    merge_all (source ∷ sources) w = all_selected (subscribe_each (source ∷ sources) w)

module _ {World F A B : Type 0} (f : A → Option B) where
  -- What a subscribe of both sources, the second in the world that the first leaves, comes to.
  abbrev pub Merged :
      Source World F A → Source World F A → World → Result (SourceError F) (List B) × World → Type 0
  Merged this other w (ok zs, v) =
      (xs ys : List A) × (u : World) × (this w ≡ (ok xs, u))
      × (other u ≡ (ok ys, v))
      × Interleaves (select_mapped f xs) (select_mapped f ys) zs
  Merged this other w (err e, v) =
      (this w ≡ (err e, v))
      ⊎ ((xs : List A) × (u : World) × (this w ≡ (ok xs, u)) × (other u ≡ (err e, v)))

  -- Filtering and mapping a merge gives what a merge of the two, each filtered and mapped, may give:
  -- if it subscribes, both sources did, this one first, and its events are those of each that `f`
  -- keeps, of each source in its order; if not, its error is that of the source that refused, and a
  -- refusal of the first leaves the other untouched.
  pub filter_map-merge :
      (select : List A → List A → List A)
      → ((xs ys : List A) → Interleaves xs ys (select xs ys))
      → (this other : Source World F A) (w : World)
      → Merged this other w (filter_map f (merge select this other) w)
  unfolding filter_map merge
  filter_map-merge select h this other w = first (this w) refl
    where
      second :
          (xs : List A) (u : World) (r : Result (SourceError F) (List A) × World)
          → this w ≡ (ok xs, u)
          → other u ≡ r
          → Merged this other w (stream_mapped f (selected select xs r))
      second xs u (ok ys, v) e k = (xs, ys, u, e, k, select_mapped-Interleaves f (h xs ys))
      second xs u (err x, v) e k = inr (xs, u, e, k)

      first :
          (r : Result (SourceError F) (List A) × World)
          → this w ≡ r
          → Merged this other w (stream_mapped f (merge_then select r other))
      first (ok xs, u) e = second xs u (other u) e refl
      first (err x, v) e = inl e
