-- ===== src/Persisted/Source.antt =====
-- The source that a `Persisted` of src/persistence/persisted.rs reads: the trait
-- `PersistableCollector` as a parameter, and the history that it answers from.
use mathlib.Core.List.{append_assoc}
use artemis_light.Prelude.{
  ℕ, zero, suc, ◌+◌, ◌-◌, ◌≤◌, ◌<◌, ◌≡◌, sym, ap, ◌∙◌, List, [], ◌++◌, arith, ok, Result,
}
use artemis_light.Position.{Position}

-- `PersistableCollector::query_range`, from one state of the collector to the next. Of an error the
-- program reads the lower-cased text.
pub record Ranged : Type 1 where
  pub P : Type 0
  pub E : Type 0
  pub State : Type 0
  pub Failure : Type 0
  pub pos : Position P
  pub text : Failure → List ℕ
  pub query_range : P → P → State → Result Failure (List (P × E)) × State

module _ (c : Ranged) where
  abbrev pub Answer : Type 0
  Answer = Result c.Failure (List (c.P × c.E))

  -- The query between two sort keys.
  abbrev pub ask : ℕ → ℕ → c.State → Answer × c.State
  ask from to s = c.query_range (c.pos.from_sort_key from) (c.pos.from_sort_key to) s

  -- The events of n positions from `from` on.
  abbrev pub events_from : (ℕ → List (c.P × c.E)) → ℕ → ℕ → List (c.P × c.E)
  events_from at from zero = []
  events_from at from (suc n) = at from ++ events_from at (suc from) n

  -- The events of the inclusive range.
  abbrev pub history : (ℕ → List (c.P × c.E)) → ℕ → ℕ → List (c.P × c.E)
  history at from to = events_from at from (suc to - from)

  -- An answer to a range is the history of the range, whenever the range is asked.
  abbrev pub AnswersFrom : (ℕ → List (c.P × c.E)) → Type 0
  AnswersFrom at =
      (from to : ℕ) (s : c.State) (events : List (c.P × c.E))
      → from ≤ to
      → (ask from to s).0 ≡ ok events
      → events ≡ history at from to

  events_from_plus :
      (at : ℕ → List (c.P × c.E)) (from m n : ℕ)
      → events_from at from (m + n) ≡ events_from at from m ++ events_from at (from + m) n
  events_from_plus at from zero n =
      let start : from ≡ from + 0 = omega arith in
      let size : 0 + n ≡ n = omega arith in
      ap (events_from at from) size ∙ ap (λ k. events_from at k n) start
  events_from_plus at from (suc m) n =
      let size : suc m + n ≡ suc (m + n) = omega arith in
      let start : suc from + m ≡ from + suc m = omega arith in
      ap (events_from at from) size
      ∙ ap (λ es. at from ++ es)
          (events_from_plus at (suc from) m n
            ∙ ap (λ k. events_from at (suc from) m ++ events_from at k n) start)
      ∙ sym (append_assoc (at from) _ _)

  -- The positions below m are those up to `mid` and then the rest.
  pub history_split :
      (at : ℕ → List (c.P × c.E)) (from mid m : ℕ)
      → from ≤ mid
      → mid < m
      → events_from at from (m - from)
        ≡ history at from mid ++ events_from at (suc mid) (m - suc mid)
  history_split at from mid m h k =
      let size : m - from ≡ (suc mid - from) + (m - suc mid) = omega arith in
      let next : from + (suc mid - from) ≡ suc mid = omega arith in
      ap (events_from at from) size
      ∙ events_from_plus at from (suc mid - from) (m - suc mid)
      ∙ ap (λ k. events_from at from (suc mid - from) ++ events_from at k (m - suc mid)) next
