-- ===== src/Persisted/Split.antt =====
-- `query_range_split` and `is_response_size_error` of src/persistence/persisted.rs: one range,
-- bisected as long as the provider refuses it for its size.
pub mod Answers
pub mod Kept
use artemis_light.Prelude.{
  ℕ, zero, suc, ◌+◌, ◌-◌, ◌/◌, ◌≤◌, ◌<◌, ◌≡◌, refl, sym, ap, ◌∙◌, inl, inr, Bool, ◌&&◌, ◌||◌, List,
  ◌++◌, arith, ok, err, ltb, if◌then◌else◌, Bool-cases, codes, contains_text,
}
use artemis_light.Persisted.Source.{Ranged, Answer, ask}

module _ (c : Ranged) where
  -- `is_response_size_error`
  unfoldable pub is_response_size_error : c.Failure → Bool
  is_response_size_error e =
      let s = c.text e in
      contains_text (codes "block range") s
      || contains_text (codes "response size") s
      || contains_text (codes "max results") s
      || contains_text (codes "too many results") s
      || contains_text (codes "query returned more than") s
      || contains_text (codes "-32602") s
      || contains_text (codes "too big") s

  -- `lo.chain(hi)`
  chained : List (c.P × c.E) → Answer c × c.State → Answer c × c.State
  chained lo (ok hi, s) = (ok (lo ++ hi), s)
  chained lo (err e, s) = (err e, s)

  -- The lower half, then the upper half if that one has an answer.
  pub both : Answer c × c.State → (c.State → Answer c × c.State) → Answer c × c.State
  unfolding chained
  both (ok lo, s) upper = chained lo (upper s)
  both (err e, s) upper = (err e, s)

  -- The answer to the whole range, or the halves on a refusal for its size.
  pub or_halves : ℕ → ℕ → Answer c × c.State → (c.State → Answer c × c.State) → Answer c × c.State
  or_halves from to (ok events, s) halves = (ok events, s)
  or_halves from to (err e, s) halves =
      if ltb from to && is_response_size_error e then halves s else (err e, s)

  -- The fuel bounds the halvings: a range of one position is not halved.
  split_from : ℕ → ℕ → ℕ → c.State → Answer c × c.State
  unfolding or_halves both
  split_from zero from to s = ask c from to s
  split_from (suc fuel) from to s =
      let mid = from + (to - from) / 2 in
      or_halves from to (ask c from to s)
        (λ t. both (split_from fuel from mid t) (λ u. split_from fuel (suc mid) to u))

  -- `query_range_split`
  unfoldable pub query_range_split : ℕ → ℕ → c.State → Answer c × c.State
  unfolding split_from
  query_range_split from to s = split_from (to - from) from to s

module _ (c : Ranged) where
  or_halves_single :
      (from to : ℕ) (r : Answer c × c.State) (halves : c.State → Answer c × c.State)
      → to ≤ from
      → or_halves c from to r halves ≡ r
  unfolding or_halves
  or_halves_single from to (ok events, s) halves h = refl
  or_halves_single from to (err e, s) halves h = ground arith

  or_halves_ap :
      (from to : ℕ) (r : Answer c × c.State) (f g : c.State → Answer c × c.State)
      → (from < to → (t : c.State) → f t ≡ g t)
      → or_halves c from to r f ≡ or_halves c from to r g
  unfolding or_halves
  or_halves_ap from to (ok events, s) f g h = refl
  or_halves_ap from to (err e, s) f g h = elim (Bool-cases (ltb from to)) [
    | inl q ↦
        ap (λ v. if ltb from to && is_response_size_error c e then v else (err e, s))
          (h (ground (arith, q)) s)
    | inr q ↦ rw q refl
  ]

  both_ap :
      (r : Answer c × c.State) (f g : c.State → Answer c × c.State)
      → ((t : c.State) → f t ≡ g t)
      → both c r f ≡ both c r g
  unfolding both
  both_ap (ok lo, s) f g h = ap (chained c lo) (h s)
  both_ap (err e, s) f g h = refl

  -- With fuel for the width of the range any more of it changes nothing.
  split_from_enough :
      (n m from to : ℕ) (s : c.State)
      → to ≤ from + n
      → to ≤ from + m
      → split_from c n from to s ≡ split_from c m from to s
  unfolding split_from
  split_from_enough zero zero from to s h k = refl
  split_from_enough zero (suc m) from to s h k =
      sym (or_halves_single from to (ask c from to s) _ (omega arith))
  split_from_enough (suc n) zero from to s h k =
      or_halves_single from to (ask c from to s) _ (omega arith)
  split_from_enough (suc n) (suc m) from to s h k =
      or_halves_ap from to (ask c from to s) _ _ (λ l t.
        ap (λ r. both c r (λ u. split_from c n (suc (from + (to - from) / 2)) to u))
          (split_from_enough n m from (from + (to - from) / 2) t (omega arith) (omega arith))
        ∙ both_ap (split_from c m from (from + (to - from) / 2) t) _ _ (λ u.
          split_from_enough n m (suc (from + (to - from) / 2)) to u (omega arith) (omega arith)))

  pub query_range_split_single :
      (from to : ℕ) (s : c.State) → to ≤ from → query_range_split c from to s ≡ ask c from to s
  unfolding query_range_split split_from
  query_range_split_single from to s h =
      split_from_enough (to - from) zero from to s (omega arith) (omega arith)

  -- The bisection ends.
  pub query_range_split_fixpoint :
      (from to : ℕ) (s : c.State)
      → query_range_split c from to s
        ≡ or_halves c from to (ask c from to s) (λ t.
          both c
            (query_range_split c from (from + (to - from) / 2) t)
            (λ u. query_range_split c (suc (from + (to - from) / 2)) to u))
  unfolding query_range_split
  query_range_split_fixpoint from to s =
      split_from_enough (to - from) (suc (to - from)) from to s (omega arith) (omega arith)
      ∙ or_halves_ap from to (ask c from to s) _ _ (λ l t.
        ap (λ r. both c r (λ u. split_from c (to - from) (suc (from + (to - from) / 2)) to u))
          (split_from_enough (to - from) (from + (to - from) / 2 - from) from
            (from + (to - from) / 2) t (omega arith) (omega arith))
        ∙ both_ap (query_range_split c from (from + (to - from) / 2) t) _ _ (λ u.
          split_from_enough (to - from) (to - suc (from + (to - from) / 2))
            (suc (from + (to - from) / 2)) to u (omega arith) (omega arith)))
