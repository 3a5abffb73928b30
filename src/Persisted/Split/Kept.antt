-- ===== src/Persisted/Split/Kept.antt =====
-- What the queries of one bisection (src/persistence/persisted.rs) keep of the collector's state.
use artemis_light.Prelude.{
  ℕ, zero, suc, ◌+◌, ◌-◌, ◌/◌, ◌≤◌, ◌<◌, inl, inr, arith, ok, err, ltb, Bool-cases,
}
use artemis_light.Persisted.Source.{Ranged, Answer, ask}
use artemis_light.Persisted.Split.{
  is_response_size_error, both, or_halves, query_range_split, chained, split_from,
}

module _ (c : Ranged) (Inv : c.State → Type 0) where
  -- The invariant is kept by every query that lies within the range and is not wider than the chunk.
  abbrev pub KeptWithin : ℕ → ℕ → ℕ → Type 0
  KeptWithin from to chunk =
      (lo hi : ℕ) (s : c.State)
      → from ≤ lo
      → lo ≤ hi
      → hi ≤ to
      → hi - lo < chunk
      → Inv s
      → Inv (ask c lo hi s).1

  or_halves-Inv :
      (from to : ℕ) (r : Answer c × c.State) (halves : c.State → Answer c × c.State)
      → Inv r.1
      → (from < to → (t : c.State) → Inv t → Inv (halves t).1)
      → Inv (or_halves c from to r halves).1
  unfolding or_halves
  or_halves-Inv from to (ok events, s) halves i h = i
  or_halves-Inv from to (err e, s) halves i h = elim (Bool-cases (ltb from to)) [
    | inl x ↦ elim (Bool-cases (is_response_size_error c e)) [
      | inl y ↦ rw (x, y) (h (ground (arith, x)) s i)
      | inr y ↦ rw (x, y) i
    ]
    | inr x ↦ rw x i
  ]

  both-Inv :
      (lo : Answer c × c.State) (hi : c.State → Answer c × c.State)
      → Inv lo.1
      → ((t : c.State) → Inv t → Inv (hi t).1)
      → Inv (both c lo hi).1
  unfolding both
  both-Inv (err e, s) hi i h = i
  both-Inv (ok lo, s) hi i h = go (hi s) (h s i)
    where
      go : (r : Answer c × c.State) → Inv r.1 → Inv (chained c lo r).1
      go (ok hi, s) j = j
      go (err e, s) j = j

  split_from-Inv :
      (n from to low high chunk : ℕ) (s : c.State)
      → KeptWithin low high chunk
      → low ≤ from
      → from ≤ to
      → to ≤ high
      → to - from < chunk
      → Inv s
      → Inv (split_from c n from to s).1
  unfolding split_from
  split_from-Inv zero from to low high chunk s k p q r w i = k from to s p q r w i
  split_from-Inv (suc n) from to low high chunk s k p q r w i =
      let mid : ℕ = from + (to - from) / 2 in
      or_halves-Inv from to (ask c from to s) _ (k from to s p q r w i) (λ l t j.
        both-Inv (split_from c n from mid t) _
          (split_from-Inv n from mid low high chunk t k p (omega arith) (omega arith) (omega arith)
            j)
          (λ u x.
            split_from-Inv n (suc mid) to low high chunk u k (omega arith) (omega arith) r
              (omega arith) x))

  -- One bisected query asks for parts of its range only.
  pub query_range_split-Inv :
      (from to low high chunk : ℕ) (s : c.State)
      → KeptWithin low high chunk
      → low ≤ from
      → from ≤ to
      → to ≤ high
      → to - from < chunk
      → Inv s
      → Inv (query_range_split c from to s).1
  unfolding query_range_split
  query_range_split-Inv from to low high chunk s =
      split_from-Inv (to - from) from to low high chunk s
