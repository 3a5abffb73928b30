-- ===== src/Persisted/Split/Answers.antt =====
-- What `query_range_split` of src/persistence/persisted.rs answers, against the history of the range.
use artemis_light.Prelude.{
  ℕ, zero, suc, ◌+◌, ◌-◌, ◌/◌, ◌≤◌, ◌<◌, ◌≡◌, refl, sym, ap, subst, ◌∙◌, ◌≢◌, ◌⊎◌, inl, inr, true,
  false, List, ◌++◌, arith, ok, err, ltb, Bool-cases,
}
use artemis_light.Persisted.Source.{Ranged, Answer, ask, history, AnswersFrom, history_split}
use artemis_light.Persisted.Split.{
  is_response_size_error, both, or_halves, query_range_split, chained, split_from, or_halves_single,
}

le_self : (n : ℕ) → n ≤ n
le_self n = omega arith

module _ (c : Ranged) (at : ℕ → List (c.P × c.E)) where
  -- An answer is the whole history of the range. A refusal is the collector's own for a part of it,
  -- and that part is a single position unless the refusal is not about the size.
  unfoldable pub Settled : ℕ → ℕ → Answer c → Type 0
  Settled from to (ok events) = events ≡ history c at from to
  Settled from to (err e) =
      (lo : ℕ) × (hi : ℕ) × (t : c.State) × (from ≤ lo)
      × (lo ≤ hi)
      × (hi ≤ to)
      × ((ask c lo hi t).0 ≡ err e)
      × (lo ≡ hi ⊎ is_response_size_error c e ≡ false)

  both-Settled :
      (from mid to : ℕ) (lo : Answer c × c.State) (hi : c.State → Answer c × c.State)
      → from ≤ mid
      → mid < to
      → Settled from mid lo.0
      → ((t : c.State) → Settled (suc mid) to (hi t).0)
      → Settled from to (both c lo hi).0
  unfolding both Settled
  both-Settled from mid to (err e, s) hi l k (a, b, t, p, q, r, x, y) h =
      (a, b, t, p, q, omega arith, x, y)
  both-Settled from mid to (ok lo, s) hi l k g h = go (hi s) (h s)
    where
      go : (r : Answer c × c.State) → Settled (suc mid) to r.0 → Settled from to (chained c lo r).0
      go (ok hi, s) e =
          ap (λ es. es ++ hi) g
          ∙ ap (λ es. history c at from mid ++ es) e
          ∙ sym (history_split c at from mid (suc to) l (omega arith))
      go (err e, s) (a, b, t, p, q, r, x, y) = (a, b, t, omega arith, q, r, x, y)

  or_halves-Settled :
      (from to : ℕ) (r : Answer c × c.State) (halves : c.State → Answer c × c.State) (s : c.State)
      → AnswersFrom c at
      → from ≤ to
      → ask c from to s ≡ r
      → (from < to → (t : c.State) → Settled from to (halves t).0)
      → Settled from to (or_halves c from to r halves).0
  unfolding or_halves Settled
  or_halves-Settled from to (ok events, t) halves s f l q h = f from to s events l (ap (λ r. r.0) q)
  or_halves-Settled from to (err e, t) halves s f l q h = elim (Bool-cases (ltb from to)) [
    | inl x ↦ elim (Bool-cases (is_response_size_error c e)) [
      | inl y ↦ rw (x, y) (h (ground (arith, x)) t)
      | inr y ↦ rw (x, y) (from, to, s, le_self from, l, le_self to, ap (λ r. r.0) q, inr y)
    ]
    | inr x ↦
        let same : from ≡ to = ground (arith, x) in
        rw x (from, to, s, le_self from, l, le_self to, ap (λ r. r.0) q, inl same)
  ]

  split_from-Settled :
      (n from to : ℕ) (s : c.State)
      → AnswersFrom c at
      → from ≤ to
      → to ≤ from + n
      → Settled from to (split_from c n from to s).0
  unfolding split_from
  split_from-Settled zero from to s f l h =
      subst (λ r. Settled from to r.0)
        (or_halves_single c from to (ask c from to s) (λ t. ask c from to t) (omega arith))
        (or_halves-Settled from to (ask c from to s) (λ t. ask c from to t) s f l refl
          (λ k t. absurd (omega arith)))
  split_from-Settled (suc n) from to s f l h =
      or_halves-Settled from to (ask c from to s) _ s f l refl (λ k t.
        both-Settled from (from + (to - from) / 2) to
          (split_from c n from (from + (to - from) / 2) t) _ (omega arith) (omega arith)
          (split_from-Settled n from (from + (to - from) / 2) t f (omega arith) (omega arith))
          (λ u.
            split_from-Settled n (suc (from + (to - from) / 2)) to u f (omega arith) (omega arith)))

  -- A collector that answers every range it does not refuse with the history of that range is
  -- answered for the same by the bisection: the whole history of the range, or a refusal of a part
  -- of it that is about something else than its size or is of a single position.
  pub query_range_split-Settled :
      (from to : ℕ) (s : c.State)
      → AnswersFrom c at
      → from ≤ to
      → Settled from to (query_range_split c from to s).0
  unfolding query_range_split
  query_range_split-Settled from to s f l =
      split_from-Settled (to - from) from to s f l (omega arith)

  refusal :
      (from to : ℕ) (r : Answer c)
      → ((p : ℕ) (t : c.State) (e : c.Failure) → (ask c p p t).0 ≢ err e)
      → ((lo hi : ℕ) (t : c.State) (e : c.Failure)
          → (ask c lo hi t).0 ≡ err e
          → is_response_size_error c e ≡ true)
      → Settled from to r
      → r ≡ ok (history c at from to)
  unfolding Settled
  refusal from to (ok events) single sized h = ap ok h
  refusal from to (err e) single sized (lo, hi, t, p, q, k, x, inl y) =
      absurd (single hi t e (subst (λ z. (ask c z hi t).0 ≡ err e) y x))
  refusal from to (err e) single sized (lo, hi, t, p, q, k, x, inr y) =
      let z : is_response_size_error c e ≡ true = sized lo hi t e x in absurd (cc (y, z))

  -- A provider that refuses ranges only for their size, and never a single position, gets every
  -- range through: the bisection answers with its whole history.
  pub query_range_split_succeeds :
      (from to : ℕ) (s : c.State)
      → AnswersFrom c at
      → from ≤ to
      → ((p : ℕ) (t : c.State) (e : c.Failure) → (ask c p p t).0 ≢ err e)
      → ((lo hi : ℕ) (t : c.State) (e : c.Failure)
          → (ask c lo hi t).0 ≡ err e
          → is_response_size_error c e ≡ true)
      → (query_range_split c from to s).0 ≡ ok (history c at from to)
  query_range_split_succeeds from to s f l single sized =
      refusal from to (query_range_split c from to s).0 single sized
        (query_range_split-Settled from to s f l)
