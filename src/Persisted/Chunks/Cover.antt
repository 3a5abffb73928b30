-- ===== src/Persisted/Chunks/Cover.antt =====
-- What the windows of `backfill_segment` (src/persistence/persisted.rs) deliver of the gap.
use artemis_light.Prelude.{
  ℕ, zero, suc, ◌+◌, ◌-◌, ◌≤◌, ◌<◌, ◌≡◌, sym, ap, subst, inl, inr, List, ◌++◌, arith, ok, err, ltb,
  leb, leb→le, Bool-cases, u64_max, saturating_add, Result,
}
use artemis_light.Persisted.Source.{
  Ranged, Answer, events_from, history, AnswersFrom, history_split,
}
use artemis_light.Persisted.Split.{query_range_split}
use artemis_light.Persisted.Split.Answers.{Settled, query_range_split-Settled}
use artemis_light.Persisted.Chunks.{
  End, exhausted, poisoned, running, Windows, window_end, prepend, windows, chunked_query,
  backfill_segment, after_first, after_window,
}

module _ (c : Ranged) (at : ℕ → List (c.P × c.E)) where
  -- All of the range, or all of its positions below some m of it, where a window failed.
  pub CoveredBy : ℕ → ℕ → End → List (c.P × c.E) → Type 0
  CoveredBy from to exhausted events = events ≡ history c at from to
  CoveredBy from to poisoned events =
      (m : ℕ) × (from ≤ m) × (m ≤ to) × (events ≡ events_from c at from (m - from))
  CoveredBy from to running events = ⊥

  abbrev pub Covered : ℕ → ℕ → Windows c → Type 0
  Covered from to w = CoveredBy from to w.end w.events

  prepend-Covered :
      (from mid to : ℕ) (events : List (c.P × c.E)) (w : Windows c)
      → from ≤ mid
      → mid ≤ to
      → events ≡ history c at from mid
      → Covered (suc mid) to w
      → Covered from to (prepend c events w)
  unfolding CoveredBy
  prepend-Covered from mid to events w l k q h = go w.end w.events h
    where
      joined :
          (m : ℕ) (rest : List (c.P × c.E))
          → mid < m
          → rest ≡ events_from c at (suc mid) (m - suc mid)
          → events ++ rest ≡ events_from c at from (m - from)
      joined m rest x y = cc (q, y, history_split c at from mid m l x)

      go :
          (end : End) (rest : List (c.P × c.E))
          → CoveredBy (suc mid) to end rest
          → CoveredBy from to end (events ++ rest)
      go exhausted rest y = joined (suc to) rest (omega arith) y
      go poisoned rest (m, x, z, y) = (m, omega arith, z, joined m rest (omega arith) y)
      go running rest y = y

  after_window-Covered :
      (from mid to : ℕ) (r : Answer c × c.State) (rest : c.State → Windows c)
      → from ≤ mid
      → mid ≤ to
      → Settled c at from mid r.0
      → ((t : c.State) → Covered (suc mid) to (rest t))
      → Covered from to (after_window c r rest)
  unfolding after_window Settled CoveredBy
  after_window-Covered from mid to (ok events, s) rest l k h f =
      prepend-Covered from mid to events (rest s) l k h (f s)
  after_window-Covered from mid to (err e, s) rest l k h f =
      let same : from - from ≡ 0 = omega arith in
      (from, omega arith, omega arith, ap (events_from c at from) (sym same))

  next_position : (n to : ℕ) → n ≤ to → to < u64_max → saturating_add u64_max n 1 ≡ suc n
  next_position n to h k = omega arith

  windows-Covered :
      (n from to chunk : ℕ) (s : c.State)
      → AnswersFrom c at
      → to < u64_max
      → from ≤ suc to
      → suc to < from + n
      → Covered from to (windows c n from to chunk s)
  unfolding windows CoveredBy
  windows-Covered zero from to chunk s f b l h = absurd (omega arith)
  windows-Covered (suc n) from to chunk s f b l h = elim (Bool-cases (leb from to)) [
    | inl x ↦
        let within : from ≤ to = leb→le from to x in
        let last : ℕ = window_end from to chunk in
        let low : from ≤ last = omega arith in
        let high : last ≤ to = omega arith in
        rw (x, next_position last to high b)
          (after_window-Covered from last to (query_range_split c from last s) _ low high
            (query_range_split-Settled c at from last s f low)
            (λ t. windows-Covered n (suc last) to chunk t f b (omega arith) (omega arith)))
    | inr x ↦
        let none_left : suc to - from ≡ 0 = ground (arith, x) in
        rw x (ap (events_from c at from) (sym none_left))
  ]

  -- A backfill as a whole. The first window fails with the collector's refusal of a part of it.
  pub Backfilled : ℕ → ℕ → ℕ → Result (c.Failure × c.State) (Windows c) → Type 0
  Backfilled from to chunk (ok w) = Covered from to w
  Backfilled from to chunk (err (e, s)) = Settled c at from (window_end from to chunk) (err e)

  after_first-Backfilled :
      (from to chunk : ℕ) (r : Answer c × c.State) (rest : c.State → Windows c)
      → from ≤ window_end from to chunk
      → window_end from to chunk ≤ to
      → Settled c at from (window_end from to chunk) r.0
      → ((t : c.State) → Covered (suc (window_end from to chunk)) to (rest t))
      → Backfilled from to chunk (after_first c r rest)
  unfolding after_first Backfilled Settled
  after_first-Backfilled from to chunk (ok events, s) rest l k h f =
      prepend-Covered from (window_end from to chunk) to events (rest s) l k h (f s)
  after_first-Backfilled from to chunk (err e, s) rest l k h f = h

  -- The backfill of a gap that ends below u64::MAX ends: an inverted gap has no events, and of
  -- another it delivers all or, if a window after the first failed, all below a position of
  -- the gap. The first window fails only with the collector's own refusal of a part of it.
  pub backfill_segment-Backfilled :
      (from to chunk : ℕ) (s : c.State)
      → AnswersFrom c at
      → to < u64_max
      → Backfilled from to chunk (backfill_segment c from to chunk s)
  unfolding backfill_segment chunked_query Backfilled CoveredBy
  backfill_segment-Backfilled from to chunk s f b = elim (Bool-cases (ltb to from)) [
    | inl x ↦
        let none_left : suc to - from ≡ 0 = ground (arith, x) in
        rw x (ap (events_from c at from) (sym none_left))
    | inr x ↦
        let within : from ≤ to = ground (arith, x) in
        let last : ℕ = window_end from to chunk in
        let low : from ≤ last = omega arith in
        let high : last ≤ to = omega arith in
        rw (x, next_position last to high b)
          (after_first-Backfilled from to chunk (query_range_split c from last s) _ low high
            (query_range_split-Settled c at from last s f low)
            (λ t.
              windows-Covered (suc to - from) (suc last) to chunk t f b (omega arith)
                (omega arith)))
  ]

  pub Backfilled-Covered :
      (from to chunk : ℕ) (w : Windows c) → Backfilled from to chunk (ok w) → Covered from to w
  unfolding Backfilled
  Backfilled-Covered from to chunk w h = h

  -- A backfill that is read to its end without a failed window has the whole history of the gap.
  pub backfill_segment_exhausted :
      (from to chunk : ℕ) (s : c.State) (w : Windows c)
      → AnswersFrom c at
      → to < u64_max
      → backfill_segment c from to chunk s ≡ ok w
      → w.end ≡ exhausted
      → w.events ≡ history c at from to
  unfolding Backfilled CoveredBy
  backfill_segment_exhausted from to chunk s w f b q h =
      let covered : Backfilled from to chunk (ok w) =
        subst (Backfilled from to chunk) q (backfill_segment-Backfilled from to chunk s f b) in
      subst (λ e. CoveredBy from to e w.events) h covered
