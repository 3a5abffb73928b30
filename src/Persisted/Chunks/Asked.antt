-- ===== src/Persisted/Chunks/Asked.antt =====
-- Which ranges the windows of `backfill_segment` (src/persistence/persisted.rs) ask for, and what
-- happens at the top of the u64.
use artemis_light.Prelude.{
  ℕ, zero, suc, ◌-◌, ◌≤◌, ◌<◌, ◌≡◌, refl, ap, ◌∙◌, ◌≢◌, inl, inr, arith, ok, err, ltb, leb, leb→le,
  Bool-cases, u64_max, saturating_add, Result,
}
use artemis_light.Persisted.Source.{Ranged, Answer, ask}
use artemis_light.Persisted.Split.{query_range_split, query_range_split_single}
use artemis_light.Persisted.Split.Kept.{KeptWithin, query_range_split-Inv}
use artemis_light.Persisted.Chunks.{
  running, Windows, window_end, windows, chunked_query, backfill_segment, after_first, after_window,
}

module _ (c : Ranged) (Inv : c.State → Type 0) where
  after_window-Inv :
      (r : Answer c × c.State) (rest : c.State → Windows c)
      → Inv r.1
      → ((t : c.State) → Inv t → Inv (rest t).state)
      → Inv (after_window c r rest).state
  unfolding after_window
  after_window-Inv (ok events, s) rest i h = h s i
  after_window-Inv (err e, s) rest i h = i

  first_window :
      (from to chunk : ℕ)
      → from ≤ to
      → to ≤ u64_max
      → 1 ≤ chunk
      → (from ≤ window_end from to chunk)
        × (window_end from to chunk ≤ to)
        × (window_end from to chunk - from < chunk)
        × (from ≤ saturating_add u64_max (window_end from to chunk) 1)
  first_window from to chunk h b k = (omega arith, omega arith, omega arith, omega arith)

  windows-Inv :
      (n from to low chunk : ℕ) (s : c.State)
      → KeptWithin c Inv low to chunk
      → to ≤ u64_max
      → 1 ≤ chunk
      → low ≤ from
      → Inv s
      → Inv (windows c n from to chunk s).state
  unfolding windows
  windows-Inv zero from to low chunk s k b p l i = i
  windows-Inv (suc n) from to low chunk s k b p l i = elim (Bool-cases (leb from to)) [
    | inl x ↦
        let last : ℕ = window_end from to chunk in
        let (low_end, high_end, width, next) = first_window from to chunk (leb→le from to x) b p in
        rw x (
          after_window-Inv (query_range_split c from last s) _
            (query_range_split-Inv c Inv from last low to chunk s k l low_end high_end width i)
            (λ t j.
              windows-Inv n (saturating_add u64_max last 1) to low chunk t k b p (omega arith) j))
    | inr x ↦ rw x i
  ]

  -- The collector's state after the whole backfill.
  abbrev pub state_after : Result (c.Failure × c.State) (Windows c) → c.State
  state_after (ok w) = w.state
  state_after (err (e, s)) = s

  after_first-Inv :
      (r : Answer c × c.State) (rest : c.State → Windows c)
      → Inv r.1
      → ((t : c.State) → Inv t → Inv (rest t).state)
      → Inv (state_after (after_first c r rest))
  unfolding after_first
  after_first-Inv (ok events, s) rest i h = h s i
  after_first-Inv (err e, s) rest i h = i

  -- For a chunk of at least one and a gap within the u64, every query of a backfill lies within the
  -- gap and covers at most `chunk` positions: what all such queries keep of the collector's state, the backfill keeps.
  pub backfill_segment-KeptWithin :
      (from to chunk : ℕ) (s : c.State)
      → KeptWithin c Inv from to chunk
      → to ≤ u64_max
      → 1 ≤ chunk
      → Inv s
      → Inv (state_after (backfill_segment c from to chunk s))
  unfolding backfill_segment chunked_query
  backfill_segment-KeptWithin from to chunk s k b p i = elim (Bool-cases (ltb to from)) [
    | inl x ↦ rw x i
    | inr x ↦
        let last : ℕ = window_end from to chunk in
        let (low_end, high_end, width, next) = first_window from to chunk (ground (arith, x)) b p in
        rw x (
          after_first-Inv (query_range_split c from last s) _
            (query_range_split-Inv c Inv from last from to chunk s k (omega arith) low_end high_end
              width i)
            (λ t j.
              windows-Inv (suc to - from) (saturating_add u64_max last 1) to from chunk t k b p next
                j))
  ]

module _ (c : Ranged) where
  after_window_answered :
      (r : Answer c × c.State) (rest : c.State → Windows c)
      → ((e : c.Failure) → r.0 ≢ err e)
      → ((t : c.State) → (rest t).end ≡ running)
      → (after_window c r rest).end ≡ running
  unfolding after_window
  after_window_answered (ok events, s) rest h k = k s
  after_window_answered (err e, s) rest h k = absurd (h e refl)

  -- A backfill that has come to u64::MAX as the end of its gap asks for this position again and
  -- again: while the collector answers, the loop still runs after any number of windows.
  pub windows_stall :
      (n chunk : ℕ) (s : c.State)
      → ((t : c.State) (e : c.Failure) → (ask c u64_max u64_max t).0 ≢ err e)
      → (windows c n u64_max u64_max chunk s).end ≡ running
  unfolding windows
  windows_stall zero chunk s h = refl
  windows_stall (suc n) chunk s h =
      let last : window_end u64_max u64_max chunk ≡ u64_max = omega arith in
      let stalled : saturating_add u64_max u64_max 1 ≡ u64_max = refl in
      ap
        (λ k.
          (after_window c (query_range_split c u64_max k s)
            (λ t. windows c n (saturating_add u64_max k 1) u64_max chunk t)).end)
        last
      ∙ ap
          (λ r.
            (after_window c r
              (λ t. windows c n (saturating_add u64_max u64_max 1) u64_max chunk t)).end)
          (query_range_split_single c u64_max u64_max s (omega arith))
      ∙ after_window_answered (ask c u64_max u64_max s) _ (h s)
          (λ t. ap (λ k. (windows c n k u64_max chunk t).end) stalled ∙ windows_stall n chunk t h)
