-- ===== src/Persisted/Chunks.antt =====
-- `chunked_query` and `backfill_segment` of src/persistence/persisted.rs: the gap in windows.
pub mod Cover
pub mod Asked
use artemis_light.Prelude.{
  ℕ, zero, suc, ◌-◌, min, List, [], ◌++◌, ok, err, ltb, leb, if◌then◌else◌, u64_max, saturating_add,
  Result,
}
use artemis_light.Persisted.Source.{Ranged, Answer}
use artemis_light.Persisted.Split.{query_range_split}

-- How the stream of windows ends: past the range, by a window that failed and cancelled `poison`,
-- or not within the fuel.
pub data End : Type 0 where
  exhausted poisoned running : End

-- What the stream yields when it is read to its end.
pub record Windows (c : Ranged) : Type 0 where
  pub events : List (c.P × c.E)
  pub end : End
  pub state : c.State

-- `window_end`: a u64 sum that saturates.
abbrev pub window_end : ℕ → ℕ → ℕ → ℕ
window_end from to chunk = min (saturating_add u64_max from (chunk - 1)) to

module _ (c : Ranged) where
  abbrev pub prepend : List (c.P × c.E) → Windows c → Windows c
  prepend events w = record w { events = events ++ w.events }

  -- The rest of the stream after the answer to one window.
  after_window : Answer c × c.State → (c.State → Windows c) → Windows c
  after_window (ok events, s) rest = prepend events (rest s)
  after_window (err e, s) rest = record { events = []; end = poisoned; state = s }

  -- The `while` loop, a window for each unit of fuel.
  unfoldable pub windows : ℕ → ℕ → ℕ → ℕ → c.State → Windows c
  unfolding after_window
  windows zero next_from to chunk s = record { events = []; end = running; state = s }
  windows (suc fuel) next_from to chunk s =
      let next_to = window_end next_from to chunk in
      if leb next_from to
      then (after_window (query_range_split c next_from next_to s)
          (λ t. windows fuel (saturating_add u64_max next_to 1) to chunk t))
      else record { events = []; end = exhausted; state = s }

  after_first :
      Answer c × c.State → (c.State → Windows c) → Result (c.Failure × c.State) (Windows c)
  after_first (ok events, s) rest = ok (prepend events (rest s))
  after_first (err e, s) rest = err (e, s)

  -- `chunked_query`: the first window is queried at once and its failure is the caller's.
  unfoldable pub chunked_query : ℕ → ℕ → ℕ → ℕ → c.State → Result (c.Failure × c.State) (Windows c)
  unfolding after_first
  chunked_query fuel from to chunk s =
      let first_to = window_end from to chunk in
      after_first (query_range_split c from first_to s)
        (λ t. windows fuel (saturating_add u64_max first_to 1) to chunk t)

  -- `backfill_segment`: a position to a unit of fuel is enough.
  unfoldable pub backfill_segment : ℕ → ℕ → ℕ → c.State → Result (c.Failure × c.State) (Windows c)
  backfill_segment from to chunk s =
      if ltb to from
      then ok (record { events = []; end = exhausted; state = s })
      else chunked_query (suc to - from) from to chunk s
