-- ===== src/Wrappers/RateLimiting.antt =====
-- `RateLimit` of src/executor_ext/rate_limit.rs. An instant is a number of nanoseconds.
pub mod Windowed
use artemis_light.Prelude.{
  ℕ, zero, suc, ◌+◌, ◌-◌, max, Option, List, [], ◌∷◌, ◌++◌, leb, if◌then◌else◌, length,
}
use artemis_light.Wrappers.{Executor}

-- `WINDOW`
abbrev pub window : ℕ
window = 1000000000

-- The element at an index, or this default.
abbrev nth : ℕ → ℕ → List ℕ → ℕ
nth d n [] = d
nth d zero (t ∷ ts) = t
nth d (suc n) (t ∷ ts) = nth d n ts

-- How much time passes before a call, and from the end of its wait to its reading of the clock.
pub record Timing : Type 0 where
  pub idle : ℕ
  pub late : ℕ

module _ {A : Type 0} (x : Executor A) where
  -- The wrapper, with the clock as it last read it.
  pub record RateLimit : Type 0 where
    pub executor : x.State
    pub per_second : ℕ
    pub sent : List ℕ
    pub clock : ℕ

  -- `RateLimit::new`, for a `NonZeroU32`.
  abbrev pub rate_limit : x.State → ℕ → RateLimit
  rate_limit s per_second = record { executor = s; per_second = per_second; sent = []; clock = 0 }

  -- The instant at which the wait ends: that of the call, or a window after the oldest submission
  -- that counts.
  waited : RateLimit → ℕ → ℕ
  waited r arrival =
      if leb r.per_second (length r.sent)
      then max arrival (nth 0 (length r.sent - r.per_second) r.sent + window)
      else arrival

  -- The `while` loop that drops what has left the window.
  expire : ℕ → List ℕ → List ℕ
  expire now [] = []
  expire now (t ∷ ts) = let rest = expire now ts in if leb (t + window) now then rest else t ∷ ts

  -- `RateLimit::execute`
  unfoldable pub rate_execute : Timing → A → RateLimit → Option x.Failure × RateLimit
  unfolding waited expire
  rate_execute timing action r =
      let now = waited r (r.clock + timing.idle) + timing.late in
      let (verdict, s) = x.execute action r.executor in
      (verdict, record r { executor = s; sent = expire now r.sent ++ now ∷ []; clock = now })

  -- The instants of the submissions of a run, and the limiter after it.
  pub submit_timed : List (Timing × A) → RateLimit → List ℕ × RateLimit
  submit_timed [] r = ([], r)
  submit_timed ((timing, a) ∷ calls) r =
      let s = (rate_execute timing a r).1 in
      let (times, end) = submit_timed calls s in (s.clock ∷ times, end)
