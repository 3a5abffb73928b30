-- ===== src/Reconnect/Escalation.antt =====
-- When the reconnect policy of src/engine/reconnect.rs escalates: the policy against a description
-- by runs of failing signals, over every history.
use artemis_light.Prelude.{
  ℕ, zero, suc, ◌+◌, ◌*◌, ◌^◌, ◌≤◌, ◌<◌, min, ◌≡◌, sym, ◌∙◌, ◌↔◌, ◌⊎◌, inl, inr, true, false, none,
  List, [], ◌∷◌, arith, Bool-cases, u32_max,
}
use artemis_light.Backoff.{duration_max}
use artemis_light.Backoff.Curve.{delay-eq}
use artemis_light.Reconnect.{
  ReconnectConfig, retry, fatal, ReconnectPolicy, new, backoff, record_failure,
}
use artemis_light.Reconnect.Signals.{
  Signal, run, failing, Begins, Contains, Begins-weaken, Contains-Begins, run-some, run-none,
  step_count, step_fatal, step_reset,
}

module _ (c : ReconnectConfig) (fits : c.max_failures ≤ u32_max) where
  abbrev at : ℕ → ReconnectPolicy
  at f = record { config = c; failures = f }

  -- A fatal verdict comes only after enough failures in a row, those already counted included.
  run_sound :
      (f : ℕ) (l : List Signal) (n : ℕ)
      → c.max_failures ≡ f + n
      → 0 < n
      → run (at f) l ≡ none
      → Begins c n l ⊎ Contains c c.max_failures l
  unfolding run
  run_sound f [] n e h r = cc
  run_sound f (s ∷ l) zero e h r = absurd (omega arith)
  run_sound f (s ∷ l) (suc k) e h r = elim (Bool-cases (failing c s)) [
    | inr t ↦
        elim (run_sound 0 l c.max_failures (omega arith) (omega arith)
          (sym (run-some (at f) s l (step_reset (at f) s fits (omega arith) t)) ∙ r)) [
            | inl b ↦ inr (inr (Contains-Begins c c.max_failures l b))
            | inr b ↦ inr (inr b)
          ]
    | inl t ↦ go k e t (λ e'. run_sound (f + 1) l k e')
  ]
    where
      go :
          (k : ℕ)
          → c.max_failures ≡ f + suc k
          → failing c s ≡ true
          → (c.max_failures ≡ f + 1 + k
              → 0 < k
              → run (at (f + 1)) l ≡ none
              → Begins c k l ⊎ Contains c c.max_failures l)
          → Begins c (suc k) (s ∷ l) ⊎ Contains c c.max_failures (s ∷ l)
      go zero e t ih = inl (t, tt)
      go (suc k) e t ih =
          elim (ih (omega arith) (omega arith)
            (sym (run-some (at f) s l (step_count (at f) s fits (omega arith) t)) ∙ r)) [
              | inl b ↦ inl (t, b)
              | inr b ↦ inr (inr b)
            ]

  -- What is left of the failures in a row after a failing signal, and after another one.
  after_failing :
      (s : Signal) (l : List Signal) (k : ℕ)
      → k < c.max_failures
      → Begins c (suc k) (s ∷ l) ⊎ Contains c c.max_failures (s ∷ l)
      → Begins c k l ⊎ Contains c c.max_failures l
  after_failing s l k h (inl b) = inl b.1
  after_failing s l k h (inr (inl b)) = inl (Begins-weaken c (suc k) c.max_failures (s ∷ l) h b).1
  after_failing s l k h (inr (inr b)) = inr b

  not-Begins :
      (s : Signal) (l : List Signal) (n : ℕ) → failing c s ≡ false → 0 < n → ¬ Begins c n (s ∷ l)
  not-Begins s l zero t h b = omega arith
  not-Begins s l (suc n) t h b = cc (b.0)

  after_reset :
      (s : Signal) (l : List Signal) (n : ℕ)
      → failing c s ≡ false
      → 0 < n
      → 0 < c.max_failures
      → Begins c n (s ∷ l) ⊎ Contains c c.max_failures (s ∷ l)
      → Contains c c.max_failures l
  after_reset s l n t h k (inl b) = absurd (not-Begins s l n t h b)
  after_reset s l n t h k (inr (inl b)) = absurd (not-Begins s l c.max_failures t k b)
  after_reset s l n t h k (inr (inr b)) = b

  not-Begins_nil : (n : ℕ) → 0 < n → ¬ Begins c n []
  not-Begins_nil zero h b = omega arith
  not-Begins_nil (suc n) h b = b

  -- Enough failures in a row, those already counted included, are fatal.
  run_complete :
      (f : ℕ) (l : List Signal) (n : ℕ)
      → c.max_failures ≡ f + n
      → 0 < n
      → Begins c n l ⊎ Contains c c.max_failures l
      → run (at f) l ≡ none
  run_complete f [] n e h (inl b) = absurd (not-Begins_nil n h b)
  run_complete f [] n e h (inr b) = absurd (not-Begins_nil c.max_failures (omega arith) b)
  run_complete f (s ∷ l) zero e h b = absurd (omega arith)
  run_complete f (s ∷ l) (suc zero) e h b = elim (Bool-cases (failing c s)) [
    | inl t ↦ run-none (at f) s l (step_fatal (at f) s fits (omega arith) t)
    | inr t ↦
        run-some (at f) s l (step_reset (at f) s fits (omega arith) t)
        ∙ run_complete 0 l c.max_failures (omega arith) (omega arith)
            (inr (after_reset s l 1 t h (omega arith) b))
  ]
  run_complete f (s ∷ l) (suc (suc k)) e h b = elim (Bool-cases (failing c s)) [
    | inl t ↦
        run-some (at f) s l (step_count (at f) s fits (omega arith) t)
        ∙ run_complete (f + 1) l (suc k) (omega arith) (omega arith)
            (after_failing s l (suc k) (omega arith) b)
    | inr t ↦
        run-some (at f) s l (step_reset (at f) s fits (omega arith) t)
        ∙ run_complete 0 l c.max_failures (omega arith) (omega arith)
            (inr (after_reset s l (suc (suc k)) t h (omega arith) b))
  ]

-- For max_failures from 1 to u32::MAX, the policy declares a new collector fatal exactly when the
-- history of its signals holds max_failures failing ones in a row; a delivered event or a long
-- enough stream breaks the row.
pub run_fatal_iff :
    (c : ReconnectConfig) (l : List Signal)
    → 0 < c.max_failures
    → c.max_failures ≤ u32_max
    → (run (new c) l ≡ none) ↔ Contains c c.max_failures l
unfolding new
run_fatal_iff c l h fits = (
  λ r. elim (run_sound c fits 0 l c.max_failures (omega arith) h r) [
    | inl b ↦ Contains-Begins c c.max_failures l b
    | inr b ↦ b
  ],
  λ b. run_complete c fits 0 l c.max_failures (omega arith) h (inr b),
)

-- For max_failures up to 31 and fewer failures counted, one more failure is fatal exactly as it
-- reaches the maximum, or else retries after base_delay * 2 ^ failures, up to Duration::MAX, with
-- the count still below the maximum.
pub record_failure_retry :
    (p : ReconnectPolicy)
    → p.failures < p.config.max_failures
    → p.config.max_failures ≤ 31
    → ((record_failure p).1 ≡ fatal) × (p.failures + 1 ≡ p.config.max_failures)
      ⊎ ((record_failure p).1
          ≡ retry (min (p.config.base_delay * 2 ^ (p.failures + 1)) duration_max))
        × ((record_failure p).0.failures < p.config.max_failures)
unfolding record_failure backoff
record_failure_retry p h k = ground (arith, delay-eq p.config.base_delay (p.failures + 1))
