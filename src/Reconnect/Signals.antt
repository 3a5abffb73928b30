-- ===== src/Reconnect/Signals.antt =====
-- Histories of what the driver of src/engine/reconnect.rs reports to the policy, and one signal at a
-- time.
use artemis_light.Prelude.{
  ℕ, zero, suc, ◌+◌, ◌≤◌, ◌<◌, ◌≡◌, ◌⊎◌, inl, Bool, true, false, Option, none, some, List, [], ◌∷◌,
  arith, ltb, leb, if◌then◌else◌, u32_max,
}
use artemis_light.Reconnect.{
  ReconnectConfig, Decision, retry, fatal, ReconnectPolicy, on_events_received, on_creation_failed,
  on_stream_ended,
}

-- What the driver reports to the policy.
pub data Signal : Type 0 where
  delivered : Signal
  creation_failed : Signal
  stream_ended : ℕ → Signal

-- The policy after one signal; `none` once it has declared the collector fatal.
unfoldable pub after : ReconnectPolicy × Decision → Option ReconnectPolicy
after (p, retry _) = some p
after (p, fatal) = none

unfoldable pub step : ReconnectPolicy → Signal → Option ReconnectPolicy
unfolding after
step p delivered = some (on_events_received p)
step p creation_failed = after (on_creation_failed p)
step p (stream_ended uptime) = after (on_stream_ended p uptime)

-- The driver stops at the first fatal verdict.
unfoldable pub run : ReconnectPolicy → List Signal → Option ReconnectPolicy
run p [] = some p
run p (s ∷ l) = elim (step p s) [ none ↦ none | some q ↦ run q l ]

-- A signal that counts as a failure: no stream, or a stream that did not stay up long enough.
abbrev pub failing : ReconnectConfig → Signal → Bool
failing c delivered = false
failing c creation_failed = true
failing c (stream_ended uptime) = ltb uptime c.healthy_uptime

-- The list begins with `n` failing signals.
abbrev pub Begins : ReconnectConfig → ℕ → List Signal → Type 0
Begins c zero l = Unit
Begins c (suc n) [] = ⊥
Begins c (suc n) (s ∷ l) = (failing c s ≡ true) × Begins c n l

-- `n` failing signals stand in a row, somewhere in the list.
abbrev pub Contains : ReconnectConfig → ℕ → List Signal → Type 0
Contains c n [] = Begins c n []
Contains c n (s ∷ l) = Begins c n (s ∷ l) ⊎ Contains c n l

pub Begins-weaken :
    (c : ReconnectConfig) (m n : ℕ) (l : List Signal) → m ≤ n → Begins c n l → Begins c m l
Begins-weaken c zero n l h b = tt
Begins-weaken c (suc m) zero l h b = absurd (omega arith)
Begins-weaken c (suc m) (suc n) [] h b = b
Begins-weaken c (suc m) (suc n) (s ∷ l) h b = (b.0, Begins-weaken c m n l (omega arith) b.1)

pub Contains-Begins :
    (c : ReconnectConfig) (n : ℕ) (l : List Signal) → Begins c n l → Contains c n l
Contains-Begins c n [] b = b
Contains-Begins c n (s ∷ l) b = inl b

-- The state in which the driver goes on after `s`, or `none`.
abbrev count : ReconnectPolicy → Signal → ℕ
count p s = if failing p.config s then p.failures + 1 else 0

step_lem :
    (p : ReconnectPolicy) (s : Signal)
    → p.failures < p.config.max_failures
    → p.config.max_failures ≤ u32_max
    → step p s ≡ (
        if leb p.config.max_failures (count p s)
        then none
        else some (record p { failures = count p s }))
unfolding step on_events_received on_creation_failed on_stream_ended after
step_lem p delivered h k = ground arith
step_lem p creation_failed h k = ground arith
step_lem p (stream_ended u) h k = ground arith

module _ (p : ReconnectPolicy) (s : Signal) (l : List Signal) where
  pub run-some : {q : ReconnectPolicy} → step p s ≡ some q → run p (s ∷ l) ≡ run q l
  unfolding run
  run-some e = rw (e, run)

  pub run-none : step p s ≡ none → run p (s ∷ l) ≡ none
  unfolding run
  run-none e = rw (e, run)

-- A failure that leaves room, the last failure, and a signal that resets the count.
module _ (p : ReconnectPolicy) (s : Signal) (fits : p.config.max_failures ≤ u32_max) where
  pub step_count :
      p.failures + 1 < p.config.max_failures
      → failing p.config s ≡ true
      → step p s ≡ some (record p { failures = p.failures + 1 })
  step_count h f = ground (arith, step_lem p s (omega arith) fits)

  pub step_fatal :
      p.config.max_failures ≡ p.failures + 1 → failing p.config s ≡ true → step p s ≡ none
  step_fatal h f = ground (arith, step_lem p s (omega arith) fits)

  pub step_reset :
      p.failures < p.config.max_failures
      → failing p.config s ≡ false
      → step p s ≡ some (record p { failures = 0 })
  step_reset h f = ground (arith, step_lem p s h fits)
