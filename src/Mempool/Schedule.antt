-- ===== src/Mempool/Schedule.antt =====
-- The replacement schedule of src/executors/mempool_executor.rs: its invariant, what each verdict
-- means, and the measure by which the loop around it ends.
use artemis_light.Prelude.{
  ℕ, ◌+◌, ◌-◌, ◌*◌, ◌/◌, ◌%◌, ◌^◌, ◌≤◌, ◌<◌, min, ◌≡◌, refl, inl, inr, arith, ltb, leb, leb→le,
  Bool-cases, u32_max, u64_max,
}
use artemis_light.Pricing.{Fees, escalate}
use artemis_light.Pricing.Bounds.{IsValid}
use artemis_light.Pricing.Escalation.{escalate-IsValid}
use artemis_light.Mempool.{
  gas_limit_with_headroom, ReplacementPolicy, WatchOutcome, confirmed, timed_out, transport_error,
  NextStep, finish, replace, rewatch, give_up, ReplacementSchedule, max_transport_failures,
  schedule_new, next_step,
}

-- What holds of a schedule between two watches.
pub record IsSound (s : ReplacementSchedule) : Type 0 where
  pub valid : IsValid s.fees
  pub bump : 110 ≤ s.escalation_percent
  pub within : s.issued ≤ s.max_replacements
  pub budget : s.max_replacements ≤ u32_max
  pub transport : s.transport_failures ≤ max_transport_failures + 1

-- The watches that are left at most: three re-watches and one timeout for each submission.
unfoldable pub measure : ReplacementSchedule → ℕ
measure s = (s.max_replacements - s.issued) * 4 + (3 - s.transport_failures)

-- The schedule of a validated policy starts sound.
pub schedule_new-IsSound :
    (policy : ReplacementPolicy) (fees : Fees)
    → IsValid fees
    → 110 ≤ policy.escalation_percent
    → policy.max_replacements ≤ u32_max
    → IsSound (schedule_new policy fees)
unfolding schedule_new
schedule_new-IsSound policy fees v b m = ground arith

-- Every outcome keeps a sound schedule with at most three transport failures sound, and leaves its
-- budget and percentage as they were.
pub next_step-IsSound :
    (s : ReplacementSchedule) (o : WatchOutcome)
    → IsSound s
    → s.transport_failures ≤ max_transport_failures
    → IsSound (next_step s o).0
      × ((next_step s o).0.max_replacements ≡ s.max_replacements)
      × ((next_step s o).0.escalation_percent ≡ s.escalation_percent)
unfolding next_step
next_step-IsSound s confirmed h t = ground arith
next_step-IsSound s timed_out h t =
    ground (arith, (escalate-IsValid s.fees s.escalation_percent h.valid).2)
next_step-IsSound s transport_error h t = ground arith

-- The verdicts of the schedule, by outcome and next step.
pub data Verdict (s t : ReplacementSchedule) : WatchOutcome → NextStep → Type 0 where
  on_confirmed : t ≡ s → Verdict s t confirmed finish
  on_replace :
      (next : Fees)
      → next ≡ escalate s.fees s.escalation_percent
      → t.fees ≡ next
      → t.issued ≡ s.issued + 1
      → t.transport_failures ≡ 0
      → measure t < measure s
      → Verdict s t timed_out (replace next)
  on_exhausted : s.issued ≡ s.max_replacements → Verdict s t timed_out give_up
  on_rewatch :
      t.fees ≡ s.fees
      → t.issued ≡ s.issued
      → t.transport_failures ≡ s.transport_failures + 1
      → t.transport_failures ≤ max_transport_failures
      → measure t < measure s
      → Verdict s t transport_error rewatch
  on_transport : s.transport_failures ≡ max_transport_failures → Verdict s t transport_error give_up

-- From a sound schedule with at most three transport failures in a row, each outcome of a watch has
-- its verdict: a replacement is one more submission within the budget at the escalated fees, a
-- re-watch leaves fees and budget alone, both lower the measure of the loop, and it gives up only
-- with the budget spent or on the fourth transport failure in a row.
pub next_step-Verdict :
    (s : ReplacementSchedule) (o : WatchOutcome)
    → IsSound s
    → s.transport_failures ≤ max_transport_failures
    → Verdict s (next_step s o).0 o (next_step s o).1
unfolding next_step measure
next_step-Verdict s confirmed h t = on_confirmed refl
next_step-Verdict s timed_out h t = elim (Bool-cases (leb s.max_replacements s.issued)) [
  | inl e ↦ rw e (on_exhausted (omega (arith, leb→le s.max_replacements s.issued e)))
  | inr e ↦
      let room : s.issued < s.max_replacements = ground arith in
      rw e (on_replace _ refl refl (omega arith) refl (omega arith))
]
next_step-Verdict s transport_error h t =
    elim (Bool-cases (ltb max_transport_failures ((s.transport_failures + 1) % 2 ^ 32))) [
      | inl e ↦ rw e (on_transport (ground arith))
      | inr e ↦ rw e (on_rewatch refl refl (omega arith) (ground arith) (ground arith))
    ]

-- For an estimate within a u64 the gas limit is at least the estimate, at most u64::MAX, and at
-- least six fifths of the estimate, rounded down, unless it is u64::MAX.
pub gas_limit_bounds :
    (estimate : ℕ)
    → estimate ≤ u64_max
    → (estimate ≤ gas_limit_with_headroom estimate)
      × (gas_limit_with_headroom estimate ≤ u64_max)
      × (min (estimate * 6 / 5) u64_max ≤ gas_limit_with_headroom estimate)
unfolding gas_limit_with_headroom
gas_limit_bounds estimate h = omega arith
