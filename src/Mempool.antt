-- ===== src/Mempool.antt =====
-- The mempool executor of src/executors/mempool_executor.rs: the gas headroom, the validated
-- escalation percentage, the replacement schedule, and (in the children) the loop around it.
pub mod Schedule
pub mod Node
pub mod Loop
pub mod Execute
use artemis_light.Prelude.{
  ℕ, ◌+◌, ◌/◌, ◌%◌, ◌^◌, Option, none, some, ltb, leb, if◌then◌else◌, u64_max, saturating_add,
}
use artemis_light.Pricing.{Fees, escalate}

abbrev pub gas_limit_headroom_divisor : ℕ
gas_limit_headroom_divisor = 5

unfoldable pub gas_limit_with_headroom : ℕ → ℕ
gas_limit_with_headroom estimate =
    saturating_add u64_max estimate (estimate / gas_limit_headroom_divisor)

-- `EscalationPercent::MIN`
abbrev pub min_escalation : ℕ
min_escalation = 110

-- `EscalationPercent::new`; the percentage itself stands for the validated type.
unfoldable pub escalation_percent_new : ℕ → Option ℕ
escalation_percent_new percent = if ltb percent min_escalation then none else some percent

pub record ReplacementPolicy : Type 0 where
  pub confirmation_timeout : ℕ
  pub max_replacements : ℕ
  pub escalation_percent : ℕ

-- What a confirmation watch returns: a hash, the watcher's timeout, or any other error.
pub data WatchResult : Type 0 where
  mined : WatchResult
  timeout : WatchResult
  failed : WatchResult

pub data WatchOutcome : Type 0 where
  confirmed timed_out transport_error : WatchOutcome

-- `WatchOutcome::classify`
unfoldable pub classify : WatchResult → WatchOutcome
classify mined = confirmed
classify timeout = timed_out
classify failed = transport_error

pub data NextStep : Type 0 where
  finish : NextStep
  replace : Fees → NextStep
  rewatch : NextStep
  give_up : NextStep

pub record ReplacementSchedule : Type 0 where
  pub escalation_percent : ℕ
  pub max_replacements : ℕ
  pub fees : Fees
  pub issued : ℕ
  pub transport_failures : ℕ

abbrev pub max_transport_failures : ℕ
max_transport_failures = 3

-- `ReplacementSchedule::new`
unfoldable pub schedule_new : ReplacementPolicy → Fees → ReplacementSchedule
schedule_new policy initial = record {
  escalation_percent = policy.escalation_percent;
  max_replacements = policy.max_replacements;
  fees = initial;
  issued = 0;
  transport_failures = 0;
}

-- `ReplacementSchedule::escalate`
unfoldable pub schedule_escalate : ReplacementSchedule → ReplacementSchedule × Option Fees
schedule_escalate s =
    if leb s.max_replacements s.issued
    then (s, none)
    else (let next = escalate s.fees s.escalation_percent in
        (record s { issued = (s.issued + 1) % 2 ^ 32; fees = next }, some next))

replace_or_give_up : Option Fees → NextStep
replace_or_give_up none = give_up
replace_or_give_up (some fees) = replace fees

-- `ReplacementSchedule::next_step`
unfoldable pub next_step : ReplacementSchedule → WatchOutcome → ReplacementSchedule × NextStep
unfolding schedule_escalate replace_or_give_up
next_step s confirmed = (s, finish)
next_step s timed_out =
    let (t, next) = schedule_escalate (record s { transport_failures = 0 }) in
    (t, replace_or_give_up next)
next_step s transport_error =
    let t = record s { transport_failures = (s.transport_failures + 1) % 2 ^ 32 } in
    (t, if ltb max_transport_failures t.transport_failures then give_up else rewatch)
