-- ===== src/Reconnect.antt =====
-- The reconnect policy of src/engine/reconnect.rs: a pure state machine that counts consecutive
-- failures. A duration is its number of nanoseconds; `failures` is a u32.
pub mod Signals
pub mod Escalation
use artemis_light.Prelude.{ℕ, ◌+◌, ◌%◌, ◌^◌, leb, if◌then◌else◌}
use artemis_light.Backoff.{delay}

pub record ReconnectConfig : Type 0 where
  pub max_failures : ℕ
  pub base_delay : ℕ
  pub healthy_uptime : ℕ

-- `ReconnectConfig::default`
abbrev pub default : ReconnectConfig
default = record { max_failures = 3; base_delay = 1000000000; healthy_uptime = 30000000000 }

pub data Decision : Type 0 where
  retry : ℕ → Decision
  fatal : Decision

pub record ReconnectPolicy : Type 0 where
  pub config : ReconnectConfig
  pub failures : ℕ

unfoldable pub new : ReconnectConfig → ReconnectPolicy
new config = record { config = config; failures = 0 }

unfoldable pub on_events_received : ReconnectPolicy → ReconnectPolicy
on_events_received p = record p { failures = 0 }

-- `ReconnectPolicy::backoff`
unfoldable pub backoff : ReconnectPolicy → ℕ
backoff p = delay p.config.base_delay p.failures

-- `failures += 1` wraps in a u32.
unfoldable pub record_failure : ReconnectPolicy → ReconnectPolicy × Decision
record_failure p =
    let q = record p { failures = (p.failures + 1) % 2 ^ 32 } in
    (q, if leb q.config.max_failures q.failures then fatal else retry (backoff q))

unfoldable pub on_creation_failed : ReconnectPolicy → ReconnectPolicy × Decision
unfolding record_failure
on_creation_failed p = record_failure p

unfoldable pub on_stream_ended : ReconnectPolicy → ℕ → ReconnectPolicy × Decision
unfolding record_failure
on_stream_ended p uptime =
    if leb p.config.healthy_uptime uptime
    then (let q = record p { failures = 0 } in (q, retry (backoff q)))
    else record_failure p
