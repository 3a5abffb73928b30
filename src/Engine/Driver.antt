-- ===== src/Engine/Driver.antt =====
-- The collector driver of src/engine/driver.rs: `run` over what its collector, its clock and its
-- tokens do, which is a list of rounds of the outer loop.
pub mod Verdicts
pub mod Effects
use artemis_light.Prelude.{ℕ, List, [], ◌∷◌, ◌++◌, map}
use artemis_light.Reconnect.{
  ReconnectConfig, Decision, retry, fatal, ReconnectPolicy, new, on_events_received,
  on_creation_failed, on_stream_ended,
}

-- How the sleep before a retry ends, if it comes to one.
pub data Pause : Type 0 where
  slept interrupted : Pause

-- How the inner loop ends: by the driver's own token, or with the stream, after it was up this long.
pub data Close : Type 0 where
  stopped_streaming : Close
  ended : ℕ → Pause → Close

-- One round: the token is first, the subscribe fails, or its stream yields these events.
pub data Round (E : Type 0) : Type 0 where
  stopped_subscribing : Round E
  refused : Pause → Round E
  streamed : List E → Close → Round E

pub data Effect (E : Type 0) : Type 0 where
  sent : E → Effect E
  slept_for : ℕ → Effect E
  fatal_cancelled root_cancelled : Effect E

-- `waiting` is a driver that has no further round yet.
pub data Status : Type 0 where
  waiting stopped escalated : Status

module _ {E : Type 0} where
  -- `escalate`: the fatal token and then the root.
  escalate_tokens : List (Effect E)
  escalate_tokens = fatal_cancelled ∷ root_cancelled ∷ []

  abbrev followed : List (Effect E) → List (Effect E) × Status → List (Effect E) × Status
  followed effects (more, status) = (effects ++ more, status)

  -- What the driver does with a decision of its policy.
  decided :
      ReconnectPolicy × Decision
      → Pause
      → (ReconnectPolicy → List (Effect E) × Status)
      → List (Effect E) × Status
  unfolding escalate_tokens
  decided (p, fatal) pause go_on = (escalate_tokens, escalated)
  decided (p, retry delay) interrupted go_on = ([], stopped)
  decided (p, retry delay) slept go_on = followed (slept_for delay ∷ []) (go_on p)

  -- The inner loop on the events: each resets the policy and is sent.
  pump : List E → ReconnectPolicy → ReconnectPolicy
  pump [] p = p
  pump (e ∷ es) p = pump es (on_events_received p)

  closed :
      Close
      → ReconnectPolicy
      → (ReconnectPolicy → List (Effect E) × Status)
      → List (Effect E) × Status
  unfolding decided
  closed stopped_streaming p go_on = ([], stopped)
  closed (ended uptime pause) p go_on = decided (on_stream_ended p uptime) pause go_on

  drive : List (Round E) → ReconnectPolicy → List (Effect E) × Status
  unfolding closed pump
  drive [] p = ([], waiting)
  drive (stopped_subscribing ∷ rounds) p = ([], stopped)
  drive (refused pause ∷ rounds) p = decided (on_creation_failed p) pause (λ q. drive rounds q)
  drive (streamed events close ∷ rounds) p =
      followed (map sent events) (closed close (pump events p) (λ q. drive rounds q))

  -- `run`
  unfoldable pub run_driver : ReconnectConfig → List (Round E) → List (Effect E) × Status
  unfolding drive
  run_driver config rounds = drive rounds (new config)
