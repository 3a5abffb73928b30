-- ===== src/Engine/Driver/Verdicts.antt =====
-- When the driver of src/engine/driver.rs escalates, and what it has done until then.
use artemis_light.Prelude.{
  ◌≤◌, ◌<◌, ◌≡◌, refl, sym, subst, ◌↔◌, Option, none, some, List, [], ◌∷◌, ◌++◌, map, u32_max,
}
use artemis_light.Reconnect.{
  ReconnectConfig, Decision, retry, fatal, ReconnectPolicy, new, on_events_received,
  on_creation_failed, on_stream_ended,
}
use artemis_light.Reconnect.Signals.{
  Signal, delivered, creation_failed, stream_ended, after, step, run, Contains,
}
use artemis_light.Reconnect.Escalation.{run_fatal_iff}
use artemis_light.Engine.Driver.{
  Pause, slept, interrupted, Close, stopped_streaming, ended, Round, stopped_subscribing, refused,
  streamed, Effect, Status, escalated, run_driver, closed, drive, decided, pump,
}

-- The signals that follow a sleep or a close, if the driver is not stopped there.
abbrev if_slept : Pause → List Signal → List Signal
if_slept slept more = more
if_slept interrupted more = []

abbrev close_signals : Close → List Signal → List Signal
close_signals stopped_streaming more = []
close_signals (ended uptime pause) more = stream_ended uptime ∷ if_slept pause more

module _ {E : Type 0} where
  -- What the rounds report to the policy, up to the one in which the driver's token is cancelled.
  pub signals_of : List (Round E) → List Signal
  signals_of [] = []
  signals_of (stopped_subscribing ∷ rounds) = []
  signals_of (refused pause ∷ rounds) = creation_failed ∷ if_slept pause (signals_of rounds)
  signals_of (streamed events close ∷ rounds) =
      map (λ e. delivered) events ++ close_signals close (signals_of rounds)

  abbrev Escalates : List (Effect E) × Status → Option ReconnectPolicy → Type 0
  Escalates outcome end = (outcome.1 ≡ escalated) ↔ (end ≡ none)

  decided-Escalates :
      (x : ReconnectPolicy × Decision) (pause : Pause)
      (go_on : ReconnectPolicy → List (Effect E) × Status) (more : List Signal)
      → ((q : ReconnectPolicy) → Escalates (go_on q) (run q more))
      → Escalates
          (decided x pause go_on)
          (elim (after x) [ none ↦ none | some q ↦ run q (if_slept pause more) ])
  unfolding decided after run
  decided-Escalates (p, fatal) pause go_on more h = (λ e. refl, λ e. refl)
  decided-Escalates (p, retry delay) interrupted go_on more h = (λ e. cc, λ e. cc)
  decided-Escalates (p, retry delay) slept go_on more h = h p

  run-pump :
      (events : List E) (p : ReconnectPolicy) (more : List Signal)
      → run p (map (λ e. delivered) events ++ more) ≡ run (pump events p) more
  unfolding run step pump
  run-pump [] p more = refl
  run-pump (e ∷ events) p more = run-pump events (on_events_received p) more

  closed-Escalates :
      (close : Close) (p : ReconnectPolicy) (go_on : ReconnectPolicy → List (Effect E) × Status)
      (more : List Signal)
      → ((q : ReconnectPolicy) → Escalates (go_on q) (run q more))
      → Escalates (closed close p go_on) (run p (close_signals close more))
  unfolding closed run step
  closed-Escalates stopped_streaming p go_on more h = (λ e. cc, λ e. cc)
  closed-Escalates (ended uptime pause) p go_on more h =
      decided-Escalates (on_stream_ended p uptime) pause go_on more h

  drive-Escalates :
      (rounds : List (Round E)) (p : ReconnectPolicy)
      → Escalates (drive rounds p) (run p (signals_of rounds))
  unfolding drive signals_of run step
  drive-Escalates [] p = (λ e. cc, λ e. cc)
  drive-Escalates (stopped_subscribing ∷ rounds) p = (λ e. cc, λ e. cc)
  drive-Escalates (refused pause ∷ rounds) p =
      decided-Escalates (on_creation_failed p) pause (λ q. drive rounds q) (signals_of rounds)
        (λ q. drive-Escalates rounds q)
  drive-Escalates (streamed events close ∷ rounds) p =
      subst (Escalates (drive (streamed events close ∷ rounds) p))
        (sym (run-pump events p (close_signals close (signals_of rounds))))
        (closed-Escalates close (pump events p) (λ q. drive rounds q) (signals_of rounds)
          (λ q. drive-Escalates rounds q))

  -- For max_failures from 1 to u32::MAX the driver escalates exactly when, before its token is
  -- cancelled, max_failures failed subscribes and early stream ends come in a row, with no event
  -- delivered between them.
  pub run_driver-escalates :
      (c : ReconnectConfig) (rounds : List (Round E))
      → 0 < c.max_failures
      → c.max_failures ≤ u32_max
      → ((run_driver c rounds).1 ≡ escalated) ↔ Contains c c.max_failures (signals_of rounds)
  unfolding run_driver
  run_driver-escalates c rounds h k =
      let (there, back) = drive-Escalates rounds (new c) in
      let (hence, thence) = run_fatal_iff c (signals_of rounds) h k in
      (λ e. hence (there e), λ e. back (thence e))
