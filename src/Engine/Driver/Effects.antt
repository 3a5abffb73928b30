-- ===== src/Engine/Driver/Effects.antt =====
-- What the driver of src/engine/driver.rs has sent, and which tokens it has cancelled.
use mathlib.Core.List.{append_assoc}
use artemis_light.Prelude.{◌≡◌, refl, ap, ◌∙◌, List, [], ◌∷◌, ◌++◌, map}
use artemis_light.Reconnect.{
  ReconnectConfig, Decision, retry, fatal, ReconnectPolicy, new, on_creation_failed,
  on_stream_ended,
}
use artemis_light.Engine.Driver.{
  Pause, slept, interrupted, Close, stopped_streaming, ended, Round, stopped_subscribing, refused,
  streamed, Effect, sent, slept_for, fatal_cancelled, root_cancelled, Status, waiting, stopped,
  escalated, run_driver, closed, followed, drive, decided, escalate_tokens, pump,
}

module _ {E : Type 0} where
  -- The events of the rounds, in order.
  pub events_of : List (Round E) → List E
  events_of [] = []
  events_of (stopped_subscribing ∷ rounds) = events_of rounds
  events_of (refused pause ∷ rounds) = events_of rounds
  events_of (streamed events close ∷ rounds) = events ++ events_of rounds

  pub sends : List (Effect E) → List E
  sends [] = []
  sends (sent e ∷ effects) = e ∷ sends effects
  sends (slept_for d ∷ effects) = sends effects
  sends (fatal_cancelled ∷ effects) = sends effects
  sends (root_cancelled ∷ effects) = sends effects

  pub cancels : List (Effect E) → List (Effect E)
  cancels [] = []
  cancels (sent e ∷ effects) = cancels effects
  cancels (slept_for d ∷ effects) = cancels effects
  cancels (fatal_cancelled ∷ effects) = fatal_cancelled ∷ cancels effects
  cancels (root_cancelled ∷ effects) = root_cancelled ∷ cancels effects

  abbrev pub cancels_for : Status → List (Effect E)
  cancels_for escalated = fatal_cancelled ∷ root_cancelled ∷ []
  cancels_for stopped = []
  cancels_for waiting = []

  -- What has been done: events sent in order up to some point, and the tokens.
  pub record Done (all : List E) (outcome : List (Effect E) × Status) : Type 0 where
    pub unsent : List E
    pub prefix : sends outcome.0 ++ unsent ≡ all
    pub all_sent : outcome.1 ≡ waiting → unsent ≡ []
    pub tokens : cancels outcome.0 ≡ cancels_for outcome.1

  sends-append :
      (events : List E) (effects : List (Effect E))
      → sends (map sent events ++ effects) ≡ events ++ sends effects
  unfolding sends
  sends-append [] effects = refl
  sends-append (e ∷ events) effects = ap (λ l. e ∷ l) (sends-append events effects)

  cancels-append :
      (events : List E) (effects : List (Effect E))
      → cancels (map sent events ++ effects) ≡ cancels effects
  unfolding cancels
  cancels-append [] effects = refl
  cancels-append (e ∷ events) effects = cancels-append events effects

  nothing_sent : (all : List E) → Done all ([], stopped)
  unfolding sends cancels
  nothing_sent all = record { unsent = all; prefix = refl; all_sent = λ e. cc; tokens = refl }

  followed-Done :
      (events all : List E) (outcome : List (Effect E) × Status)
      → Done all outcome
      → Done (events ++ all) (followed (map sent events) outcome)
  followed-Done events all (effects, status) d = record {
    unsent = d.unsent;
    prefix =
        ap (λ l. l ++ d.unsent) (sends-append events effects)
        ∙ append_assoc events (sends effects) d.unsent
        ∙ ap (λ l. events ++ l) d.prefix;
    all_sent = d.all_sent;
    tokens = cancels-append events effects ∙ d.tokens;
  }

  decided-Done :
      (all : List E) (x : ReconnectPolicy × Decision) (pause : Pause)
      (go_on : ReconnectPolicy → List (Effect E) × Status)
      → ((q : ReconnectPolicy) → Done all (go_on q))
      → Done all (decided x pause go_on)
  unfolding decided sends cancels escalate_tokens
  decided-Done all (p, fatal) pause go_on h = record {
    unsent = all;
    prefix = refl;
    all_sent = λ e. cc;
    tokens = refl;
  }
  decided-Done all (p, retry delay) interrupted go_on h = nothing_sent all
  decided-Done all (p, retry delay) slept go_on h =
      let d = h p in
      record { unsent = d.unsent; prefix = d.prefix; all_sent = d.all_sent; tokens = d.tokens }

  closed-Done :
      (all : List E) (close : Close) (p : ReconnectPolicy)
      (go_on : ReconnectPolicy → List (Effect E) × Status)
      → ((q : ReconnectPolicy) → Done all (go_on q))
      → Done all (closed close p go_on)
  unfolding closed
  closed-Done all stopped_streaming p go_on h = nothing_sent all
  closed-Done all (ended uptime pause) p go_on h =
      decided-Done all (on_stream_ended p uptime) pause go_on h

  drive-Done :
      (rounds : List (Round E)) (p : ReconnectPolicy) → Done (events_of rounds) (drive rounds p)
  unfolding drive events_of sends cancels
  drive-Done [] p = record { unsent = []; prefix = refl; all_sent = λ e. refl; tokens = refl }
  drive-Done (stopped_subscribing ∷ rounds) p = nothing_sent (events_of rounds)
  drive-Done (refused pause ∷ rounds) p =
      decided-Done (events_of rounds) (on_creation_failed p) pause (λ q. drive rounds q)
        (λ q. drive-Done rounds q)
  drive-Done (streamed events close ∷ rounds) p =
      followed-Done events (events_of rounds) (closed close (pump events p) (λ q. drive rounds q)) (
        closed-Done (events_of rounds) close (pump events p) (λ q. drive rounds q)
          (λ q. drive-Done rounds q))

  -- The driver sends the events of its streams in order and without a gap, all of them while it
  -- runs; it cancels the fatal token and then the root exactly where it escalates, and neither
  -- otherwise.
  pub run_driver-Done :
      (c : ReconnectConfig) (rounds : List (Round E))
      → Done (events_of rounds) (run_driver c rounds)
  unfolding run_driver
  run_driver-Done c rounds = drive-Done rounds (new c)
