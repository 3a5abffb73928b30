-- ===== src/Tests/Running.antt =====
-- Concrete runs of the engine's driver and start, of a cooldown, and of the collectors' retries.
use artemis_light.Prelude.{
  ℕ, suc, ◌≡◌, ◌↔◌, none, List, [], ◌∷◌, arith, ok, err, ◌==◌, if◌then◌else◌,
}
use artemis_light.Reconnect.{default}
use artemis_light.Reconnect.Signals.{Contains}
use artemis_light.Engine.Driver.{
  slept, stopped_streaming, ended, Round, refused, streamed, escalated, run_driver,
}
use artemis_light.Engine.Driver.Verdicts.{signals_of, run_driver-escalates}
use artemis_light.Engine.Startup.{
  Engine, Sync, synced, sync_failed, engine_default, add_collector, add_strategy, add_executor,
  add_observer,
}
use artemis_light.Strategies.{Strategy, cooldown_new}
use artemis_light.Strategies.Cooling.{Arrival, run_cooldown, Runs, run_cooldown-Runs}
use artemis_light.Collectors.Retries.{Fetched, found, missed}
use artemis_light.Collectors.Combining.{failed, Source}

-- An event breaks the row of failures; three more are fatal, and the last round is not reached.
abbrev rounds : List (Round ℕ)
rounds =
    refused slept
    ∷ streamed (7 ∷ []) (ended 5 slept)
    ∷ refused slept
    ∷ streamed [] (ended 5 slept)
    ∷ streamed (8 ∷ []) stopped_streaming
    ∷ []

run_driver-escalates_example :
    ((run_driver default rounds).1 ≡ escalated) ↔ Contains default 3 (signals_of rounds)
run_driver-escalates_example = run_driver-escalates default rounds (omega arith) (omega arith)

-- The parts are numbers; the strategy 5 cannot be synced.
abbrev engine : Engine ℕ ℕ ℕ ℕ
engine =
    add_collector 1
      (add_strategy 4 (add_strategy 5 (add_executor 2 (add_observer 3 engine_default))))

abbrev sync : ℕ → Sync
sync s = if s == 5 then sync_failed else synced

-- A strategy that counts its events and acts on each.
abbrev counting : Strategy ℕ ℕ
counting = record {
  State = ℕ;
  Failure = ℕ;
  sync_state = λ s. (none, s);
  process_event = λ e s. (ok (e ∷ []), suc s);
}

abbrev arrivals : List (Arrival counting)
arrivals =
    record { now = 10; drained = 12; input = 1 }
    ∷ record { now = 15; drained = 15; input = 2 }
    ∷ record { now = 30; drained = 31; input = 3 }
    ∷ []

run_cooldown-Runs_example :
    Runs counting arrivals
      (cooldown_new counting 0 10)
      (run_cooldown counting arrivals (cooldown_new counting 0 10))
run_cooldown-Runs_example =
    run_cooldown-Runs counting arrivals (cooldown_new counting 0 10) (omega arith)

-- The block 4 is missed three times, and once more.
abbrev polls : List (ℕ × Fetched)
polls = (4, missed) ∷ (5, found 5 50) ∷ (4, missed) ∷ (4, missed) ∷ (4, missed) ∷ []

-- Sources that count how often they are asked.
abbrev up : Source ℕ ℕ ℕ
up w = (ok (w ∷ []), suc w)

abbrev down : Source ℕ ℕ ℕ
down w = (err (failed w), suc w)
