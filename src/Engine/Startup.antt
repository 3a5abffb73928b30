-- ===== src/Engine/Startup.antt =====
-- The `Engine` of src/engine.rs: its configuration, and the order in which `run` starts its parts.
-- Spawning a task and subscribing to a channel are steps of a list; what the tasks do is not here.
pub mod Ordering
use artemis_light.Prelude.{ℕ, List, [], ◌∷◌, ◌++◌, map, ok, err, Result}
use artemis_light.Reconnect.{ReconnectConfig, default}

pub record Engine (C S X O : Type 0) : Type 0 where
  pub collectors : List C
  pub strategies : List S
  pub executors : List X
  pub observers : List O
  pub event_channel_capacity : ℕ
  pub action_channel_capacity : ℕ
  pub reconnect_config : ReconnectConfig

-- What the sync of a strategy comes to, the token of the engine being raced against it.
pub data Sync : Type 0 where
  synced sync_failed cancelled_first : Sync

pub data StartError : Type 0 where
  cancelled_during_sync sync_error : StartError

pub data Started (C S X O : Type 0) : Type 0 where
  executor_spawned : X → Started C S X O
  observer_spawned : O → Started C S X O
  receiver_subscribed : S → Started C S X O
  strategy_spawned : S → Started C S X O
  collector_spawned : C → Started C S X O

module _ {C S X O : Type 0} where
  -- `Engine::default`
  abbrev pub engine_default : Engine C S X O
  engine_default = record {
    collectors = [];
    strategies = [];
    executors = [];
    observers = [];
    event_channel_capacity = 512;
    action_channel_capacity = 512;
    reconnect_config = default;
  }

  -- `with_event_channel_capacity`, `with_action_channel_capacity` and `with_reconnect_config`
  abbrev pub with_event_channel_capacity : ℕ → Engine C S X O → Engine C S X O
  with_event_channel_capacity capacity e = record e { event_channel_capacity = capacity }

  abbrev pub with_action_channel_capacity : ℕ → Engine C S X O → Engine C S X O
  with_action_channel_capacity capacity e = record e { action_channel_capacity = capacity }

  abbrev pub with_reconnect_config : ReconnectConfig → Engine C S X O → Engine C S X O
  with_reconnect_config config e = record e { reconnect_config = config }

  -- `add_collector`, `add_strategy`, `add_executor` and `add_observer`
  abbrev pub add_collector : C → Engine C S X O → Engine C S X O
  add_collector c e = record e { collectors = e.collectors ++ c ∷ [] }

  abbrev pub add_strategy : S → Engine C S X O → Engine C S X O
  add_strategy s e = record e { strategies = e.strategies ++ s ∷ [] }

  abbrev pub add_executor : X → Engine C S X O → Engine C S X O
  add_executor x e = record e { executors = e.executors ++ x ∷ [] }

  abbrev pub add_observer : O → Engine C S X O → Engine C S X O
  add_observer o e = record e { observers = e.observers ++ o ∷ [] }

  spawned_then :
      S
      → List (Started C S X O) × Result StartError (Unit {0})
      → List (Started C S X O) × Result StartError (Unit {0})
  spawned_then s (steps, result) = (strategy_spawned s ∷ steps, result)

  after_sync :
      Sync
      → S
      → List (Started C S X O) × Result StartError (Unit {0})
      → List (Started C S X O) × Result StartError (Unit {0})
  unfolding spawned_then
  after_sync synced s rest = spawned_then s rest
  after_sync sync_failed s rest = ([], err sync_error)
  after_sync cancelled_first s rest = ([], err cancelled_during_sync)

  -- `sync_and_spawn_strategies`
  sync_and_spawn : (S → Sync) → List S → List (Started C S X O) × Result StartError (Unit {0})
  unfolding after_sync
  sync_and_spawn sync [] = ([], ok tt)
  sync_and_spawn sync (s ∷ strategies) = after_sync (sync s) s (sync_and_spawn sync strategies)

  -- The collectors are spawned when every strategy is synced.
  collectors_last :
      List C
      → List (Started C S X O) × Result StartError (Unit {0})
      → List (Started C S X O) × Result StartError (Unit {0})
  collectors_last collectors (steps, ok u) = (steps ++ map collector_spawned collectors, ok u)
  collectors_last collectors (steps, err e) = (steps, err e)

  before_sync : Engine C S X O → List (Started C S X O)
  before_sync e =
      map executor_spawned e.executors
      ++ map observer_spawned e.observers
      ++ map receiver_subscribed e.strategies

  -- `Engine::run`
  unfoldable pub run_engine :
      (S → Sync) → Engine C S X O → List (Started C S X O) × Result StartError (Unit {0})
  unfolding before_sync collectors_last sync_and_spawn
  run_engine sync e =
      let (steps, result) = collectors_last e.collectors (sync_and_spawn sync e.strategies) in
      (before_sync e ++ steps, result)
