-- ===== src/Engine/Startup/Ordering.antt =====
-- The order in which `Engine::run` of src/engine.rs starts its parts.
use artemis_light.Prelude.{◌≡◌, Option, none, some, List, [], ◌∷◌, ◌++◌, map, ok, err, Result}
use artemis_light.Engine.Startup.{
  Engine, StartError, Started, executor_spawned, observer_spawned, receiver_subscribed,
  strategy_spawned, collector_spawned,
}

-- The parts of one kind among some steps.
module _ {T : Type 0} where
  onto : Option T → List T → List T
  onto none l = l
  onto (some t) l = t ∷ l

module _ {A T : Type 0} where
  pub picked : (A → Option T) → List A → List T
  unfolding onto
  picked f [] = []
  picked f (a ∷ l) = onto (f a) (picked f l)

module _ {C S X O : Type 0} where
  abbrev pub driver_of : Started C S X O → Option C
  driver_of (collector_spawned c) = some c
  driver_of (executor_spawned x) = none
  driver_of (observer_spawned o) = none
  driver_of (receiver_subscribed s) = none
  driver_of (strategy_spawned s) = none

  abbrev pub task_of : Started C S X O → Option S
  task_of (strategy_spawned s) = some s
  task_of (executor_spawned x) = none
  task_of (observer_spawned o) = none
  task_of (receiver_subscribed s) = none
  task_of (collector_spawned c) = none

  abbrev pub receiver_of : Started C S X O → Option S
  receiver_of (receiver_subscribed s) = some s
  receiver_of (executor_spawned x) = none
  receiver_of (observer_spawned o) = none
  receiver_of (strategy_spawned s) = none
  receiver_of (collector_spawned c) = none

  -- The steps up to the first collector, and those from it on.
  pub record Ordered (e : Engine C S X O) (steps : List (Started C S X O))
      (result : Result StartError (Unit {0})) : Type 0 where
    pub consumers : List (Started C S X O)
    pub started : List (Started C S X O)
    pub split : consumers ++ started ≡ steps
    pub no_driver : picked driver_of consumers ≡ []
    pub subscribed : picked receiver_of consumers ≡ e.strategies
    pub when_ok :
        result ≡ ok tt
        → (picked task_of consumers ≡ e.strategies) × (started ≡ map collector_spawned e.collectors)
    pub when_err : (f : StartError) → result ≡ err f → started ≡ []

  -- The syncs spawn strategies only, and all of them where none fails.
  pub record Synced (strategies : List S) (steps : List (Started C S X O))
      (result : Result StartError (Unit {0})) : Type 0 where
    pub no_driver : picked driver_of steps ≡ []
    pub no_receiver : picked receiver_of steps ≡ []
    pub all_tasks : result ≡ ok tt → picked task_of steps ≡ strategies
