-- ===== src/Strategies.antt =====
-- The wrappers of src/strategy_ext around a strategy, which is a parameter: cooldown.rs,
-- filter_actions.rs, filter_map_event.rs and map_action.rs.
pub mod Cooling
use artemis_light.Prelude.{
  ℕ, ◌-◌, Bool, true, false, Option, none, some, List, [], ◌∷◌, map, ok, err, ltb, if◌then◌else◌,
  Result,
}

-- The trait `Strategy` of src/types.rs, its stream of actions as the list that it is drained to.
pub record Strategy (E A : Type 0) : Type 1 where
  pub State : Type 0
  pub Failure : Type 0
  pub sync_state : State → Option Failure × State
  pub process_event : E → State → Result Failure (List A) × State

filtered : {A : Type 0} → (A → Bool) → List A → List A
filtered p [] = []
filtered p (a ∷ l) = let rest = filtered p l in if p a then a ∷ rest else rest

module _ {E A : Type 0} (x : Strategy E A) where
  then_actions :
      {B : Type 0}
      → (List A → List B)
      → Result x.Failure (List A) × x.State
      → Result x.Failure (List B) × x.State
  then_actions f (ok actions, s) = (ok (f actions), s)
  then_actions f (err e, s) = (err e, s)

  -- `FilterActions::process_event`
  unfoldable pub filter_actions_event :
      (A → Bool) → E → x.State → Result x.Failure (List A) × x.State
  unfolding then_actions filtered
  filter_actions_event predicate e s = then_actions (filtered predicate) (x.process_event e s)

  -- `MapAction::process_event`
  unfoldable pub map_action_event :
      {B : Type 0} → (A → B) → E → x.State → Result x.Failure (List B) × x.State
  unfolding then_actions
  map_action_event f e s = then_actions (map f) (x.process_event e s)

  event_mapped : Option E → x.State → Result x.Failure (List A) × x.State
  event_mapped none s = (ok [], s)
  event_mapped (some e) s = x.process_event e s

  -- `FilterMapEvent::process_event`
  unfoldable pub filter_map_event :
      {E2 : Type 0} → (E2 → Option E) → E2 → x.State → Result x.Failure (List A) × x.State
  unfolding event_mapped
  filter_map_event f e s = event_mapped (f e) s

  pub record Cooldown : Type 0 where
    pub strategy : x.State
    pub duration : ℕ
    pub last_fired : Option ℕ

  -- `Cooldown::new`
  abbrev pub cooldown_new : x.State → ℕ → Cooldown
  cooldown_new s duration = record { strategy = s; duration = duration; last_fired = none }

  -- `fired.elapsed() < self.duration` at an instant.
  cooling : Cooldown → ℕ → Bool
  cooling c now = elim (c.last_fired) [ none ↦ false | some fired ↦ ltb (now - fired) c.duration ]

  -- The stamps of the actions: the last of them stays.
  stamped : List A → ℕ → Cooldown → Cooldown
  stamped [] drained c = c
  stamped (a ∷ l) drained c = record c { last_fired = some drained }

  released :
      Bool
      → ℕ
      → Result x.Failure (List A) × x.State
      → Cooldown
      → Result x.Failure (List A) × Cooldown
  unfolding stamped
  released quiet drained (err e, s) c = (err e, record c { strategy = s })
  released true drained (ok actions, s) c = (ok [], record c { strategy = s })
  released false drained (ok actions, s) c =
      (ok actions, stamped actions drained (record c { strategy = s }))

  -- `Cooldown::process_event` for an event that comes at one instant and whose last action is taken
  -- at another.
  unfoldable pub cooldown_event : ℕ → ℕ → E → Cooldown → Result x.Failure (List A) × Cooldown
  unfolding cooling released
  cooldown_event now drained e c = released (cooling c now) drained (x.process_event e c.strategy) c
