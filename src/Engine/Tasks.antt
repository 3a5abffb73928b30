-- ===== src/Engine/Tasks.antt =====
-- The tasks of src/engine.rs: the loops of executors, strategies and observers, and the stream that
-- src/engine/channel.rs makes of a receiver. The broadcast channels are tokio's: what a receiver
-- yields is a list of signals, and sending an action is a list of what is sent.
use mathlib.Core.List.{append_assoc}
use artemis_light.Prelude.{
  ℕ, zero, suc, ◌≡◌, refl, sym, ap, ◌∙◌, Bool, true, false, Option, none, some, List, [], ◌∷◌, ◌++◌,
  map, ok, err, take, Result,
}
use artemis_light.Wrappers.{Executor}
use artemis_light.Strategies.{Strategy}

-- A poll of a receiver: an item, a lag with the number of items that were missed, or the token, which
-- ends the stream. The end of the list is the closed channel.
pub data Signal (T : Type 0) : Type 0 where
  item : T → Signal T
  lagged : ℕ → Signal T
  cancelled : Signal T

-- `channel::into_stream`
unfoldable pub into_stream : {T : Type 0} → List (Signal T) → List T
into_stream [] = []
into_stream (item t ∷ signals) = t ∷ into_stream signals
into_stream (lagged n ∷ signals) = into_stream signals
into_stream (cancelled ∷ signals) = []

module _ {A : Type 0} (x : Executor A) where
  unfoldable pub execute_each : List A → x.State → x.State
  execute_each [] s = s
  execute_each (a ∷ actions) s = execute_each actions (x.execute a s).1

  -- `executor_task`: what an execution returns is only logged.
  unfoldable pub executor_task : List (Signal A) → x.State → x.State
  unfolding into_stream execute_each
  executor_task signals s = execute_each (into_stream signals) s

-- An event with the number of its actions that are drained before the token ends the drain, if it does.
abbrev pub Drained : Type 0 → Type 0
Drained E = E × Option ℕ

module _ {E A : Type 0} (x : Strategy E A) where
  -- The actions of one event that are sent.
  abbrev pub drained : Option ℕ → Result x.Failure (List A) → List A
  drained cut (err e) = []
  drained none (ok actions) = actions
  drained (some n) (ok actions) = take n actions

  abbrev pub sent_onto : List A → List A × x.State → List A × x.State
  sent_onto actions (more, s) = (actions ++ more, s)

  -- After a drain that the token has ended the stream of events has ended too.
  unfoldable pub process_each : List (Drained E) → x.State → List A × x.State
  process_each [] s = ([], s)
  process_each ((e, none) ∷ events) s =
      let (r, next) = x.process_event e s in sent_onto (drained none r) (process_each events next)
  process_each ((e, some n) ∷ events) s =
      let (r, next) = x.process_event e s in (drained (some n) r, next)

  -- `strategy_task`: the actions that are sent.
  unfoldable pub strategy_task : List (Signal (Drained E)) → x.State → List A × x.State
  unfolding into_stream process_each
  strategy_task signals s = process_each (into_stream signals) s

  -- The signals as they would be without the token.
  abbrev pub uncut : List (Signal (Drained E)) → List (Signal (Drained E))
  uncut [] = []
  uncut (item (e, cut) ∷ signals) = item (e, none) ∷ uncut signals
  uncut (lagged n ∷ signals) = lagged n ∷ uncut signals
  uncut (cancelled ∷ signals) = uncut signals

  -- `ys` goes on where `xs` ends.
  abbrev pub Begins : List A → List A → Type 0
  Begins xs ys = (rest : List A) × (ys ≡ xs ++ rest)

  Begins-append : (zs xs ys : List A) → Begins xs ys → Begins (zs ++ xs) (zs ++ ys)
  Begins-append zs xs ys (rest, e) = (rest, ap (λ l. zs ++ l) e ∙ sym (append_assoc zs xs rest))

  take-Begins : (n : ℕ) (xs : List A) → Begins (take n xs) xs
  take-Begins zero xs = (xs, refl)
  take-Begins (suc n) [] = ([], refl)
  take-Begins (suc n) (a ∷ xs) = let (rest, e) = take-Begins n xs in (rest, ap (λ l. a ∷ l) e)

  cut-Begins :
      (n : ℕ) (r : Result x.Failure (List A)) (more : List A)
      → Begins (drained (some n) r) (drained none r ++ more)
  cut-Begins n (err e) more = (more, refl)
  cut-Begins n (ok actions) more =
      let (rest, e) = take-Begins n actions in
      (rest ++ more, ap (λ l. l ++ more) e ∙ append_assoc (take n actions) rest more)

  -- A shutdown, wherever it falls, only cuts short what a strategy sends: the actions sent are the
  -- first of those that it would send without the shutdown, in their order, however many of the
  -- events fail or are missed by a lag.
  pub strategy_task-Begins :
      (signals : List (Signal (Drained E))) (s : x.State)
      → Begins (strategy_task signals s).0 (strategy_task (uncut signals) s).0
  unfolding strategy_task
  strategy_task-Begins [] s = ([], refl)
  strategy_task-Begins (item (e, none) ∷ signals) s =
      Begins-append (drained none (x.process_event e s).0) _ _
        (strategy_task-Begins signals (x.process_event e s).1)
  strategy_task-Begins (item (e, some n) ∷ signals) s = cut-Begins n (x.process_event e s).0 _
  strategy_task-Begins (lagged n ∷ signals) s = strategy_task-Begins signals s
  strategy_task-Begins (cancelled ∷ signals) s = ((strategy_task (uncut signals) s).0, refl)

-- What an observer is handed.
pub data Observed (E A : Type 0) : Type 0 where
  observed_event : E → Observed E A
  observed_action : A → Observed E A

module _ {E A : Type 0} where
  -- The loop of `observer_task`: `picks` says which stream is read where both are ready.
  unfoldable pub observe_each : List Bool → List E → List A → List (Observed E A)
  observe_each [] events actions = map observed_event events ++ map observed_action actions
  observe_each (pick ∷ picks) [] actions = map observed_action actions
  observe_each (pick ∷ picks) (e ∷ events) [] = map observed_event (e ∷ events)
  observe_each (true ∷ picks) (e ∷ events) (a ∷ actions) =
      observed_event e ∷ observe_each picks events (a ∷ actions)
  observe_each (false ∷ picks) (e ∷ events) (a ∷ actions) =
      observed_action a ∷ observe_each picks (e ∷ events) actions

  -- `observer_task`
  unfoldable pub observer_task : List Bool → List (Signal E) → List (Signal A) → List (Observed E A)
  unfolding into_stream observe_each
  observer_task picks events actions = observe_each picks (into_stream events) (into_stream actions)
