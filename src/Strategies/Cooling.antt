-- ===== src/Strategies/Cooling.antt =====
-- A run of the cooldown in src/strategy_ext/cooldown.rs over many events.
use artemis_light.Prelude.{
  ℕ, ◌+◌, ◌-◌, ◌≤◌, ◌<◌, ◌≡◌, refl, Bool, true, false, Option, none, some, List, [], ◌∷◌, arith, ok,
  err, ltb, Result,
}
use artemis_light.Strategies.{Strategy, Cooldown, cooldown_event, cooling, released}

module _ {E A : Type 0} (x : Strategy E A) where
  -- An event, the instant at which it comes and that at which its last action is taken.
  pub record Arrival : Type 0 where
    pub now : ℕ
    pub drained : ℕ
    pub input : E

  fired_before : Arrival → Result x.Failure (List A) → List Arrival → List Arrival
  fired_before a (ok []) fired = fired
  fired_before a (ok (action ∷ actions)) fired = a ∷ fired
  fired_before a (err e) fired = fired

  -- The arrivals on which actions were released, and the cooldown after them all.
  pub run_cooldown : List Arrival → Cooldown x → List Arrival × Cooldown x
  unfolding fired_before
  run_cooldown [] c = ([], c)
  run_cooldown (a ∷ arrivals) c =
      let (result, d) = cooldown_event x a.now a.drained a.input c in
      let (fired, end) = run_cooldown arrivals d in (fired_before a result fired, end)

  -- The strategy on its own.
  pub state_after : List Arrival → x.State → x.State
  state_after [] s = s
  state_after (a ∷ arrivals) s = state_after arrivals (x.process_event a.input s).1

  -- Each comes no sooner than the duration after the last action of the one before.
  abbrev pub Apart : ℕ → Option ℕ → List Arrival → Type 0
  Apart duration last [] = Unit
  Apart duration none (a ∷ fired) = Apart duration (some a.drained) fired
  Apart duration (some l) (a ∷ fired) =
      (l + duration ≤ a.now) × Apart duration (some a.drained) fired

  pub Runs : List Arrival → Cooldown x → List Arrival × Cooldown x → Type 0
  Runs arrivals c r =
      Apart c.duration c.last_fired r.0 × (r.1.strategy ≡ state_after arrivals c.strategy)

  quiet_enough :
      (c : Cooldown x) (now l : ℕ)
      → 0 < c.duration
      → cooling x c now ≡ false
      → c.last_fired ≡ some l
      → l + c.duration ≤ now
  unfolding cooling
  quiet_enough c now l p h q =
      let same : (elim (c.last_fired) [ none ↦ false | some fired ↦ ltb (now - fired) c.duration ])
          ≡ ltb (now - l) c.duration =
        rw q refl in
      ground (arith, h, same)

  -- For a duration above zero, the events on which a cooldown lets actions out come no sooner than
  -- this duration after the last action of the one before, and the inner strategy has seen every
  -- event: its state is as it would be without the cooldown.
  pub run_cooldown-Runs :
      (arrivals : List Arrival) (c : Cooldown x)
      → 0 < c.duration
      → Runs arrivals c (run_cooldown arrivals c)
  unfolding run_cooldown cooldown_event Runs state_after fired_before
  run_cooldown-Runs [] c p = (tt, refl)
  run_cooldown-Runs (a ∷ arrivals) c p =
      go (x.process_event a.input c.strategy) (cooling x c a.now) refl
        (λ d q. run_cooldown-Runs arrivals d q)
    where
      Goal : Result x.Failure (List A) × x.State → Bool → Type 0
      Goal r quiet =
          let outcome = released x quiet a.drained r c in
          Apart c.duration c.last_fired
            (fired_before a outcome.0 (run_cooldown arrivals outcome.1).0)
          × ((run_cooldown arrivals outcome.1).1.strategy ≡ state_after arrivals r.1)

      spaced :
          (o : Option ℕ) (fired : List Arrival)
          → c.last_fired ≡ o
          → ((l : ℕ) → c.last_fired ≡ some l → l + c.duration ≤ a.now)
          → Apart c.duration (some a.drained) fired
          → Apart c.duration o (a ∷ fired)
      spaced none fired q h k = k
      spaced (some l) fired q h k = (h l q, k)

      go :
          (r : Result x.Failure (List A) × x.State) (quiet : Bool)
          → cooling x c a.now ≡ quiet
          → ((d : Cooldown x) → 0 < d.duration → Runs arrivals d (run_cooldown arrivals d))
          → Goal r quiet
      go (err e, s) quiet q ih = ih (record c { strategy = s }) p
      go (ok actions, s) true q ih = ih (record c { strategy = s }) p
      go (ok [], s) false q ih = ih (record c { strategy = s }) p
      go (ok (action ∷ actions), s) false q ih =
          let (apart, same) = ih (record c { strategy = s; last_fired = some a.drained }) p in
          (spaced c.last_fired _ refl (λ l h. quiet_enough c a.now l p q h) apart, same)
