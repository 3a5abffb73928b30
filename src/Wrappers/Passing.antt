-- ===== src/Wrappers/Passing.antt =====
-- The wrappers of src/executor_ext that drop, translate, report or send on an action: deadline.rs,
-- gated.rs, filter_map_action.rs, fallback.rs and report.rs.
use mathlib.Core.List.{append_assoc, append-nil, map-append}
use artemis_light.Prelude.{
  ℕ, ◌≡◌, refl, sym, ap, subst, ◌∙◌, Bool, true, false, Option, none, some, List, [], ◌∷◌, ◌++◌,
  map, leb, if◌then◌else◌,
}
use artemis_light.Wrappers.{Executor}

module _ {A : Type 0} (x : Executor A) where
  -- `Deadline::execute` at an instant; `none` is a result without an error.
  unfoldable pub deadline_execute : (A → ℕ) → ℕ → A → x.State → Option x.Failure × x.State
  deadline_execute expires_at now action s =
      if leb (expires_at action) now then (none, s) else x.execute action s

  -- `Gated::execute` under the value of its flag.
  unfoldable pub gated_execute : Bool → A → x.State → Option x.Failure × x.State
  gated_execute enabled action s = if enabled then x.execute action s else (none, s)

  filter_mapped : Option A → x.State → Option x.Failure × x.State
  filter_mapped none s = (none, s)
  filter_mapped (some action) s = x.execute action s

  -- `FilterMapAction::execute`
  unfoldable pub filter_map_execute :
      {A2 : Type 0} → (A2 → Option A) → A2 → x.State → Option x.Failure × x.State
  unfolding filter_mapped
  filter_map_execute f action s = filter_mapped (f action) s

  -- `ExecutionOutcome`
  pub record ExecutionOutcome : Type 0 where
    pub action : A
    pub result : Option x.Failure

  -- `Report::execute`, with the outcomes that were sent.
  unfoldable pub report_execute :
      A → x.State × List ExecutionOutcome → Option x.Failure × (x.State × List ExecutionOutcome)
  report_execute action (s, outcomes) =
      let (result, t) = x.execute action s in
      (result, (t, outcomes ++ record { action = action; result = result } ∷ []))

  -- All of the actions through an executor, with the results.
  abbrev pub execute_all :
      {B S : Type 0} → (B → S → Option x.Failure × S) → List B → S → List (Option x.Failure) × S
  execute_all run [] s = ([], s)
  execute_all run (a ∷ actions) s =
      let (result, t) = run a s in
      let (results, u) = execute_all run actions t in (result ∷ results, u)

  -- The actions that a selection lets through, as it translates them.
  abbrev pub selected : {B : Type 0} → (B → Option A) → List B → List A
  selected f [] = []
  selected f (b ∷ bs) = elim (f b) [ none ↦ selected f bs | some a ↦ a ∷ selected f bs ]

  -- The errors among the results.
  abbrev pub failures_of : List (Option x.Failure) → List x.Failure
  failures_of [] = []
  failures_of (none ∷ results) = failures_of results
  failures_of (some e ∷ results) = e ∷ failures_of results

  failures_of-ap :
      (o : Option x.Failure) (k l : List (Option x.Failure))
      → failures_of k ≡ failures_of l
      → failures_of (o ∷ k) ≡ failures_of (o ∷ l)
  failures_of-ap none k l q = q
  failures_of-ap (some e) k l q = ap (λ m. e ∷ m) q

  -- A wrapper acts through a selection: what is let through leaves the executor and fails as if it
  -- alone had been submitted, and nothing else reaches it.
  pub ActsOn :
      {B : Type 0}
      → (B → Option A)
      → (B → x.State → Option x.Failure × x.State)
      → List B
      → x.State
      → Type 0
  ActsOn f run bs s =
      ((execute_all run bs s).1 ≡ (execute_all x.execute (selected f bs) s).1)
      × (failures_of (execute_all run bs s).0
          ≡ failures_of (execute_all x.execute (selected f bs) s).0)

  acts_on :
      {B : Type 0} (f : B → Option A) (run : B → x.State → Option x.Failure × x.State)
      → ((b : B) (s : x.State) → run b s ≡ filter_mapped (f b) s)
      → (bs : List B) (s : x.State) → ActsOn f run bs s
  unfolding ActsOn filter_mapped
  acts_on f run h [] s = (refl, refl)
  acts_on {B} f run h (b ∷ bs) s =
      subst (λ r. Through (f b) r) (sym (h b s)) (go (f b) (λ t. acts_on f run h bs t))
    where
      passed : Option A → List A
      passed o = elim o [ none ↦ selected f bs | some a ↦ a ∷ selected f bs ]

      Through : Option A → Option x.Failure × x.State → Type 0
      Through o r =
          ((execute_all run bs r.1).1 ≡ (execute_all x.execute (passed o) s).1)
          × (failures_of (r.0 ∷ (execute_all run bs r.1).0)
              ≡ failures_of (execute_all x.execute (passed o) s).0)

      go : (o : Option A) → ((t : x.State) → ActsOn f run bs t) → Through o (filter_mapped o s)
      go none ih = ih s
      go (some a) ih =
          let (state, failures) = ih (x.execute a s).1 in
          (state, failures_of-ap (x.execute a s).0 _ _ failures)

  -- Actions under a deadline, under a gate that opens and shuts, or under a partial translation:
  -- those that are not expired, come while the gate is open, or have a translation act on the inner
  -- executor, and fail, as if they alone had been submitted in this order; the rest never reach it.
  pub wrappers-ActsOn :
      (expires_at : A → ℕ) (timed : List (ℕ × A)) (gated : List (Bool × A)) {B : Type 0}
      (f : B → Option A) (actions : List B) (s : x.State)
      → ActsOn
          (λ c. if leb (expires_at c.1) c.0 then none else some c.1)
          (λ c t. deadline_execute expires_at c.0 c.1 t)
          timed
          s
        × ActsOn (λ c. if c.0 then some c.1 else none) (λ c t. gated_execute c.0 c.1 t) gated s
        × ActsOn f (λ b t. filter_map_execute f b t) actions s
  unfolding deadline_execute gated_execute filter_map_execute filter_mapped
  wrappers-ActsOn expires_at timed gated f actions s = (
    acts_on _ _ (λ c t. late (leb (expires_at c.1) c.0) c.1 t) timed s,
    acts_on _ _ (λ c t. shut c.0 c.1 t) gated s,
    acts_on f _ (λ b t. refl) actions s,
  )
    where
      late :
          (b : Bool) (a : A) (t : x.State)
          → (if b then (none, t) else x.execute a t) ≡ filter_mapped (if b then none else some a) t
      late true a t = refl
      late false a t = refl

      shut :
          (b : Bool) (a : A) (t : x.State)
          → (if b then x.execute a t else (none, t)) ≡ filter_mapped (if b then some a else none) t
      shut true a t = refl
      shut false a t = refl

  -- Reporting changes neither the results nor the executor, and sends one outcome for each action, in
  -- order, with its result.
  pub report_execute_lem :
      (actions : List A) (s : x.State) (sent : List ExecutionOutcome)
      → ((execute_all report_execute actions (s, sent)).0 ≡ (execute_all x.execute actions s).0)
        × ((execute_all report_execute actions (s, sent)).1.0 ≡ (execute_all x.execute actions s).1)
        × (map (λ o. o.action) (execute_all report_execute actions (s, sent)).1.1
            ≡ map (λ o. o.action) sent ++ actions)
        × (map (λ o. o.result) (execute_all report_execute actions (s, sent)).1.1
            ≡ map (λ o. o.result) sent ++ (execute_all x.execute actions s).0)
  unfolding report_execute
  report_execute_lem [] s sent = (refl, refl, sym (append-nil _), sym (append-nil _))
  report_execute_lem (a ∷ actions) s sent =
      let r = x.execute a s in
      let outcome : ExecutionOutcome = record { action = a; result = r.0 } in
      let (results, state, acts, verdicts) =
        report_execute_lem actions r.1 (sent ++ outcome ∷ []) in
      (
        ap (λ l. r.0 ∷ l) results,
        state,
        acts
            ∙ ap (λ l. l ++ actions) (map-append _ sent (outcome ∷ []))
            ∙ append_assoc _ (a ∷ []) actions,
        verdicts
            ∙ ap (λ l. l ++ (execute_all x.execute actions r.1).0)
                (map-append _ sent (outcome ∷ []))
            ∙ append_assoc _ (r.0 ∷ []) _,
      )

module _ {A : Type 0} (x y : Executor A) where
  handed_on : A → Option x.Failure × x.State → y.State → Option y.Failure × (x.State × y.State)
  handed_on action (none, s) t = (none, (s, t))
  handed_on action (some e, s) t = let (result, u) = y.execute action t in (result, (s, u))

  -- `Fallback::execute`
  unfoldable pub fallback_execute : A → x.State × y.State → Option y.Failure × (x.State × y.State)
  unfolding handed_on
  fallback_execute action (s, t) = handed_on action (x.execute action s) t

  -- All of the actions through the primary and its fallback.
  pub fallback_all : List A → x.State × y.State → List (Option y.Failure) × (x.State × y.State)
  fallback_all [] s = ([], s)
  fallback_all (a ∷ actions) s =
      let (result, t) = fallback_execute a s in
      let (results, u) = fallback_all actions t in (result ∷ results, u)

  -- The actions that failed.
  abbrev pub refused_of : List A → List (Option x.Failure) → List A
  refused_of [] results = []
  refused_of (a ∷ actions) [] = []
  refused_of (a ∷ actions) (none ∷ results) = refused_of actions results
  refused_of (a ∷ actions) (some e ∷ results) = a ∷ refused_of actions results

  -- What is left of the two executors and of the errors, from the results of the primary.
  abbrev pub FallsBack :
      List (Option x.Failure) × x.State
      → List A
      → y.State
      → List (Option y.Failure) × (x.State × y.State)
      → Type 0
  FallsBack primary actions t outcome =
      (outcome.1.0 ≡ primary.1)
      × (outcome.1.1 ≡ (execute_all y y.execute (refused_of actions primary.0) t).1)
      × (failures_of y outcome.0
          ≡ failures_of y (execute_all y y.execute (refused_of actions primary.0) t).0)

  -- Every action goes to the primary executor; the fallback is given exactly those on which the
  -- primary failed, in order, and only what fails there fails.
  pub fallback_all-FallsBack :
      (actions : List A) (s : x.State) (t : y.State)
      → FallsBack (execute_all x x.execute actions s) actions t (fallback_all actions (s, t))
  unfolding fallback_all fallback_execute handed_on
  fallback_all-FallsBack [] s t = (refl, refl, refl)
  fallback_all-FallsBack (a ∷ actions) s t =
      go (x.execute a s) (λ u v. fallback_all-FallsBack actions u v)
    where
      go :
          (r : Option x.Failure × x.State)
          → ((u : x.State) (v : y.State)
              → FallsBack
                  (execute_all x x.execute actions u)
                  actions
                  v
                  (fallback_all actions (u, v)))
          → FallsBack
              (
                r.0 ∷ (execute_all x x.execute actions r.1).0,
                (execute_all x x.execute actions r.1).1,
              )
              (a ∷ actions)
              t
              (
                (handed_on a r t).0 ∷ (fallback_all actions (handed_on a r t).1).0,
                (fallback_all actions (handed_on a r t).1).1,
              )
      go (none, u) ih = ih u t
      go (some e, u) ih =
          let (primary, fallback, failures) = ih u (y.execute a t).1 in
          (primary, fallback, failures_of-ap y (y.execute a t).0 _ _ failures)
