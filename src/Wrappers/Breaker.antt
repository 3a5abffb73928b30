-- ===== src/Wrappers/Breaker.antt =====
-- `CircuitBreaker` of src/executor_ext/circuit_breaker.rs.
use artemis_light.Prelude.{
  ℕ, ◌+◌, ◌%◌, ◌^◌, ◌≤◌, ◌<◌, ◌≡◌, refl, sym, subst, inl, inr, Bool, true, false, Option, none,
  some, List, [], ◌∷◌, arith, leb, if◌then◌else◌, Bool-cases, u32_max,
}
use artemis_light.Wrappers.{Executor}

module _ {A : Type 0} (x : Executor A) where
  -- The wrapper with the state that it shares with its handles.
  pub record CircuitBreaker : Type 0 where
    pub executor : x.State
    pub max_failures : ℕ
    pub failures : ℕ

  pub data Verdict : Type 0 where
    done : Verdict
    rejected : Verdict
    failed : x.Failure → Verdict

  -- `BreakerState::is_open`
  abbrev pub is_open : CircuitBreaker → Bool
  is_open c = leb c.max_failures c.failures

  -- `CircuitBreakerHandle::reset`
  pub reset : CircuitBreaker → CircuitBreaker
  reset c = record c { failures = 0 }

  settled_with : CircuitBreaker → Option x.Failure × x.State → Verdict × CircuitBreaker
  settled_with c (none, s) = (done, record c { executor = s; failures = 0 })
  settled_with c (some e, s) =
      (failed e, record c { executor = s; failures = (c.failures + 1) % 2 ^ 32 })

  -- `CircuitBreaker::execute`
  unfoldable pub breaker_execute : A → CircuitBreaker → Verdict × CircuitBreaker
  unfolding settled_with
  breaker_execute action c =
      if is_open c then (rejected, c) else settled_with c (x.execute action c.executor)

  pub submit_all : List A → CircuitBreaker → List Verdict × CircuitBreaker
  submit_all [] c = ([], c)
  submit_all (a ∷ actions) c =
      let (v, d) = breaker_execute a c in let (vs, e) = submit_all actions d in (v ∷ vs, e)

  -- The failures in a row at the end of a history of verdicts, a success ending the row.
  pub streak : ℕ → List Verdict → ℕ
  streak n [] = n
  streak n (done ∷ vs) = streak 0 vs
  streak n (rejected ∷ vs) = streak n vs
  streak n (failed e ∷ vs) = streak (n + 1) vs

  abbrev pub AllRejected : List Verdict → Type 0
  AllRejected [] = Unit
  AllRejected (v ∷ vs) = (v ≡ rejected) × AllRejected vs

  execute_open :
      (a : A) (c : CircuitBreaker) → is_open c ≡ true → breaker_execute a c ≡ (rejected, c)
  unfolding breaker_execute
  execute_open a c h = rw h refl

  execute_closed :
      (a : A) (c : CircuitBreaker)
      → is_open c ≡ false
      → breaker_execute a c ≡ settled_with c (x.execute a c.executor)
  unfolding breaker_execute
  execute_closed a c h = rw h refl

  -- While the circuit is open every action is rejected and the inner executor is not reached: the
  -- whole breaker stays as it was.
  pub open_rejects :
      (actions : List A) (c : CircuitBreaker)
      → is_open c ≡ true
      → AllRejected (submit_all actions c).0 × ((submit_all actions c).1 ≡ c)
  unfolding submit_all
  open_rejects [] c h = (tt, refl)
  open_rejects (a ∷ actions) c h =
      let (rest, same) = open_rejects actions c h in rw (execute_open a c h) ((refl, rest), same)

  -- From at most max_failures failures, with max_failures within a u32, the breaker counts after
  -- any actions the failures in a row of its verdicts, and never more than max_failures.
  pub streak-failures :
      (actions : List A) (c : CircuitBreaker)
      → c.max_failures ≤ u32_max
      → c.failures ≤ c.max_failures
      → ((submit_all actions c).1.failures ≡ streak c.failures (submit_all actions c).0)
        × ((submit_all actions c).1.failures ≤ c.max_failures)
  unfolding submit_all streak settled_with
  streak-failures [] c k h = (refl, h)
  streak-failures (a ∷ actions) c k h = elim (Bool-cases (is_open c)) [
    | inl o ↦ rw (execute_open a c o) (streak-failures actions c k h)
    | inr o ↦
        subst
          (λ r.
            ((submit_all actions r.1).1.failures
              ≡ streak c.failures (r.0 ∷ (submit_all actions r.1).0))
            × ((submit_all actions r.1).1.failures ≤ c.max_failures))
          (sym (execute_closed a c o))
          (go (x.execute a c.executor) (ground (arith, o)) (λ d. streak-failures actions d))
  ]
    where
      Counts : Verdict × CircuitBreaker → Type 0
      Counts r =
          ((submit_all actions r.1).1.failures
            ≡ streak c.failures (r.0 ∷ (submit_all actions r.1).0))
          × ((submit_all actions r.1).1.failures ≤ c.max_failures)

      go :
          (r : Option x.Failure × x.State)
          → c.failures < c.max_failures
          → ((d : CircuitBreaker)
              → d.max_failures ≤ u32_max
              → d.failures ≤ d.max_failures
              → ((submit_all actions d).1.failures ≡ streak d.failures (submit_all actions d).0)
                × ((submit_all actions d).1.failures ≤ d.max_failures))
          → Counts (settled_with c r)
      go (none, s) l ih = ih (record c { executor = s; failures = 0 }) k (omega arith)
      go (some e, s) l ih =
          let same : (c.failures + 1) % 2 ^ 32 ≡ c.failures + 1 = omega arith in
          rw same (ih (record c { executor = s; failures = c.failures + 1 }) k (omega arith))
