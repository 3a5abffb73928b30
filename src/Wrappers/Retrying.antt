-- ===== src/Wrappers/Retrying.antt =====
-- `Retry` of src/executor_ext/retry.rs.
use artemis_light.Prelude.{
  ℕ, zero, suc, ◌+◌, ◌-◌, ◌%◌, ◌^◌, ◌≤◌, ◌<◌, ◌≡◌, refl, ◌≢◌, inl, inr, false, Option, none, some,
  List, [], ◌∷◌, arith, leb, if◌then◌else◌, Bool-cases, length, u32_max,
}
use artemis_light.Backoff.{delay}
use artemis_light.Wrappers.{Executor}

pub record RetryPolicy : Type 0 where
  pub max_retries : ℕ
  pub base_delay : ℕ

-- `RetryPolicy::default`
abbrev pub default_policy : RetryPolicy
default_policy = record { max_retries = 3; base_delay = 100000000 }

module _ {A : Type 0} (x : Executor A) (policy : RetryPolicy) where
  -- How an execution ends: the last error or none, the delays slept, and the inner executor.
  pub record Ended : Type 0 where
    pub error : Option x.Failure
    pub slept : List ℕ
    pub executor : x.State

  slept_before : ℕ → Option Ended → Option Ended
  slept_before d none = none
  slept_before d (some r) = some (record r { slept = d ∷ r.slept })

  attempt : (ℕ → x.State → Option Ended) → ℕ → Option x.Failure × x.State → Option Ended
  attempt again retries (none, s) = some (record { error = none; slept = []; executor = s })
  attempt again retries (some e, s) =
      if leb policy.max_retries retries
      then some (record { error = some e; slept = []; executor = s })
      else slept_before (delay policy.base_delay retries) (again ((retries + 1) % 2 ^ 32) s)

  -- The loop of `Retry::execute`; `none` is a loop out of fuel.
  retry_loop : ℕ → A → ℕ → x.State → Option Ended
  unfolding attempt slept_before
  retry_loop zero action retries s = none
  retry_loop (suc fuel) action retries s =
      attempt (retry_loop fuel action) retries (x.execute action s)

  -- `Retry::execute`
  pub retry_execute : A → x.State → Option Ended
  unfolding retry_loop
  retry_execute action s = retry_loop (policy.max_retries + 1) action 0 s

  -- The loop ends with a result, after as many sleeps as the retries left allow; an error is returned
  -- only when they are spent.
  abbrev pub Ends : ℕ → Option Ended → Type 0
  Ends left o =
      (r : Ended) × (o ≡ some r)
      × (length r.slept ≤ left)
      × (r.error ≢ none → length r.slept ≡ left)

  retry_loop-Ends :
      (fuel left : ℕ) (action : A) (retries : ℕ) (s : x.State)
      → policy.max_retries ≤ u32_max
      → retries + left ≡ policy.max_retries
      → left < fuel
      → Ends left (retry_loop fuel action retries s)
  unfolding retry_loop attempt slept_before
  retry_loop-Ends zero left action retries s m h l = absurd (omega arith)
  retry_loop-Ends (suc fuel) left action retries s m h l =
      go (x.execute action s) (λ n k t. retry_loop-Ends fuel k action n t m)
    where
      go :
          (r : Option x.Failure × x.State)
          → ((n k : ℕ) (t : x.State)
              → n + k ≡ policy.max_retries
              → k < fuel
              → Ends k (retry_loop fuel action n t))
          → Ends left (attempt (retry_loop fuel action) retries r)
      go (none, t) ih = (
        record { error = none; slept = []; executor = t },
        refl,
        omega arith,
        λ n. absurd (n refl),
      )
      go (some e, t) ih = elim (Bool-cases (leb policy.max_retries retries)) [
        | inl b ↦ (
          record { error = some e; slept = []; executor = t },
          rw b refl,
          omega arith,
          λ _. ground (arith, b),
        )
        | inr b ↦
            let (r, q, few, all) =
              ih (retries + 1) (left - 1) t (ground (arith, b)) (ground (arith, b)) in
            (
              record r { slept = delay policy.base_delay retries ∷ r.slept },
              rw (b, no_wrap b, q) refl,
              ground (arith, b, few),
              λ n. ground (arith, b, all n),
            )
      ]
        where
          no_wrap : leb policy.max_retries retries ≡ false → (retries + 1) % 2 ^ 32 ≡ retries + 1
          no_wrap b = ground (arith, b)

  -- For max_retries within a u32, an execution with retries comes to a result, whatever the
  -- executor does: it sleeps at most max_retries times, and returns an error only after exactly
  -- that many.
  pub retry_execute-Ends :
      (action : A) (s : x.State)
      → policy.max_retries ≤ u32_max
      → Ends policy.max_retries (retry_execute action s)
  unfolding retry_execute
  retry_execute-Ends action s m =
      retry_loop-Ends (policy.max_retries + 1) policy.max_retries action 0 s m (omega arith)
        (omega arith)
