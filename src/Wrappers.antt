-- ===== src/Wrappers.antt =====
-- The wrappers of src/executor_ext around an executor, which is a parameter: an `execute` that takes
-- the executor's state to the next, with an error or none.
pub mod Breaker
pub mod Retrying
pub mod RateLimiting
pub mod Passing
use artemis_light.Prelude.{Option}

-- The trait `Executor` of src/types.rs.
pub record Executor (A : Type 0) : Type 1 where
  pub State : Type 0
  pub Failure : Type 0
  pub execute : A → State → Option Failure × State
