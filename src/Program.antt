-- ===== src/Program.antt =====
-- What a user hands to the engine: a workflow built from steps and sleeps
-- (packages/workflow/src/primitives/make.ts and step.ts), and how its fiber ends.
use durable_effect.Prelude.{ℕ, String, Bool, Option}
use durable_effect.State.{Unknown}
use durable_effect.Errors.{Error}

-- How an effect ends.
pub data Result {ℓ} (A : Type ℓ) : Type ℓ where
  ok : A → Result A
  err : Error → Result A

-- `Cause` of the effect library: why a fiber did not succeed.
pub data Cause : Type 0 where
  empty interrupt : Cause
  fail : Error → Cause
  die : (defect : Error) → Cause
  sequential parallel : (left right : Cause) → Cause

pub data Exit (A : Type 0) : Type 0 where
  success : A → Exit A
  failure : Cause → Exit A

-- packages/core/src/retry/types.ts. The delays and the multiplier are numbers there, which may have a
-- fraction; here they are whole numbers.
pub data BackoffStrategy : Type 0 where
  constant : (delay_ms : ℕ) → BackoffStrategy
  linear : (initial_delay_ms increment_ms : ℕ) (max_delay_ms : Option ℕ) → BackoffStrategy
  exponential :
      (initial_delay_ms : ℕ) (multiplier : Option ℕ) (max_delay_ms : Option ℕ) → BackoffStrategy

-- The `delay` of a retry: a duration in milliseconds, a strategy, or a function of the attempt.
pub data RetryDelay : Type 0 where
  duration : (ms : ℕ) → RetryDelay
  strategy : BackoffStrategy → RetryDelay
  custom : (ℕ → ℕ) → RetryDelay

pub record RetryConfig : Type 0 where
  pub max_attempts : ℕ
  pub delay : Option RetryDelay
  pub jitter : Option Bool
  pub is_retryable : Option (Error → Bool)
  pub max_duration : Option ℕ

-- One run of a step's effect: how it ends, and after how many milliseconds.
pub record Run : Type 0 where
  pub outcome : Result Unknown
  pub elapsed : ℕ

-- `execute` is the user's effect, run at a time and an attempt.
pub record StepConfig : Type 0 where
  pub name : String
  pub execute : (now attempt : ℕ) → Run
  pub retry : Option RetryConfig
  pub timeout : Option ℕ

-- The body of a workflow. A continuation is given how the primitive ended, so that the user's code
-- may catch a failure; `halt` ends the fiber with a cause, such as that of a failed `Effect.all`.
pub data Program : Type 0 where
  done : (output : Unknown) → Program
  halt : Cause → Program
  step : StepConfig → (Result Unknown → Program) → Program
  sleep : (duration_ms : ℕ) → (Result (Unit {0}) → Program) → Program
  sleep_until : (timestamp : ℕ) → (Result (Unit {0}) → Program) → Program
