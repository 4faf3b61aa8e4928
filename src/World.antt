-- ===== src/World.antt =====
-- The runtime that a workflow instance runs in, as packages/workflow/src/adapters/in-memory gives it:
-- the storage, the alarm, the clock, and the tracker of packages/core/src/tracker/in-memory.ts.
-- `Action` is the shape of every effect of the package over these.
pub mod Storage
pub mod Outcomes
pub mod Keeps
pub mod Reliable
use durable_effect.Prelude.{ℕ, String, ◌≡◌, Bool, Option, none, some, List, ◌∷◌, [], ◌++◌}
use durable_effect.State.{WorkflowStatus, PauseReason, Unknown}
use durable_effect.Errors.{Error, Key, StorageOp}
use durable_effect.Program.{Program, Cause, Run, Result, ok, err}

pub data TerminalState : Type 0 where
  completed failed cancelled : TerminalState

pub record StepResultMeta : Type 0 where
  pub completed_at : ℕ
  pub attempt : ℕ
  pub duration_ms : ℕ

pub record CachedStepResult : Type 0 where
  pub value : Unknown
  pub meta : StepResultMeta

-- The value under each key, `none` for a key that is not there.
pub record Store : Type 0 where
  pub status : Option WorkflowStatus
  pub name : Option String
  pub input : Option Unknown
  pub execution_id : Option String
  pub completed_steps : Option (List String)
  pub completed_pause_index : Option ℕ
  pub pending_resume_at : Option ℕ
  pub recovery_attempts : Option ℕ
  pub cancelled : Option Bool
  pub cancel_reason : Option String
  pub last_recovery_at : Option ℕ
  pub started_at : Option ℕ
  pub current_pause_index : Option ℕ
  pub purge_scheduled : Option Bool
  pub purge_at : Option ℕ
  pub purge_reason : Option TerminalState
  pub alarm_type : Option String
  pub step_attempt : String → Option ℕ
  pub step_started_at : String → Option ℕ
  pub step_result : String → Option CachedStepResult
  pub step_last_error : String → Option Error

abbrev pub empty_store : Store
empty_store = record {
  status = none;
  name = none;
  input = none;
  execution_id = none;
  completed_steps = none;
  completed_pause_index = none;
  pending_resume_at = none;
  recovery_attempts = none;
  cancelled = none;
  cancel_reason = none;
  last_recovery_at = none;
  started_at = none;
  current_pause_index = none;
  purge_scheduled = none;
  purge_at = none;
  purge_reason = none;
  alarm_type = none;
  step_attempt = λ k. none;
  step_started_at = λ k. none;
  step_result = λ k. none;
  step_last_error = λ k. none;
}

-- What the tracker is told. An `eventId` and the ISO form of a time are left out.
pub data EventBody : Type 0 where
  workflow_started workflow_queued : (input : Option Unknown) → EventBody
  workflow_resumed : EventBody
  workflow_completed : (completed_steps : List String) (duration_ms : ℕ) → EventBody
  workflow_failed :
      (message : String) (stack : Option String) (completed_steps : List String) → EventBody
  workflow_paused : (reason : PauseReason) (resume_at : ℕ) (step_name : Option String) → EventBody
  workflow_cancelled : (reason : Option String) (completed_steps : List String) → EventBody
  sleep_started : (duration_ms resume_at : ℕ) → EventBody
  sleep_completed : (duration_ms : ℕ) → EventBody
  step_started : (step_name : String) (attempt : ℕ) → EventBody
  step_completed : (step_name : String) (attempt duration_ms : ℕ) → EventBody
  step_failed :
      (step_name : String) (attempt : ℕ) (message : String) (stack : Option String) → EventBody
  retry_exhausted : (step_name : String) (attempts : ℕ) → EventBody
  retry_scheduled : (step_name : String) (attempt next_attempt_at delay_ms : ℕ) → EventBody
  timeout_set : (step_name : String) (deadline timeout_ms : ℕ) → EventBody
  timeout_exceeded : (step_name : String) (timeout_ms : ℕ) → EventBody

pub record Event : Type 0 where
  pub workflow_id : String
  pub workflow_name : String
  pub execution_id : Option String
  pub body : EventBody

-- `scheduled_time` of the scheduler, `current_time` of the runtime, `events` of the tracker.
pub record World : Type 0 where
  pub store : Store
  pub scheduled_time : Option ℕ
  pub current_time : ℕ
  pub events : List Event

pub record ErrorConfig : Type 0 where
  pub fail_all : Bool
  pub fail_on : StorageOp → Key → Bool

pub record RecoveryConfig : Type 0 where
  pub stale_threshold_ms : ℕ
  pub max_recovery_attempts : ℕ
  pub recovery_delay_ms : ℕ
  pub emit_recovery_events : Bool

pub record ParsedPurgeConfig : Type 0 where
  pub enabled : Bool
  pub delay_ms : ℕ

-- What stays as it is while the object lives. The last five are not code of the repository:
-- `Cause.failureOption`, `Cause.squash` and `Effect.timeoutFail` of the effect library,
-- `Math.random` in the form of the delay that `addJitter` makes of a delay, and the stack trace
-- that the engine keeps with an error.
pub record Env : Type 0 where
  pub instance_id : String
  pub error_config : Option ErrorConfig
  pub workflows : List (String × (Option Unknown → Program))
  pub recovery : RecoveryConfig
  pub purge : ParsedPurgeConfig
  pub failure_option : Cause → Option Error
  pub squash : Cause → Error
  pub timeout_fail : (remaining_ms : ℕ) (on_timeout : Error) → Run → Run
  pub add_jitter : ℕ → ℕ
  pub stack_of : Error → Option String

-- An effect: it reads the services, changes the world, and succeeds or fails. What it changed
-- before a failure stays changed.
abbrev pub Action : Type 0 → Type 0
Action A = Env → World → Result A × World

abbrev pub continue : {A B : Type 0} → Result A → (A → Action B) → Action B
continue (ok a) f env w = f a env w
continue (err e) f env w = (err e, w)

abbrev pub handle : {A : Type 0} → Result A → (Error → Action A) → Action A
handle (ok a) handler env w = (ok a, w)
handle (err e) handler env w = handler e env w

infixl 5 ◌>>=◌ ◌>>◌
unfoldable pub ◌>>=◌ : {A B : Type 0} → Action A → (A → Action B) → Action B
◌>>=◌ m f env w = let (r, w') = m env w in continue r f env w'

abbrev pub ◌>>◌ : {A B : Type 0} → Action A → Action B → Action B
m >> k = m >>= λ _. k

-- `Effect.succeed`
abbrev pub pure : {A : Type 0} → A → Action A
pure a env w = (ok a, w)

-- `Effect.fail`
abbrev pub raise : {A : Type 0} → Error → Action A
raise e env w = (err e, w)

-- a service of the environment
unfoldable pub asks : {A : Type 0} → (Env → A) → Action A
asks f env w = (ok (f env), w)

-- `catchAll`, or `catchTag` where the handler fails again with what it does not catch
unfoldable pub catch_error : {A : Type 0} → Action A → (Error → Action A) → Action A
catch_error m handler env w = let (r, w') = m env w in handle r handler env w'

-- `catchAll` with a handler that fails with another error
abbrev pub map_error : {A : Type 0} → (Error → Error) → Action A → Action A
map_error f m = catch_error m (λ e. raise (f e))

-- an effect whose failure is handed on as a value, so that the caller may look at it
unfoldable pub result_of : {A : Type 0} → Action A → Action (Result A)
result_of m env w = let (r, w') = m env w in (ok r, w')

-- The storage of `createInMemoryStorage`, which never fails.
abbrev pub IsReliable : Env → Type 0
IsReliable env = env.error_config ≡ none
