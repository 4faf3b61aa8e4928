-- ===== src/Errors.antt =====
-- The failures of the workflow package: packages/core/src/errors.ts, packages/workflow/src/errors.ts,
-- the error classes of primitives/step.ts, primitives/pause-signal.ts, context/step-scope.ts and
-- orchestrator/registry.ts. One data type holds them, as every one may stand in another's `cause`.
use durable_effect.Prelude.{ℕ, String, Option, none, some, List}
use durable_effect.State.{StatusTag, TransitionTag, PauseReason, Unknown}

-- The storage keys of state/machine.ts, recovery/manager.ts, purge/manager.ts, executor.ts and
-- context/*.ts. `workflow:meta:*` and the step metadata other than `lastError` are the user's.
pub data Key : Type 0 where
  status name input execution_id completed_steps completed_pause_index pending_resume_at : Key
  recovery_attempts cancelled cancel_reason last_recovery_at : Key
  started_at current_pause_index : Key
  purge_scheduled purge_at purge_reason alarm_type : Key
  step_attempt step_started_at step_result step_last_error : (step_name : String) → Key

pub data StorageOp : Type 0 where
  get put delete delete_all list : StorageOp

pub data Operation : Type 0 where
  start queue alarm cancel execute : Operation

pub record PauseSignal : Type 0 where
  pub reason : PauseReason
  pub resume_at : ℕ
  pub step_name : Option String
  pub attempt : Option ℕ

-- `plain` is a JavaScript `Error` of the user's code, `thrown` a failure that is no `Error`.
-- `retry_exhausted_bare` is `RetryExhaustedError` with `undefined` for its last error.
pub data Error : Type 0 where
  invalid_transition :
      (from_status : Option StatusTag) (to_transition : TransitionTag)
      (valid_transitions : List TransitionTag)
      → Error
  storage_error : (operation : StorageOp) (key : Option Key) → Error
  max_attempts_exceeded : (attempts max_attempts : ℕ) → Error
  orchestrator_error : (operation : Operation) (cause : Error) → Error
  workflow_not_found : (workflow_name : String) (available : List String) → Error
  pause_signal : PauseSignal → Error
  step_cancelled : (step_name : String) → Error
  retry_exhausted : (step_name : String) (attempts : ℕ) (last_error : Error) → Error
  retry_exhausted_bare : (step_name : String) (attempts : ℕ) → Error
  workflow_timeout : (step_name : String) (timeout_ms elapsed_ms : ℕ) → Error
  step_scope_error : (operation step_name : String) → Error
  plain : (message : String) (stack : Option String) → Error
  thrown : (value : Unknown) → Error

-- `PauseSignal.sleep`
unfoldable pub sleep_signal : ℕ → PauseSignal
sleep_signal resume_at = record {
  reason = PauseReason.sleep;
  resume_at = resume_at;
  step_name = none;
  attempt = none;
}

-- `PauseSignal.retry`
unfoldable pub retry_signal : ℕ → String → ℕ → PauseSignal
retry_signal resume_at step_name attempt = record {
  reason = PauseReason.retry;
  resume_at = resume_at;
  step_name = some step_name;
  attempt = some attempt;
}

-- `isPauseSignal`, with the signal that it narrows to
unfoldable pub as_pause_signal : Error → Option PauseSignal
as_pause_signal (Error.pause_signal signal) = some signal
as_pause_signal _ = none

-- `instanceof StepCancelledError`, with the name of the step
unfoldable pub as_step_cancelled : Error → Option String
as_step_cancelled (Error.step_cancelled step_name) = some step_name
as_step_cancelled _ = none
