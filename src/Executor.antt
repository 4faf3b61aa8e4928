-- ===== src/Executor.antt =====
-- packages/workflow/src/executor/{types,executor}.ts: `createWorkflowExecutor`, how an exit becomes a
-- result, and how a result becomes a transition.
pub mod Results
pub mod Frame
pub mod Exits
pub mod Total
pub mod Replay
use durable_effect.Prelude.{ℕ, ◌-◌, String, Option, none, some, List, or_else}
use durable_effect.State.{Unknown, PauseReason, WorkflowTransition}
use durable_effect.Errors.{Error, Key, Operation, PauseSignal, as_pause_signal, as_step_cancelled}
use durable_effect.Messages.{error_message}
use durable_effect.Program.{
  Cause, sequential, parallel, Exit, success, failure, Result, Program, done, halt,
}
use durable_effect.World.{Env, Action, pure, asks, map_error, result_of, ◌>>=◌, ◌>>◌}
use durable_effect.World.Storage.{put, now, schedule}
use durable_effect.Machine.{get_completed_steps}
use durable_effect.Sleep
use durable_effect.Step

pub data ExecutionMode : Type 0 where
  fresh resume recover : ExecutionMode

pub data ExecutionResult : Type 0 where
  completed : (output : Unknown) (duration_ms : ℕ) (completed_steps : List String) → ExecutionResult
  paused :
      (reason : PauseReason) (resume_at : ℕ) (step_name : Option String) (attempt : Option ℕ)
      → ExecutionResult
  failed : (error : Error) (duration_ms : ℕ) (completed_steps : List String) → ExecutionResult
  cancelled : (reason : Option String) (completed_steps : List String) → ExecutionResult

pub record ExecutionContext : Type 0 where
  pub workflow_id : String
  pub workflow_name : String
  pub input : Option Unknown
  pub execution_id : Option String
  pub mode : ExecutionMode

-- `resultToTransition`; the function gives the stack trace of an error
unfoldable pub result_to_transition : (Error → Option String) → ExecutionResult → WorkflowTransition
result_to_transition stack_of (ExecutionResult.completed output duration_ms completed_steps) =
    WorkflowTransition.complete completed_steps duration_ms
result_to_transition stack_of (ExecutionResult.paused reason resume_at step_name attempt) =
    WorkflowTransition.pause reason resume_at step_name
result_to_transition stack_of (ExecutionResult.failed error duration_ms completed_steps) =
    WorkflowTransition.fail
      (record {
        message = error_message error;
        stack = stack_of error;
        step_name = none;
        attempt = none;
      })
      completed_steps
result_to_transition stack_of (ExecutionResult.cancelled reason completed_steps) =
    WorkflowTransition.cancel reason completed_steps

module _ {A : Type 0} where
  abbrev pub first_of_two : Option A → Option A → Option A
  first_of_two (some a) o = some a
  first_of_two none o = o

  abbrev pub look_at : (Error → Option A) → Option Error → Option A
  look_at look none = none
  look_at look (some e) = look e

  -- The direct failure first, then the left cause and the right one.
  unfoldable pub find_in_cause : (Cause → Option Error) → (Error → Option A) → Cause → Option A
  find_in_cause failure_option look (sequential left right) =
      first_of_two (look_at look (failure_option (sequential left right))) (
        first_of_two (find_in_cause failure_option look left)
          (find_in_cause failure_option look right))
  find_in_cause failure_option look (parallel left right) =
      first_of_two (look_at look (failure_option (parallel left right))) (
        first_of_two (find_in_cause failure_option look left)
          (find_in_cause failure_option look right))
  find_in_cause failure_option look cause = look_at look (failure_option cause)

unfoldable pub find_pause_signal : (Cause → Option Error) → Cause → Option PauseSignal
find_pause_signal failure_option = find_in_cause failure_option as_pause_signal

-- `findCancelError`, with the step's name
unfoldable pub find_cancel_error : (Cause → Option Error) → Cause → Option String
find_cancel_error failure_option = find_in_cause failure_option as_step_cancelled

-- after no pause signal and no cancellation was found
abbrev pub failed_result : Env → Cause → ℕ → List String → ExecutionResult
failed_result env cause duration_ms completed_steps =
    ExecutionResult.failed (or_else (env.failure_option cause) (env.squash cause)) duration_ms
      completed_steps

abbrev pub cancelled_or_failed : Env → Cause → ℕ → List String → Option String → ExecutionResult
cancelled_or_failed env cause duration_ms completed_steps none =
    failed_result env cause duration_ms completed_steps
cancelled_or_failed env cause duration_ms completed_steps (some step_name) =
    ExecutionResult.cancelled (some step_name) completed_steps

unfoldable pub handle_failure :
    Env → Cause → ℕ → List String → Option PauseSignal → Action ExecutionResult
handle_failure env cause duration_ms completed_steps (some signal) = do
  schedule signal.resume_at
  pure (ExecutionResult.paused signal.reason signal.resume_at signal.step_name signal.attempt)
handle_failure env cause duration_ms completed_steps none = pure (
    cancelled_or_failed env cause duration_ms completed_steps
      (find_cancel_error env.failure_option cause))

unfoldable pub handle_exit : Exit Unknown → ℕ → List String → Action ExecutionResult
handle_exit (success value) duration_ms completed_steps =
    pure (ExecutionResult.completed value duration_ms completed_steps)
handle_exit (failure cause) duration_ms completed_steps = do
  env ← asks (λ env. env)
  handle_failure env cause duration_ms completed_steps (find_pause_signal env.failure_option cause)

-- The user's body under the executor's layers: `definition.execute(input)`, with `Effect.exit`.
unfoldable pub run_program : Program → Action (Exit Unknown)
run_program (done output) = pure (success output)
run_program (halt cause) = pure (failure cause)
run_program (Program.step config next) = do r ← result_of (Step.step config); run_program (next r)
run_program (Program.sleep duration_ms next) = do
  r ← result_of (Sleep.sleep duration_ms)
  run_program (next r)
run_program (Program.sleep_until timestamp next) = do
  r ← result_of (Sleep.sleep_until timestamp)
  run_program (next r)

unfoldable pub execute_body : (Option Unknown → Program) → ExecutionContext → Action ExecutionResult
execute_body definition context = do
  started_at ← now
  put Key.started_at (λ s. record s { started_at = some started_at })
  put Key.current_pause_index (λ s. record s { current_pause_index = some 0 })
  exit ← run_program (definition context.input)
  completed_at ← now
  completed_steps ← get_completed_steps
  handle_exit exit (completed_at - started_at) completed_steps

unfoldable pub execute : (Option Unknown → Program) → ExecutionContext → Action ExecutionResult
execute definition context =
    map_error (Error.orchestrator_error Operation.execute) (execute_body definition context)
