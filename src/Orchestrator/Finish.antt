-- ===== src/Orchestrator/Finish.antt =====
-- packages/workflow/src/orchestrator/orchestrator.ts: what follows a run of a workflow. `start` and the
-- branches of `handleAlarm` each spell it out.
use durable_effect.Prelude.{String, Option}
use durable_effect.State.{Unknown}
use durable_effect.Errors.{Error}
use durable_effect.Messages.{error_message}
use durable_effect.World.{
  TerminalState, EventBody, workflow_completed, workflow_failed, workflow_paused,
  workflow_cancelled, Action, pure, asks, ◌>>=◌, ◌>>◌,
}
use durable_effect.World.Storage.{unschedule, emit_event}
use durable_effect.Machine.{apply_transition}
use durable_effect.Purge.{schedule_purge}
use durable_effect.Executor.{ExecutionMode, ExecutionResult, execute, result_to_transition}
use durable_effect.Orchestrator.Calls.{Definition}

unfoldable pub cleanup : TerminalState → Action (Unit {0})
cleanup terminal_state = do unschedule; schedule_purge terminal_state

-- the event of a result
unfoldable pub result_event : (Error → Option String) → ExecutionResult → EventBody
result_event stack_of (ExecutionResult.completed output duration_ms completed_steps) =
    workflow_completed completed_steps duration_ms
result_event stack_of (ExecutionResult.failed error duration_ms completed_steps) =
    workflow_failed (error_message error) (stack_of error) completed_steps
result_event stack_of (ExecutionResult.paused reason resume_at step_name attempt) =
    workflow_paused reason resume_at step_name
result_event stack_of (ExecutionResult.cancelled reason completed_steps) =
    workflow_cancelled reason completed_steps

-- the cleanup of a result; a pause has none
unfoldable pub cleanup_after : ExecutionResult → Action (Unit {0})
cleanup_after (ExecutionResult.completed _ _ _) = cleanup TerminalState.completed
cleanup_after (ExecutionResult.failed _ _ _) = cleanup TerminalState.failed
cleanup_after (ExecutionResult.paused _ _ _ _) = pure tt
cleanup_after (ExecutionResult.cancelled _ _) = cleanup TerminalState.cancelled

-- what `start` and the three branches of `handleAlarm` do with the executor's result
unfoldable pub settle : String → Option String → ExecutionResult → Action (Unit {0})
settle name id result = do
  stack_of ← asks (λ env. env.stack_of)
  apply_transition (result_to_transition stack_of result)
  emit_event name id (result_event stack_of result)
  cleanup_after result

-- "Execute workflow" and all that follows it
unfoldable pub execute_and_settle :
    Definition → String → Option Unknown → Option String → ExecutionMode → Action ExecutionResult
execute_and_settle definition name input id mode = do
  instance_id ← asks (λ env. env.instance_id)
  result ← execute definition (record {
    workflow_id = instance_id;
    workflow_name = name;
    input = input;
    execution_id = id;
    mode = mode;
  })
  settle name id result
  pure result
