-- ===== src/Orchestrator.antt =====
-- packages/workflow/src/orchestrator/orchestrator.ts: the operations of `createWorkflowOrchestrator`.
mod Calls
mod Finish
unfoldable pub use Calls.*
unfoldable pub use Finish.*
pub mod Settle
pub mod Start
pub mod Cancel
pub mod Alarm
use durable_effect.Prelude.{
  ℕ, ◌+◌, String, Bool, true, false, Option, none, some, List, [], ◌∷◌, map, str_eq, is_some,
  if◌then◌else◌,
}
use durable_effect.State.{
  Unknown, WorkflowStatus, WorkflowTransition, WorkflowState, StatusTag, status_tag,
}
use durable_effect.Errors.{Error, Operation}
use durable_effect.Messages.{error_message}
use durable_effect.Program.{Program}
use durable_effect.World.{
  TerminalState, EventBody, workflow_started, workflow_queued, workflow_resumed, workflow_completed,
  workflow_failed, workflow_paused, workflow_cancelled, Action, pure, raise, asks, map_error, ◌>>=◌,
  ◌>>◌,
}
use durable_effect.World.Storage.{now, schedule, unschedule, emit_event}
use durable_effect.Machine.{
  get_status, get_state, initialize, apply_transition, get_completed_steps, set_cancelled,
}
use durable_effect.Recovery.{RecoveryExecuteResult, execute_recovery}
use durable_effect.Purge.{schedule_purge}
use durable_effect.Executor.{
  ExecutionMode, fresh, resume, recover, ExecutionResult, ExecutionContext, execute,
  result_to_transition,
}

-- an `OrchestratorError` is handed on, any other error is wrapped
abbrev pub wrap_error : Operation → Error → Error
wrap_error operation (Error.orchestrator_error op cause) = Error.orchestrator_error op cause
wrap_error operation e = Error.orchestrator_error operation e

abbrev pub is_completed : Option WorkflowStatus → Bool
is_completed (some (WorkflowStatus.completed _)) = true
is_completed _ = false

abbrev pub start_result : String → ExecutionResult → StartResult
start_result id (ExecutionResult.completed output _ _) = record {
  id = id;
  completed = true;
  output = some output;
}
start_result id _ = record { id = id; completed = false; output = none }

-- an instance that has a workflow already answers with its status
abbrev pub existing_result : String → WorkflowStatus → StartResult
existing_result id status = record {
  id = id;
  completed = is_completed (some status);
  output = none;
}

unfoldable pub start_new : Definition → WorkflowCall → Action StartResult
start_new definition call = do
  initialize call.workflow call.input call.execution_id
  apply_transition (WorkflowTransition.start call.input)
  emit_event call.workflow call.execution_id (workflow_started call.input)
  result ← execute_and_settle definition call.workflow call.input call.execution_id fresh
  id ← asks (λ env. env.instance_id)
  pure (start_result id result)

unfoldable pub start_or_existing :
    Definition → WorkflowCall → Option WorkflowStatus → Action StartResult
start_or_existing definition call none = start_new definition call
start_or_existing definition call (some status) = do
  id ← asks (λ env. env.instance_id)
  pure (existing_result id status)

unfoldable pub start : WorkflowCall → Action StartResult
start call = map_error (wrap_error Operation.start) (do
  definition ← map_error (Error.orchestrator_error Operation.start) (registry_get call.workflow)
  existing_status ← get_status
  start_or_existing definition call existing_status)

unfoldable pub queue_new : WorkflowCall → Action StartResult
queue_new call = do
  initialize call.workflow call.input call.execution_id
  apply_transition (WorkflowTransition.queue call.input)
  emit_event call.workflow call.execution_id (workflow_queued call.input)
  time ← now
  schedule (time + 1)
  id ← asks (λ env. env.instance_id)
  pure (record { id = id; completed = false; output = none })

unfoldable pub queue_or_existing : WorkflowCall → Option WorkflowStatus → Action StartResult
queue_or_existing call none = queue_new call
queue_or_existing call (some status) = do
  id ← asks (λ env. env.instance_id)
  pure (existing_result id status)

unfoldable pub queue : WorkflowCall → Action StartResult
queue call = map_error (wrap_error Operation.queue) (do
  map_error (Error.orchestrator_error Operation.queue) (registry_get call.workflow)
  existing_status ← get_status
  queue_or_existing call existing_status)

-- the `Queued` branch of `handleAlarm`, from its state on
unfoldable pub start_queued : WorkflowState → Action (Unit {0})
start_queued state = do
  definition ← registry_get state.workflow_name
  apply_transition (WorkflowTransition.start state.input)
  emit_event state.workflow_name state.execution_id (workflow_started state.input)
  execute_and_settle definition state.workflow_name state.input state.execution_id fresh
  pure tt

-- the `Paused` branch
unfoldable pub resume_paused : WorkflowState → Action (Unit {0})
resume_paused state = do
  definition ← registry_get state.workflow_name
  apply_transition WorkflowTransition.resume
  emit_event state.workflow_name state.execution_id workflow_resumed
  execute_and_settle definition state.workflow_name state.input state.execution_id resume
  pure tt

-- the `Running` branch, after a recovery that succeeded
unfoldable pub rerun_recovered : WorkflowState → Action (Unit {0})
rerun_recovered state = do
  definition ← registry_get state.workflow_name
  emit_event state.workflow_name state.execution_id workflow_resumed
  execute_and_settle definition state.workflow_name state.input state.execution_id recover
  pure tt

-- `const state = yield* stateMachine.getState(); if (!state) return;`
unfoldable pub with_state :
    (WorkflowState → Action (Unit {0})) → Option WorkflowState → Action (Unit {0})
with_state next none = pure tt
with_state next (some state) = next state

unfoldable pub rerun_if : RecoveryExecuteResult → Action (Unit {0})
rerun_if result =
    if result.success then (do state ← get_state; with_state rerun_recovered state) else pure tt

-- the `switch` of `handleAlarm`
unfoldable pub handle_status : Option WorkflowStatus → Action (Unit {0})
handle_status (some (WorkflowStatus.queued _)) = do state ← get_state; with_state start_queued state
handle_status (some (WorkflowStatus.paused _ _ _)) = do
  state ← get_state
  with_state resume_paused state
handle_status (some (WorkflowStatus.running _)) = do
  recovery_result ← execute_recovery
  rerun_if recovery_result
handle_status _ = pure tt

unfoldable pub handle_alarm : Action (Unit {0})
handle_alarm = map_error (wrap_error Operation.alarm) (do status ← get_status; handle_status status)

abbrev not_cancelled : CancelReason → Option StatusTag → CancelResult
not_cancelled reason previous_status = record {
  cancelled = false;
  reason = some reason;
  previous_status = previous_status;
}

abbrev was_cancelled : StatusTag → CancelResult
was_cancelled previous_status = record {
  cancelled = true;
  reason = none;
  previous_status = some previous_status;
}

-- `if (state) { yield* emitEvent(...) }`
unfoldable pub emit_cancelled :
    Option String → List String → Option WorkflowState → Action (Unit {0})
emit_cancelled reason completed_steps none = pure tt
emit_cancelled reason completed_steps (some state) =
    emit_event state.workflow_name state.execution_id (workflow_cancelled reason completed_steps)

-- the immediate cancellation of a queued or paused workflow
unfoldable pub cancel_now : Option String → StatusTag → Action CancelResult
cancel_now reason previous_status = do
  completed_steps ← get_completed_steps
  apply_transition (WorkflowTransition.cancel reason completed_steps)
  state ← get_state
  emit_cancelled reason completed_steps state
  unschedule
  pure (was_cancelled previous_status)

unfoldable pub cancel_status : Option String → Option WorkflowStatus → Action CancelResult
cancel_status reason none = pure (not_cancelled not_found none)
cancel_status reason (some (WorkflowStatus.completed _)) =
    pure (not_cancelled already_terminal (some StatusTag.completed))
cancel_status reason (some (WorkflowStatus.failed _ _)) =
    pure (not_cancelled already_terminal (some StatusTag.failed))
cancel_status reason (some (WorkflowStatus.cancelled _ _)) =
    pure (not_cancelled already_terminal (some StatusTag.cancelled))
cancel_status reason (some (WorkflowStatus.queued _)) = do
  set_cancelled reason
  cancel_now reason StatusTag.queued
cancel_status reason (some (WorkflowStatus.paused _ _ _)) = do
  set_cancelled reason
  cancel_now reason StatusTag.paused
cancel_status reason (some status) = do
  set_cancelled reason
  pure (was_cancelled (status_tag status))

-- the options hold no more than the reason
unfoldable pub cancel : Option String → Action CancelResult
cancel reason =
    map_error (Error.orchestrator_error Operation.cancel)
      (do status ← get_status; cancel_status reason status)

unfoldable pub get_workflow_status : Action WorkflowStatusResult
get_workflow_status = do
  status ← get_status
  completed_steps ← get_completed_steps
  pure (record { status = status; completed_steps = completed_steps; exists = is_some status })

unfoldable pub workflow_exists : Action Bool
workflow_exists = do status ← get_status; pure (is_some status)
