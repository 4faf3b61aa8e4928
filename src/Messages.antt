-- ===== src/Messages.antt =====
-- The texts that the errors carry: the `message` of every class of packages/core/src/errors.ts and
-- packages/workflow/src/{errors,primitives/step,context/step-scope,orchestrator/registry}.ts, and
-- the storage keys that they name.
use Prim.Native.Nat.{◌/◌, ◌%◌}
use Prim.Native.String.{◌++◌}
use durable_effect.Prelude.{
  ℕ, zero, suc, String, Option, none, some, List, [], ◌∷◌, map, ltb, if◌then◌else◌,
}
use durable_effect.State.{StatusTag, TransitionTag}
use durable_effect.Errors.{Error, Key, StorageOp, Operation}

digit_text : ℕ → String
digit_text zero = "0"
digit_text (suc zero) = "1"
digit_text (suc (suc zero)) = "2"
digit_text (suc (suc (suc zero))) = "3"
digit_text (suc (suc (suc (suc zero)))) = "4"
digit_text (suc (suc (suc (suc (suc zero))))) = "5"
digit_text (suc (suc (suc (suc (suc (suc zero)))))) = "6"
digit_text (suc (suc (suc (suc (suc (suc (suc zero))))))) = "7"
digit_text (suc (suc (suc (suc (suc (suc (suc (suc zero)))))))) = "8"
digit_text _ = "9"

-- a number in a template string; a number has no more digits than its value and one
digits_text : ℕ → ℕ → String → String
digits_text zero n acc = acc
digits_text (suc fuel) n acc =
    let rest = digits_text fuel (n / 10) (digit_text (n % 10) ++ acc) in
    if ltb n 10 then digit_text n ++ acc else rest

unfoldable pub number_text : ℕ → String
unfolding digits_text digit_text
number_text n = digits_text (suc n) n ""

-- `join(", ")`
abbrev join : List String → String
join [] = ""
join (x ∷ []) = x
join (x ∷ xs) = x ++ (", " ++ join xs)

abbrev pub status_text : StatusTag → String
status_text StatusTag.pending = "Pending"
status_text StatusTag.queued = "Queued"
status_text StatusTag.running = "Running"
status_text StatusTag.paused = "Paused"
status_text StatusTag.completed = "Completed"
status_text StatusTag.failed = "Failed"
status_text StatusTag.cancelled = "Cancelled"

abbrev pub transition_text : TransitionTag → String
transition_text TransitionTag.start = "Start"
transition_text TransitionTag.queue = "Queue"
transition_text TransitionTag.resume = "Resume"
transition_text TransitionTag.recover = "Recover"
transition_text TransitionTag.complete = "Complete"
transition_text TransitionTag.pause = "Pause"
transition_text TransitionTag.fail = "Fail"
transition_text TransitionTag.cancel = "Cancel"

-- `stepKey`
abbrev pub step_key : String → String → String
step_key step_name suffix = "step:" ++ (step_name ++ (":" ++ suffix))

-- the `KEYS` of state/machine.ts, recovery/manager.ts, purge/manager.ts and context/*.ts
unfoldable pub key_text : Key → String
key_text Key.status = "workflow:status"
key_text Key.name = "workflow:name"
key_text Key.input = "workflow:input"
key_text Key.execution_id = "workflow:executionId"
key_text Key.completed_steps = "workflow:completedSteps"
key_text Key.completed_pause_index = "workflow:completedPauseIndex"
key_text Key.pending_resume_at = "workflow:pendingResumeAt"
key_text Key.recovery_attempts = "workflow:recoveryAttempts"
key_text Key.cancelled = "workflow:cancelled"
key_text Key.cancel_reason = "workflow:cancelReason"
key_text Key.last_recovery_at = "workflow:lastRecoveryAt"
key_text Key.started_at = "workflow:startedAt"
key_text Key.current_pause_index = "workflow:currentPauseIndex"
key_text Key.purge_scheduled = "workflow:purge:scheduled"
key_text Key.purge_at = "workflow:purge:purgeAt"
key_text Key.purge_reason = "workflow:purge:reason"
key_text Key.alarm_type = "workflow:alarm:type"
key_text (Key.step_attempt step_name) = step_key step_name "attempt"
key_text (Key.step_started_at step_name) = step_key step_name "startedAt"
key_text (Key.step_result step_name) = step_key step_name "result"
key_text (Key.step_last_error step_name) = step_key step_name "meta:lastError"

abbrev storage_op_text : StorageOp → String
storage_op_text StorageOp.get = "get"
storage_op_text StorageOp.put = "put"
storage_op_text StorageOp.delete = "delete"
storage_op_text StorageOp.delete_all = "deleteAll"
storage_op_text StorageOp.list = "list"

abbrev operation_text : Operation → String
operation_text Operation.start = "start"
operation_text Operation.queue = "queue"
operation_text Operation.alarm = "alarm"
operation_text Operation.cancel = "cancel"
operation_text Operation.execute = "execute"

-- `fromStatus`, which is `"none"` where there is no workflow
abbrev from_text : Option StatusTag → String
from_text none = "none"
from_text (some status) = status_text status

abbrev key_part : Option Key → String
unfolding key_text
key_part none = ""
key_part (some key) = " for key \"" ++ (key_text key ++ "\"")

-- `error instanceof Error ? error.message : String(error)`
unfoldable pub error_message : Error → String
unfolding number_text key_text
error_message (Error.invalid_transition from_status to_transition valid) =
    "Cannot apply \""
    ++ (transition_text to_transition
        ++ ("\" from status \""
            ++ (from_text from_status
                ++ ("\". Valid transitions: [" ++ (join (map transition_text valid) ++ "]")))))
error_message (Error.storage_error operation key) =
    "Storage " ++ (storage_op_text operation ++ (key_part key ++ " failed: Simulated failure"))
error_message (Error.max_attempts_exceeded attempts max_attempts) =
    "Recovery failed: max attempts ("
    ++ (number_text max_attempts ++ (") exceeded after " ++ (number_text attempts ++ " attempts")))
error_message (Error.orchestrator_error operation cause) =
    "Orchestrator " ++ (operation_text operation ++ (" failed: " ++ error_message cause))
error_message (Error.workflow_not_found workflow_name available) =
    "Workflow \"" ++ (workflow_name ++ ("\" not found. Available: [" ++ (join available ++ "]")))
error_message (Error.pause_signal signal) = ""
error_message (Error.step_cancelled step_name) = "Step \"" ++ (step_name ++ "\" was cancelled")
error_message (Error.retry_exhausted step_name attempts last_error) =
    "Step \""
    ++ (step_name
        ++ ("\" failed after "
            ++ (number_text attempts ++ (" attempts: " ++ error_message last_error))))
error_message (Error.retry_exhausted_bare step_name attempts) =
    "Step \""
    ++ (step_name ++ ("\" failed after " ++ (number_text attempts ++ " attempts: undefined")))
error_message (Error.workflow_timeout step_name timeout_ms elapsed_ms) =
    "Step \""
    ++ (step_name
        ++ ("\" timed out after "
            ++ (number_text elapsed_ms ++ ("ms (timeout: " ++ (number_text timeout_ms ++ "ms)")))))
error_message (Error.step_scope_error operation step_name) =
    operation
    ++ (" cannot be used inside Workflow.step(\""
        ++ (step_name
            ++ ("\"). "
                ++ ("Workflow-level primitives like Workflow.sleep() and Workflow.step() "
                    ++ ("must be used at the workflow level, not inside other steps. "
                        ++ "Note: Effect.sleep() is allowed inside steps for regular delays.")))))
error_message (Error.plain message stack) = message
error_message (Error.thrown value) = value
