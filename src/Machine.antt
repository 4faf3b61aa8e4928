-- ===== src/Machine.antt =====
-- packages/workflow/src/state/machine.ts: `createWorkflowStateMachine`, every operation of the
-- service over the storage and the clock.
pub mod Apply
pub mod Recoverability
pub mod Progress
use durable_effect.Prelude.{
  ℕ, ◌+◌, ◌-◌, String, Bool, true, false, not, ◌||◌, Option, none, some, List, [], ◌∷◌, ◌++◌, leb,
  or_else, includes, non_empty, if◌then◌else◌,
}
use durable_effect.State.{
  Unknown, WorkflowStatus, WorkflowTransition, WorkflowState, StatusTag, TransitionTag, status_tag,
  transition_tag,
}
use durable_effect.State.Transitions.{
  is_valid_transition, get_valid_transitions, is_terminal_status, is_recoverable_status,
}
use durable_effect.Errors.{Error, Key}
use durable_effect.World.{Store, World, Action, pure, raise, ◌>>=◌, ◌>>◌}
use durable_effect.World.Storage.{get, put, put_batch, delete, list, now}

unfoldable pub apply_transition_to_status : WorkflowTransition → ℕ → WorkflowStatus
apply_transition_to_status (WorkflowTransition.start _) time = WorkflowStatus.running time
apply_transition_to_status WorkflowTransition.resume time = WorkflowStatus.running time
apply_transition_to_status (WorkflowTransition.recover _ _) time = WorkflowStatus.running time
apply_transition_to_status (WorkflowTransition.queue _) time = WorkflowStatus.queued time
apply_transition_to_status (WorkflowTransition.pause reason resume_at step_name) time =
    WorkflowStatus.paused reason resume_at step_name
apply_transition_to_status (WorkflowTransition.complete _ _) time = WorkflowStatus.completed time
apply_transition_to_status (WorkflowTransition.fail error _) time = WorkflowStatus.failed time error
apply_transition_to_status (WorkflowTransition.cancel reason _) time =
    WorkflowStatus.cancelled time reason

unfoldable pub get_status : Action (Option WorkflowStatus)
get_status = get Key.status (λ s. s.status)

-- the state that the entries of one `list` make
unfoldable pub state_of : Store → Option WorkflowState
state_of s = elim s.status [
  | none ↦ none
  | some status ↦ some (record {
    status = status;
    workflow_name = or_else s.name "unknown";
    input = s.input;
    execution_id = s.execution_id;
    completed_steps = or_else s.completed_steps [];
    completed_pause_index = or_else s.completed_pause_index 0;
    pending_resume_at = s.pending_resume_at;
    recovery_attempts = or_else s.recovery_attempts 0;
    is_cancelled = or_else s.cancelled false;
    cancel_reason = s.cancel_reason;
  })
]

unfoldable pub get_state : Action (Option WorkflowState)
get_state = do entries ← list; pure (state_of entries)

-- the one `putBatch` of `initialize`; the keys that it does not name stay as they are
unfoldable pub initialized : String → Option Unknown → Option String → Store → Store
initialized workflow_name input execution_id s = record s {
  status = some WorkflowStatus.pending;
  name = some workflow_name;
  input = input;
  execution_id = execution_id;
  completed_steps = some [];
  completed_pause_index = some 0;
  recovery_attempts = some 0;
  cancelled = some false;
}

unfoldable pub initialize : String → Option Unknown → Option String → Action (Unit {0})
initialize workflow_name input execution_id =
    put_batch (initialized workflow_name input execution_id)

unfoldable pub can_transition : WorkflowTransition → Action Bool
can_transition transition = do
  status ← get_status
  elim status [
    | none ↦ pure false
    | some s ↦ pure (is_valid_transition (status_tag s) (transition_tag transition))
  ]

-- for an object that has no workflow only `Queue` and `Start` are valid
abbrev pub is_first : TransitionTag → Bool
is_first TransitionTag.queue = true
is_first TransitionTag.start = true
is_first _ = false

-- the validation of `applyTransition`
unfoldable pub validate : Option WorkflowStatus → WorkflowTransition → Action (Unit {0})
validate none transition =
    if is_first (transition_tag transition)
    then pure tt
    else raise (
        Error.invalid_transition none (transition_tag transition)
          (TransitionTag.queue ∷ TransitionTag.start ∷ []))
validate (some status) transition =
    if is_valid_transition (status_tag status) (transition_tag transition)
    then pure tt
    else raise (
        Error.invalid_transition (some (status_tag status)) (transition_tag transition)
          (get_valid_transitions (status_tag status)))

unfoldable pub apply_transition : WorkflowTransition → Action WorkflowStatus
apply_transition transition = do
  current_status ← get_status
  validate current_status transition
  time ← now
  let new_status = apply_transition_to_status transition time
  put Key.status (λ s. record s { status = some new_status })
  pure new_status

pub data RecoverabilityReason : Type 0 where
  stale_running pending_resume not_recoverable already_terminal no_workflow : RecoverabilityReason

pub record RecoverabilityInfo : Type 0 where
  pub can_recover : Bool
  pub reason : RecoverabilityReason
  pub stale_duration_ms : Option ℕ
  pub current_status : Option StatusTag

abbrev pub unrecoverable : RecoverabilityReason → Option StatusTag → RecoverabilityInfo
unrecoverable reason current_status = record {
  can_recover = false;
  reason = reason;
  stale_duration_ms = none;
  current_status = current_status;
}

-- a paused workflow, by its pending resume time
unfoldable pub paused_recoverability : Option ℕ → Action RecoverabilityInfo
paused_recoverability none = pure (unrecoverable not_recoverable (some StatusTag.paused))
paused_recoverability (some time) = pure (record {
  can_recover = true;
  reason = pending_resume;
  stale_duration_ms = none;
  current_status = some StatusTag.paused;
})

-- The stale test is `now - runningAt >= staleThresholdMs`, written so that it is exact on ℕ.
unfoldable pub recoverability_of : ℕ → WorkflowStatus → Action RecoverabilityInfo
recoverability_of stale_threshold_ms (WorkflowStatus.running running_at) = do
  time ← now
  if leb (running_at + stale_threshold_ms) time
      then pure (record {
        can_recover = true;
        reason = stale_running;
        stale_duration_ms = some (time - running_at);
        current_status = some StatusTag.running;
      })
      else pure (unrecoverable not_recoverable (some StatusTag.running))
recoverability_of stale_threshold_ms (WorkflowStatus.paused reason resume_at step_name) = do
  pending_resume_at ← get Key.pending_resume_at (λ s. s.pending_resume_at)
  paused_recoverability pending_resume_at
recoverability_of stale_threshold_ms status =
    pure (unrecoverable not_recoverable (some (status_tag status)))

unfoldable pub recoverability : ℕ → Option WorkflowStatus → Action RecoverabilityInfo
recoverability stale_threshold_ms none = pure (unrecoverable no_workflow none)
recoverability stale_threshold_ms (some status) =
    if is_terminal_status (status_tag status)
    then pure (unrecoverable already_terminal (some (status_tag status)))
    else if not (is_recoverable_status (status_tag status))
    then pure (unrecoverable not_recoverable (some (status_tag status)))
    else recoverability_of stale_threshold_ms status

unfoldable pub check_recoverability : ℕ → Action RecoverabilityInfo
check_recoverability stale_threshold_ms = do
  status ← get_status
  recoverability stale_threshold_ms status

unfoldable pub mark_step_completed : String → Action (Unit {0})
mark_step_completed step_name = do
  stored ← get Key.completed_steps (λ s. s.completed_steps)
  let steps = or_else stored []
  if not (includes step_name steps)
      then put Key.completed_steps
          (λ s. record s { completed_steps = some (steps ++ step_name ∷ []) })
      else pure tt

unfoldable pub get_completed_steps : Action (List String)
get_completed_steps = do
  steps ← get Key.completed_steps (λ s. s.completed_steps)
  pure (or_else steps [])

unfoldable pub increment_recovery_attempts : Action ℕ
increment_recovery_attempts = do
  current ← get Key.recovery_attempts (λ s. s.recovery_attempts)
  let next = or_else current 0 + 1
  put Key.recovery_attempts (λ s. record s { recovery_attempts = some next })
  pure next

unfoldable pub reset_recovery_attempts : Action (Unit {0})
reset_recovery_attempts = put Key.recovery_attempts (λ s. record s { recovery_attempts = some 0 })

unfoldable pub set_pending_resume_at : ℕ → Action (Unit {0})
set_pending_resume_at time =
    put Key.pending_resume_at (λ s. record s { pending_resume_at = some time })

unfoldable pub clear_pending_resume_at : Action (Unit {0})
clear_pending_resume_at = do
  delete Key.pending_resume_at (λ s. s.pending_resume_at)
      (λ s. record s { pending_resume_at = none })
  pure tt

unfoldable pub get_pending_resume_at : Action (Option ℕ)
get_pending_resume_at = get Key.pending_resume_at (λ s. s.pending_resume_at)

-- a reason is stored if it is there and is not empty
unfoldable pub store_cancel_reason : Option String → Action (Unit {0})
store_cancel_reason none = pure tt
store_cancel_reason (some reason) =
    put Key.cancel_reason (λ s. record s { cancel_reason = some reason })

unfoldable pub set_cancelled : Option String → Action (Unit {0})
set_cancelled reason = do
  put Key.cancelled (λ s. record s { cancelled = some true })
  store_cancel_reason (non_empty reason)

unfoldable pub is_cancelled : Action Bool
is_cancelled = do cancelled ← get Key.cancelled (λ s. s.cancelled); pure (or_else cancelled false)
