-- ===== src/Recovery.antt =====
-- packages/workflow/src/recovery/{config,manager}.ts: `createRecoveryManager`.
pub mod Check
pub mod Execute
pub mod Repeated
use durable_effect.Prelude.{
  ℕ, ◌+◌, String, Bool, true, false, Option, none, some, leb, ltb, or_else, if◌then◌else◌,
}
use Prim.Native.String.{◌++◌}
use durable_effect.State.{
  WorkflowStatus, WorkflowTransition, WorkflowError, RecoverReason, StatusTag, status_tag,
}
use durable_effect.Errors.{Error, Key}
use durable_effect.Messages.{number_text}
use durable_effect.World.{RecoveryConfig, Action, pure, raise, asks, catch_error, ◌>>=◌, ◌>>◌}
use durable_effect.World.Storage.{get, put, now, schedule}
use durable_effect.Machine.{
  RecoverabilityReason, RecoverabilityInfo, get_status, check_recoverability, apply_transition,
  get_completed_steps, increment_recovery_attempts, reset_recovery_attempts,
}

unfoldable pub default_recovery_config : RecoveryConfig
default_recovery_config = record {
  stale_threshold_ms = 30000;
  max_recovery_attempts = 3;
  recovery_delay_ms = 100;
  emit_recovery_events = true;
}

-- `validateRecoveryConfig`, with the message that it throws; `recoveryDelayMs < 0` cannot be
unfoldable pub validate_recovery_config : RecoveryConfig → Option String
validate_recovery_config config =
    if ltb config.stale_threshold_ms 1000
    then some "staleThresholdMs must be at least 1000ms"
    else if ltb config.max_recovery_attempts 1
    then some "maxRecoveryAttempts must be at least 1"
    else none

pub data CheckReason : Type 0 where
  stale_running pending_resume not_needed already_terminal no_workflow : CheckReason
  max_attempts_exceeded : CheckReason

pub record RecoveryCheckResult : Type 0 where
  pub scheduled : Bool
  pub reason : CheckReason
  pub stale_duration_ms : Option ℕ
  pub current_status : Option StatusTag
  pub attempt : Option ℕ

pub data ExecuteReason : Type 0 where
  recovered already_completed max_attempts_exceeded transition_failed : ExecuteReason

pub record RecoveryExecuteResult : Type 0 where
  pub success : Bool
  pub attempt : ℕ
  pub reason : ExecuteReason
  pub new_status : Option StatusTag

pub record RecoveryStats : Type 0 where
  pub attempts : ℕ
  pub max_attempts : ℕ
  pub last_attempt_at : Option ℕ
  pub max_exceeded : Bool

unfoldable pub get_stats : Action RecoveryStats
get_stats = do
  stored ← get Key.recovery_attempts (λ s. s.recovery_attempts)
  let attempts = or_else stored 0
  last_attempt_at ← get Key.last_recovery_at (λ s. s.last_recovery_at)
  config ← asks (λ env. env.recovery)
  pure (record {
    attempts = attempts;
    max_attempts = config.max_recovery_attempts;
    last_attempt_at = last_attempt_at;
    max_exceeded = leb config.max_recovery_attempts attempts;
  })

-- the two conditional expressions on `info.reason`
abbrev pub not_needed_reason : RecoverabilityReason → CheckReason
not_needed_reason RecoverabilityReason.already_terminal = CheckReason.already_terminal
not_needed_reason RecoverabilityReason.no_workflow = CheckReason.no_workflow
not_needed_reason _ = CheckReason.not_needed

abbrev pub scheduled_reason : RecoverabilityReason → CheckReason
scheduled_reason RecoverabilityReason.stale_running = CheckReason.stale_running
scheduled_reason _ = CheckReason.pending_resume

abbrev not_scheduled : CheckReason → Option StatusTag → RecoveryCheckResult
not_scheduled reason current_status = record {
  scheduled = false;
  reason = reason;
  stale_duration_ms = none;
  current_status = current_status;
  attempt = none;
}

-- from "Schedule recovery alarm" on
unfoldable pub schedule_recovery : RecoverabilityInfo → RecoveryStats → Action RecoveryCheckResult
schedule_recovery info stats = do
  time ← now
  config ← asks (λ env. env.recovery)
  schedule (time + config.recovery_delay_ms)
  put Key.last_recovery_at (λ s. record s { last_recovery_at = some time })
  pure (record {
    scheduled = true;
    reason = scheduled_reason info.reason;
    stale_duration_ms = info.stale_duration_ms;
    current_status = info.current_status;
    attempt = some (stats.attempts + 1);
  })

-- from "Check recovery attempt count" on
unfoldable pub check_attempts : RecoverabilityInfo → Action RecoveryCheckResult
check_attempts info = do
  stats ← get_stats
  if stats.max_exceeded
      then pure (not_scheduled CheckReason.max_attempts_exceeded info.current_status)
      else schedule_recovery info stats

unfoldable pub check_and_schedule_recovery : Action RecoveryCheckResult
check_and_schedule_recovery = do
  config ← asks (λ env. env.recovery)
  info ← check_recoverability config.stale_threshold_ms
  if info.can_recover
      then check_attempts info
      else pure (not_scheduled (not_needed_reason info.reason) info.current_status)

abbrev already_done : Option StatusTag → RecoveryExecuteResult
already_done new_status = record {
  success = false;
  attempt = 0;
  reason = ExecuteReason.already_completed;
  new_status = new_status;
}

abbrev pub on_invalid_transition : {A : Type 0} → Action A → Error → Action A
on_invalid_transition handler (Error.invalid_transition _ _ _) = handler
on_invalid_transition handler e = raise e

-- `catchTag("InvalidTransitionError", …)`: any other error fails on
abbrev pub catch_invalid_transition : {A : Type 0} → Action A → Action A → Action A
catch_invalid_transition m handler = catch_error m (on_invalid_transition handler)

abbrev pub exhausted_error : ℕ → WorkflowError
exhausted_error max_attempts = record {
  message = "Workflow failed after " ++ (number_text max_attempts ++ " recovery attempts");
  stack = none;
  step_name = none;
  attempt = none;
}

-- the branch of `executeRecovery` that gives up
unfoldable pub fail_exhausted : RecoveryStats → Action RecoveryExecuteResult
fail_exhausted stats = do
  completed_steps ← get_completed_steps
  catch_invalid_transition
      (apply_transition
          (WorkflowTransition.fail (exhausted_error stats.max_attempts) completed_steps)
        >>= λ _. pure tt)
      (pure tt)
  raise (Error.max_attempts_exceeded stats.attempts stats.max_attempts)

abbrev pub recover_reason : WorkflowStatus → RecoverReason
recover_reason (WorkflowStatus.running _) = RecoverReason.stale_detection
recover_reason _ = RecoverReason.infrastructure_restart

-- the counter is reset as soon as the transition is accepted
unfoldable pub after_transition : RecoveryExecuteResult → Action RecoveryExecuteResult
after_transition result =
    if result.success then (do reset_recovery_attempts; pure result) else pure result

-- the branch of `executeRecovery` that recovers
unfoldable pub recover_now : WorkflowStatus → Action RecoveryExecuteResult
recover_now status = do
  attempt ← increment_recovery_attempts
  result ←
      catch_invalid_transition
        (apply_transition (WorkflowTransition.recover (recover_reason status) attempt)
          >>= λ new_status. pure (record {
            success = true;
            attempt = attempt;
            reason = ExecuteReason.recovered;
            new_status = some (status_tag new_status);
          }))
        (pure (record {
          success = false;
          attempt = attempt;
          reason = ExecuteReason.transition_failed;
          new_status = none;
        }))
  after_transition result

unfoldable pub recover_or_fail : WorkflowStatus → Action RecoveryExecuteResult
recover_or_fail status = do
  stats ← get_stats
  if stats.max_exceeded then fail_exhausted stats else recover_now status

unfoldable pub recover_from : Option WorkflowStatus → Action RecoveryExecuteResult
recover_from none = pure (already_done none)
recover_from (some (WorkflowStatus.completed _)) = pure (already_done (some StatusTag.completed))
recover_from (some (WorkflowStatus.failed _ _)) = pure (already_done (some StatusTag.failed))
recover_from (some (WorkflowStatus.cancelled _ _)) = pure (already_done (some StatusTag.cancelled))
recover_from (some status) = recover_or_fail status

unfoldable pub execute_recovery : Action RecoveryExecuteResult
execute_recovery = do status ← get_status; recover_from status

unfoldable pub check_recovery_needed : Action RecoverabilityInfo
check_recovery_needed = do
  config ← asks (λ env. env.recovery)
  check_recoverability config.stale_threshold_ms
