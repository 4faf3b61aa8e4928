-- ===== src/Step.antt =====
-- packages/workflow/src/primitives/step.ts: `step`, phase by phase. The executor's layers give
-- `WorkflowLevel` and the workflow scope, so phase 1 passes; durations are already parsed.
pub mod Cache
pub mod Retries
pub mod Deadline
pub mod Isolation
use durable_effect.Prelude.{
  ℕ, suc, ◌+◌, ◌-◌, String, Bool, true, false, not, ◌&&◌, Option, none, some, leb, ltb, or_else,
  is_some, if◌then◌else◌,
}
use durable_effect.State.{Unknown}
use durable_effect.Errors.{Error, Key, PauseSignal, retry_signal}
use durable_effect.Messages.{error_message}
use durable_effect.Program.{Result, ok, err, Run, RetryConfig, StepConfig}
use durable_effect.World.{
  Env, World, CachedStepResult, Action, pure, raise, asks, step_started, step_completed,
  step_failed, retry_exhausted, retry_scheduled, timeout_set, timeout_exceeded, ◌>>=◌, ◌>>◌,
}
use durable_effect.World.Storage.{get, now, emit_event, advance_time}
use durable_effect.Retry.{get_delay}
use durable_effect.Context.{workflow_name, execution_id, mark_step_completed}
use durable_effect.StepContext

-- What the phases of one call share: the step, the workflow's names, the time and the attempt at
-- which the call began, and the step's first start if it had one.
pub record StepCall : Type 0 where
  pub config : StepConfig
  pub workflow_name : String
  pub execution_id : Option String
  pub time : ℕ
  pub started_at : Option ℕ
  pub attempt : ℕ

-- `new RetryExhaustedError(name, attempts, lastError)` with a last error that may be undefined
abbrev pub exhausted : String → ℕ → Option Error → Error
exhausted name attempts none = Error.retry_exhausted_bare name attempts
exhausted name attempts (some last_error) = Error.retry_exhausted name attempts last_error

abbrev no_last_error : Error
no_last_error = Error.plain "Max duration exceeded" none

-- `now - startedAt >= maxDurationMs`, where both are there
abbrev pub duration_exceeded : RetryConfig → Option ℕ → ℕ → Bool
duration_exceeded retry none time = false
duration_exceeded retry (some started) time = elim retry.max_duration [
  | none ↦ false
  | some max_duration_ms ↦ leb (started + max_duration_ms) time
]

-- Phase 5: retry exhaustion and max duration
unfoldable pub check_exhaustion : Option RetryConfig → StepCall → Action (Unit {0})
check_exhaustion none c = pure tt
check_exhaustion (some retry) c =
    if duration_exceeded retry c.started_at c.time
    then (do
      emit_event c.workflow_name c.execution_id (retry_exhausted c.config.name (c.attempt - 1))
      last_error ← StepContext.last_error c.config.name
      raise (exhausted c.config.name (c.attempt - 1) (some (or_else last_error no_last_error))))
    else if ltb (retry.max_attempts + 1) c.attempt
    then (do
      emit_event c.workflow_name c.execution_id (retry_exhausted c.config.name (c.attempt - 1))
      last_error ← StepContext.last_error c.config.name
      raise (exhausted c.config.name (c.attempt - 1) last_error))
    else pure tt

-- the user's effect: time passes while it runs
unfoldable pub run_effect : Run → Action (Result Unknown)
run_effect run = do advance_time run.elapsed; pure run.outcome

-- Phase 6 with a timeout: the deadline counts from the first start
unfoldable pub execute_within : ℕ → StepCall → Action (Result Unknown)
execute_within timeout_ms c = do
  let effect_started_at = or_else c.started_at c.time
  let deadline = effect_started_at + timeout_ms
  if is_some c.started_at
      then pure tt
      else emit_event c.workflow_name c.execution_id (timeout_set c.config.name deadline timeout_ms)
  if leb deadline c.time
      then (do
        emit_event c.workflow_name c.execution_id (timeout_exceeded c.config.name timeout_ms)
        raise (Error.workflow_timeout c.config.name timeout_ms (c.time - effect_started_at)))
      else (do
        timeout_fail ← asks (λ env. env.timeout_fail)
        run_effect (
            timeout_fail (deadline - c.time)
              (Error.workflow_timeout c.config.name timeout_ms (c.time - effect_started_at))
              (c.config.execute c.time c.attempt)))

-- Phases 6 and 7: the effect, with its timeout if there is one; a timeout of 0 is none
unfoldable pub execute_effect : Option ℕ → StepCall → Action (Result Unknown)
execute_effect (some (suc ms)) c = execute_within (suc ms) c
execute_effect _ c = run_effect (c.config.execute c.time c.attempt)

abbrev fail_step : StepCall → Error → Action Unknown
fail_step c e = do
  stack_of ← asks (λ env. env.stack_of)
  emit_event c.workflow_name c.execution_id
      (step_failed c.config.name c.attempt (error_message e) (stack_of e))
  raise e

-- `config.retry.isRetryable && !config.retry.isRetryable(error)`
abbrev pub not_retryable : RetryConfig → Error → Bool
not_retryable retry e = elim retry.is_retryable [
  | none ↦ false
  | some is_retryable ↦ not (is_retryable e)
]

-- "Schedule retry": the pause counts from the time at which the call began
unfoldable pub schedule_retry : RetryConfig → StepCall → Error → Action Unknown
schedule_retry retry c e = do
  StepContext.set_last_error c.config.name e
  StepContext.increment_attempt c.config.name
  add_jitter ← asks (λ env. env.add_jitter)
  let base_delay = get_delay retry.delay c.attempt
  let delay_ms = if or_else retry.jitter true then add_jitter base_delay else base_delay
  let resume_at = c.time + delay_ms
  emit_event c.workflow_name c.execution_id
      (retry_scheduled c.config.name c.attempt resume_at delay_ms)
  raise (Error.pause_signal (retry_signal resume_at c.config.name (c.attempt + 1)))

unfoldable pub handle_retryable : RetryConfig → StepCall → Error → Action Unknown
handle_retryable retry c e =
    if not_retryable retry e
    then fail_step c e
    else if ltb retry.max_attempts c.attempt
    then (do
      emit_event c.workflow_name c.execution_id (retry_exhausted c.config.name c.attempt)
      raise (Error.retry_exhausted c.config.name c.attempt e))
    else schedule_retry retry c e

-- Phase 8: a pause signal and a step-scope error are never retried
unfoldable pub handle_failure : Option RetryConfig → StepCall → Error → Action Unknown
handle_failure retry c (Error.pause_signal signal) = raise (Error.pause_signal signal)
handle_failure retry c (Error.step_scope_error operation name) =
    raise (Error.step_scope_error operation name)
handle_failure none c e = fail_step c e
handle_failure (some retry) c e = handle_retryable retry c e

-- Phase 9: the result is cached, and the step is marked as completed
unfoldable pub cache_result : StepCall → Unknown → Action Unknown
cache_result c result = do
  completed_at ← now
  attempt ← StepContext.attempt c.config.name
  let duration_ms = completed_at - or_else c.started_at c.time
  StepContext.set_result c.config.name result
      (record { completed_at = completed_at; attempt = attempt; duration_ms = duration_ms })
  mark_step_completed c.config.name
  emit_event c.workflow_name c.execution_id (step_completed c.config.name attempt duration_ms)
  pure result

unfoldable pub conclude : StepCall → Result Unknown → Action Unknown
conclude c (ok result) = cache_result c result
conclude c (err e) = handle_failure c.config.retry c e

-- phases 4 to 9, for a step with no cached result
unfoldable pub run_step : StepConfig → String → Option String → Action Unknown
run_step config name id = do
  time ← now
  started_at ← StepContext.started_at config.name
  attempt ← StepContext.attempt config.name
  if is_some started_at then pure tt else StepContext.set_started_at config.name time
  let c : StepCall = record {
    config = config;
    workflow_name = name;
    execution_id = id;
    time = time;
    started_at = started_at;
    attempt = attempt;
  }
  emit_event name id (step_started config.name attempt)
  check_exhaustion config.retry c
  outcome ← execute_effect config.timeout c
  conclude c outcome

unfoldable pub cached_or_run :
    StepConfig → String → Option String → Option CachedStepResult → Action Unknown
cached_or_run config name id (some cached) = pure cached.value
cached_or_run config name id none = run_step config name id

-- Phases 2 and 3: cancellation, then the cache
unfoldable pub step : StepConfig → Action Unknown
step config = do
  cancelled ← get Key.cancelled (λ s. s.cancelled)
  if or_else cancelled false then raise (Error.step_cancelled config.name) else (do
    name ← workflow_name
    id ← execution_id
    cached ← StepContext.get_result config.name
    cached_or_run config name id cached)
