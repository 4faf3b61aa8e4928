-- ===== src/Jobs/Continuous.antt =====
-- packages/jobs/src/handlers/continuous/{handler,context}.ts: a job that runs its body again and
-- again, at an interval or by a cron expression.
mod Record
mod Run
pub mod Calm
pub mod Ran
pub mod Up
pub mod Evolution
unfoldable pub use Record.*
unfoldable pub use Run.*
use durable_effect.Prelude.{
  ℕ, ◌+◌, String, Bool, true, false, Option, none, some, or_else, is_some, if◌then◌else◌,
}
use durable_effect.State.{Unknown}
use durable_effect.Jobs.Errors.{JobType, JobKey, JobError}
use durable_effect.Jobs.Bodies.{
  user_error, When, ContinuousBody, ContinuousContext, ContinuousDefinition, ContinuousSchedule,
}
use durable_effect.Jobs.World.{
  is_over, JobStatus, JobMetadata, JobEventBody, Eff, pure, raise, asks, catch_all, ◌>>=◌, ◌>>◌,
}
use durable_effect.Jobs.Platform.{get, put, now, elapse, emit_event}
use durable_effect.Jobs.Services.{purge}
use durable_effect.Jobs.Services.Alarm
use durable_effect.Jobs.Services.Metadata
use durable_effect.Jobs.Services.EntityState
use durable_effect.Jobs.Retry.{is_retrying, reset}
use durable_effect.Jobs.Execution.{
  ContextBase, ExecuteOptions, ExecutionResult, execute, holder_state, hold_state,
}

-- the first run of a job that starts at once
unfoldable pub after_first_run : ContinuousDefinition → ExecutionResult → Eff JobStatus
after_first_run def r = if r.terminated then pure JobStatus.terminated else (do
  if r.success then update_last_executed_at else pure tt
  if r.retry_scheduled then pure tt else schedule_next def
  pure JobStatus.running)

unfoldable pub first_run : ContinuousDefinition → ContinuousRequest → Eff JobStatus
first_run def request =
    if or_else def.start_immediately true
    then (do
      run_count ← increment_run_count
      r ← run_execution def run_count (some request.id)
      after_first_run def r)
    else (do schedule_next def; pure JobStatus.running)

unfoldable pub start_new : ContinuousDefinition → ContinuousRequest → Eff ContinuousResponse
start_new def request = do
  Metadata.initialize JobType.continuous request.name (some request.id)
  emit_event JobType.continuous request.name (some request.id)
      (JobEventBody.job_started request.input)
  EntityState.set_state def.state_schema request.input
  put JobKey.run_count (λ s. record s { run_count = some 0 })
  Metadata.update_status JobStatus.running
  job_status ← first_run def request
  instance_id ← asks (λ env. env.instance_id)
  pure (ContinuousResponse.start instance_id true job_status)

unfoldable pub start_or_existing :
    ContinuousDefinition → ContinuousRequest → Option JobMetadata → Eff ContinuousResponse
start_or_existing def request (some existing) = do
  instance_id ← asks (λ env. env.instance_id)
  pure (ContinuousResponse.start instance_id false existing.status)
start_or_existing def request none = start_new def request

unfoldable pub handle_start : ContinuousDefinition → ContinuousRequest → Eff ContinuousResponse
handle_start def request = do existing ← Metadata.get_meta; start_or_existing def request existing

unfoldable pub terminate_existing : ContinuousRequest → Option JobMetadata → Eff ContinuousResponse
terminate_existing request none = pure (ContinuousResponse.terminate false (some "not_found"))
terminate_existing request (some existing) = do
  run_count ← get_run_count
  emit_event JobType.continuous existing.name existing.id
      (JobEventBody.job_terminated request.reason run_count)
  purge
  pure (ContinuousResponse.terminate true request.reason)

unfoldable pub handle_terminate : ContinuousRequest → Eff ContinuousResponse
handle_terminate request = do existing ← Metadata.get_meta; terminate_existing request existing

unfoldable pub after_trigger : ContinuousDefinition → ExecutionResult → Eff ContinuousResponse
after_trigger def r =
    if r.terminated
    then pure (ContinuousResponse.trigger true (some true) none)
    else if r.retry_scheduled
    then pure (ContinuousResponse.trigger true none (some true))
    else (do
      update_last_executed_at
      schedule_next def
      pure (ContinuousResponse.trigger true none none))

unfoldable pub trigger_existing : ContinuousDefinition → Option JobMetadata → Eff ContinuousResponse
trigger_existing def none = pure (ContinuousResponse.trigger false none none)
trigger_existing def (some existing) =
    if is_over existing.status then pure (ContinuousResponse.trigger false none none) else (do
      catch_all reset (λ e. pure tt)
      run_count ← increment_run_count
      r ← run_execution def run_count existing.id
      after_trigger def r)

unfoldable pub handle_trigger : ContinuousDefinition → Eff ContinuousResponse
handle_trigger def = do existing ← Metadata.get_meta; trigger_existing def existing

unfoldable pub status_of : Option JobMetadata → Eff ContinuousResponse
status_of none = pure ContinuousResponse.not_found
status_of (some existing) = do
  run_count ← get_run_count
  next_run_at ← Alarm.get_scheduled
  pure (ContinuousResponse.status existing.status next_run_at run_count existing.stop_reason)

unfoldable pub handle_status : Eff ContinuousResponse
handle_status = do existing ← Metadata.get_meta; status_of existing

unfoldable pub handle_get_state : ContinuousDefinition → Eff ContinuousResponse
handle_get_state def = do
  s ← EntityState.get_state def.state_schema
  pure (ContinuousResponse.stored_state s)

unfoldable pub perform :
    ContinuousAction → ContinuousDefinition → ContinuousRequest → Eff ContinuousResponse
perform ContinuousAction.start def request = handle_start def request
perform ContinuousAction.terminate def request = handle_terminate request
perform ContinuousAction.trigger def request = handle_trigger def
perform ContinuousAction.status def request = handle_status
perform ContinuousAction.get_state def request = handle_get_state def

-- a failure of the storage or of the alarm becomes an error of the execution
unfoldable pub wrap_platform : String → String → JobError → JobError
wrap_platform job_name instance_id (JobError.storage_error op key) =
    JobError.execution_error JobType.continuous job_name instance_id (JobError.storage_error op key)
wrap_platform job_name instance_id (JobError.scheduler_error op) =
    JobError.execution_error JobType.continuous job_name instance_id (JobError.scheduler_error op)
wrap_platform job_name instance_id e = e

unfoldable pub wrapped : {A : Type 0} → String → Eff A → Eff A
wrapped job_name m = do
  instance_id ← asks (λ env. env.instance_id)
  catch_all m (λ e. raise (wrap_platform job_name instance_id e))

-- `handle`
unfoldable pub handle_request : ContinuousRequest → Eff ContinuousResponse
handle_request request =
    wrapped request.name (do def ← get_definition request.name; perform request.action def request)

-- the next run of a job that is still there and running
unfoldable pub continue_running : ContinuousDefinition → Option JobMetadata → Eff (Unit {0})
continue_running def none = pure tt
continue_running def (some meta) = elim meta.status [
  | JobStatus.running ↦ (do update_last_executed_at; schedule_next def)
  | _ ↦ pure tt
]

unfoldable pub after_alarm : ContinuousDefinition → ExecutionResult → Eff (Unit {0})
after_alarm def r =
    if r.retry_scheduled
    then pure tt
    else if r.terminated
    then pure tt
    else (do current_meta ← Metadata.get_meta; continue_running def current_meta)

-- the body of `handleAlarm`
unfoldable pub run_on_alarm : ContinuousDefinition → Option String → Eff (Unit {0})
run_on_alarm def id = do
  retrying ← catch_all is_retrying (λ e. pure false)
  run_count ← if retrying then get_run_count else increment_run_count
  r ← run_execution def run_count id
  after_alarm def r

unfoldable pub alarm_meta : Option JobMetadata → Eff (Unit {0})
alarm_meta none = pure tt
alarm_meta (some meta) =
    if is_over meta.status
    then pure tt
    else (do def ← get_definition meta.name; run_on_alarm def meta.id)

-- `handleAlarm`
unfoldable pub handle_alarm : Eff (Unit {0})
handle_alarm = wrapped "unknown" (do meta ← Metadata.get_meta; alarm_meta meta)
