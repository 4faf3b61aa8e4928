-- ===== src/Jobs/Task.antt =====
-- packages/jobs/src/handlers/task/{handler,context}.ts: a task receives events and runs when it has
-- scheduled itself. Its schedule is kept in the alarm and, for reading, under a key of its own.
mod Record
mod Context
mod Run
pub mod Quiet
unfoldable pub use Record.*
unfoldable pub use Context.*
unfoldable pub use Run.*
use durable_effect.Prelude.{
  ℕ, ◌+◌, String, Bool, true, false, not, Option, none, some, or_else, is_some, if◌then◌else◌,
}
use durable_effect.State.{Unknown}
use durable_effect.Jobs.Errors.{JobType, JobKey, JobError}
use durable_effect.Jobs.Bodies.{
  user_error, When, TaskBody, TaskContext, TaskDefinition, Trigger, Checked, valid, invalid,
}
use durable_effect.Jobs.World.{
  JobStatus, JobMetadata, JobEventBody, ScheduleHolder, clean_schedule, Eff, pure, raise, asks,
  reads, modify, catch_all, ◌>>=◌, ◌>>◌,
}
use durable_effect.Jobs.Platform.{get, put, delete, now, elapse, emit_event}
use durable_effect.Jobs.Services.{purge}
use durable_effect.Jobs.Services.Alarm
use durable_effect.Jobs.Services.Alarm.{timestamp_of}
use durable_effect.Jobs.Services.Metadata
use durable_effect.Jobs.Services.EntityState
use durable_effect.Jobs.Execution.{
  ContextBase, ExecuteOptions, ExecutionResult, execute, holder_state, hold_state,
}

-- the first event of an instance
unfoldable pub create : TaskRequest → ℕ → Eff (Unit {0})
create request time = do
  Metadata.initialize JobType.task request.name (some request.id)
  Metadata.update_status JobStatus.running
  set_created_at time
  put JobKey.task_event_count (λ s. record s { task_event_count = some 0 })
  put JobKey.execute_count (λ s. record s { execute_count = some 0 })

unfoldable pub validated : TaskDefinition → Checked → Eff Unknown
validated def (valid value) = pure value
validated def (invalid issues) = do
  instance_id ← asks (λ env. env.instance_id)
  raise (JobError.execution_error JobType.task def.name instance_id (JobError.parse_error issues))

unfoldable pub handle_send : TaskDefinition → TaskRequest → Eff TaskResponse
handle_send def request = do
  meta ← Metadata.get_meta
  let created = not (is_some meta)
  time ← now
  if created then create request time else pure tt
  increment_event_count
  event ← validated def (def.event_schema.decode request.event)
  run_execution def 0 (some event) (some request.id)
  scheduled_at ← get_scheduled_at
  instance_id ← asks (λ env. env.instance_id)
  pure (TaskResponse.send instance_id created scheduled_at)

-- a run that no event has caused
unfoldable pub execute_again : TaskDefinition → Option String → Eff ExecutionResult
execute_again def id = do increment_execute_count; run_execution def 0 none id

unfoldable pub trigger_existing : TaskDefinition → Option JobMetadata → Eff TaskResponse
trigger_existing def none = do
  instance_id ← asks (λ env. env.instance_id)
  pure (TaskResponse.trigger instance_id false)
trigger_existing def (some meta) = do
  execute_again def meta.id
  instance_id ← asks (λ env. env.instance_id)
  pure (TaskResponse.trigger instance_id true)

unfoldable pub handle_trigger : TaskDefinition → Eff TaskResponse
handle_trigger def = do meta ← Metadata.get_meta; trigger_existing def meta

unfoldable pub handle_terminate : Eff TaskResponse
handle_terminate = do
  meta ← Metadata.get_meta
  instance_id ← asks (λ env. env.instance_id)
  if is_some meta
      then (do purge; pure (TaskResponse.terminate instance_id true))
      else pure (TaskResponse.terminate instance_id false)

abbrev pub status_of : Option ℕ → TaskStatus
status_of none = TaskStatus.idle
status_of (some scheduled_at) = TaskStatus.active

unfoldable pub handle_status : Eff TaskResponse
handle_status = do
  meta ← Metadata.get_meta
  if is_some meta
      then (do
        scheduled_at ← get_scheduled_at
        created_at ← get_created_at
        event_count ← get_event_count
        execute_count ← get_execute_count
        pure (
            TaskResponse.status (status_of scheduled_at) scheduled_at created_at event_count
              execute_count))
      else pure TaskResponse.not_found

unfoldable pub handle_get_state : TaskDefinition → Eff TaskResponse
handle_get_state def = do
  meta ← Metadata.get_meta
  instance_id ← asks (λ env. env.instance_id)
  if is_some meta
      then (do
        s ← EntityState.get_state def.state_schema
        scheduled_at ← get_scheduled_at
        created_at ← get_created_at
        pure (TaskResponse.stored_state instance_id (some s) scheduled_at created_at))
      else pure (TaskResponse.stored_state instance_id none none none)

unfoldable pub perform : TaskAction → TaskDefinition → TaskRequest → Eff TaskResponse
perform TaskAction.send def request = handle_send def request
perform TaskAction.trigger def request = handle_trigger def
perform TaskAction.terminate def request = handle_terminate
perform TaskAction.status def request = handle_status
perform TaskAction.get_state def request = handle_get_state def

-- A failure of the storage becomes an error of the execution; one of the alarm is handed on.
unfoldable pub wrap_storage : String → String → JobError → JobError
wrap_storage job_name instance_id (JobError.storage_error op key) =
    JobError.execution_error JobType.task job_name instance_id (JobError.storage_error op key)
wrap_storage job_name instance_id e = e

unfoldable pub wrapped : {A : Type 0} → String → Eff A → Eff A
wrapped job_name m = do
  instance_id ← asks (λ env. env.instance_id)
  catch_all m (λ e. raise (wrap_storage job_name instance_id e))

-- `handle`
unfoldable pub handle_request : TaskRequest → Eff TaskResponse
handle_request request =
    wrapped request.name (do def ← get_definition request.name; perform request.action def request)

abbrev pub is_task : JobType → Bool
is_task JobType.task = true
is_task _ = false

unfoldable pub alarm_meta : Option JobMetadata → Eff (Unit {0})
alarm_meta none = pure tt
alarm_meta (some meta) =
    if not (is_task meta.type)
    then pure tt
    else (do def ← get_definition meta.name; execute_again def meta.id; pure tt)

-- `handleAlarm`
unfoldable pub handle_alarm : Eff (Unit {0})
handle_alarm = wrapped "unknown" (do meta ← Metadata.get_meta; alarm_meta meta)
