-- ===== src/Jobs/Debounce.antt =====
-- packages/jobs/src/handlers/debounce/handler.ts: a debounce collects events in one state and runs
-- its body on it, once a time after the first event or as soon as there are enough events.
mod Record
mod Flush
pub mod Body
pub mod Ends
pub mod Flushing
pub mod Collecting
pub mod Sequences
unfoldable pub use Record.*
unfoldable pub use Flush.*
use durable_effect.Prelude.{
  ℕ, ◌+◌, ◌-◌, String, Bool, true, false, not, ◌&&◌, Option, none, some, leb, ltb, or_else, is_some,
  ◌==◌, if◌then◌else◌,
}
use durable_effect.State.{Unknown}
use durable_effect.Jobs.Errors.{JobType, JobKey, JobError}
use durable_effect.Jobs.Bodies.{
  user_error, UserError, DebounceBody, DebounceContext, DebounceDefinition, FlushReason, Schema,
  Checked, valid, invalid,
}
use durable_effect.Jobs.World.{
  or_die, is_over, JobStatus, JobMetadata, JobEventBody, FlushedReason, Eff, pure, raise, defect,
  asks, catch_all, ◌>>=◌, ◌>>◌,
}
use durable_effect.Jobs.Platform.{get, put, now, elapse, emit_event}
use durable_effect.Jobs.Services.{purge}
use durable_effect.Jobs.Services.Alarm
use durable_effect.Jobs.Services.Metadata
use durable_effect.Jobs.Services.EntityState
use durable_effect.Jobs.Retry.{is_retrying, reset}
use durable_effect.Jobs.Execution.{
  ContextBase, ExecuteOptions, ExecutionResult, execute, holder_state,
}

-- the first event of an instance
unfoldable pub create : DebounceRequest → Eff (Unit {0})
create request = do
  Metadata.initialize JobType.debounce request.name (some request.id)
  Metadata.update_status JobStatus.running
  set_started_at
  set_event_count 0

unfoldable pub validated : DebounceDefinition → Checked → Eff Unknown
validated def (valid value) = pure value
validated def (invalid issues) = do
  instance_id ← asks (λ env. env.instance_id)
  raise
      (JobError.execution_error JobType.debounce def.name instance_id (JobError.parse_error issues))

-- `scheduledAt ? scheduledAt : now`, as the time of the event `debounce.started`
unfoldable pub flush_time : Option ℕ → ℕ → ℕ
flush_time none time = time
flush_time (some scheduled_at) time = if scheduled_at == 0 then time else scheduled_at

-- the alarm of the first event
unfoldable pub start_timer : DebounceDefinition → DebounceRequest → Eff (Unit {0})
start_timer def request = do
  Alarm.schedule def.flush_after
  scheduled_at ← Alarm.get_scheduled
  time ← now
  emit_event JobType.debounce request.name (some request.id)
      (JobEventBody.debounce_started (flush_time scheduled_at time))

unfoldable pub is_full : Option ℕ → ℕ → Bool
is_full none count = false
is_full (some max_events) count = leb max_events count

unfoldable pub get_scheduled_if : Bool → Eff (Option ℕ)
get_scheduled_if retry_scheduled = if retry_scheduled then Alarm.get_scheduled else pure none

-- the state after an event, and the count
unfoldable pub reduce : DebounceDefinition → DebounceRequest → Eff ℕ
reduce def request = do
  current_state ← EntityState.get_state def.state_schema
  current_count ← get_event_count
  event ← validated def (def.event_schema.decode request.event)
  instance_id ← asks (λ env. env.instance_id)
  let reduced = def.on_event (record {
    event = event;
    state = or_else current_state event;
    event_count = current_count + 1;
    instance_id = instance_id;
  })
  EntityState.set_state def.state_schema reduced
  set_event_count (current_count + 1)
  pure (current_count + 1)

unfoldable pub handle_add : DebounceDefinition → DebounceRequest → Eff DebounceResponse
handle_add def request = do
  meta ← Metadata.get_meta
  let created = not (is_some meta)
  if created then create request else pure tt
  next_count ← reduce def request
  if created then start_timer def request else pure tt
  will_flush_at ← Alarm.get_scheduled
  instance_id ← asks (λ env. env.instance_id)
  if is_full def.max_events next_count
      then (do
        r ← flush_now def (some request.id) next_count FlushReason.max_events
        retry_at ← get_scheduled_if r.retry_scheduled
        pure
            (DebounceResponse.add instance_id next_count retry_at created (some r.retry_scheduled)))
      else pure (DebounceResponse.add instance_id next_count will_flush_at created none)

unfoldable pub flush_meta :
    DebounceDefinition → FlushReason → Option JobMetadata → Eff DebounceResponse
flush_meta def reason none = pure (DebounceResponse.flush false 0 FlushAnswer.empty none)
flush_meta def reason (some meta) = do
  event_count ← get_event_count
  if event_count == 0
      then (do purge; pure (DebounceResponse.flush false 0 FlushAnswer.empty none))
      else (do
        r ← flush_now def meta.id event_count reason
        pure (
            DebounceResponse.flush true event_count (FlushAnswer.flushed_for reason)
              (some r.retry_scheduled)))

unfoldable pub handle_flush : DebounceDefinition → FlushReason → Eff DebounceResponse
handle_flush def reason = do meta ← Metadata.get_meta; flush_meta def reason meta

unfoldable pub handle_clear : Eff DebounceResponse
handle_clear = do
  meta ← Metadata.get_meta
  if is_some meta
      then (do event_count ← get_event_count; purge; pure (DebounceResponse.clear true event_count))
      else pure (DebounceResponse.clear false 0)

unfoldable pub handle_status : Eff DebounceResponse
handle_status = do
  meta ← Metadata.get_meta
  if is_some meta
      then (do
        event_count ← get_event_count
        started_at ← get_started_at
        will_flush_at ← Alarm.get_scheduled
        pure (
            DebounceResponse.status
              (if ltb 0 event_count then DebounceStatus.debouncing else DebounceStatus.idle)
              event_count started_at will_flush_at))
      else pure DebounceResponse.not_found

unfoldable pub handle_get_state : DebounceDefinition → Eff DebounceResponse
handle_get_state def = do
  state ← EntityState.get_state def.state_schema
  pure (DebounceResponse.stored_state state)

unfoldable pub perform :
    DebounceAction → DebounceDefinition → DebounceRequest → Eff DebounceResponse
perform DebounceAction.add def request = handle_add def request
perform DebounceAction.flush def request = handle_flush def FlushReason.manual
perform DebounceAction.clear def request = handle_clear
perform DebounceAction.status def request = handle_status
perform DebounceAction.get_state def request = handle_get_state def

-- a failure of the storage or of the alarm becomes an error of the execution
unfoldable pub wrap_platform : String → String → JobError → JobError
wrap_platform job_name instance_id (JobError.storage_error op key) =
    JobError.execution_error JobType.debounce job_name instance_id (JobError.storage_error op key)
wrap_platform job_name instance_id (JobError.scheduler_error op) =
    JobError.execution_error JobType.debounce job_name instance_id (JobError.scheduler_error op)
wrap_platform job_name instance_id e = e

unfoldable pub wrapped : {A : Type 0} → String → Eff A → Eff A
wrapped job_name m = do
  instance_id ← asks (λ env. env.instance_id)
  catch_all m (λ e. raise (wrap_platform job_name instance_id e))

-- `handle`
unfoldable pub handle_request : DebounceRequest → Eff DebounceResponse
handle_request request =
    wrapped request.name (do def ← get_definition request.name; perform request.action def request)

-- the body of `handleAlarm`
unfoldable pub flush_on_alarm : DebounceDefinition → Eff (Unit {0})
flush_on_alarm def = do
  retrying ← catch_all is_retrying (λ e. pure false)
  if retrying then pure tt else catch_all reset (λ e. pure tt)
  handle_flush def FlushReason.flush_after
  pure tt

unfoldable pub alarm_meta : Option JobMetadata → Eff (Unit {0})
alarm_meta none = pure tt
alarm_meta (some meta) =
    if is_over meta.status then pure tt else (do def ← get_definition meta.name; flush_on_alarm def)

-- `handleAlarm`
unfoldable pub handle_alarm : Eff (Unit {0})
handle_alarm = wrapped "unknown" (do meta ← Metadata.get_meta; alarm_meta meta)
