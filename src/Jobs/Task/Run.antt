-- ===== src/Jobs/Task/Run.antt =====
-- packages/jobs/src/handlers/task/handler.ts: one run of a task, its schedule and its idle body.
use durable_effect.Prelude.{ℕ, String, true, false, not, Option, none, some, is_some, if◌then◌else◌}
use durable_effect.State.{Unknown}
use durable_effect.Jobs.Errors.{JobType, JobError}
use durable_effect.Jobs.Bodies.{When, TaskBody, TaskContext, TaskDefinition, Trigger}
use durable_effect.Jobs.World.{
  JobEventBody, ScheduleHolder, clean_schedule, Eff, pure, raise, catch_all, ◌>>=◌, ◌>>◌,
}
use durable_effect.Jobs.Platform.{now, emit_event}
use durable_effect.Jobs.Services.Alarm
use durable_effect.Jobs.Services.Alarm.{timestamp_of}
use durable_effect.Jobs.Execution.{
  ContextBase, ExecuteOptions, ExecutionResult, execute, holder_state,
}
use durable_effect.Jobs.Task.Record.{get_scheduled_at, set_scheduled_at}
use durable_effect.Jobs.Task.Context.{held_schedule, hold_schedule, run_body, run_snapshot}

unfoldable pub schedule_at : Option ℕ → String → Trigger → Option String → Eff (Unit {0})
schedule_at none job_name source id = pure tt
schedule_at (some scheduled_at) job_name source id = do
  Alarm.schedule (When.number scheduled_at)
  set_scheduled_at (some scheduled_at)
  emit_event JobType.task job_name id (JobEventBody.task_scheduled scheduled_at source)

unfoldable pub apply_schedule_changes :
    ScheduleHolder → String → Trigger → Option String → Eff (Unit {0})
apply_schedule_changes holder job_name source id =
    if not holder.dirty
    then pure tt
    else if holder.cancelled
    then (do Alarm.cancel; set_scheduled_at none)
    else schedule_at holder.scheduled_at job_name source id

-- `onError`, where the definition has one
unfoldable pub run_on_error :
    Option (JobError → Trigger → TaskBody) → Trigger → JobError → Eff (Unit {0})
run_on_error none source error = raise error
run_on_error (some on_error) source error = run_snapshot (on_error error source)

unfoldable pub on_body_error : TaskDefinition → Trigger → JobError → Eff (Unit {0})
on_body_error def source (JobError.terminate_signal reason purge_state) =
    raise (JobError.terminate_signal reason purge_state)
on_body_error def source error = run_on_error def.on_error source error

unfoldable pub with_error_handling : TaskDefinition → Trigger → Eff (Unit {0}) → Eff (Unit {0})
with_error_handling def source body = catch_all body (on_body_error def source)

-- the user's body: that of `onEvent` where there is an event, or that of `execute`
unfoldable pub run_source : TaskDefinition → Option Unknown → TaskContext → Eff (Unit {0})
run_source def none context =
    with_error_handling def Trigger.execute (run_snapshot (def.execute context))
run_source def (some e) context =
    with_error_handling def Trigger.event (run_body none (def.on_event e context))

unfoldable pub task_context : TaskDefinition → ContextBase → ℕ → Option Unknown → TaskContext
task_context def base time s = record {
  instance_id = base.instance_id;
  job_name = def.name;
  execution_started_at = time;
  is_first_event = not (is_some s);
}

abbrev pub trigger_of : Option Unknown → Trigger
trigger_of none = Trigger.execute
trigger_of (some e) = Trigger.event

-- the schedule that is looked at before `onIdle`
unfoldable pub scheduled_now : ScheduleHolder → Eff (Option ℕ)
scheduled_now h = if h.dirty then pure h.scheduled_at else get_scheduled_at

unfoldable pub idle_unless :
    TaskDefinition → Option String → (Trigger → TaskBody) → Trigger → Option ℕ → Eff (Unit {0})
idle_unless def id on_idle source (some scheduled) = pure tt
idle_unless def id on_idle source none = do
  h ← held_schedule
  hold_schedule (record h { dirty = false })
  run_snapshot (on_idle source)
  h' ← held_schedule
  apply_schedule_changes h' def.name Trigger.idle id

unfoldable pub run_idle :
    TaskDefinition → Option String → Option (Trigger → TaskBody) → Trigger → Eff (Unit {0})
run_idle def id none source = pure tt
run_idle def id (some on_idle) source = do
  h ← held_schedule
  scheduled ← scheduled_now h
  idle_unless def id on_idle source scheduled

-- `run` of the options: the body, its schedule, and `onIdle` where nothing is scheduled
unfoldable pub run_task :
    TaskDefinition → Option Unknown → Option String → ContextBase → Eff (Unit {0})
run_task def event id base = do
  hold_schedule clean_schedule
  time ← now
  s ← holder_state
  run_source def event (task_context def base time s)
  h ← held_schedule
  apply_schedule_changes h def.name (trigger_of event) id
  run_idle def id def.on_idle (trigger_of event)

unfoldable pub run_options : TaskDefinition → ℕ → Option Unknown → Option String → ExecuteOptions
run_options def run_count event id = record {
  job_type = JobType.task;
  job_name = def.name;
  schema = def.state_schema;
  retry_config = none;
  run_count = some run_count;
  allow_null_state = true;
  id = id;
  include_state_in_events = true;
  run = run_task def event id;
}

unfoldable pub run_execution :
    TaskDefinition → ℕ → Option Unknown → Option String → Eff ExecutionResult
run_execution def run_count event id = execute (run_options def run_count event id)
