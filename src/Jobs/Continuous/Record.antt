-- ===== src/Jobs/Continuous/Record.antt =====
-- packages/jobs/src/runtime/types.ts and handlers/continuous/handler.ts: the requests and answers of a
-- continuous job, what it keeps in the storage, and its schedule.
use durable_effect.Prelude.{ℕ, ◌+◌, String, Bool, Option, none, some, or_else}
use durable_effect.State.{Unknown}
use durable_effect.Jobs.Errors.{JobType, JobKey, JobError}
use durable_effect.Jobs.Bodies.{When, ContinuousDefinition, ContinuousSchedule}
use durable_effect.Jobs.World.{JobStatus, Eff, pure, raise, asks, ◌>>=◌, ◌>>◌}
use durable_effect.Jobs.Platform.{get, put, now}
use durable_effect.Jobs.Services.Alarm

pub data ContinuousAction : Type 0 where
  start terminate trigger status get_state : ContinuousAction

pub record ContinuousRequest : Type 0 where
  pub action : ContinuousAction
  pub name : String
  pub id : String
  pub input : Unknown
  pub reason : Option String

-- A field that is `none` is one that the response does not have.
pub data ContinuousResponse : Type 0 where
  start : (instance_id : String) (created : Bool) → JobStatus → ContinuousResponse
  terminate : (terminated : Bool) (reason : Option String) → ContinuousResponse
  trigger : (triggered : Bool) (terminated retry_scheduled : Option Bool) → ContinuousResponse
  not_found : ContinuousResponse
  status :
      JobStatus
      → (next_run_at : Option ℕ) (run_count : ℕ) (stop_reason : Option String) → ContinuousResponse
  stored_state : Option Unknown → ContinuousResponse

unfoldable pub found : String → Option ContinuousDefinition → Eff ContinuousDefinition
found name none = raise (JobError.job_not_found JobType.continuous name)
found name (some def) = pure def

unfoldable pub get_definition : String → Eff ContinuousDefinition
get_definition name = do
  registry ← asks (λ env. env.registry)
  found name (registry.continuous name)

unfoldable pub get_run_count : Eff ℕ
get_run_count = do count ← get JobKey.run_count (λ s. s.run_count); pure (or_else count 0)

unfoldable pub increment_run_count : Eff ℕ
increment_run_count = do
  current ← get_run_count
  put JobKey.run_count (λ s. record s { run_count = some (current + 1) })
  pure (current + 1)

unfoldable pub update_last_executed_at : Eff (Unit {0})
update_last_executed_at = do
  time ← now
  put JobKey.last_executed_at (λ s. record s { last_executed_at = some time })

unfoldable pub schedule_by : ContinuousSchedule → Eff (Unit {0})
schedule_by (ContinuousSchedule.every interval) = Alarm.schedule interval
schedule_by (ContinuousSchedule.cron next) = do time ← now; Alarm.schedule (When.date (next time))

unfoldable pub schedule_next : ContinuousDefinition → Eff (Unit {0})
schedule_next def = schedule_by def.schedule
