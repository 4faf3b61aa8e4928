-- ===== src/Jobs/Task/Record.antt =====
-- packages/jobs/src/runtime/types.ts and handlers/task/handler.ts: the requests and answers of a task,
-- and what it keeps in the storage.
use durable_effect.Prelude.{ℕ, ◌+◌, String, Bool, Option, none, some, or_else}
use durable_effect.State.{Unknown}
use durable_effect.Jobs.Errors.{JobType, JobKey, JobError}
use durable_effect.Jobs.Bodies.{TaskDefinition}
use durable_effect.Jobs.World.{Eff, pure, raise, asks, ◌>>=◌, ◌>>◌}
use durable_effect.Jobs.Platform.{get, put, delete}

pub data TaskAction : Type 0 where
  send trigger terminate status get_state : TaskAction

pub record TaskRequest : Type 0 where
  pub action : TaskAction
  pub name : String
  pub id : String
  pub event : Unknown

pub data TaskStatus : Type 0 where
  active idle : TaskStatus

-- `stored_state` is `none` where the instance is not there, and the inner option is `null`.
pub data TaskResponse : Type 0 where
  send : (instance_id : String) (created : Bool) (scheduled_at : Option ℕ) → TaskResponse
  trigger : (instance_id : String) (triggered : Bool) → TaskResponse
  terminate : (instance_id : String) (terminated : Bool) → TaskResponse
  not_found : TaskResponse
  status :
      TaskStatus
      → (scheduled_at created_at : Option ℕ) (event_count execute_count : ℕ) → TaskResponse
  stored_state :
      (instance_id : String) (value : Option (Option Unknown)) (scheduled_at created_at : Option ℕ)
      → TaskResponse

unfoldable pub found : String → Option TaskDefinition → Eff TaskDefinition
found name none = raise (JobError.job_not_found JobType.task name)
found name (some def) = pure def

unfoldable pub get_definition : String → Eff TaskDefinition
get_definition name = do registry ← asks (λ env. env.registry); found name (registry.task name)

unfoldable pub get_event_count : Eff ℕ
get_event_count = do n ← get JobKey.task_event_count (λ s. s.task_event_count); pure (or_else n 0)

unfoldable pub increment_event_count : Eff ℕ
increment_event_count = do
  current ← get_event_count
  put JobKey.task_event_count (λ s. record s { task_event_count = some (current + 1) })
  pure (current + 1)

unfoldable pub get_execute_count : Eff ℕ
get_execute_count = do n ← get JobKey.execute_count (λ s. s.execute_count); pure (or_else n 0)

unfoldable pub increment_execute_count : Eff ℕ
increment_execute_count = do
  current ← get_execute_count
  put JobKey.execute_count (λ s. record s { execute_count = some (current + 1) })
  pure (current + 1)

unfoldable pub get_created_at : Eff (Option ℕ)
get_created_at = get JobKey.created_at (λ s. s.created_at)

unfoldable pub set_created_at : ℕ → Eff (Unit {0})
set_created_at timestamp = put JobKey.created_at (λ s. record s { created_at = some timestamp })

unfoldable pub get_scheduled_at : Eff (Option ℕ)
get_scheduled_at = get JobKey.scheduled_at (λ s. s.scheduled_at)

unfoldable pub set_scheduled_at : Option ℕ → Eff (Unit {0})
set_scheduled_at none = do
  delete JobKey.scheduled_at (λ s. s.scheduled_at) (λ s. record s { scheduled_at = none })
  pure tt
set_scheduled_at (some timestamp) =
    put JobKey.scheduled_at (λ s. record s { scheduled_at = some timestamp })
