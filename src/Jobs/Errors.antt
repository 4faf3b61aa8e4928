-- ===== src/Jobs/Errors.antt =====
-- packages/jobs/src/errors.ts, packages/jobs/src/retry/errors.ts and packages/jobs/src/storage-keys.ts:
-- the failures of the jobs package and the keys that its services write. `InstanceNotFoundError`,
-- `InvalidStateError` and `DuplicateEventError` are declared there and never raised.
use durable_effect.Prelude.{ℕ, String, Bool, Option}
use durable_effect.State.{Unknown}
use durable_effect.Errors.{StorageOp}

pub data JobType : Type 0 where
  continuous debounce worker_pool task : JobType

-- The keys of `KEYS`, less those of the worker pool, which has no handler.
pub data JobKey : Type 0 where
  meta state : JobKey
  run_count last_executed_at : JobKey
  event_count started_at : JobKey
  task_event_count execute_count created_at scheduled_at : JobKey
  idempotency : (event_id : String) → JobKey
  retry_attempt retry_started_at retry_last_error retry_scheduled_at : JobKey

-- the operations of packages/core/src/errors.ts, `SchedulerError`
pub data SchedulerOp : Type 0 where
  schedule cancel get : SchedulerOp

pub data ExhaustedReason : Type 0 where
  max_attempts_exceeded max_duration_exceeded : ExhaustedReason

-- `plain` is an `Error` of the user's code, `thrown` a failure of it that is no `Error`, and
-- `parse_error` what the schema library reports. `max_duration` is the bare `Error` that stands as
-- the last error of a retry that ran out of time.
pub data JobError : Type 0 where
  storage_error : (operation : StorageOp) (key : Option JobKey) → JobError
  scheduler_error : (operation : SchedulerOp) → JobError
  job_not_found : (type : JobType) (name : String) → JobError
  validation_error : (schema_name : String) (issues : Unknown) → JobError
  execution_error :
      (job_type : JobType) (job_name instance_id : String) (cause : JobError) → JobError
  unknown_job_type : (type : String) → JobError
  terminate_signal : (reason : Option String) (purge_state : Bool) → JobError
  retry_exhausted_signal :
      (job_type : JobType) (job_name instance_id : String) (attempts : ℕ) (last_error : JobError)
      (total_duration_ms : ℕ) (reason : ExhaustedReason)
      → JobError
  retry_scheduled_signal : (resume_at attempt : ℕ) → JobError
  parse_error : (issues : Unknown) → JobError
  max_duration : JobError
  plain : (message : String) (stack : Option String) → JobError
  thrown : (value : Unknown) → JobError
