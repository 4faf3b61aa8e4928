-- ===== src/Jobs/Bodies.antt =====
-- What a user hands to the jobs package: schemas, schedules and the effects of a definition, as
-- packages/jobs/src/registry/types.ts stores them. A body is the tree of the calls that it makes of
-- its context; what it computes in between is in the functions of the tree.
use durable_effect.Prelude.{ℕ, String, Bool, Option}
use durable_effect.State.{Unknown}
use durable_effect.Program.{RetryDelay}
use durable_effect.Jobs.Errors.{JobError}

-- How a schema answers: with a value or with its issues.
pub data Checked : Type 0 where
  valid : (value : Unknown) → Checked
  invalid : (issues : Unknown) → Checked

-- A schema of the effect library: `decodeUnknown`, `encode` and `ast._tag`. A state is never `null`
-- or `undefined` itself.
pub record Schema : Type 0 where
  pub tag : String
  pub decode : Unknown → Checked
  pub encode : Unknown → Checked

-- `Duration.DurationInput | number | Date`: a duration is taken as already parsed to milliseconds
pub data When : Type 0 where
  number : ℕ → When
  date : (timestamp : ℕ) → When
  duration : (ms : ℕ) → When

-- `StoredJobRetryConfig`
pub record JobRetryConfig : Type 0 where
  pub max_attempts : ℕ
  pub delay : Option RetryDelay
  pub jitter : Option Bool
  pub max_duration : Option ℕ

-- `new Error(message)`, or a failure that is no `Error`
pub data UserError : Type 0 where
  plain : (message : String) (stack : Option String) → UserError
  thrown : (value : Unknown) → UserError

-- a failure of the user's body
unfoldable pub user_error : UserError → JobError
user_error (UserError.plain message stack) = JobError.plain message stack
user_error (UserError.thrown value) = JobError.thrown value

-- The body of a continuous job.
pub data ContinuousBody : Type 0 where
  done : ContinuousBody
  fail : UserError → ContinuousBody
  wait : (ms : ℕ) → ContinuousBody → ContinuousBody
  read_state : (Option Unknown → ContinuousBody) → ContinuousBody
  set_state : Unknown → ContinuousBody → ContinuousBody
  update_state : (Option Unknown → Unknown) → ContinuousBody → ContinuousBody
  terminate : (reason : Option String) → ContinuousBody

pub record ContinuousContext : Type 0 where
  pub instance_id : String
  pub run_count : ℕ
  pub job_name : String
  pub attempt : ℕ
  pub is_retry : Bool

-- `next` of `cron` is `Cron.next` of the effect library at the schedule's expression.
pub data ContinuousSchedule : Type 0 where
  every : (interval : When) → ContinuousSchedule
  cron : (next : ℕ → ℕ) → ContinuousSchedule

pub record ContinuousDefinition : Type 0 where
  pub name : String
  pub state_schema : Schema
  pub schedule : ContinuousSchedule
  pub start_immediately : Option Bool
  pub retry : Option JobRetryConfig
  pub execute : ContinuousContext → ContinuousBody

-- The body of a debounce job, which reads the count and the start time from the storage.
pub data DebounceBody : Type 0 where
  done : DebounceBody
  fail : UserError → DebounceBody
  wait : (ms : ℕ) → DebounceBody → DebounceBody
  event_count : (ℕ → DebounceBody) → DebounceBody
  debounce_started_at : (ℕ → DebounceBody) → DebounceBody

pub data FlushReason : Type 0 where
  max_events flush_after manual : FlushReason

pub record DebounceContext : Type 0 where
  pub state : Option Unknown
  pub instance_id : String
  pub execution_started_at : ℕ
  pub flush_reason : FlushReason
  pub attempt : ℕ
  pub is_retry : Bool

-- `DebounceEventContext`; the reducer cannot fail
pub record DebounceEventContext : Type 0 where
  pub event : Unknown
  pub state : Unknown
  pub event_count : ℕ
  pub instance_id : String

pub record DebounceDefinition : Type 0 where
  pub name : String
  pub event_schema : Schema
  pub state_schema : Schema
  pub flush_after : When
  pub max_events : Option ℕ
  pub retry : Option JobRetryConfig
  pub execute : DebounceContext → DebounceBody
  pub on_event : DebounceEventContext → Unknown

-- The bodies of a task: of `onEvent`, `execute`, `onIdle` and `onError`. The contexts of `onIdle`
-- and `onError` have no counts and no creation time, and that of `onEvent` no `executeCount`.
pub data TaskBody : Type 0 where
  done : TaskBody
  fail : UserError → TaskBody
  wait : (ms : ℕ) → TaskBody → TaskBody
  read_state : (Option Unknown → TaskBody) → TaskBody
  set_state : Unknown → TaskBody → TaskBody
  update_state : (Unknown → Unknown) → TaskBody → TaskBody
  schedule : When → TaskBody → TaskBody
  cancel_schedule : TaskBody → TaskBody
  get_scheduled_time : (Option ℕ → TaskBody) → TaskBody
  event_count : (ℕ → TaskBody) → TaskBody
  created_at : (ℕ → TaskBody) → TaskBody
  execute_count : (ℕ → TaskBody) → TaskBody
  terminate : TaskBody

pub data Trigger : Type 0 where
  event execute idle error : Trigger

-- `isFirstEvent` of the context of `onEvent`, `executionStartedAt` of it and of `execute`
pub record TaskContext : Type 0 where
  pub instance_id : String
  pub job_name : String
  pub execution_started_at : ℕ
  pub is_first_event : Bool

pub record TaskDefinition : Type 0 where
  pub name : String
  pub state_schema : Schema
  pub event_schema : Schema
  pub on_event : Unknown → TaskContext → TaskBody
  pub execute : TaskContext → TaskBody
  pub on_idle : Option (Trigger → TaskBody)
  pub on_error : Option (JobError → Trigger → TaskBody)
