-- ===== src/Jobs/World.antt =====
-- The runtime that a job instance runs in, as packages/core/src/adapters gives it: the storage under
-- the keys of packages/jobs/src/storage-keys.ts, the alarm, the clock and the tracker. `Eff` is the
-- shape of every effect of the package over these.
use durable_effect.Prelude.{ℕ, String, ◌≡◌, Bool, true, false, Option, none, List}
use durable_effect.State.{Unknown}
use durable_effect.Errors.{StorageOp}
use durable_effect.Jobs.Errors.{JobType, JobKey, JobError, SchedulerOp, ExhaustedReason}
use durable_effect.Jobs.Bodies.{ContinuousDefinition, DebounceDefinition, TaskDefinition, Trigger}

-- `JobStatus`
pub data JobStatus : Type 0 where
  initializing running stopped terminated : JobStatus

-- stopped or terminated: an alarm does nothing
abbrev pub is_over : JobStatus → Bool
is_over JobStatus.stopped = true
is_over JobStatus.terminated = true
is_over _ = false

-- `JobMetadata`
pub record JobMetadata : Type 0 where
  pub type : JobType
  pub name : String
  pub status : JobStatus
  pub created_at : ℕ
  pub updated_at : ℕ
  pub id : Option String
  pub stop_reason : Option String

-- The value under each key, `none` for a key that is not there. An idempotency record is the time
-- at which its event was processed.
pub record JobStore : Type 0 where
  pub meta : Option JobMetadata
  pub state : Option Unknown
  pub run_count : Option ℕ
  pub last_executed_at : Option ℕ
  pub event_count : Option ℕ
  pub started_at : Option ℕ
  pub task_event_count : Option ℕ
  pub execute_count : Option ℕ
  pub created_at : Option ℕ
  pub scheduled_at : Option ℕ
  pub idempotency : String → Option ℕ
  pub retry_attempt : Option ℕ
  pub retry_started_at : Option ℕ
  pub retry_last_error : Option JobError
  pub retry_scheduled_at : Option ℕ

abbrev pub empty_job_store : JobStore
empty_job_store = record {
  meta = none;
  state = none;
  run_count = none;
  last_executed_at = none;
  event_count = none;
  started_at = none;
  task_event_count = none;
  execute_count = none;
  created_at = none;
  scheduled_at = none;
  idempotency = λ k. none;
  retry_attempt = none;
  retry_started_at = none;
  retry_last_error = none;
  retry_scheduled_at = none;
}

-- The error of a `job.failed` event: the message and the stack are those of an error, or the
-- message names the attempt for which a retry is scheduled.
pub data FailedError : Type 0 where
  of_error : JobError → FailedError
  retry_scheduled_for : (attempt : ℕ) → FailedError

-- the reason of a `debounce.flushed` event
pub data FlushedReason : Type 0 where
  max_events timeout manual : FlushedReason

-- What the tracker is told. An `eventId` and the ISO form of a time are left out.
pub data JobEventBody : Type 0 where
  job_started : (input : Unknown) → JobEventBody
  job_executed :
      (run_count duration_ms attempt : ℕ) (pre_execution_state : Option Unknown) → JobEventBody
  job_failed :
      (error : FailedError) (run_count attempt : ℕ) (will_retry : Bool)
      (pre_execution_state : Option Unknown)
      → JobEventBody
  job_retry_exhausted : (attempts : ℕ) (reason : ExhaustedReason) → JobEventBody
  job_terminated : (reason : Option String) (run_count : ℕ) → JobEventBody
  debounce_started : (flush_at : ℕ) → JobEventBody
  debounce_flushed : (event_count : ℕ) (reason : FlushedReason) (duration_ms : ℕ) → JobEventBody
  task_scheduled : (scheduled_at : ℕ) (trigger : Trigger) → JobEventBody

-- `createJobBaseEvent` with what is added to it
pub record JobEvent : Type 0 where
  pub instance_id : String
  pub job_type : JobType
  pub job_name : String
  pub id : Option String
  pub body : JobEventBody

-- `stateHolder` of an execution: the state that the user's body reads and writes
pub record StateHolder : Type 0 where
  pub current : Option Unknown
  pub dirty : Bool

-- `TaskScheduleHolder`
pub record ScheduleHolder : Type 0 where
  pub scheduled_at : Option ℕ
  pub cancelled : Bool
  pub dirty : Bool

abbrev pub clean_schedule : ScheduleHolder
clean_schedule = record { scheduled_at = none; cancelled = false; dirty = false }

-- The two holders are objects of the execution under way, which sets them anew.
pub record JobWorld : Type 0 where
  pub store : JobStore
  pub scheduled_time : Option ℕ
  pub current_time : ℕ
  pub events : List JobEvent
  pub holder : StateHolder
  pub schedule_holder : ScheduleHolder

-- Which calls of the platform fail.
pub record Faults : Type 0 where
  pub storage : StorageOp → Option JobKey → Bool
  pub scheduler : SchedulerOp → Bool

-- `RuntimeJobRegistry`, a table for each kind of job
pub record Registry : Type 0 where
  pub continuous : String → Option ContinuousDefinition
  pub debounce : String → Option DebounceDefinition
  pub task : String → Option TaskDefinition

-- What stays as it is during a request; `add_jitter` is the delay that `addJitter` makes of a delay
-- by `Math.random`.
pub record JobEnv : Type 0 where
  pub instance_id : String
  pub registry : Registry
  pub faults : Option Faults
  pub add_jitter : ℕ → ℕ

-- How an effect ends: with a value, with a failure that can be caught, or with a defect.
pub data Outcome (A : Type 0) : Type 0 where
  ok : A → Outcome A
  err : JobError → Outcome A
  die : JobError → Outcome A

-- An effect: it reads the services and changes the world. What it changed before it failed stays
-- changed.
abbrev pub Eff : Type 0 → Type 0
Eff A = JobEnv → JobWorld → Outcome A × JobWorld

abbrev pub continue : {A B : Type 0} → Outcome A → (A → Eff B) → Eff B
continue (ok a) f env w = f a env w
continue (err e) f env w = (err e, w)
continue (die e) f env w = (die e, w)

abbrev pub handle : {A : Type 0} → Outcome A → (JobError → Eff A) → Eff A
handle (ok a) handler env w = (ok a, w)
handle (err e) handler env w = handler e env w
handle (die e) handler env w = (die e, w)

infixl 5 ◌>>=◌ ◌>>◌
unfoldable pub ◌>>=◌ : {A B : Type 0} → Eff A → (A → Eff B) → Eff B
◌>>=◌ m f env w = let (r, w') = m env w in continue r f env w'

abbrev pub ◌>>◌ : {A B : Type 0} → Eff A → Eff B → Eff B
m >> k = m >>= λ _. k

-- `Effect.succeed`
abbrev pub pure : {A : Type 0} → A → Eff A
pure a env w = (ok a, w)

-- `Effect.fail`
abbrev pub raise : {A : Type 0} → JobError → Eff A
raise e env w = (err e, w)

-- `Effect.die`
abbrev pub defect : {A : Type 0} → JobError → Eff A
defect e env w = (die e, w)

-- a service of the environment
unfoldable pub asks : {A : Type 0} → (JobEnv → A) → Eff A
asks f env w = (ok (f env), w)

-- a cell of the execution under way
unfoldable pub reads : {A : Type 0} → (JobWorld → A) → Eff A
reads f env w = (ok (f w), w)

unfoldable pub modify : (JobWorld → JobWorld) → Eff (Unit {0})
modify f env w = (ok tt, f w)

-- `catchAll`, or `catchTag` where the handler fails again with what it does not catch
unfoldable pub catch_all : {A : Type 0} → Eff A → (JobError → Eff A) → Eff A
catch_all m handler env w = let (r, w') = m env w in handle r handler env w'

-- `Effect.mapError`
abbrev pub map_error : {A : Type 0} → (JobError → JobError) → Eff A → Eff A
map_error f m = catch_all m (λ e. raise (f e))

-- `Effect.orDie`
unfoldable pub or_die : {A : Type 0} → Eff A → Eff A
or_die m = catch_all m (λ e. defect e)

-- a platform whose storage and alarm do not fail
abbrev pub IsReliable : JobEnv → Type 0
IsReliable env = env.faults ≡ none
