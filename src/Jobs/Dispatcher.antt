-- ===== src/Jobs/Dispatcher.antt =====
-- packages/jobs/src/runtime/dispatcher.ts, and the two entries of a durable object in
-- packages/jobs/src/engine/engine.ts: a request goes to the handler of its kind, an alarm to that of
-- the metadata.
pub mod Forgotten
pub mod Stale
pub mod Wrapped
pub mod Ended
use durable_effect.Prelude.{ℕ, ◌+◌, String, Option, none, some, List, [], ◌∷◌}
use durable_effect.Jobs.Errors.{JobType, JobError}
use durable_effect.Jobs.World.{
  JobMetadata, JobWorld, Outcome, ok, err, die, Eff, pure, raise, ◌>>=◌,
}
use durable_effect.Jobs.Services.Metadata
use durable_effect.Jobs.Continuous
use durable_effect.Jobs.Continuous.{ContinuousRequest, ContinuousResponse}
use durable_effect.Jobs.Debounce
use durable_effect.Jobs.Debounce.{DebounceRequest, DebounceResponse}
use durable_effect.Jobs.Task
use durable_effect.Jobs.Task.{TaskRequest, TaskResponse}

-- A worker pool has no handler, so that its requests are refused whatever they ask.
pub data JobRequest : Type 0 where
  continuous : ContinuousRequest → JobRequest
  debounce : DebounceRequest → JobRequest
  task : TaskRequest → JobRequest
  worker_pool : (name : String) → JobRequest

pub data JobResponse : Type 0 where
  continuous : ContinuousResponse → JobResponse
  debounce : DebounceResponse → JobResponse
  task : TaskResponse → JobResponse

-- `handle`
unfoldable pub dispatch : JobRequest → Eff JobResponse
dispatch (JobRequest.continuous request) = do
  r ← Continuous.handle_request request
  pure (JobResponse.continuous r)
dispatch (JobRequest.debounce request) = do
  r ← Debounce.handle_request request
  pure (JobResponse.debounce r)
dispatch (JobRequest.task request) = do r ← Task.handle_request request; pure (JobResponse.task r)
dispatch (JobRequest.worker_pool name) =
    raise (JobError.unknown_job_type "workerPool (handler not implemented)")

unfoldable pub alarm_of : JobType → Eff (Unit {0})
alarm_of JobType.continuous = Continuous.handle_alarm
alarm_of JobType.debounce = Debounce.handle_alarm
alarm_of JobType.task = Task.handle_alarm
alarm_of JobType.worker_pool = pure tt

unfoldable pub alarm_for : Option JobMetadata → Eff (Unit {0})
alarm_for none = pure tt
alarm_for (some meta) = alarm_of meta.type

-- `handleAlarm`
unfoldable pub dispatch_alarm : Eff (Unit {0})
dispatch_alarm = do meta ← Metadata.get_meta; alarm_for meta

-- One run of the alarm of the object: the platform takes the alarm that is due before it calls the
-- object. What the platform does about a run that fails is not part of it.
unfoldable pub fire_alarm : Eff (Unit {0})
fire_alarm env w = dispatch_alarm env (record w { scheduled_time = none })

-- a run that fails, with a failure or a defect, is repeated
abbrev pub unless_failed :
    Outcome (Unit {0}) × JobWorld → Outcome (Unit {0}) × JobWorld → Outcome (Unit {0}) × JobWorld
unless_failed (ok a, w) again = (ok tt, w)
unless_failed (err e, w) again = again
unless_failed (die e, w) again = again

-- The alarm of the object with the platform's repeats of a run that fails, each after one of the
-- waits given. The platform repeats an alarm up to six times, after waits that grow from two seconds
-- (designs/crash-recovery-detection.md).
unfoldable pub fire_repeated : (waits : List ℕ) → Eff (Unit {0})
fire_repeated [] env w = fire_alarm env w
fire_repeated (wait ∷ waits) env w =
    let first = fire_alarm env w in
    let again =
      fire_repeated waits env (record first.1 { current_time = first.1.current_time + wait }) in
    unless_failed first again
