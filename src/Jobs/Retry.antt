-- ===== src/Jobs/Retry.antt =====
-- packages/jobs/src/retry/executor.ts: the retries of a job's body, which the alarm carries on. A
-- failure of the storage or of the alarm is a defect here. The clock does not run backwards.
pub mod Attempts
pub mod Exhaustion
use durable_effect.Prelude.{
  ℕ, ◌+◌, ◌-◌, String, Bool, true, Option, none, some, leb, ltb, or_else, ◌==◌, if◌then◌else◌,
}
use durable_effect.Retry.{resolve_delay}
use durable_effect.Jobs.Errors.{JobType, JobKey, JobError, ExhaustedReason}
use durable_effect.Jobs.Bodies.{JobRetryConfig, When}
use durable_effect.Jobs.World.{Eff, pure, raise, defect, asks, catch_all, ◌>>=◌, ◌>>◌}
use durable_effect.Jobs.Platform.{get, put, delete, now}
use durable_effect.Jobs.Services.Alarm

unfoldable pub get_attempt : Eff ℕ
get_attempt = do attempt ← get JobKey.retry_attempt (λ s. s.retry_attempt); pure (or_else attempt 1)

unfoldable pub set_attempt : ℕ → Eff (Unit {0})
set_attempt attempt = put JobKey.retry_attempt (λ s. record s { retry_attempt = some attempt })

unfoldable pub get_started_at : Eff (Option ℕ)
get_started_at = get JobKey.retry_started_at (λ s. s.retry_started_at)

unfoldable pub set_started_at : ℕ → Eff (Unit {0})
set_started_at timestamp =
    put JobKey.retry_started_at (λ s. record s { retry_started_at = some timestamp })

unfoldable pub set_last_error : JobError → Eff (Unit {0})
set_last_error error = put JobKey.retry_last_error (λ s. record s { retry_last_error = some error })

unfoldable pub get_retry_scheduled_at : Eff (Option ℕ)
get_retry_scheduled_at = get JobKey.retry_scheduled_at (λ s. s.retry_scheduled_at)

unfoldable pub set_scheduled_at : ℕ → Eff (Unit {0})
set_scheduled_at timestamp =
    put JobKey.retry_scheduled_at (λ s. record s { retry_scheduled_at = some timestamp })

unfoldable pub reset : Eff (Unit {0})
reset = do
  delete JobKey.retry_attempt (λ s. s.retry_attempt) (λ s. record s { retry_attempt = none })
  delete JobKey.retry_started_at (λ s. s.retry_started_at)
      (λ s. record s { retry_started_at = none })
  delete JobKey.retry_last_error (λ s. s.retry_last_error)
      (λ s. record s { retry_last_error = none })
  delete JobKey.retry_scheduled_at (λ s. s.retry_scheduled_at)
      (λ s. record s { retry_scheduled_at = none })
  pure tt

unfoldable pub is_retrying : Eff Bool
is_retrying = do attempt ← get_attempt; pure (ltb 1 attempt)

-- the signal of a body that is not retried any more, after the retry state has been reset
unfoldable pub exhaust : JobType → String → ℕ → JobError → ℕ → ExhaustedReason → Eff (Unit {0})
exhaust job_type job_name attempts last_error total_duration_ms reason = do
  reset
  instance_id ← asks (λ env. env.instance_id)
  raise (
      JobError.retry_exhausted_signal job_type job_name instance_id attempts last_error
        total_duration_ms reason)

-- `Some` of the time that the retries have taken, where it has reached `maxDuration`
unfoldable pub past_duration : Option ℕ → Option ℕ → ℕ → Option ℕ
past_duration (some max_ms) (some started_at) time =
    if leb max_ms (time - started_at) then some (time - started_at) else none
past_duration _ _ time = none

-- the check of `maxDuration`, for which the start is read where there is one
unfoldable pub check_duration : Option ℕ → ℕ → Eff (Option ℕ)
check_duration none time = pure none
check_duration (some max_ms) time = do
  started_at ← get_started_at
  pure (past_duration (some max_ms) started_at time)

-- The delay before the next attempt, with jitter unless that is turned off.
unfoldable pub delay_of : (ℕ → ℕ) → JobRetryConfig → ℕ → ℕ
delay_of add_jitter config attempt =
    if or_else config.jitter true
    then add_jitter (resolve_delay config.delay attempt)
    else resolve_delay config.delay attempt

-- the next attempt of a body that has failed
unfoldable pub schedule_next_attempt : JobRetryConfig → ℕ → ℕ → JobError → Eff (Unit {0})
schedule_next_attempt config attempt time error = do
  set_last_error error
  set_attempt (attempt + 1)
  add_jitter ← asks (λ env. env.add_jitter)
  let resume_at = time + delay_of add_jitter config attempt
  Alarm.schedule (When.number resume_at)
  set_scheduled_at resume_at
  raise (JobError.retry_scheduled_signal resume_at (attempt + 1))

unfoldable pub retry_or_exhaust :
    JobRetryConfig → JobType → String → ℕ → ℕ → JobError → Eff (Unit {0})
retry_or_exhaust config job_type job_name attempt time error =
    if leb config.max_attempts attempt
    then (do
      started_at ← get_started_at
      exhaust job_type job_name attempt error (time - or_else started_at time)
          ExhaustedReason.max_attempts_exceeded)
    else schedule_next_attempt config attempt time error

-- What follows the body. A `TerminateSignal` is handed on and is never retried.
unfoldable pub after_body : JobRetryConfig → JobType → String → ℕ → ℕ → JobError → Eff (Unit {0})
after_body config job_type job_name attempt time (JobError.terminate_signal reason purge_state) =
    raise (JobError.terminate_signal reason purge_state)
after_body config job_type job_name attempt time error =
    retry_or_exhaust config job_type job_name attempt time error

-- how the body has ended, as a value; a defect passes through
unfoldable pub outcome_of : Eff (Unit {0}) → Eff (Option JobError)
outcome_of body = catch_all (do body; pure none) (λ e. pure (some e))

unfoldable pub conclude :
    JobRetryConfig → JobType → String → ℕ → ℕ → Option JobError → Eff (Unit {0})
conclude config job_type job_name attempt time none = reset
conclude config job_type job_name attempt time (some error) =
    after_body config job_type job_name attempt time error

unfoldable pub run_attempt :
    Eff (Unit {0}) → JobRetryConfig → JobType → String → ℕ → ℕ → Option ℕ → Eff (Unit {0})
run_attempt body config job_type job_name attempt time (some elapsed) =
    exhaust job_type job_name attempt JobError.max_duration elapsed
      ExhaustedReason.max_duration_exceeded
run_attempt body config job_type job_name attempt time none = do
  ended ← outcome_of body
  conclude config job_type job_name attempt time ended

-- a failure of the storage or of the alarm becomes a defect
unfoldable pub die_of : JobError → Eff (Unit {0})
die_of (JobError.storage_error op key) = defect (JobError.storage_error op key)
die_of (JobError.scheduler_error op) = defect (JobError.scheduler_error op)
die_of e = raise e

unfoldable pub execute_with_retry :
    Eff (Unit {0}) → JobRetryConfig → JobType → String → Eff (Unit {0})
execute_with_retry body config job_type job_name =
    catch_all
      (do
        attempt ← get_attempt
        time ← now
        if attempt == 1 then set_started_at time else pure tt
        past ← check_duration config.max_duration time
        run_attempt body config job_type job_name attempt time past)
      die_of
