-- ===== src/Jobs/Execution.antt =====
-- packages/jobs/src/services/execution.ts: one run of a job's body, with its state loaded before it
-- and stored after it, and its retries and signals turned into a result.
pub mod Flags
use durable_effect.Prelude.{
  ℕ, ◌-◌, String, Bool, true, false, not, ◌&&◌, ◌||◌, Option, none, some, is_some, ltb, or_else,
  if◌then◌else◌,
}
use durable_effect.State.{Unknown}
use durable_effect.Jobs.Errors.{JobType, JobError, ExhaustedReason}
use durable_effect.Jobs.Bodies.{Schema, JobRetryConfig}
use durable_effect.Jobs.World.{
  JobEventBody, FailedError, StateHolder, Eff, pure, raise, asks, reads, modify, catch_all,
  map_error, ◌>>=◌, ◌>>◌,
}
use durable_effect.Jobs.Platform.{now, emit_event}
use durable_effect.Jobs.Services.{purge}
use durable_effect.Jobs.Services.EntityState
use durable_effect.Jobs.Retry.{get_attempt, execute_with_retry}

-- `ExecutionContextBase`, less the functions on the state holder
pub record ContextBase : Type 0 where
  pub instance_id : String
  pub run_count : ℕ
  pub attempt : ℕ
  pub is_retry : Bool

-- `ExecuteOptions`; `run` makes the context and runs the body with it
pub record ExecuteOptions : Type 0 where
  pub job_type : JobType
  pub job_name : String
  pub schema : Schema
  pub retry_config : Option JobRetryConfig
  pub run_count : Option ℕ
  pub allow_null_state : Bool
  pub id : Option String
  pub include_state_in_events : Bool
  pub run : ContextBase → Eff (Unit {0})

-- Why a run was terminated: by the body, or as its retries ran out after so many attempts.
pub data TerminateReason : Type 0 where
  given : String → TerminateReason
  retry_exhausted_after : (attempts : ℕ) → TerminateReason

pub record ExecutionResult : Type 0 where
  pub success : Bool
  pub retry_scheduled : Bool
  pub terminated : Bool
  pub rescheduled : Bool
  pub retry_exhausted : Bool
  pub terminate_reason : Option TerminateReason

abbrev pub no_flags : ExecutionResult
no_flags = record {
  success = false;
  retry_scheduled = false;
  terminated = false;
  rescheduled = false;
  retry_exhausted = false;
  terminate_reason = none;
}

unfoldable pub given_reason : Option String → Option TerminateReason
given_reason none = none
given_reason (some reason) = some (TerminateReason.given reason)

-- the functions on the state holder
unfoldable pub init_holder : Option Unknown → Eff (Unit {0})
init_holder loaded = modify (λ w. record w { holder = record { current = loaded; dirty = false } })

unfoldable pub holder_state : Eff (Option Unknown)
holder_state = reads (λ w. w.holder.current)

unfoldable pub hold_state : Unknown → Eff (Unit {0})
hold_state s = modify (λ w. record w { holder = record { current = some s; dirty = true } })

-- an error of the execution, unless it is one already
unfoldable pub wrap_execution : ExecuteOptions → String → JobError → JobError
wrap_execution o instance_id (JobError.execution_error a b c d) = JobError.execution_error a b c d
wrap_execution o instance_id e = JobError.execution_error o.job_type o.job_name instance_id e

unfoldable pub emit : ExecuteOptions → JobEventBody → Eff (Unit {0})
emit o body = emit_event o.job_type o.job_name o.id body

-- `cleanup.terminate()`, whose failures are ignored
unfoldable pub clean_up : Eff (Unit {0})
clean_up = catch_all purge (λ e. pure tt)

-- what is done with a failure of the body or a signal of the retries, and the flags that it sets
unfoldable pub on_error : ExecuteOptions → ℕ → Option Unknown → JobError → Eff ExecutionResult
on_error o attempt pre (JobError.retry_scheduled_signal resume_at next_attempt) = do
  emit o (
      JobEventBody.job_failed (FailedError.retry_scheduled_for next_attempt) (or_else o.run_count 0)
        (next_attempt - 1) true pre)
  pure (record no_flags { retry_scheduled = true })
on_error o attempt pre (JobError.terminate_signal reason purge_state) = do
  clean_up
  pure (record no_flags { terminated = true; terminate_reason = given_reason reason })
on_error o attempt pre (JobError.retry_exhausted_signal type name id attempts last total reason) =
    do
      emit o (JobEventBody.job_retry_exhausted attempts ExhaustedReason.max_attempts_exceeded)
      clean_up
      pure (record no_flags {
        retry_exhausted = true;
        terminated = true;
        terminate_reason = some (TerminateReason.retry_exhausted_after attempts);
      })
on_error o attempt pre error = do
  instance_id ← asks (λ env. env.instance_id)
  emit o (
      JobEventBody.job_failed (FailedError.of_error error) (or_else o.run_count 0) attempt false
        pre)
  raise (wrap_execution o instance_id error)

unfoldable pub retried : ExecuteOptions → Option JobRetryConfig → Eff (Unit {0}) → Eff (Unit {0})
retried o none body = body
retried o (some config) body = execute_with_retry body config o.job_type o.job_name

-- the state that the body has set, where it is to be stored
unfoldable pub dirty_state : ExecutionResult → StateHolder → Option Unknown
dirty_state r holder =
    if holder.dirty && not r.terminated && not r.retry_scheduled then holder.current else none

unfoldable pub store_state : ExecuteOptions → Option Unknown → Eff (Unit {0})
store_state o none = pure tt
store_state o (some s) = do
  instance_id ← asks (λ env. env.instance_id)
  map_error (wrap_execution o instance_id) (EntityState.set_state o.schema s)

abbrev pub is_success : ExecutionResult → Bool
is_success r =
    not r.retry_scheduled && not r.terminated && not r.rescheduled && not r.retry_exhausted

-- the event of a success
unfoldable pub emit_executed :
    ExecuteOptions → (start_time attempt : ℕ) → Option Unknown → Eff (Unit {0})
emit_executed o start_time attempt pre = do
  time ← now
  emit o (JobEventBody.job_executed (or_else o.run_count 0) (time - start_time) attempt pre)

unfoldable pub finish :
    ExecuteOptions
    → (start_time attempt : ℕ) → Option Unknown
    → ExecutionResult
    → Eff ExecutionResult
finish o start_time attempt pre r = do
  if is_success r then emit_executed o start_time attempt pre else pure tt
  holder ← reads (λ w. w.holder)
  store_state o (dirty_state r holder)
  pure (record r { success = is_success r })

unfoldable pub context_base : ExecuteOptions → ℕ → String → ContextBase
context_base o attempt instance_id = record {
  instance_id = instance_id;
  run_count = or_else o.run_count 0;
  attempt = attempt;
  is_retry = ltb 1 attempt;
}

-- what an execution does once the state is there
unfoldable pub execute_loaded : ExecuteOptions → ℕ → Option Unknown → Eff ExecutionResult
execute_loaded o start_time loaded = do
  let pre = if o.include_state_in_events then loaded else none
  init_holder loaded
  attempt ← catch_all get_attempt (λ e. pure 1)
  instance_id ← asks (λ env. env.instance_id)
  r ←
      catch_all
        (do retried o o.retry_config (o.run (context_base o attempt instance_id)); pure no_flags)
        (on_error o attempt pre)
  finish o start_time attempt pre r

-- `JobExecutionService.execute`
unfoldable pub execute : ExecuteOptions → Eff ExecutionResult
execute o = do
  start_time ← now
  instance_id ← asks (λ env. env.instance_id)
  loaded ←
      map_error (λ e. JobError.execution_error o.job_type o.job_name instance_id e)
        (EntityState.get_state o.schema)
  if is_some loaded || o.allow_null_state
      then execute_loaded o start_time loaded
      else pure (record no_flags { terminated = true })
