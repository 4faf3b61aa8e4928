-- ===== src/Step/Deadline.antt =====
-- The timeout of a step that is retried: the deadline counts from the first start of the step.
use durable_effect.Prelude.{
  ℕ, suc, ◌+◌, ◌-◌, ◌≤◌, ◌<◌, ◌≡◌, refl, ap, String, Bool, true, false, Option, none, some, arith,
  ltb, leb, or_else, update_self,
}
use durable_effect.Errors.{Error, retry_signal}
use durable_effect.Program.{err, Run, RetryDelay, StepConfig}
use durable_effect.World.{Env, World, IsReliable, asks, ◌>>=◌}
use durable_effect.World.Storage.{now, emit_event, advance_time}
use durable_effect.World.Reliable.{get-reliable, put-reliable}
use durable_effect.Context.{workflow_name, execution_id}
use durable_effect.StepContext
use durable_effect.Step.{
  step, cached_or_run, run_step, check_exhaustion, execute_effect, execute_within, run_effect,
  conclude, handle_retryable, schedule_retry,
}
use durable_effect.Step.Retries.{
  IsOrdinary, IsAt, always_failing, retry_config, delay_after, handle_failure-ordinary,
}

-- the documented behaviour of `Effect.timeoutFail` that is used: a run that ends in time is kept
abbrev pub KeepsFast : Env → Type 0
KeepsFast env =
    (remaining : ℕ) (x : Error) (run : Run)
    → run.elapsed < remaining
    → env.timeout_fail remaining x run ≡ run

module _ (name : String) (e : Error) (ordinary : IsOrdinary e) (elapsed : ℕ → ℕ → ℕ) (max : ℕ)
    (delay : Option RetryDelay) (jitter : Option Bool) (timeout : ℕ) (env : Env)
    (reliable : IsReliable env) (fast : KeepsFast env) where
  abbrev timed : StepConfig
  timed = record (always_failing name e elapsed (retry_config max delay jitter)) {
    timeout = some (suc timeout);
  }

  first_attempt :
      (w : World)
      → IsAt name 1 w
      → w.store.step_started_at name ≡ none
      → ltb (max + 1) 1 ≡ false
      → ltb max 1 ≡ false
      → leb (w.current_time + suc timeout) w.current_time ≡ false
      → elapsed w.current_time 1 < w.current_time + suc timeout - w.current_time
      → let r = step timed env w in
        (r.0
          ≡ err (
              Error.pause_signal (
                retry_signal
                  (w.current_time + delay_after env (retry_config max delay jitter) 1)
                  name
                  2)))
        × IsAt name 2 r.1
        × (r.1.store.step_started_at name ≡ some w.current_time)
  unfolding step cached_or_run workflow_name execution_id run_step StepContext.get_result
      StepContext.started_at StepContext.attempt StepContext.set_started_at check_exhaustion
      execute_effect execute_within run_effect conclude handle_retryable schedule_retry
      StepContext.set_last_error StepContext.increment_attempt now emit_event advance_time asks
      ◌>>=◌
  first_attempt w i s few fewer before quick =
      simp
        (
          get-reliable env reliable,
          put-reliable env reliable,
          s,
          few,
          fewer,
          before,
          fast _ _ _ quick,
          i.running,
          i.no_result,
          i.attempt,
          handle_failure-ordinary (retry_config max delay jitter) e ordinary,
        )
        (
          refl,
          record {
            running = i.running;
            no_result = i.no_result;
            attempt = ap (λ o. or_else o 1) (update_self w.store.step_attempt name (some 2));
          },
          update_self (λ _. none) name (some w.current_time),
        )

  past_deadline :
      (w : World) (started : ℕ)
      → IsAt name 2 w
      → w.store.step_started_at name ≡ some started
      → ltb (max + 1) 2 ≡ false
      → leb (started + suc timeout) w.current_time ≡ true
      → let r = step timed env w in
        (r.0 ≡ err (Error.workflow_timeout name (suc timeout) (w.current_time - started)))
        × (r.1.current_time ≡ w.current_time)
  unfolding step cached_or_run workflow_name execution_id run_step StepContext.get_result
      StepContext.started_at StepContext.attempt StepContext.set_started_at check_exhaustion
      execute_effect execute_within run_effect conclude now emit_event ◌>>=◌
  past_deadline w started i s few closed =
      simp (get-reliable env reliable, s, few, closed, i.running, i.no_result, i.attempt)
        (refl, refl)

  -- With a storage that does not fail, a step with a timeout and at least one retry, whose first
  -- attempt fails before the timeout with an ordinary error, pauses for its retry. Where the retry
  -- begins when the timeout has passed since the first attempt began, the second attempt gets no
  -- time at all: it fails with a timeout, and its effect is not run.
  pub retry_past_deadline :
      (w : World) (time : ℕ)
      → IsAt name 1 w
      → w.store.step_started_at name ≡ none
      → 1 ≤ max
      → elapsed w.current_time 1 < suc timeout
      → w.current_time + suc timeout ≤ time
      → let first = step timed env w in
        let second = step timed env (record first.1 { current_time = time }) in
        (first.0
          ≡ err (
              Error.pause_signal (
                retry_signal
                  (w.current_time + delay_after env (retry_config max delay jitter) 1)
                  name
                  2)))
        × (second.0 ≡ err (Error.workflow_timeout name (suc timeout) (time - w.current_time)))
        × (second.1.current_time ≡ time)
  retry_past_deadline w time i s few quick late =
      let first = first_attempt w i s (ground arith) (ground arith) (ground arith) (omega arith) in
      let at = first.1 in
      let second =
        past_deadline (record (step timed env w).1 { current_time = time }) w.current_time
          (record { running = at.running; no_result = at.no_result; attempt = at.attempt }) first.2
          (ground arith) (ground arith) in
      (first.0, second.0, second.1)
