-- ===== src/Step/Retries.antt =====
-- A step whose effect fails every time: how often it is run, when it pauses, and how it ends. The
-- storage does not fail; the configuration has neither a timeout nor a maximal duration.
use durable_effect.Prelude.{
  ℕ, ◌+◌, ◌≤◌, ◌≡◌, refl, ap, String, Bool, true, false, Option, none, some, List, [], ◌∷◌, arith,
  length, ltb, or_else, update_self, Bool-cases, if◌then◌else◌, inl, inr,
}
use durable_effect.Errors.{Error, retry_signal}
use durable_effect.Program.{err, RetryDelay, RetryConfig, StepConfig}
use durable_effect.World.{Env, World, IsReliable, asks, ◌>>=◌}
use durable_effect.World.Storage.{now, emit_event, advance_time}
use durable_effect.World.Reliable.{get-reliable, put-reliable}
use durable_effect.Context.{workflow_name, execution_id}
use durable_effect.Retry.{get_delay}
use durable_effect.Recovery.Repeated.{later}
use durable_effect.StepContext
use durable_effect.Step.{
  StepCall, step, cached_or_run, run_step, check_exhaustion, execute_effect, run_effect, conclude,
  handle_failure, handle_retryable, schedule_retry,
}

-- neither a pause nor a misuse of the scope
abbrev pub IsOrdinary : Error → Type 0
IsOrdinary (Error.pause_signal _) = ⊥
IsOrdinary (Error.step_scope_error _ _) = ⊥
IsOrdinary _ = Unit

abbrev pub retry_config : ℕ → Option RetryDelay → Option Bool → RetryConfig
retry_config max_attempts delay jitter = record {
  max_attempts = max_attempts;
  delay = delay;
  jitter = jitter;
  is_retryable = none;
  max_duration = none;
}

-- fails with the error each time, after a time that the run decides
abbrev pub always_failing : String → Error → (ℕ → ℕ → ℕ) → RetryConfig → StepConfig
always_failing name e elapsed retry = record {
  name = name;
  execute = λ time attempt. record { outcome = err e; elapsed = elapsed time attempt };
  retry = some retry;
  timeout = none;
}

-- the delay before the attempt that follows
abbrev pub delay_after : Env → RetryConfig → ℕ → ℕ
delay_after env retry attempt =
    let base_delay = get_delay retry.delay attempt in
    if or_else retry.jitter true then env.add_jitter base_delay else base_delay

-- the workflow is not cancelled, and the step has no result and is at the attempt
pub record IsAt (name : String) (k : ℕ) (w : World) : Type 0 where
  pub running : or_else w.store.cancelled false ≡ false
  pub no_result : w.store.step_result name ≡ none
  pub attempt : or_else (w.store.step_attempt name) 1 ≡ k

pub handle_failure-ordinary :
    (retry : RetryConfig) (e : Error)
    → IsOrdinary e
    → (c : StepCall) (env : Env) (w : World)
    → handle_failure (some retry) c e env w ≡ handle_retryable retry c e env w
unfolding handle_failure
handle_failure-ordinary retry (Error.pause_signal s) o c env w = absurd o
handle_failure-ordinary retry (Error.step_scope_error a b) o c env w = absurd o
handle_failure-ordinary retry e o c env w = refl

-- the step is reached again and again, after the times listed
pub visits : List ℕ → StepConfig → Env → World → World
visits [] config env w = w
visits (ms ∷ rest) config env w = visits rest config env (step config env (later ms w)).1

later-IsAt : {name : String} {k : ℕ} {w : World} (ms : ℕ) → IsAt name k w → IsAt name k (later ms w)
later-IsAt ms i = record { running = i.running; no_result = i.no_result; attempt = i.attempt }

module _ (name : String) (e : Error) (ordinary : IsOrdinary e) (elapsed : ℕ → ℕ → ℕ) (max : ℕ)
    (delay : Option RetryDelay) (jitter : Option Bool) (env : Env) (reliable : IsReliable env) where
  abbrev retry : RetryConfig
  retry = retry_config max delay jitter

  abbrev config : StepConfig
  config = always_failing name e elapsed retry

  -- the run at an attempt that may be followed by another
  step-pauses_from :
      (o : Option ℕ) (k : ℕ) (w : World)
      → w.store.step_started_at name ≡ o
      → IsAt name k w
      → ltb (max + 1) k ≡ false
      → ltb max k ≡ false
      → let r = step config env w in
        (r.0
          ≡ err (
              Error.pause_signal
                (retry_signal (w.current_time + delay_after env retry k) name (k + 1))))
        × IsAt name (k + 1) r.1
  unfolding step cached_or_run workflow_name execution_id run_step StepContext.get_result
      StepContext.started_at StepContext.attempt StepContext.set_started_at check_exhaustion
      execute_effect run_effect conclude handle_retryable schedule_retry StepContext.set_last_error
      StepContext.increment_attempt now emit_event advance_time asks ◌>>=◌
  step-pauses_from none k w s i few fewer =
      simp
        (
          get-reliable env reliable,
          put-reliable env reliable,
          s,
          few,
          fewer,
          i.running,
          i.no_result,
          i.attempt,
          handle_failure-ordinary retry e ordinary,
        )
        (
          refl,
          record {
            running = i.running;
            no_result = i.no_result;
            attempt = ap (λ o. or_else o 1) (update_self w.store.step_attempt name (some (k + 1)));
          },
        )
  step-pauses_from (some t) k w s i few fewer =
      simp
        (
          get-reliable env reliable,
          put-reliable env reliable,
          s,
          few,
          fewer,
          i.running,
          i.no_result,
          i.attempt,
          handle_failure-ordinary retry e ordinary,
        )
        (
          refl,
          record {
            running = i.running;
            no_result = i.no_result;
            attempt = ap (λ o. or_else o 1) (update_self w.store.step_attempt name (some (k + 1)));
          },
        )

  step-pauses :
      (k : ℕ) (w : World)
      → IsAt name k w
      → k ≤ max
      → let r = step config env w in
        (r.0
          ≡ err (
              Error.pause_signal
                (retry_signal (w.current_time + delay_after env retry k) name (k + 1))))
        × IsAt name (k + 1) r.1
  step-pauses k w i h = step-pauses_from _ k w refl i (ground arith) (ground arith)

  step-gives_up_from :
      (o : Option ℕ) (k : ℕ) (w : World)
      → w.store.step_started_at name ≡ o
      → IsAt name k w
      → ltb (max + 1) k ≡ false
      → ltb max k ≡ true
      → (step config env w).0 ≡ err (Error.retry_exhausted name k e)
  unfolding step cached_or_run workflow_name execution_id run_step StepContext.get_result
      StepContext.started_at StepContext.attempt StepContext.set_started_at check_exhaustion
      execute_effect run_effect conclude handle_retryable now emit_event advance_time asks ◌>>=◌
  step-gives_up_from none k w s i few over = simp (
    get-reliable env reliable,
    put-reliable env reliable,
    s,
    few,
    over,
    i.running,
    i.no_result,
    i.attempt,
    handle_failure-ordinary retry e ordinary,
  )
  step-gives_up_from (some t) k w s i few over = simp (
    get-reliable env reliable,
    s,
    few,
    over,
    i.running,
    i.no_result,
    i.attempt,
    handle_failure-ordinary retry e ordinary,
  )

  step-gives_up :
      (w : World)
      → IsAt name (max + 1) w
      → (step config env w).0 ≡ err (Error.retry_exhausted name (max + 1) e)
  step-gives_up w i = step-gives_up_from _ (max + 1) w refl i (ground arith) (ground arith)

  visits-IsAt :
      (times : List ℕ) (k m : ℕ) (w : World)
      → IsAt name k w
      → k + length times ≤ max + 1
      → m ≡ k + length times
      → IsAt name m (visits times config env w)
  unfolding visits
  visits-IsAt [] k m w i h e = let same : m ≡ k = omega arith in rw same i
  visits-IsAt (ms ∷ rest) k m w i h e =
      visits-IsAt rest (k + 1) m _ (step-pauses k (later ms w) (later-IsAt ms i) (omega arith)).1
        (omega arith) (omega arith)

  -- A step with neither a timeout nor a maximal duration, whose effect fails every time with the
  -- same ordinary error, is run once and then once more for each of the `maxAttempts` retries,
  -- whatever times pass between, on a storage that does not fail and with the workflow not
  -- cancelled. Each run but the last ends in a pause that carries the number of the next attempt
  -- and, for its time, the time at which the run began and the delay; the last one fails for good,
  -- with the count of all the runs and the error of the effect.
  pub retries_bounded :
      (times : List ℕ) (w : World)
      → IsAt name 1 w
      → length times ≤ max
      → let w' = visits times config env w in
        let n = length times in
        (step config env w').0 ≡ (
          if ltb n max
          then err (
              Error.pause_signal
                (retry_signal (w'.current_time + delay_after env retry (1 + n)) name (2 + n)))
          else err (Error.retry_exhausted name (max + 1) e))
  retries_bounded times w i h = elim (Bool-cases (ltb (length times) max)) [
    | inl few ↦
        let next : 2 + length times ≡ 1 + length times + 1 = omega arith in
        rw (few, next)
          (step-pauses _ _ (visits-IsAt times 1 _ w i (omega arith) refl) (ground arith)).0
    | inr over ↦ rw over (step-gives_up _ (visits-IsAt times 1 _ w i (omega arith) (ground arith)))
  ]
