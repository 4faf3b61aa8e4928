-- ===== src/Step/Isolation.antt =====
-- What a step cannot touch: the record of any other step, and the pause points of the workflow.
use durable_effect.Prelude.{
  ℕ, zero, suc, String, ◌≡◌, refl, ◌≢◌, Option, none, some, update, update_ne,
}
use durable_effect.State.{Unknown}
use durable_effect.Errors.{Error, Key}
use durable_effect.Program.{Result, ok, err, RetryConfig, StepConfig}
use durable_effect.World.{Env, World, Store, CachedStepResult, StepResultMeta}
use durable_effect.World.Storage.{put}
use durable_effect.World.Outcomes.{Post-world}
use durable_effect.World.Keeps.{Keeps, Keeps-put, Keeps-raise, keeps_rules}
use durable_effect.Machine.{mark_step_completed}
use durable_effect.Context.{workflow_name, execution_id}
use durable_effect.StepContext
use durable_effect.Step.{
  StepCall, step, cached_or_run, run_step, check_exhaustion, execute_effect, execute_within,
  run_effect, conclude, handle_failure, handle_retryable, schedule_retry, cache_result,
}

-- a step's record, and the workflow's pause points
pub record Elsewhere : Type 0 where
  pub attempt : Option ℕ
  pub started_at : Option ℕ
  pub result : Option CachedStepResult
  pub last_error : Option Error
  pub current_pause_index : Option ℕ
  pub completed_pause_index : Option ℕ
  pub pending_resume_at : Option ℕ

abbrev pub elsewhere : String → Store → Elsewhere
elsewhere name s = record {
  attempt = s.step_attempt name;
  started_at = s.step_started_at name;
  result = s.step_result name;
  last_error = s.step_last_error name;
  current_pause_index = s.current_pause_index;
  completed_pause_index = s.completed_pause_index;
  pending_resume_at = s.pending_resume_at;
}

module _ (name other : String) (differ : name ≢ other) (r : Elsewhere) where
  abbrev Apart : Store → Type 0
  Apart s = elsewhere other s ≡ r

  set_started_at-Keeps : (time : ℕ) → Keeps Apart (StepContext.set_started_at name time)
  unfolding StepContext.set_started_at
  set_started_at-Keeps time =
      Keeps-put _ _ (λ s h. rw (update_ne s.step_started_at name other (some time) differ) h)

  set_last_error-Keeps : (e : Error) → Keeps Apart (StepContext.set_last_error name e)
  unfolding StepContext.set_last_error
  set_last_error-Keeps e =
      Keeps-put _ _ (λ s h. rw (update_ne s.step_last_error name other (some e) differ) h)

  set_result-Keeps :
      (v : Unknown) (meta : StepResultMeta) → Keeps Apart (StepContext.set_result name v meta)
  unfolding StepContext.set_result
  set_result-Keeps v meta =
      Keeps-put _ _ (λ s h. rw (update_ne s.step_result name other _ differ) h)

  put_attempt-Keeps :
      (n : ℕ)
      → Keeps Apart (
          put
            (Key.step_attempt name)
            (λ s. record s { step_attempt = update s.step_attempt name (some n) }))
  put_attempt-Keeps n =
      Keeps-put _ _ (λ s h. rw (update_ne s.step_attempt name other (some n) differ) h)

  mark-Keeps : (step_name : String) → Keeps Apart (mark_step_completed step_name)
  unfolding mark_step_completed
  mark-Keeps step_name = search keeps_rules depth 8

module _ (other : String) (r : Elsewhere) where
  module _ (c : StepCall) (differ : c.config.name ≢ other) where
    check-Keeps :
        (retry : Option RetryConfig)
        → Keeps (Apart c.config.name other differ r) (check_exhaustion retry c)
    unfolding check_exhaustion StepContext.last_error
    check-Keeps none = search keeps_rules
    check-Keeps (some retry) = search keeps_rules depth 10

    effect-Keeps :
        (timeout : Option ℕ) → Keeps (Apart c.config.name other differ r) (execute_effect timeout c)
    unfolding execute_effect execute_within run_effect
    effect-Keeps none = search keeps_rules
    effect-Keeps (some zero) = search keeps_rules
    effect-Keeps (some (suc ms)) = search keeps_rules depth 10

    retry-Keeps :
        (retry : RetryConfig) (e : Error)
        → Keeps (Apart c.config.name other differ r) (handle_retryable retry c e)
    unfolding handle_retryable schedule_retry StepContext.increment_attempt
    retry-Keeps retry e =
        search
          (
            keeps_rules,
            set_last_error-Keeps c.config.name other differ r,
            put_attempt-Keeps c.config.name other differ r,
          )
          depth 14

    failure-Keeps :
        (retry : Option RetryConfig) (e : Error)
        → Keeps (Apart c.config.name other differ r) (handle_failure retry c e)
    unfolding handle_failure
    failure-Keeps retry (Error.pause_signal s) = Keeps-raise _
    failure-Keeps retry (Error.step_scope_error o n) = Keeps-raise _
    failure-Keeps none e = search keeps_rules depth 8
    failure-Keeps (some retry) e = retry-Keeps retry e

    cache-Keeps : (v : Unknown) → Keeps (Apart c.config.name other differ r) (cache_result c v)
    unfolding cache_result StepContext.attempt
    cache-Keeps v =
        search
          (
            keeps_rules,
            set_result-Keeps c.config.name other differ r,
            mark-Keeps c.config.name other differ r,
          )
          depth 12

    conclude-Keeps :
        (o : Result Unknown) → Keeps (Apart c.config.name other differ r) (conclude c o)
    unfolding conclude
    conclude-Keeps (ok v) = cache-Keeps v
    conclude-Keeps (err e) = failure-Keeps c.config.retry e

  module _ (config : StepConfig) (differ : config.name ≢ other) where
    run_step-Keeps :
        (name : String) (id : Option String)
        → Keeps (Apart config.name other differ r) (run_step config name id)
    unfolding run_step StepContext.started_at StepContext.attempt
    run_step-Keeps name id =
        search
          (
            keeps_rules,
            set_started_at-Keeps config.name other differ r,
            λ (c : StepCall). check-Keeps c,
            λ (c : StepCall). effect-Keeps c,
            λ (c : StepCall). conclude-Keeps c,
          )
          depth 14

    cached-Keeps :
        (name : String) (id : Option String) (o : Option CachedStepResult)
        → Keeps (Apart config.name other differ r) (cached_or_run config name id o)
    unfolding cached_or_run
    cached-Keeps name id none = run_step-Keeps name id
    cached-Keeps name id (some v) = search keeps_rules

    step-Keeps : Keeps (Apart config.name other differ r) (step config)
    unfolding step workflow_name execution_id StepContext.get_result
    step-Keeps = search (keeps_rules, cached-Keeps) depth 12

-- Whatever a step does and however the storage fails, it leaves alone the attempt, the start time,
-- the result and the last error of every step of another name, and the pause points of the workflow.
pub step-elsewhere :
    (config : StepConfig) (other : String) (env : Env) (w : World)
    → config.name ≢ other
    → elsewhere other (step config env w).1.store ≡ elsewhere other w.store
step-elsewhere config other env w differ =
    Post-world _ ((step-Keeps other (elsewhere other w.store) config differ).at env w refl)
