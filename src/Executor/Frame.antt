-- ===== src/Executor/Frame.antt =====
-- What a workflow's own body cannot touch: the status, the identity, the cancellation flag, the
-- recovery counters and the purge record.
use durable_effect.Prelude.{ℕ, String, ◌≡◌, refl, Bool, Option, none, some, List, zero, suc}
use durable_effect.State.{Unknown, WorkflowStatus}
use durable_effect.Errors.{Error, PauseSignal}
use durable_effect.Program.{
  Result, ok, err, Program, Cause, Exit, success, failure, done, halt, RetryConfig, StepConfig,
}
use durable_effect.World.{Store, TerminalState, CachedStepResult, Env, World}
use durable_effect.World.Keeps.{
  Keeps, Keeps-raise, Keeps-catch_error, Keeps-bind, Keeps-result_of, keeps_rules,
}
use durable_effect.World.Outcomes.{Post-world}
use durable_effect.Machine.{
  get_completed_steps, mark_step_completed, set_pending_resume_at, clear_pending_resume_at,
}
use durable_effect.Context.{
  workflow_name, execution_id, increment_pause_index, should_execute_pause,
  set_completed_pause_index, pending_resume_at,
}
use durable_effect.Sleep.{sleep, sleep_at, sleep_until, sleep_until_at, begin_pause, finish_pause}
use durable_effect.StepContext
use durable_effect.Step
use durable_effect.Step.{
  StepCall, check_exhaustion, execute_effect, execute_within, run_effect, handle_retryable,
  schedule_retry, cache_result, conclude, run_step, cached_or_run,
}
use durable_effect.Executor
use durable_effect.Executor.{ExecutionContext, run_program, handle_exit, execute_body, execute}

pub record Control : Type 0 where
  pub status : Option WorkflowStatus
  pub name : Option String
  pub input : Option Unknown
  pub execution_id : Option String
  pub cancelled : Option Bool
  pub cancel_reason : Option String
  pub recovery_attempts : Option ℕ
  pub last_recovery_at : Option ℕ
  pub purge_scheduled : Option Bool
  pub purge_at : Option ℕ
  pub purge_reason : Option TerminalState

abbrev pub control : Store → Control
control s = record {
  status = s.status;
  name = s.name;
  input = s.input;
  execution_id = s.execution_id;
  cancelled = s.cancelled;
  cancel_reason = s.cancel_reason;
  recovery_attempts = s.recovery_attempts;
  last_recovery_at = s.last_recovery_at;
  purge_scheduled = s.purge_scheduled;
  purge_at = s.purge_at;
  purge_reason = s.purge_reason;
}

module _ (c : Control) where
  abbrev pub HasControl : Store → Type 0
  HasControl s = control s ≡ c

  clear-Keeps : Keeps HasControl clear_pending_resume_at
  unfolding clear_pending_resume_at
  clear-Keeps = search keeps_rules

  pub sleep-Keeps : (ms : ℕ) → Keeps HasControl (sleep ms)
  unfolding sleep sleep_at begin_pause finish_pause workflow_name execution_id increment_pause_index
      should_execute_pause set_completed_pause_index pending_resume_at set_pending_resume_at
  sleep-Keeps ms = search (keeps_rules, clear-Keeps) depth 12

  pub sleep_until-Keeps : (timestamp : ℕ) → Keeps HasControl (sleep_until timestamp)
  unfolding sleep_until sleep_until_at begin_pause finish_pause workflow_name execution_id
      increment_pause_index should_execute_pause set_completed_pause_index pending_resume_at
      set_pending_resume_at
  sleep_until-Keeps ms = search (keeps_rules, clear-Keeps) depth 12

  mark-Keeps : (name : String) → Keeps HasControl (mark_step_completed name)
  unfolding mark_step_completed
  mark-Keeps name = search keeps_rules depth 8

  check-Keeps :
      (r : Option RetryConfig) (call : StepCall) → Keeps HasControl (check_exhaustion r call)
  unfolding check_exhaustion StepContext.last_error
  check-Keeps none call = search keeps_rules
  check-Keeps (some r) call = search keeps_rules depth 10

  effect-Keeps :
      (timeout : Option ℕ) (call : StepCall) → Keeps HasControl (execute_effect timeout call)
  unfolding execute_effect execute_within run_effect
  effect-Keeps none call = search keeps_rules
  effect-Keeps (some zero) call = search keeps_rules
  effect-Keeps (some (suc ms)) call = search keeps_rules depth 10

  retry-Keeps :
      (r : RetryConfig) (call : StepCall) (e : Error) → Keeps HasControl (handle_retryable r call e)
  unfolding handle_retryable schedule_retry StepContext.set_last_error StepContext.increment_attempt
  retry-Keeps r call e = search keeps_rules depth 12

  failure-Keeps :
      (r : Option RetryConfig) (call : StepCall) (e : Error)
      → Keeps HasControl (Step.handle_failure r call e)
  unfolding Step.handle_failure
  failure-Keeps r call (Error.pause_signal s) = search keeps_rules
  failure-Keeps r call (Error.step_scope_error o n) = search keeps_rules
  failure-Keeps none call e = search keeps_rules depth 8
  failure-Keeps (some r) call e = retry-Keeps r call e

  cache-Keeps : (call : StepCall) (v : Unknown) → Keeps HasControl (cache_result call v)
  unfolding cache_result StepContext.attempt StepContext.set_result
  cache-Keeps call v = search (keeps_rules, mark-Keeps) depth 12

  conclude-Keeps : (call : StepCall) (r : Result Unknown) → Keeps HasControl (conclude call r)
  unfolding conclude
  conclude-Keeps call (ok v) = cache-Keeps call v
  conclude-Keeps call (err e) = failure-Keeps call.config.retry call e

  run_step-Keeps :
      (config : StepConfig) (name : String) (id : Option String)
      → Keeps HasControl (run_step config name id)
  unfolding run_step StepContext.started_at StepContext.attempt StepContext.set_started_at
  run_step-Keeps config name id =
      search (keeps_rules, check-Keeps, effect-Keeps, conclude-Keeps) depth 14

  cached-Keeps :
      (config : StepConfig) (name : String) (id : Option String) (o : Option CachedStepResult)
      → Keeps HasControl (cached_or_run config name id o)
  unfolding cached_or_run
  cached-Keeps config name id none = run_step-Keeps config name id
  cached-Keeps config name id (some r) = search keeps_rules

  pub step-Keeps : (config : StepConfig) → Keeps HasControl (Step.step config)
  unfolding Step.step workflow_name execution_id StepContext.get_result
  step-Keeps config = search (keeps_rules, cached-Keeps) depth 12

  handle_failure-Keeps :
      (env : Env) (cause : Cause) (ms : ℕ) (steps : List String) (o : Option PauseSignal)
      → Keeps HasControl (Executor.handle_failure env cause ms steps o)
  unfolding Executor.handle_failure
  handle_failure-Keeps env cause ms steps none = search keeps_rules
  handle_failure-Keeps env cause ms steps (some s) = search keeps_rules

  handle_exit-Keeps :
      (exit : Exit Unknown) (ms : ℕ) (steps : List String)
      → Keeps HasControl (handle_exit exit ms steps)
  unfolding handle_exit
  handle_exit-Keeps (success v) ms steps = search keeps_rules
  handle_exit-Keeps (failure c) ms steps = search (keeps_rules, handle_failure-Keeps)

  pub run_program-Keeps : (p : Program) → Keeps HasControl (run_program p)
  unfolding run_program
  run_program-Keeps (done v) = search keeps_rules
  run_program-Keeps (halt c) = search keeps_rules
  run_program-Keeps (Program.step config next) =
      Keeps-bind _ _ (Keeps-result_of _ (step-Keeps config)) (λ r. run_program-Keeps (next r))
  run_program-Keeps (Program.sleep ms next) =
      Keeps-bind _ _ (Keeps-result_of _ (sleep-Keeps ms)) (λ r. run_program-Keeps (next r))
  run_program-Keeps (Program.sleep_until at next) =
      Keeps-bind _ _ (Keeps-result_of _ (sleep_until-Keeps at)) (λ r. run_program-Keeps (next r))

  execute_body-Keeps :
      (definition : Option Unknown → Program) (context : ExecutionContext)
      → Keeps HasControl (execute_body definition context)
  unfolding execute_body get_completed_steps
  execute_body-Keeps definition context =
      search (keeps_rules, run_program-Keeps, handle_exit-Keeps) depth 12

  pub execute-Keeps :
      (definition : Option Unknown → Program) (context : ExecutionContext)
      → Keeps HasControl (execute definition context)
  unfolding execute
  execute-Keeps definition context =
      Keeps-catch_error _ _ (execute_body-Keeps definition context) (λ e. Keeps-raise _)

-- Whatever a workflow does and whatever the storage does, a run of it changes neither the status nor
-- the workflow's name, input and execution id, nor the cancellation flag and its reason, nor the
-- recovery counter, nor the record of a purge.
pub execute-control :
    (definition : Option Unknown → Program) (context : ExecutionContext) (env : Env) (w : World)
    → control (execute definition context env w).1.store ≡ control w.store
execute-control definition context env w =
    Post-world _ ((execute-Keeps (control w.store) definition context).at env w refl)
