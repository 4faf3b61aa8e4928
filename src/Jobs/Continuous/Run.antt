-- ===== src/Jobs/Continuous/Run.antt =====
-- packages/jobs/src/handlers/continuous/{context,handler}.ts: the run of the body.
use durable_effect.Prelude.{ℕ, String, true, false, Option, some}
use durable_effect.Jobs.Errors.{JobType, JobError}
use durable_effect.Jobs.Bodies.{user_error, ContinuousBody, ContinuousDefinition}
use durable_effect.Jobs.World.{Eff, pure, raise, ◌>>=◌, ◌>>◌}
use durable_effect.Jobs.Platform.{elapse}
use durable_effect.Jobs.Execution.{
  ContextBase, ExecuteOptions, ExecutionResult, execute, holder_state, hold_state,
}

-- the user's body over `createContinuousContext`, whose holder is that of the execution
unfoldable pub run_body : ContinuousBody → Eff (Unit {0})
run_body ContinuousBody.done = pure tt
run_body (ContinuousBody.fail e) = raise (user_error e)
run_body (ContinuousBody.wait ms k) = do elapse ms; run_body k
run_body (ContinuousBody.read_state k) = do s ← holder_state; run_body (k s)
run_body (ContinuousBody.set_state s k) = do hold_state s; run_body k
run_body (ContinuousBody.update_state fn k) = do s ← holder_state; hold_state (fn s); run_body k
run_body (ContinuousBody.terminate reason) = raise (JobError.terminate_signal reason true)

unfoldable pub run_with_context : ContinuousDefinition → ContextBase → Eff (Unit {0})
run_with_context def base = run_body (
    def.execute (record {
      instance_id = base.instance_id;
      run_count = base.run_count;
      job_name = def.name;
      attempt = base.attempt;
      is_retry = base.is_retry;
    }))

unfoldable pub run_options : ContinuousDefinition → ℕ → Option String → ExecuteOptions
run_options def run_count id = record {
  job_type = JobType.continuous;
  job_name = def.name;
  schema = def.state_schema;
  retry_config = def.retry;
  run_count = some run_count;
  allow_null_state = false;
  id = id;
  include_state_in_events = true;
  run = run_with_context def;
}

unfoldable pub run_execution : ContinuousDefinition → ℕ → Option String → Eff ExecutionResult
run_execution def run_count id = execute (run_options def run_count id)
