-- ===== src/Jobs/Continuous/Evolution.antt =====
-- A continuous job whose bodies end well, from its start and over its alarms, on a platform that does
-- not fail.
use durable_effect.Prelude.{
  ℕ, suc, ◌+◌, ◌≡◌, refl, true, none, some, or_else, List, [], ◌∷◌, length, ◌++◌,
}
use durable_effect.Jobs.Errors.{JobType}
use durable_effect.Jobs.Bodies.{ContinuousDefinition}
use durable_effect.Jobs.World.{
  JobStatus, JobMetadata, JobEventBody, JobWorld, JobEnv, IsReliable, Eff, ok, pure, asks,
  catch_all, ◌>>=◌,
}
use durable_effect.Jobs.Platform.{now, emit_event}
use durable_effect.Jobs.Services.Metadata
use durable_effect.Jobs.Services.EntityState
use durable_effect.Jobs.Reliable.{get-reliable, put-reliable}
use durable_effect.Jobs.Execution.{no_flags}
use durable_effect.Jobs.Debounce.Collecting.{Codec}
use durable_effect.Jobs.Continuous.{
  ContinuousAction, ContinuousRequest, ContinuousResponse, get_definition, found, get_run_count,
  increment_run_count, update_last_executed_at, schedule_next, run_execution, after_first_run,
  first_run, start_new, start_or_existing, handle_start, perform, wrapped, handle_request,
}
use durable_effect.Jobs.Continuous.Calm.{final_state}
use durable_effect.Jobs.Continuous.Ran.{body_of, IsCalmJob, run_execution-Ran}
use durable_effect.Jobs.Continuous.Up.{
  evolve, alarms, EndWell, IsUp, noted, schedule_by-reliable, Ran-IsUp, alarms-IsUp,
}

module _ (env : JobEnv) (reliable : IsReliable env) (def : ContinuousDefinition)
    (codec : Codec def.state_schema) (job : IsCalmJob def) where
  -- the world before the first run
  abbrev initialized : ContinuousRequest → JobWorld → JobWorld
  initialized request w = record w {
    store = record w.store {
      meta = some (record {
        type = JobType.continuous;
        name = request.name;
        status = JobStatus.running;
        created_at = w.current_time;
        updated_at = w.current_time;
        id = some request.id;
        stop_reason = none;
      });
      state = some (codec.written request.input);
      run_count = some 1;
    };
    events =
        w.events
        ++ record {
          instance_id = env.instance_id;
          job_type = JobType.continuous;
          job_name = request.name;
          id = some request.id;
          body = JobEventBody.job_started request.input;
        }
          ∷ [];
  }

  after_first_run-noted :
      (v : JobWorld)
      → after_first_run def (record no_flags { success = true }) env v
        ≡ (ok JobStatus.running, noted env reliable def codec job v)
  unfolding after_first_run update_last_executed_at schedule_next now ◌>>=◌
  after_first_run-noted v =
      simp (put-reliable env reliable, schedule_by-reliable env reliable def codec job)

  started : JobStatus → Eff ContinuousResponse
  started status = do
    instance_id ← asks (λ env'. env'.instance_id)
    pure (ContinuousResponse.start instance_id true status)

  first_run-reliable :
      (request : ContinuousRequest) (w : JobWorld)
      → or_else def.start_immediately true ≡ true
      → w.store.run_count ≡ some 0
      → first_run def request env w
        ≡ (run_execution def 1 (some request.id) >>= after_first_run def) env
            (record w { store = record w.store { run_count = some 1 } })
  unfolding first_run increment_run_count get_run_count ◌>>=◌
  first_run-reliable request w i c =
      rw i (simp (get-reliable env reliable, put-reliable env reliable, c))

  start_new-run :
      (request : ContinuousRequest) (w : JobWorld)
      → or_else def.start_immediately true ≡ true
      → start_new def request env w
        ≡ (run_execution def 1 (some request.id) >>= after_first_run def >>= started) env
            (initialized request w)
  unfolding start_new started Metadata.initialize Metadata.update_status Metadata.write_meta
      EntityState.set_state EntityState.checked now emit_event asks ◌>>=◌
  start_new-run request w i =
      simp
        (get-reliable env reliable, put-reliable env reliable, codec.encodes, first_run-reliable, i)

  handle_request-start :
      (request : ContinuousRequest) (w : JobWorld)
      → request.action ≡ ContinuousAction.start
      → env.registry.continuous request.name ≡ some def
      → w.store.meta ≡ none
      → handle_request request env w ≡ wrapped request.name (start_new def request) env w
  unfolding handle_request perform get_definition found handle_start start_or_existing
      Metadata.get_meta wrapped asks catch_all ◌>>=◌
  handle_request-start request w a d p = simp (get-reliable env reliable, a, d, p)

  start-IsUp :
      (request : ContinuousRequest) (w : JobWorld)
      → request.action ≡ ContinuousAction.start
      → env.registry.continuous request.name ≡ some def
      → or_else def.start_immediately true ≡ true
      → w.store.meta ≡ none
      → w.store.retry_attempt ≡ none
      → let r = handle_request request env w in
        (r.0 ≡ ok (ContinuousResponse.start env.instance_id true JobStatus.running))
        × (m : JobMetadata) × IsUp env def codec m 1
            (final_state (body_of env def 1) request.input)
            r.1.current_time
            r.1
  unfolding wrapped started asks catch_all ◌>>=◌
  start-IsUp request w a d i p q =
      let v : JobWorld = initialized request w in
      let ran =
        run_execution-Ran env reliable def codec job 1 (some request.id) request.input v refl q in
      let r = run_execution def 1 (some request.id) env v in
      rw (handle_request-start request w a d p) (
        simp (start_new-run request w i, ran.success, after_first_run-noted r.1)
          (
            refl,
            _,
            Ran-IsUp env reliable def codec job _ 0 (some request.id) request.input v r ran refl
                refl refl d refl,
          ))

  -- On a platform that does not fail, with a schema of the state that reads back what it writes, take
  -- a continuous job that starts at once, whose bodies neither fail nor terminate, and whose retries
  -- do not run out of time at once. Started on an instance that is not there, and after any number of
  -- alarms at any times, each of which ends well, it has run once for the start and once for each
  -- alarm, its state is that input taken through its bodies in order, each with its number, and the
  -- next alarm is set from the end of the last run.
  pub start-evolves :
      (request : ContinuousRequest) (waits : List ℕ) (w : JobWorld)
      → request.action ≡ ContinuousAction.start
      → env.registry.continuous request.name ≡ some def
      → or_else def.start_immediately true ≡ true
      → w.store.meta ≡ none
      → w.store.retry_attempt ≡ none
      → let r = handle_request request env w in
        (r.0 ≡ ok (ContinuousResponse.start env.instance_id true JobStatus.running))
        × EndWell env waits r.1
        × (m : JobMetadata) × (last : ℕ) × IsUp env def codec m
            (1 + length waits)
            (evolve env def 0 (suc (length waits)) request.input)
            last
            (alarms env waits r.1)
  unfolding evolve
  start-evolves request waits w a d i p q =
      let up = start-IsUp request w a d i p q in
      let rest =
        alarms-IsUp env reliable def codec job waits up.1 1 _ _ (handle_request request env w).1
          up.2 in
      (up.0, rest.0, up.1, rest.1, rest.2)
