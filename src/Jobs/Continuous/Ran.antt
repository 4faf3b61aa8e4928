-- ===== src/Jobs/Continuous/Ran.antt =====
-- A run of a continuous job whose bodies end well, on a platform that does not fail.
use durable_effect.Prelude.{
  ℕ, ◌+◌, String, ◌≡◌, refl, ◌∙◌, sym, ap, Bool, true, false, Option, none, some,
}
use durable_effect.State.{Unknown}
use durable_effect.Jobs.Errors.{JobType}
use durable_effect.Jobs.Bodies.{
  JobRetryConfig, ContinuousBody, ContinuousContext, ContinuousDefinition,
}
use durable_effect.Jobs.World.{
  JobStore, JobWorld, JobEnv, IsReliable, Eff, Outcome, ok, pure, asks, reads, modify, catch_all,
  ◌>>=◌, ◌>>◌,
}
use durable_effect.Jobs.Platform.{now, emit_event}
use durable_effect.Jobs.Services.EntityState
use durable_effect.Jobs.Reliable.{get-reliable, put-reliable}
use durable_effect.Jobs.Retry.{get_attempt, past_duration}
use durable_effect.Jobs.Retry.Attempts.{
  attempt_of, begun, attempted, no_retry, elapsed_past, execute_with_retry-attempted,
}
use durable_effect.Jobs.Execution.{
  ExecuteOptions, ExecutionResult, no_flags, execute, execute_loaded, retried, finish,
  emit_executed, emit, store_state, dirty_state, init_holder, context_base,
}
use durable_effect.Jobs.Debounce.Collecting.{Codec}
use durable_effect.Jobs.Continuous.Run.{run_with_context, run_options, run_execution}
use durable_effect.Jobs.Continuous.Calm.{
  IsCalm, final_state, sets_state, time_of, sets_state-final_state, holding, run_body-started,
}

-- the body of a run that is not a retry
abbrev pub body_of : JobEnv → ContinuousDefinition → ℕ → ContinuousBody
body_of env def run_count = def.execute (record {
  instance_id = env.instance_id;
  run_count = run_count;
  job_name = def.name;
  attempt = 1;
  is_retry = false;
})

-- A definition whose bodies end well, and whose retries do not run out of time at once.
pub record IsCalmJob (def : ContinuousDefinition) : Type 0 where
  pub calm : (context : ContinuousContext) → IsCalm (def.execute context)
  pub patient :
      (config : JobRetryConfig) (time : ℕ)
      → def.retry ≡ some config
      → past_duration config.max_duration (some time) time ≡ none

-- the store has the same metadata, count and state, and no retry is under way
record IsLike (s s' : JobStore) : Type 0 where
  meta : s'.meta ≡ s.meta
  run_count : s'.run_count ≡ s.run_count
  state : s'.state ≡ s.state
  fresh : s'.retry_attempt ≡ none

module _ (env : JobEnv) (reliable : IsReliable env) (def : ContinuousDefinition)
    (codec : Codec def.state_schema) (job : IsCalmJob def) (n : ℕ) (id : Option String)
    (s : Unknown) where
  abbrev body : ContinuousBody
  body = body_of env def n

  -- what a run comes to
  pub record Ran (v : JobWorld) (r : Outcome ExecutionResult × JobWorld) : Type 0 where
    pub success : r.0 ≡ ok (record no_flags { success = true })
    pub meta : r.1.store.meta ≡ v.store.meta
    pub run_count : r.1.store.run_count ≡ v.store.run_count
    pub state : r.1.store.state ≡ some (codec.written (final_state body s))
    pub fresh : r.1.store.retry_attempt ≡ none
    pub alarm : r.1.scheduled_time ≡ v.scheduled_time
    pub time : r.1.current_time ≡ v.current_time + time_of body s

  -- the world in which the body begins
  abbrev begins : JobWorld → JobWorld
  begins w = record w { holder = record { current = some s; dirty = false } }

  -- the world that the body leaves
  abbrev left : JobWorld → JobWorld
  left w = holding w (final_state body s) (sets_state body s) (time_of body s)

  options : ExecuteOptions
  options = run_options def n id

  run : Eff (Unit {0})
  run = run_with_context def (context_base options 1 env.instance_id)

  run-left : (w : JobWorld) → run env (begins w) ≡ (ok tt, left w)
  unfolding run options run_options run_with_context context_base
  run-left w = run_body-started env body w s (job.calm _)

  retried-calm :
      (o : Option JobRetryConfig) (w : JobWorld)
      → def.retry ≡ o
      → w.store.retry_attempt ≡ none
      → (s' : JobStore) × IsLike w.store s'
        × (retried options o run env (begins w) ≡ (ok tt, record (left w) { store = s' }))
  unfolding retried options run_options
  retried-calm none w p q =
      (w.store, record { meta = refl; run_count = refl; state = refl; fresh = q }, run-left w)
  retried-calm (some config) w p q =
      let first : attempt_of w ≡ 1 = rw q refl in
      let past : elapsed_past config (begins w) ≡ none =
        rw q (job.patient config w.current_time p) in
      let r =
        execute_with_retry-attempted env reliable run config JobType.continuous def.name (begins w)
          past in
      (
        no_retry (begun w).store,
        record { meta = refl; run_count = refl; state = refl; fresh = refl },
        r
            ∙ ap (attempted config JobType.continuous def.name env (attempt_of w) w.current_time)
                (run-left (begun w)),
      )

  stored :
      (d : Bool) (v : JobWorld)
      → sets_state body s ≡ d
      → v.store.state ≡ some (codec.written s)
      → store_state options
          (dirty_state no_flags (record { current = some (final_state body s); dirty = d }))
          env
          v
        ≡ (
          ok tt,
          record v { store = record v.store { state = some (codec.written (final_state body s)) } },
        )
  unfolding store_state dirty_state options run_options EntityState.set_state EntityState.checked
      asks catch_all ◌>>=◌
  stored true v e p = simp (codec.encodes, put-reliable env reliable)
  stored false v e p =
      let same = p ∙ ap (λ x. some (codec.written x)) (sym (sets_state-final_state body s e)) in
      λ i. (ok tt, record v { store = record v.store { state = same i } })

  -- a run after its body, from the storing of the state
  ran :
      (w v : JobWorld) (s' : JobStore)
      → IsLike w.store s'
      → v.store ≡ s'
      → v.scheduled_time ≡ w.scheduled_time
      → v.current_time ≡ w.current_time + time_of body s
      → w.store.state ≡ some (codec.written s)
      → Ran w (
          (store_state options (
                dirty_state no_flags
                  (record { current = some (final_state body s); dirty = sets_state body s }))
              >> pure (record no_flags { success = true }))
            env v)
  unfolding ◌>>=◌
  ran w v s' like e a t p =
      rw (stored _ v refl (ap (λ (x : JobStore). x.state) e ∙ like.state ∙ p)) (record {
        success = refl;
        meta = ap (λ (x : JobStore). x.meta) e ∙ like.meta;
        run_count = ap (λ (x : JobStore). x.run_count) e ∙ like.run_count;
        state = refl;
        fresh = ap (λ (x : JobStore). x.retry_attempt) e ∙ like.fresh;
        alarm = a;
        time = t;
      })

  pub run_execution-Ran :
      (w : JobWorld)
      → w.store.state ≡ some (codec.written s)
      → w.store.retry_attempt ≡ none
      → Ran w (run_execution def n id env w)
  unfolding run_execution execute execute_loaded options run run_options init_holder modify
      get_attempt finish emit_executed emit now emit_event reads context_base EntityState.get_state
      EntityState.decoded EntityState.checked asks catch_all ◌>>=◌
  run_execution-Ran w p q =
      let r = retried-calm def.retry w refl q in
      simp (get-reliable env reliable, p, codec.decodes, q, r.2) (ran w _ r.0 r.1 refl refl refl p)
