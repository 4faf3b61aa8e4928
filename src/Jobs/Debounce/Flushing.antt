-- ===== src/Jobs/Debounce/Flushing.antt =====
-- A flush of a debounce that holds events, on a platform that does not fail.
use durable_effect.Prelude.{
  ℕ, ◌+◌, ◌-◌, String, ◌≡◌, refl, ◌∙◌, ap, Bool, true, false, Option, none, some, or_else, ltb, leb,
  ◌==◌, arith, if◌then◌else◌,
}
use durable_effect.Jobs.Errors.{JobType, JobError, ExhaustedReason}
use durable_effect.Jobs.Bodies.{
  UserError, user_error, JobRetryConfig, DebounceBody, DebounceDefinition, FlushReason,
}
use durable_effect.Jobs.World.{
  JobStore, JobWorld, JobEnv, IsReliable, Outcome, ok, err, pure, asks, reads, modify, catch_all,
  ◌>>=◌,
}
use durable_effect.Jobs.Platform.{now, emit_event}
use durable_effect.Jobs.Services.Metadata
use durable_effect.Jobs.Services.EntityState
use durable_effect.Jobs.Reliable.{get-reliable, purge-reliable}
use durable_effect.Jobs.Retry.{get_attempt, delay_of}
use durable_effect.Jobs.Retry.Attempts.{
  attempt_of, begun, retried_at, elapsed_past, attempted, no_retry, execute_with_retry-attempted,
  execute_with_retry-past, user_error-attempted,
}
use durable_effect.Jobs.Retry.Exhaustion.{later}
use durable_effect.Jobs.Execution.{
  ExecuteOptions, execute, execute_loaded, retried, finish, on_error, emit, emit_executed,
  store_state, dirty_state, init_holder, holder_state, context_base, wrap_execution, clean_up,
}
use durable_effect.Jobs.Debounce.{
  get_event_count, get_started_at, run_flush_body, flush_options, run_flush, settle_flush,
  flush_now, flush_meta, handle_flush, DebounceResponse, FlushAnswer,
}
use durable_effect.Jobs.Debounce.Body.{failure_of, time_of, ended, run_body-ended}
use durable_effect.Jobs.Debounce.Ends.{
  Holds, body_of, End, plain_end, bounded_end, flush_end, Settles,
}

module _ (env : JobEnv) (reliable : IsReliable env) (def : DebounceDefinition)
    (reason : FlushReason) (w : JobWorld) (h : Holds def w) where
  -- the world in which the body begins
  abbrev begins : JobWorld
  begins = record w { holder = record { current = some h.state; dirty = false } }

  abbrev body : DebounceBody
  body = body_of env def reason w h.state

  -- the run of the body in a world that has the state in hand
  flush_body : JobWorld → Outcome (Unit {0}) × JobWorld
  flush_body =
      run_flush_body def reason
        (record {
          instance_id = env.instance_id;
          run_count = 0;
          attempt = attempt_of w;
          is_retry = ltb 1 (attempt_of w);
        })
        env

  flush_body-ended :
      (s : JobStore)
      → let v = record begins { store = s } in
        flush_body v ≡ (ended (failure_of body s), later (time_of body s) v)
  unfolding flush_body run_flush_body holder_state reads now ◌>>=◌
  flush_body-ended s = run_body-ended env reliable body (record begins { store = s })

  execute-begun :
      (id : Option String)
      → run_flush def reason id env w
        ≡ execute_loaded (flush_options def reason id) w.current_time (some h.state) env w
  unfolding run_flush execute now asks catch_all EntityState.get_state EntityState.decoded
      EntityState.checked flush_options ◌>>=◌
  execute-begun id = simp (get-reliable env reliable, h.has_state, h.decodes)

  handle_flush-begun :
      handle_flush def reason env w
      ≡ (flush_now def h.meta.id h.count reason >>= (λ r. pure (
            DebounceResponse.flush true h.count
              (FlushAnswer.flushed_for reason)
              (some r.retry_scheduled))))
          env w
  unfolding handle_flush flush_meta Metadata.get_meta get_event_count ◌>>=◌
  handle_flush-begun =
      let more : (h.count == 0) ≡ false = ground (arith, h.some_events) in
      simp (get-reliable env reliable, h.has_meta, h.has_count, more)

  options : ExecuteOptions
  options = flush_options def reason h.meta.id

  -- the body with its retries, in the world in which it begins
  retried_body : Outcome (Unit {0}) × JobWorld
  retried_body =
      retried options def.retry
        (run_flush_body def reason (context_base options (attempt_of w) env.instance_id)) env begins

  module _ (v : JobWorld) (clean : v.holder.dirty ≡ false) where
    flush_succeeded :
        retried_body ≡ (ok tt, v)
        → Settles env def reason w h.count End.emptied (handle_flush def reason env w)
    unfolding retried_body options flush_now execute_loaded init_holder modify get_attempt asks
        catch_all context_base finish emit_executed emit now emit_event reads store_state
        dirty_state get_started_at settle_flush flush_options ◌>>=◌
    flush_succeeded e = rw handle_flush-begun (
        simp (get-reliable env reliable, execute-begun, e, clean, purge-reliable env reliable)
          (refl, refl, refl))

    flush_exhausted :
        (a : JobType) (b c : String) (n : ℕ) (x : JobError) (total : ℕ) (z : ExhaustedReason)
        → retried_body ≡ (err (JobError.retry_exhausted_signal a b c n x total z), v)
        → Settles env def reason w h.count End.emptied (handle_flush def reason env w)
    unfolding retried_body options flush_now execute_loaded init_holder modify get_attempt asks
        catch_all context_base on_error clean_up finish emit now emit_event reads store_state
        dirty_state get_started_at settle_flush flush_options ◌>>=◌
    flush_exhausted a b c n x total z e = rw handle_flush-begun (
        simp (get-reliable env reliable, execute-begun, e, clean, purge-reliable env reliable)
          (refl, refl, refl))

    flush_retried :
        (resume_at n : ℕ)
        → retried_body ≡ (err (JobError.retry_scheduled_signal resume_at n), v)
        → ((handle_flush def reason env w).0
            ≡ ok (DebounceResponse.flush true h.count (FlushAnswer.flushed_for reason) (some true)))
          × ((handle_flush def reason env w).1.store ≡ v.store)
          × ((handle_flush def reason env w).1.scheduled_time ≡ v.scheduled_time)
    unfolding retried_body options flush_now execute_loaded init_holder modify get_attempt asks
        catch_all context_base on_error clean_up finish emit now emit_event reads store_state
        dirty_state get_started_at settle_flush flush_options ◌>>=◌
    flush_retried resume_at n e =
        rw handle_flush-begun
          (simp (get-reliable env reliable, execute-begun, e, clean) (refl, refl, refl))

    flush_failed :
        (u : UserError)
        → retried_body ≡ (err (user_error u), v)
        → v.store ≡ w.store
        → v.scheduled_time ≡ w.scheduled_time
        → Settles env def reason w h.count (End.failed u) (handle_flush def reason env w)
    unfolding retried_body options flush_now execute_loaded init_holder modify get_attempt asks
        catch_all context_base on_error wrap_execution finish emit now emit_event user_error
        get_started_at flush_options ◌>>=◌
    flush_failed (UserError.plain message stack) e p q =
        rw handle_flush-begun (simp (get-reliable env reliable, execute-begun, e) (refl, p, q))
    flush_failed (UserError.thrown value) e p q =
        rw handle_flush-begun (simp (get-reliable env reliable, execute-begun, e) (refl, p, q))

  -- the body with its retries, as the configuration gives them
  retried_body-plain :
      def.retry ≡ none
      → retried_body ≡ (ended (failure_of body w.store), later (time_of body w.store) begins)
  unfolding retried_body retried options flush_options context_base flush_body
  retried_body-plain p =
      ap
        (λ o.
          retried options o
            (run_flush_body def reason (context_base options (attempt_of w) env.instance_id)) env
            begins)
        p
      ∙ flush_body-ended w.store

  retried_body-attempted :
      (config : JobRetryConfig)
      → def.retry ≡ some config
      → elapsed_past config begins ≡ none
      → retried_body
        ≡ attempted config JobType.debounce def.name env (attempt_of w) w.current_time (
          ended (failure_of body (begun begins).store),
          later (time_of body (begun begins).store) (begun begins),
        )
  unfolding retried_body retried options flush_options context_base flush_body
  retried_body-attempted config p q =
      ap
        (λ o.
          retried options o
            (run_flush_body def reason (context_base options (attempt_of w) env.instance_id)) env
            begins)
        p
      ∙ execute_with_retry-attempted env reliable _ config JobType.debounce def.name begins q
      ∙ ap (attempted config JobType.debounce def.name env (attempt_of w) w.current_time)
          (flush_body-ended (begun begins).store)

  retried_body-past :
      (config : JobRetryConfig) (elapsed : ℕ)
      → def.retry ≡ some config
      → elapsed_past config begins ≡ some elapsed
      → retried_body ≡ (
        err (
            JobError.retry_exhausted_signal JobType.debounce def.name env.instance_id
              (attempt_of w)
              JobError.max_duration
              elapsed
              ExhaustedReason.max_duration_exceeded),
        record begins { store = no_retry w.store },
      )
  unfolding retried_body retried options flush_options context_base flush_body
  retried_body-past config elapsed p q =
      ap
        (λ o.
          retried options o
            (run_flush_body def reason (context_base options (attempt_of w) env.instance_id)) env
            begins)
        p
      ∙ execute_with_retry-past env reliable _ config JobType.debounce def.name begins elapsed q

  -- a body that is not retried
  Settles-plain :
      (failure : Option UserError)
      → def.retry ≡ none
      → failure_of body w.store ≡ failure
      → Settles env def reason w h.count (plain_end failure) (handle_flush def reason env w)
  Settles-plain none p q =
      flush_succeeded (later (time_of body w.store) begins) refl (retried_body-plain p ∙ rw q refl)
  Settles-plain (some u) p q =
      flush_failed (later (time_of body w.store) begins) refl u (retried_body-plain p ∙ rw q refl)
        refl refl

  -- the world that the body leaves
  abbrev left : JobWorld
  left = later (time_of body (begun begins).store) (begun begins)

  retried_body-failed :
      (config : JobRetryConfig) (u : UserError) (last : Bool)
      → leb config.max_attempts (attempt_of w) ≡ last
      → def.retry ≡ some config
      → elapsed_past config begins ≡ none
      → failure_of body (begun begins).store ≡ some u
      → retried_body ≡ (
          if last
          then (
            err (
                JobError.retry_exhausted_signal JobType.debounce def.name env.instance_id
                  (attempt_of w)
                  (user_error u)
                  (w.current_time - or_else left.store.retry_started_at w.current_time)
                  ExhaustedReason.max_attempts_exceeded),
            record left { store = no_retry left.store },
          )
          else (
            err (
                JobError.retry_scheduled_signal
                  (w.current_time + delay_of env.add_jitter config (attempt_of w))
                  (attempt_of w + 1)),
            retried_at config env (attempt_of w) w.current_time (user_error u) left,
          ))
  retried_body-failed config u last l p q f =
      retried_body-attempted config p q
      ∙ ap
          (λ o.
            attempted config JobType.debounce def.name env (attempt_of w) w.current_time
              (ended o, left))
          f
      ∙ user_error-attempted env config JobType.debounce def.name u (attempt_of w) w.current_time
          left
      ∙ rw l refl

  Settles-failure :
      (config : JobRetryConfig) (u : UserError) (last : Bool)
      → leb config.max_attempts (attempt_of w) ≡ last
      → def.retry ≡ some config
      → elapsed_past config begins ≡ none
      → failure_of body (begun begins).store ≡ some u
      → Settles env def reason w h.count
          (if last then End.emptied else End.waiting config u)
          (handle_flush def reason env w)
  Settles-failure config u true l p q f =
      flush_exhausted _ refl _ _ _ _ _ _ _ (retried_body-failed config u true l p q f)
  Settles-failure config u false l p q f =
      flush_retried _ refl _ _ (retried_body-failed config u false l p q f)

  Settles-retried :
      (config : JobRetryConfig) (failure : Option UserError) (past : Option ℕ)
      → def.retry ≡ some config
      → elapsed_past config begins ≡ past
      → failure_of body (begun begins).store ≡ failure
      → Settles env def reason w h.count
          (bounded_end config (attempt_of w) failure past)
          (handle_flush def reason env w)
  Settles-retried config failure (some elapsed) p q f =
      flush_exhausted _ refl _ _ _ _ _ _ _ (retried_body-past config elapsed p q)
  Settles-retried config none none p q f =
      flush_succeeded (record left { store = no_retry left.store }) refl
        (retried_body-attempted config p q
          ∙ ap
              (λ o.
                attempted config JobType.debounce def.name env (attempt_of w) w.current_time
                  (ended o, left))
              f)
  Settles-retried config (some u) none p q f = Settles-failure config u _ refl p q f

  Settles-by :
      (retry : Option JobRetryConfig)
      → def.retry ≡ retry
      → Settles env def reason w h.count (flush_end body w retry) (handle_flush def reason env w)
  Settles-by none p = Settles-plain _ p refl
  Settles-by (some config) p = Settles-retried config _ _ p refl refl

  -- On a platform that does not fail, a flush of a debounce that holds events comes to one of three
  -- ends, which its configuration and its body decide. Where the body succeeds, or its retries are
  -- used up or have taken too long, the flush is answered, the storage is empty and no alarm is set.
  -- Where the body fails and is to be retried, the flush is answered as retried, the events stay,
  -- the failure is counted and the alarm is set for the retry. Where the body fails and the
  -- definition has no retries, the flush fails with that failure, and the storage and the alarm stay
  -- as they were.
  pub handle_flush-Settles :
      Settles env def reason w h.count (flush_end body w def.retry) (handle_flush def reason env w)
  handle_flush-Settles = Settles-by def.retry refl
