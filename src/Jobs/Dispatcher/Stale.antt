-- ===== src/Jobs/Dispatcher/Stale.antt =====
-- The alarm of a task whose body leaves its schedule alone, on a platform that does not fail.
use durable_effect.Prelude.{
  ℕ, ◌+◌, String, ◌≡◌, refl, ap, true, false, Option, none, some, or_else, ltb,
}
use durable_effect.State.{Unknown}
use durable_effect.Jobs.Errors.{JobType}
use durable_effect.Jobs.Bodies.{Trigger, TaskBody, TaskContext, TaskDefinition}
use durable_effect.Jobs.World.{
  JobMetadata, JobStore, StateHolder, clean_schedule, JobWorld, JobEnv, IsReliable, Outcome, ok,
  pure, asks, reads, modify, catch_all, ◌>>=◌, ◌>>◌,
}
use durable_effect.Jobs.Platform.{now, emit_event}
use durable_effect.Jobs.Services.Metadata
use durable_effect.Jobs.Services.EntityState
use durable_effect.Jobs.Reliable.{get-reliable, put-reliable}
use durable_effect.Jobs.Retry.{get_attempt}
use durable_effect.Jobs.Execution.{
  ContextBase, ExecutionResult, no_flags, execute, execute_loaded, retried, finish, emit_executed,
  emit, store_state, dirty_state, init_holder, holder_state, context_base,
}
use durable_effect.Jobs.Debounce.Collecting.{Codec, written_state}
use durable_effect.Jobs.Task
use durable_effect.Jobs.Task.{
  get_definition, found, get_execute_count, increment_execute_count, get_scheduled_at,
  get_created_at, get_event_count, held_schedule, hold_schedule, run_snapshot, with_error_handling,
  run_source, task_context, scheduled_now, apply_schedule_changes, idle_unless, run_idle, run_task,
  run_options, run_execution, execute_again, alarm_meta, wrapped, handle_status, TaskResponse,
  TaskStatus,
}
use durable_effect.Jobs.Task.Quiet.{IsQuiet, moved, run_body-Quietly}
use durable_effect.Jobs.Dispatcher.{dispatch_alarm, alarm_for, alarm_of, fire_alarm}

-- A task of this definition, with the state that it has stored and the time it is scheduled for.
pub record IsScheduled (env : JobEnv) (def : TaskDefinition) (codec : Codec def.state_schema)
    (m : JobMetadata) (state : Option Unknown) (time : ℕ) (w : JobWorld) : Type 0 where
  pub has_meta : w.store.meta ≡ some m
  pub type : m.type ≡ JobType.task
  pub registered : env.registry.task m.name ≡ some def
  pub has_state : w.store.state ≡ written_state codec state
  pub scheduled : w.store.scheduled_at ≡ some time

module _ (env : JobEnv) (reliable : IsReliable env) (def : TaskDefinition)
    (codec : Codec def.state_schema) (time : ℕ) where
  -- the body of the alarm, with its schedule and its idle body
  run_task-Quietly :
      (id : Option String) (base : ContextBase) (w : JobWorld)
      → ((context : TaskContext) → IsQuiet (def.execute context))
      → w.store.scheduled_at ≡ some time
      → (h : StateHolder) × (t : ℕ) × (run_task def none id base env w
          ≡ (ok tt, record (moved w h t) { schedule_holder = clean_schedule }))
  unfolding run_task hold_schedule held_schedule run_source with_error_handling run_snapshot
      holder_state apply_schedule_changes run_idle idle_unless scheduled_now get_scheduled_at now
      reads modify catch_all ◌>>=◌
  run_task-Quietly id base w q s =
      let v = record w { schedule_holder = clean_schedule } in
      let r =
        run_body-Quietly env reliable (some w.holder.current)
          (def.execute (task_context def base w.current_time w.holder.current)) v (q _) in
      (r.holder, r.time, rw r.equals (idle def.on_idle r.holder r.time))
    where
      idle :
          (o : Option (Trigger → TaskBody)) (h : StateHolder) (t : ℕ)
          → run_idle def id o Trigger.execute env
              (record (moved w h t) { schedule_holder = clean_schedule })
            ≡ (ok tt, record (moved w h t) { schedule_holder = clean_schedule })
      idle none h t = refl
      idle (some on_idle) h t = simp (get-reliable env reliable, s) refl

  -- what a quiet run leaves: only the state may differ in the storage
  record Ran (v : JobWorld) (r : Outcome ExecutionResult × JobWorld) : Type 0 where
    alarm : r.1.scheduled_time ≡ v.scheduled_time
    state : Option Unknown
    store : r.1.store ≡ record v.store { state = state }
    success : r.0 ≡ ok (record no_flags { success = true })

  -- the storing of the state that the body has left
  stored :
      (id : Option String) (o : Option Unknown) (v : JobWorld)
      → (s : Option Unknown) × (store_state (run_options def 0 none id) o env v
          ≡ (ok tt, record v { store = record v.store { state = s } }))
  unfolding store_state run_options EntityState.set_state EntityState.checked asks catch_all ◌>>=◌
  stored id none v = (v.store.state, refl)
  stored id (some x) v = (some (codec.written x), simp (codec.encodes, put-reliable env reliable))

  loaded :
      (o : Option Unknown) (v : JobWorld)
      → v.store.state ≡ written_state codec o
      → EntityState.get_state def.state_schema env v ≡ (ok o, v)
  unfolding EntityState.get_state EntityState.decoded EntityState.checked ◌>>=◌
  loaded none v e = simp (get-reliable env reliable, e)
  loaded (some s) v e = simp (get-reliable env reliable, e, codec.decodes)

  execute-loaded :
      (id : Option String) (o : Option Unknown) (v : JobWorld)
      → v.store.state ≡ written_state codec o
      → execute (run_options def 0 none id) env v
        ≡ execute_loaded (run_options def 0 none id) v.current_time o env v
  unfolding execute run_options now asks catch_all ◌>>=◌
  execute-loaded id none v e = simp (loaded none v e)
  execute-loaded id (some s) v e = simp (loaded (some s) v e)

  -- the context of the run
  abbrev base_of : JobWorld → ContextBase
  base_of v = record {
    instance_id = env.instance_id;
    run_count = 0;
    attempt = or_else v.store.retry_attempt 1;
    is_retry = ltb 1 (or_else v.store.retry_attempt 1);
  }

  after_stored :
      (id : Option String) (o : Option Unknown) (v v' : JobWorld)
      → v'.scheduled_time ≡ v.scheduled_time
      → v'.store ≡ v.store
      → Ran v (
          (store_state (run_options def 0 none id) o >> pure (record no_flags { success = true }))
            env v')
  unfolding ◌>>=◌
  after_stored id o v v' p q =
      let t = stored id o v' in
      rw t.1 (record {
        alarm = p;
        state = t.0;
        store = ap (λ (x : JobStore). record x { state = t.0 }) q;
        success = refl;
      })

  execute_loaded-Ran :
      (id : Option String) (start : ℕ) (o : Option Unknown) (v : JobWorld)
      → ((context : TaskContext) → IsQuiet (def.execute context))
      → v.store.scheduled_at ≡ some time
      → Ran v (execute_loaded (run_options def 0 none id) start o env v)
  unfolding execute_loaded init_holder modify get_attempt retried context_base finish emit_executed
      emit now emit_event reads run_options asks catch_all ◌>>=◌
  execute_loaded-Ran id start o v q s =
      let r =
        run_task-Quietly id (base_of v)
          (record v { holder = record { current = o; dirty = false } }) q s in
      simp (get-reliable env reliable, r.2)
        (after_stored id (dirty_state no_flags r.0) v _ refl refl)

  -- the count of runs that an alarm adds to
  abbrev counted : JobStore → JobStore
  counted s = record s { execute_count = some (or_else s.execute_count 0 + 1) }

  execute_again-Ran :
      (id : Option String) (o : Option Unknown) (v : JobWorld)
      → ((context : TaskContext) → IsQuiet (def.execute context))
      → v.store.state ≡ written_state codec o
      → v.store.scheduled_at ≡ some time
      → Ran (record v { store = counted v.store }) (execute_again def id env v)
  unfolding execute_again increment_execute_count get_execute_count run_execution ◌>>=◌
  execute_again-Ran id o v q e s =
      let v1 : JobWorld = record v { store = counted v.store } in
      simp (get-reliable env reliable, put-reliable env reliable, execute-loaded id o v1 e)
        (execute_loaded-Ran id v.current_time o v1 q s)

  fire_alarm-again :
      (m : JobMetadata) (state : Option Unknown) (w : JobWorld)
      → IsScheduled env def codec m state time w
      → fire_alarm env w
        ≡ wrapped "unknown"
            (execute_again def m.id >> pure tt)
            env
            (record w { scheduled_time = none })
  unfolding fire_alarm dispatch_alarm alarm_for alarm_of Task.handle_alarm alarm_meta get_definition
      found wrapped Metadata.get_meta asks catch_all ◌>>=◌
  fire_alarm-again m state w t = simp (get-reliable env reliable, t.has_meta, t.type, t.registered)

  -- On a platform that does not fail, with a schema of the state that reads back what it writes,
  -- take a task that is scheduled for a time, and whose body leaves the schedule alone and does not
  -- fail or terminate. After its alarm, whatever it does when idle, no alarm is set, yet the time
  -- that has passed stays on record, and the task's status is still active, scheduled for that time.
  pub fire_alarm-stale :
      (m : JobMetadata) (state : Option Unknown) (w : JobWorld)
      → IsScheduled env def codec m state time w
      → ((context : TaskContext) → IsQuiet (def.execute context))
      → let after = fire_alarm env w in
        (after.0 ≡ ok tt)
        × (after.1.scheduled_time ≡ none)
        × ((handle_status env after.1).0
            ≡ ok (
                TaskResponse.status TaskStatus.active
                  (some time)
                  w.store.created_at
                  (or_else w.store.task_event_count 0)
                  (or_else w.store.execute_count 0 + 1)))
  unfolding wrapped handle_status get_scheduled_at get_created_at get_event_count get_execute_count
      Metadata.get_meta asks catch_all ◌>>=◌
  fire_alarm-stale m state w t q =
      let r =
        execute_again-Ran m.id state (record w { scheduled_time = none }) q t.has_state
          t.scheduled in
      rw (fire_alarm-again m state w t) (
        simp (r.success, r.alarm, get-reliable env reliable, r.store, t.has_meta, t.scheduled)
          (refl, refl, refl))
