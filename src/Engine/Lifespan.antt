-- ===== src/Engine/Lifespan.antt =====
-- From a first call to the purge. The storage does not fail, and purges are enabled.
use durable_effect.Prelude.{
  ℕ, ◌+◌, ◌≤◌, ◌<◌, ◌≡◌, inl, inr, refl, ◌∙◌, true, none, some, List, if◌then◌else◌, arith,
}
use durable_effect.State.{WorkflowStatus}
use durable_effect.Program.{ok}
use durable_effect.World.{Env, World, Event, empty_store, IsReliable, ◌>>=◌}
use durable_effect.World.Outcomes.{Post, Post-mono, Post-pure, Post-bind}
use durable_effect.Recovery.Repeated.{later}
use durable_effect.Purge.{is_due}
use durable_effect.Purge.Lifecycle.{execute_purge-due, due-le}
use durable_effect.Executor.{ExecutionResult}
use durable_effect.Executor.Total.{Never}
use durable_effect.Orchestrator.{Definition, WorkflowCall, lookup_workflow}
use durable_effect.Orchestrator.Settle.{Settled, IsPlanned, status_of}
use durable_effect.Executor.Exits.{Executes}
use durable_effect.Orchestrator.Start.{began, start-Settled}
use durable_effect.Engine.{run, alarm, after_purge}

module _ (env : Env) (reliable : IsReliable env) (enabled : env.purge.enabled ≡ true)
    (delayed : 0 < env.purge.delay_ms) where
  purged_by_alarm :
      (w : World)
      → w.store.purge_scheduled ≡ some true
      → is_due w.store.purge_at w.current_time ≡ true
      → alarm env w ≡ (ok tt, record w { store = empty_store })
  unfolding alarm after_purge ◌>>=◌
  purged_by_alarm w s d = rw (execute_purge-due env reliable enabled w s d)

  planned_alarm :
      (w : World) (ms : ℕ)
      → env.purge.delay_ms ≤ ms
      → IsPlanned env w
      → let w' = later ms w in alarm env w' ≡ (ok tt, record w' { store = empty_store })
  planned_alarm w ms late (inl (s, at)) = purged_by_alarm (later ms w) s (
      rw (at, is_due)
        (due-le (w.current_time + env.purge.delay_ms) (w.current_time + ms) (omega (arith, delayed))
          (omega (arith, late))))
  planned_alarm w ms late (inr off) = cc

  purge_alarm :
      (w : World)
      → w.scheduled_time
        ≡ (if env.purge.enabled then some (w.current_time + env.purge.delay_ms) else none)
      → w.scheduled_time ≡ some (w.current_time + env.purge.delay_ms)
  purge_alarm w a = a ∙ rw enabled refl

  -- what comes after a result: the alarm for the end of a pause, or the purge
  abbrev pub Ends : ℕ → ExecutionResult → World → Type 0
  Ends ms (ExecutionResult.paused reason resume_at step_name _) w =
      (w.store.status ≡ some (WorkflowStatus.paused reason resume_at step_name))
      × (w.scheduled_time ≡ some resume_at)
  Ends ms result w =
      (w.store.status ≡ some (status_of env result w.current_time))
      × (w.scheduled_time ≡ some (w.current_time + env.purge.delay_ms))
      × (alarm env (later ms w) ≡ (ok tt, record (later ms w) { store = empty_store }))

  Settled-Ends :
      (result : ExecutionResult) (ms : ℕ) (w : World)
      → env.purge.delay_ms ≤ ms
      → Settled env result w
      → Ends ms result w
  Settled-Ends (ExecutionResult.paused a b c d) ms w late s = (s.status, s.alarm)
  Settled-Ends (ExecutionResult.completed a b c) ms w late s =
      (s.status, purge_alarm w s.alarm, planned_alarm w ms late s.purge)
  Settled-Ends (ExecutionResult.failed a b c) ms w late s =
      (s.status, purge_alarm w s.alarm, planned_alarm w ms late s.purge)
  Settled-Ends (ExecutionResult.cancelled a b) ms w late s =
      (s.status, purge_alarm w s.alarm, planned_alarm w ms late s.purge)

  -- the body of the definition has been run at an input, and the instance left to its alarm
  abbrev pub Leaves : Definition → WorkflowCall → ℕ → World → World → Type 0
  Leaves definition call ms w w' =
      (result : ExecutionResult) × (events : List Event) × Executes env definition call.input
        (record (began call w) { events = events }) result
      × Ends ms result w'

  -- With purges enabled after some delay, and a storage that does not fail, a call of a registered
  -- workflow on an instance that holds nothing runs the workflow's body at the call's input, and the
  -- exit of the body decides the result. Where that is a pause, the workflow is paused and the alarm
  -- is set for the resume time. Else the status is completed, failed or cancelled, as the result is,
  -- the alarm is set for the delay from now, and an alarm after the delay empties the storage.
  pub run-purged :
      (call : WorkflowCall) (definition : Definition) (w : World) (ms : ℕ)
      → lookup_workflow call.workflow env.workflows ≡ some definition
      → w.store.status ≡ none
      → env.purge.delay_ms ≤ ms
      → Post (λ _ w'. Leaves definition call ms w w') Never (run call env w)
  unfolding run
  run-purged call definition w ms known blank late = Post-bind _ _ env w (
      Post-mono (start-Settled call definition env reliable known w blank)
        (λ r w' k.
          let (events, (executes, settled)) = k.2 in
          Post-pure _ env w' (k.0, events, executes, Settled-Ends k.0 ms w' late settled))
        (λ e w' n. n))
