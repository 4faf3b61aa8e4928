-- ===== src/Engine/Traces.antt =====
-- The engine over sequences of requests, each of which may fail: what a finished workflow keeps, and
-- what follows a queued call and a cancellation.
use durable_effect.Prelude.{ℕ, String, ◌≡◌, true, false, Option, none, some, List, [], ◌∷◌}
use durable_effect.State.{WorkflowStatus, status_tag}
use durable_effect.State.Transitions.{is_terminal_status}
use durable_effect.Errors.{Key}
use durable_effect.Program.{ok}
use durable_effect.World.{Env, World, Store, Action, asks, ◌>>=◌}
use durable_effect.World.Outcomes.{Post-get, Post-bind, Post-world}
use durable_effect.World.Keeps.{
  Keeps, Keeps-bind, Keeps-raise, Keeps-asks, Keeps-pure, Keeps-if, Keeps-catch_error, keeps_rules,
}
use durable_effect.Machine.{RecoverabilityInfo, get_status, check_recoverability, recoverability}
use durable_effect.Recovery.{
  check_and_schedule_recovery, check_attempts, schedule_recovery, get_stats,
}
use durable_effect.Recovery.Repeated.{later}
use durable_effect.Purge.{execute_purge_if_due}
use durable_effect.Orchestrator
use durable_effect.Orchestrator.{
  Definition, WorkflowCall, lookup_workflow, registry_get, found_or_fail, start_or_existing,
  queue_or_existing, handle_status, handle_alarm, cancel_status,
}
use durable_effect.Engine
use durable_effect.Engine.{construct, run, run_async, after_purge, alarm}

-- a call of one of the object's methods, its construction, or the passing of time
pub data Request : Type 0 where
  constructs : Request
  runs runs_async : WorkflowCall → Request
  alarms : Request
  cancels : (reason : Option String) → Request
  waits : (ms : ℕ) → Request

-- the world that a request leaves, whether it succeeds or fails
abbrev pub perform : Request → Env → World → World
perform constructs env w = (construct env w).1
perform (runs call) env w = (run call env w).1
perform (runs_async call) env w = (run_async call env w).1
perform alarms env w = (alarm env w).1
perform (cancels reason) env w = (Engine.cancel reason env w).1
perform (waits ms) env w = later ms w

unfoldable pub trace : List Request → Env → World → World
trace [] env w = w
trace (r ∷ rs) env w = trace rs env (perform r env w)

pub no_purge :
    (env : Env) (w : World) → env.purge.enabled ≡ false → execute_purge_if_due env w ≡ (ok none, w)
unfolding execute_purge_if_due asks ◌>>=◌
no_purge env w off = simp off

module _ (st : WorkflowStatus) (over : is_terminal_status (status_tag st) ≡ true) where
  abbrev Stays : Store → Type 0
  Stays s = s.status ≡ some st

  -- a read of the status finds the one that is kept
  get_status-Keeps :
      {A : Type 0} (f : Option WorkflowStatus → Action A)
      → Keeps Stays (f (some st))
      → Keeps Stays (get_status >>= f)
  unfolding get_status
  get_status-Keeps f k = record {
    at = λ env w h.
        Post-bind _ _ env w (Post-get Key.status _ env w (simp h (k.at env w h)) (λ _ _. h));
  }

  registry_get-Keeps : (name : String) → Keeps Stays (registry_get name)
  unfolding registry_get
  registry_get-Keeps name =
      Keeps-bind _ _ (Keeps-asks _)
        (λ workflows. found_Keeps workflows (lookup_workflow name workflows))
    where
      found_Keeps :
          (workflows : List (String × Definition)) (o : Option Definition)
          → Keeps Stays (found_or_fail name workflows o)
      found_Keeps workflows none = Keeps-raise _
      found_Keeps workflows (some d) = Keeps-pure d

  start-Keeps : (call : WorkflowCall) → Keeps Stays (Orchestrator.start call)
  unfolding Orchestrator.start start_or_existing
  start-Keeps call =
      Keeps-catch_error _ _
        (Keeps-bind _ _
          (Keeps-catch_error _ _ (registry_get-Keeps call.workflow) (λ e. Keeps-raise _))
          (λ d. get_status-Keeps _ (search keeps_rules)))
        (λ e. Keeps-raise _)

  queue-Keeps : (call : WorkflowCall) → Keeps Stays (Orchestrator.queue call)
  unfolding Orchestrator.queue queue_or_existing
  queue-Keeps call =
      Keeps-catch_error _ _
        (Keeps-bind _ _
          (Keeps-catch_error _ _ (registry_get-Keeps call.workflow) (λ e. Keeps-raise _))
          (λ d. get_status-Keeps _ (search keeps_rules)))
        (λ e. Keeps-raise _)

  handle_terminal :
      (s : WorkflowStatus)
      → is_terminal_status (status_tag s) ≡ true
      → Keeps Stays (handle_status (some s))
  unfolding handle_status is_terminal_status
  handle_terminal (WorkflowStatus.queued _) h = cc
  handle_terminal (WorkflowStatus.paused _ _ _) h = cc
  handle_terminal (WorkflowStatus.running _) h = cc
  handle_terminal _ h = Keeps-pure tt

  handle_alarm-Keeps : Keeps Stays handle_alarm
  unfolding handle_alarm
  handle_alarm-Keeps =
      Keeps-catch_error _ _ (get_status-Keeps _ (handle_terminal st over)) (λ e. Keeps-raise _)

  cancel_terminal :
      (reason : Option String) (s : WorkflowStatus)
      → is_terminal_status (status_tag s) ≡ true
      → Keeps Stays (cancel_status reason (some s))
  unfolding cancel_status is_terminal_status
  cancel_terminal reason (WorkflowStatus.completed _) h = Keeps-pure _
  cancel_terminal reason (WorkflowStatus.failed _ _) h = Keeps-pure _
  cancel_terminal reason (WorkflowStatus.cancelled _ _) h = Keeps-pure _
  cancel_terminal reason _ h = cc

  cancel-Keeps : (reason : Option String) → Keeps Stays (Orchestrator.cancel reason)
  unfolding Orchestrator.cancel
  cancel-Keeps reason =
      Keeps-catch_error _ _ (get_status-Keeps _ (cancel_terminal reason st over))
        (λ e. Keeps-raise _)

  attempts-Keeps : (info : RecoverabilityInfo) → Keeps Stays (check_attempts info)
  unfolding check_attempts get_stats schedule_recovery
  attempts-Keeps info = search keeps_rules depth 14

  recoverability-Keeps :
      (stale_threshold_ms : ℕ) → Keeps Stays (recoverability stale_threshold_ms (some st))
  unfolding recoverability
  recoverability-Keeps ms = rw over (Keeps-pure _)

  construct-Keeps : Keeps Stays construct
  unfolding construct check_and_schedule_recovery check_recoverability
  construct-Keeps =
      Keeps-bind _ _
        (Keeps-bind _ _ (Keeps-asks _) (λ config.
          Keeps-bind _ _ (get_status-Keeps _ (recoverability-Keeps config.stale_threshold_ms))
            (λ info. Keeps-if _ _ _ (attempts-Keeps info) (Keeps-pure _))))
        (λ _. Keeps-pure tt)

  -- what an action that keeps the status leaves
  kept :
      {A : Type 0} (m : Action A) (env : Env) (w : World)
      → Keeps Stays m
      → Stays w.store
      → Stays (m env w).1.store
  kept m env w k h = Post-world (m env w) (k.at env w h)

  run-Keeps : (call : WorkflowCall) → Keeps Stays (run call)
  unfolding run
  run-Keeps call = Keeps-bind _ _ (start-Keeps call) (λ r. Keeps-pure _)

  run_async-Keeps : (call : WorkflowCall) → Keeps Stays (run_async call)
  unfolding run_async
  run_async-Keeps call = Keeps-bind _ _ (queue-Keeps call) (λ r. Keeps-pure _)

  engine_cancel-Keeps : (reason : Option String) → Keeps Stays (Engine.cancel reason)
  unfolding Engine.cancel
  engine_cancel-Keeps reason = Keeps-bind _ _ (cancel-Keeps reason) (λ r. Keeps-pure _)

  alarm_after_no_purge :
      (env : Env) (w : World)
      → env.purge.enabled ≡ false
      → Stays w.store
      → Stays (alarm env w).1.store
  unfolding alarm after_purge ◌>>=◌
  alarm_after_no_purge env w off h =
      simp (no_purge env w off) (kept handle_alarm env w handle_alarm-Keeps h)

  perform-Stays :
      (r : Request) (env : Env) (w : World)
      → env.purge.enabled ≡ false
      → Stays w.store
      → Stays (perform r env w).store
  perform-Stays constructs env w off h = kept construct env w construct-Keeps h
  perform-Stays (runs call) env w off h = kept (run call) env w (run-Keeps call) h
  perform-Stays (runs_async call) env w off h = kept (run_async call) env w (run_async-Keeps call) h
  perform-Stays alarms env w off h = alarm_after_no_purge env w off h
  perform-Stays (cancels reason) env w off h =
      kept (Engine.cancel reason) env w (engine_cancel-Keeps reason) h
  perform-Stays (waits ms) env w off h = h

  -- Where purges are disabled, a workflow that has completed, failed or been cancelled keeps exactly
  -- that status through every sequence of calls, constructions and alarms, at all times, and whether
  -- or not the storage fails on the way.
  pub trace-Stays :
      (requests : List Request) (env : Env) (w : World)
      → env.purge.enabled ≡ false
      → w.store.status ≡ some st
      → (trace requests env w).store.status ≡ some st
  unfolding trace
  trace-Stays [] env w off h = h
  trace-Stays (r ∷ rs) env w off h =
      trace-Stays rs env (perform r env w) off (perform-Stays r env w off h)
