-- ===== src/Engine/Reachable.antt =====
-- Every request moves the status along the lifecycle, whether or not the storage fails.
use durable_effect.Prelude.{ℕ, false, String, ◌≡◌, refl, Option, none, some, List, [], ◌∷◌}
use durable_effect.State.{Unknown, WorkflowStatus}
use durable_effect.World.{Env, World, Action, ◌>>◌, ◌>>=◌}
use durable_effect.World.Outcomes.{Post, Post-bind, Post-mono, Post-world}
use durable_effect.World.Keeps.{
  Keeps, Keeps-bind, Keeps-if, Keeps-raise, Keeps-pure, Keeps-catch_error, keeps_rules,
}
use durable_effect.Machine.{
  initialize, get_status, check_recoverability, recoverability, recoverability_of,
  paused_recoverability,
}
use durable_effect.Recovery.{
  RecoveryExecuteResult, get_stats, check_and_schedule_recovery, check_attempts, schedule_recovery,
}
use durable_effect.Orchestrator
use durable_effect.Orchestrator.{
  Definition, WorkflowCall, start_new, start_or_existing, queue_new, queue_or_existing, rerun_if,
  handle_status, handle_alarm, cancel_now, emit_cancelled, cancel_status,
}
use durable_effect.Engine.{construct, run, run_async, after_purge, alarm}
use durable_effect.Engine.Traces.{
  Request, perform, trace, constructs, runs, runs_async, alarms, cancels, waits,
}
use durable_effect.Engine.Traces.{no_purge}
use durable_effect.Engine.Cancelled.{cancel-Reached}
use durable_effect.Engine.Lifecycle.{
  Reach, begins, Reached, apply-Keeps, read-Keeps, initialize-Reached, execute_and_settle-Reached,
  registry_get-Reached, get_state-Reached, start_queued-Reached, resume_paused-Reached,
  rerun_recovered-Reached, with_state-Reached, execute_recovery-Reached,
}

module _ (first : Option WorkflowStatus) where
  -- a sequence that begins with the creation of a workflow
  created :
      {A : Type 0} (name : String) (input : Option Unknown) (id : Option String) (next : Action A)
      (env : Env) (w : World)
      → Reached first w.store
      → w.store.status ≡ none
      → Keeps (Reached first) next
      → Post
          (λ _ w'. Reached first w'.store)
          (λ _ w'. Reached first w'.store)
          ((initialize name input id >> next) env w)
  created name input id next env w h blank k = Post-bind _ _ env w (
      Post-mono (initialize-Reached first name input id env w h blank) (λ _ w' r. k.at env w' r)
        (λ _ _ r. r))

  start_or_existing-Reached :
      (definition : Definition) (call : WorkflowCall) (o : Option WorkflowStatus) (env : Env)
      (w : World)
      → w.store.status ≡ o
      → Reached first w.store
      → Post
          (λ _ w'. Reached first w'.store)
          (λ _ w'. Reached first w'.store)
          (start_or_existing definition call o env w)
  unfolding start_or_existing start_new
  start_or_existing-Reached definition call none env w e h =
      created _ _ _ _ env w h e
        (search (keeps_rules, apply-Keeps first, execute_and_settle-Reached first) depth 12)
  start_or_existing-Reached definition call (some s) env w e h =
      let k : Keeps (Reached first) (start_or_existing definition call (some s)) =
        search keeps_rules in
      k.at env w h

  queue_or_existing-Reached :
      (call : WorkflowCall) (o : Option WorkflowStatus) (env : Env) (w : World)
      → w.store.status ≡ o
      → Reached first w.store
      → Post
          (λ _ w'. Reached first w'.store)
          (λ _ w'. Reached first w'.store)
          (queue_or_existing call o env w)
  unfolding queue_or_existing queue_new
  queue_or_existing-Reached call none env w e h =
      created _ _ _ _ env w h e (search (keeps_rules, apply-Keeps first) depth 12)
  queue_or_existing-Reached call (some s) env w e h =
      let k : Keeps (Reached first) (queue_or_existing call (some s)) = search keeps_rules in
      k.at env w h

  start-Reached : (call : WorkflowCall) → Keeps (Reached first) (Orchestrator.start call)
  unfolding Orchestrator.start
  start-Reached call =
      Keeps-catch_error _ _
        (Keeps-bind _ _
          (Keeps-catch_error _ _ (registry_get-Reached first call.workflow) (λ e. Keeps-raise _))
          (λ d. read-Keeps first _ (λ env w h. start_or_existing-Reached d call _ env w refl h)))
        (λ e. Keeps-raise _)

  queue-Reached : (call : WorkflowCall) → Keeps (Reached first) (Orchestrator.queue call)
  unfolding Orchestrator.queue
  queue-Reached call =
      Keeps-catch_error _ _
        (Keeps-bind _ _
          (Keeps-catch_error _ _ (registry_get-Reached first call.workflow) (λ e. Keeps-raise _))
          (λ d. read-Keeps first _ (λ env w h. queue_or_existing-Reached call _ env w refl h)))
        (λ e. Keeps-raise _)

  rerun_if-Reached : (r : RecoveryExecuteResult) → Keeps (Reached first) (rerun_if r)
  unfolding rerun_if
  rerun_if-Reached r =
      Keeps-if _ _ _
        (Keeps-bind _ _ (get_state-Reached first)
          (λ s. with_state-Reached first _ s (rerun_recovered-Reached first)))
        (Keeps-pure tt)

  handle_status-Reached : (o : Option WorkflowStatus) → Keeps (Reached first) (handle_status o)
  unfolding handle_status
  handle_status-Reached (some (WorkflowStatus.queued _)) =
      Keeps-bind _ _ (get_state-Reached first)
        (λ s. with_state-Reached first _ s (start_queued-Reached first))
  handle_status-Reached (some (WorkflowStatus.paused _ _ _)) =
      Keeps-bind _ _ (get_state-Reached first)
        (λ s. with_state-Reached first _ s (resume_paused-Reached first))
  handle_status-Reached (some (WorkflowStatus.running _)) =
      Keeps-bind _ _ (execute_recovery-Reached first) rerun_if-Reached
  handle_status-Reached _ = Keeps-pure tt

  handle_alarm-Reached : Keeps (Reached first) handle_alarm
  unfolding handle_alarm get_status
  handle_alarm-Reached =
      Keeps-catch_error _ _ (Keeps-bind _ _ (search keeps_rules) handle_status-Reached)
        (λ e. Keeps-raise _)

  paused-Reached : (o : Option ℕ) → Keeps (Reached first) (paused_recoverability o)
  unfolding paused_recoverability
  paused-Reached none = Keeps-pure _
  paused-Reached (some t) = Keeps-pure _

  status-Reached : (ms : ℕ) (s : WorkflowStatus) → Keeps (Reached first) (recoverability_of ms s)
  unfolding recoverability_of
  status-Reached ms (WorkflowStatus.running t) = search keeps_rules depth 6
  status-Reached ms (WorkflowStatus.paused a b c) = search (keeps_rules, paused-Reached)
  status-Reached ms _ = Keeps-pure _

  recoverability-Reached :
      (ms : ℕ) (o : Option WorkflowStatus) → Keeps (Reached first) (recoverability ms o)
  unfolding recoverability
  recoverability-Reached ms none = Keeps-pure _
  recoverability-Reached ms (some s) = search (keeps_rules, status-Reached)

  construct-Reached : Keeps (Reached first) construct
  unfolding construct check_and_schedule_recovery check_recoverability check_attempts get_stats
      schedule_recovery get_status
  construct-Reached = search (keeps_rules, recoverability-Reached) depth 18

  alarm-Reached :
      (env : Env) (w : World)
      → env.purge.enabled ≡ false
      → Reached first w.store
      → Reached first (alarm env w).1.store
  unfolding alarm after_purge ◌>>=◌
  alarm-Reached env w off h =
      simp (no_purge env w off) (Post-world (handle_alarm env w) (handle_alarm-Reached.at env w h))

  run-Reached : (call : WorkflowCall) → Keeps (Reached first) (run call)
  unfolding run
  run-Reached call = Keeps-bind _ _ (start-Reached call) (λ r. Keeps-pure _)

  run_async-Reached : (call : WorkflowCall) → Keeps (Reached first) (run_async call)
  unfolding run_async
  run_async-Reached call = Keeps-bind _ _ (queue-Reached call) (λ r. Keeps-pure _)

  after :
      {A : Type 0} (m : Action A) (env : Env) (w : World)
      → Keeps (Reached first) m
      → Reached first w.store
      → Reached first (m env w).1.store
  after m env w k h = Post-world (m env w) (k.at env w h)

  perform-Reached :
      (r : Request) (env : Env) (w : World)
      → env.purge.enabled ≡ false
      → Reached first w.store
      → Reached first (perform r env w).store
  perform-Reached constructs env w off h = after _ env w construct-Reached h
  perform-Reached (runs call) env w off h = after _ env w (run-Reached call) h
  perform-Reached (runs_async call) env w off h = after _ env w (run_async-Reached call) h
  perform-Reached alarms env w off h = alarm-Reached env w off h
  perform-Reached (cancels reason) env w off h = after _ env w (cancel-Reached first reason) h
  perform-Reached (waits ms) env w off h = h

  trace-Reached :
      (requests : List Request) (env : Env) (w : World)
      → env.purge.enabled ≡ false
      → Reached first w.store
      → Reached first (trace requests env w).store
  unfolding trace
  trace-Reached [] env w off h = h
  trace-Reached (r ∷ rs) env w off h =
      trace-Reached rs env (perform r env w) off (perform-Reached r env w off h)

-- Where purges are disabled, whatever is requested, at whatever times, and whether or not the storage
-- fails: the status that an object ends in is reached from its first one along the edges of the
-- lifecycle, and by the creation of a pending workflow where there is none.
pub trace-Reach :
    (requests : List Request) (env : Env) (w : World)
    → env.purge.enabled ≡ false
    → Reach w.store.status (trace requests env w).store.status
trace-Reach requests env w off = trace-Reached w.store.status requests env w off begins
