-- ===== src/Orchestrator/Alarm.antt =====
-- `handleAlarm`: which workflows an alarm runs, and which it leaves alone. The storage does not fail.
use durable_effect.Prelude.{
  ℕ, ◌+◌, ◌<◌, String, ◌≡◌, refl, true, false, Option, some, [], arith, leb, or_else,
}
use durable_effect.State.{
  PauseReason, WorkflowStatus, WorkflowTransition, WorkflowState, StatusTag, TransitionTag,
}
use durable_effect.State.Transitions.{is_valid_transition}
use durable_effect.Program.{ok}
use durable_effect.World.{Env, World, IsReliable, asks, catch_error, ◌>>=◌}
use durable_effect.World.Storage.{now}
use durable_effect.World.Outcomes.{
  Post, Post-pure, Post-bind, Post-then, Post-mono, Post-catch, Post-emit_event,
}
use durable_effect.World.Reliable.{get-reliable, put-reliable, list-reliable}
use durable_effect.Machine.{
  get_status, get_state, state_of, apply_transition, apply_transition_to_status, validate,
  increment_recovery_attempts, reset_recovery_attempts,
}
use durable_effect.Machine.Apply.{Edge, dequeue, wake, tag_of, Edge-apply_transition}
use durable_effect.Recovery.{
  RecoveryExecuteResult, execute_recovery, recover_from, recover_or_fail, recover_now,
  after_transition, get_stats,
}
use durable_effect.Recovery.Check.{attempts_of}
use durable_effect.Recovery.Execute.{with_recovered, recovered_result}
use durable_effect.Executor.{ExecutionResult}
use durable_effect.Executor.Total.{Never}
use durable_effect.Orchestrator.{
  Definition, lookup_workflow, registry_get, handle_alarm, handle_status, with_state, start_queued,
  resume_paused, rerun_recovered, rerun_if,
}
use durable_effect.Orchestrator.Settle.{RunsFrom, execute_and_settle-Concluded}

-- nothing to run: no workflow, one that was not started, or one that is over
abbrev pub IsIdle : Option WorkflowStatus → Type 0
IsIdle (some (WorkflowStatus.queued _)) = ⊥
IsIdle (some (WorkflowStatus.paused _ _ _)) = ⊥
IsIdle (some (WorkflowStatus.running _)) = ⊥
IsIdle _ = Unit

-- something to run: a queued or paused workflow, or a running one with a recovery attempt left
abbrev pub IsWaiting : Env → World → Option WorkflowStatus → Type 0
IsWaiting env w (some (WorkflowStatus.queued _)) = Unit
IsWaiting env w (some (WorkflowStatus.paused _ _ _)) = Unit
IsWaiting env w (some (WorkflowStatus.running _)) =
    attempts_of w < env.recovery.max_recovery_attempts
IsWaiting env w _ = ⊥

module _ (env : Env) (reliable : IsReliable env) where
  idle_status :
      (status : Option WorkflowStatus) (w : World)
      → IsIdle status
      → handle_status status env w ≡ (ok tt, w)
  unfolding handle_status
  idle_status (some (WorkflowStatus.queued _)) w h = absurd h
  idle_status (some (WorkflowStatus.paused _ _ _)) w h = absurd h
  idle_status (some (WorkflowStatus.running _)) w h = absurd h
  idle_status _ w h = refl

  -- With a storage that does not fail, an alarm on an instance with no workflow, with one that was
  -- never started, or with one that has completed, failed or been cancelled succeeds and changes
  -- nothing.
  pub handle_alarm-idle : (w : World) → IsIdle w.store.status → handle_alarm env w ≡ (ok tt, w)
  unfolding handle_alarm get_status catch_error ◌>>=◌
  handle_alarm-idle w h = simp (get-reliable env reliable, idle_status _ w h)

  -- the world in which the body is run again, by the status that the alarm finds: a running workflow
  -- has one more recovery attempt, which its success takes back
  abbrev pub woken : World → Option WorkflowStatus → World
  woken w (some (WorkflowStatus.running _)) = record w {
    store = record w.store {
      status = some (WorkflowStatus.running w.current_time);
      recovery_attempts = some 0;
    };
  }
  woken w _ = record w {
    store = record w.store { status = some (WorkflowStatus.running w.current_time) };
  }

  -- the body of the definition is run in a world, at the input that is stored
  abbrev pub Reruns : Definition → World → Unit {0} → World → Type 0
  Reruns definition w _ w' =
      (result : ExecutionResult) × RunsFrom env reliable definition w.store.input w result w'

  abbrev pub Runs : Definition → World → Unit {0} → World → Type 0
  Runs definition w = Reruns definition (woken w w.store.status)

  module _ (definition : Definition) (state : WorkflowState) (w : World)
      (known : lookup_workflow state.workflow_name env.workflows ≡ some definition) where
    -- the body is run at the input of the state
    abbrev AtInput : World → Unit {0} → World → Type 0
    AtInput v _ w' =
        (result : ExecutionResult) × RunsFrom env reliable definition state.input v result w'

    -- running from now on
    abbrev resumed : World
    resumed = record w {
      store = record w.store { status = some (WorkflowStatus.running w.current_time) };
    }

    found : registry_get state.workflow_name env w ≡ (ok definition, w)
    unfolding registry_get asks ◌>>=◌
    found = simp known

    start_queued-Runs :
        (since : ℕ)
        → w.store.status ≡ some (WorkflowStatus.queued since)
        → Post (AtInput resumed) Never (start_queued state env w)
    unfolding start_queued apply_transition_to_status
    start_queued-Runs since s =
        let edge : Edge (tag_of w.store.status) TransitionTag.start StatusTag.running =
          rw s dequeue in
        Post-then _ _ env w _ _ found (
          Post-then _ _ env w _ _
            (Edge-apply_transition (WorkflowTransition.start state.input) _ env w reliable edge)
            (Post-bind _ _ env _ (
              Post-emit_event _ _ _ env _ (λ events. Post-bind _ _ env _ (
                Post-mono
                  (execute_and_settle-Concluded env reliable definition _ _ _ _ w.current_time _
                    refl)
                  (λ result w' t. Post-pure _ env w' (result, (events, t))) (λ _ _ n. n))))))

    resume_paused-Runs :
        (reason : PauseReason) (at : ℕ) (step_name : Option String)
        → w.store.status ≡ some (WorkflowStatus.paused reason at step_name)
        → Post (AtInput resumed) Never (resume_paused state env w)
    unfolding resume_paused apply_transition_to_status
    resume_paused-Runs reason at step_name s =
        let edge : Edge (tag_of w.store.status) TransitionTag.resume StatusTag.running =
          rw s wake in
        Post-then _ _ env w _ _ found (
          Post-then _ _ env w _ _
            (Edge-apply_transition WorkflowTransition.resume _ env w reliable edge)
            (Post-bind _ _ env _ (
              Post-emit_event _ _ _ env _ (λ events. Post-bind _ _ env _ (
                Post-mono
                  (execute_and_settle-Concluded env reliable definition _ _ _ _ w.current_time _
                    refl)
                  (λ result w' t. Post-pure _ env w' (result, (events, t))) (λ _ _ n. n))))))

    rerun_recovered-Runs :
        (since : ℕ)
        → w.store.status ≡ some (WorkflowStatus.running since)
        → Post (AtInput w) Never (rerun_recovered state env w)
    unfolding rerun_recovered
    rerun_recovered-Runs since s = Post-then _ _ env w _ _ found (
        Post-bind _ _ env _ (
          Post-emit_event _ _ _ env _ (λ events. Post-bind _ _ env _ (
            Post-mono (execute_and_settle-Concluded env reliable definition _ _ _ _ since _ s)
              (λ result w' t. Post-pure _ env w' (result, (events, t))) (λ _ _ n. n)))))

  -- the state that `getState` reads
  abbrev state_at : World → WorkflowStatus → WorkflowState
  state_at w status = record {
    status = status;
    workflow_name = or_else w.store.name "unknown";
    input = w.store.input;
    execution_id = w.store.execution_id;
    completed_steps = or_else w.store.completed_steps [];
    completed_pause_index = or_else w.store.completed_pause_index 0;
    pending_resume_at = w.store.pending_resume_at;
    recovery_attempts = or_else w.store.recovery_attempts 0;
    is_cancelled = or_else w.store.cancelled false;
    cancel_reason = w.store.cancel_reason;
  }

  state_of-some :
      (status : WorkflowStatus) (w : World)
      → w.store.status ≡ some status
      → state_of w.store ≡ some (state_at w status)
  unfolding state_of
  state_of-some status w s = rw s

  get_state-some :
      (status : WorkflowStatus) (w : World)
      → w.store.status ≡ some status
      → get_state env w ≡ (ok (some (state_at w status)), w)
  unfolding get_state ◌>>=◌
  get_state-some status w s = simp (list-reliable env reliable, state_of-some status w s)

  -- a running workflow with an attempt left is recovered
  recovered :
      (since : ℕ) (w : World)
      → w.store.status ≡ some (WorkflowStatus.running since)
      → leb env.recovery.max_recovery_attempts (attempts_of w) ≡ false
      → execute_recovery env w ≡ (ok (recovered_result (attempts_of w + 1)), with_recovered w)
  unfolding execute_recovery recover_from recover_or_fail get_stats recover_now after_transition
      increment_recovery_attempts reset_recovery_attempts apply_transition get_status now validate
      is_valid_transition apply_transition_to_status catch_error asks ◌>>=◌
  recovered since w s room = simp (get-reliable env reliable, put-reliable env reliable, s, room)

  module _ (definition : Definition) where
    abbrev Known : World → Type 0
    Known w = lookup_workflow (or_else w.store.name "unknown") env.workflows ≡ some definition

    rerun-Runs :
        (r : RecoveryExecuteResult) (since : ℕ) (w : World)
        → Known w
        → r.success ≡ true
        → w.store.status ≡ some (WorkflowStatus.running since)
        → Post (Reruns definition w) Never (rerun_if r env w)
    unfolding rerun_if with_state
    rerun-Runs r since w known success s = rw success (
        Post-then _ _ env w _ _ (get_state-some _ w s)
          (rerun_recovered-Runs definition _ w known since s))

    handle_status-Runs :
        (status : Option WorkflowStatus) (w : World)
        → Known w
        → w.store.status ≡ status
        → IsWaiting env w status
        → Post (Reruns definition (woken w status)) Never (handle_status status env w)
    unfolding handle_status with_state
    handle_status-Runs (some (WorkflowStatus.queued t)) w known s h =
        Post-then _ _ env w _ _ (get_state-some _ w s) (start_queued-Runs definition _ w known t s)
    handle_status-Runs (some (WorkflowStatus.paused a b c)) w known s h =
        Post-then _ _ env w _ _ (get_state-some _ w s)
          (resume_paused-Runs definition _ w known a b c s)
    handle_status-Runs (some (WorkflowStatus.running t)) w known s h =
        Post-then _ _ env w _ _ (recovered t w s (ground arith)) (
          rerun-Runs (recovered_result (attempts_of w + 1)) w.current_time (with_recovered w) known
            refl refl)
    handle_status-Runs _ w known s h = absurd h

    -- With a storage that does not fail, an alarm on a queued workflow, on a paused one, and on a
    -- running one with a recovery attempt left, where the stored name is that of a registered
    -- workflow, runs that workflow's body at the stored input and succeeds. The body begins with the
    -- status running since the alarm, and with no recovery attempt taken where it was recovered; but
    -- for its start time and the count of its pauses all else is as it was stored. The exit of the
    -- body decides the result: its output, a pause, a cancellation or a failure. The status is
    -- completed, paused until the resume time, failed with the error or cancelled, as the result is;
    -- the alarm stands at the resume time of a pause, at the purge time where purges are enabled, and
    -- nowhere else, and with that purge time the purge is on record.
    pub handle_alarm-Runs :
        (w : World)
        → Known w
        → IsWaiting env w w.store.status
        → Post (Runs definition w) Never (handle_alarm env w)
    unfolding handle_alarm get_status
    handle_alarm-Runs w known h =
        Post-catch _ _ env w
          (Post-then _ _ env w _ _ (get-reliable env reliable _ _ w)
            (handle_status-Runs _ w known refl h))
          (λ e w' n. absurd n)
