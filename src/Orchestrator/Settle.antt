-- ===== src/Orchestrator/Settle.antt =====
-- From a running workflow to the status that its run leads to: `execute_and_settle`, which `start` and
-- every branch of `handleAlarm` end with. The storage does not fail.
use durable_effect.Prelude.{
  ℕ, ◌+◌, String, ◌≡◌, refl, ap, ◌∙◌, false, Bool-cases, inl, inr, ◌⊎◌, true, false, Option, none,
  some, List, if◌then◌else◌,
}
use durable_effect.State.{Unknown, WorkflowStatus, StatusTag, status_tag, transition_tag}
use durable_effect.Program.{ok}
use durable_effect.World.{Env, World, Event, TerminalState, IsReliable, asks, ◌>>=◌}
use durable_effect.World.Outcomes.{
  Post, Post-pure, Post-bind, Post-then, Post-mono, Post-asks, Post-unschedule, Post-emit_event,
}
use durable_effect.Machine.{apply_transition_to_status}
use durable_effect.Machine.Apply.{
  Edge, finish, suspend, give_up, drop_running, Edge-apply_transition, with_status, tag_of,
}
use durable_effect.Purge.{schedule_purge}
use durable_effect.Purge.Lifecycle.{schedule_purge-reliable}
use durable_effect.Executor.{ExecutionResult, ExecutionMode, result_to_transition}
use durable_effect.Executor.Frame.{control}
use durable_effect.Executor.Total.{Never, HasAlarm, execute-Ends}
use durable_effect.Executor.Exits.{Executes}
use durable_effect.Messages.{error_message}
use durable_effect.Orchestrator.{Definition, cleanup, cleanup_after, settle, execute_and_settle}

-- the alarm after a result: at the resume time of a pause, at the purge time where purges are enabled
abbrev pub alarm_after : Env → ExecutionResult → ℕ → Option ℕ
alarm_after env (ExecutionResult.paused _ resume_at _ _) time = some resume_at
alarm_after env _ time = if env.purge.enabled then some (time + env.purge.delay_ms) else none

-- the status after a result: completed, paused until the resume time, failed or cancelled
abbrev pub status_of : Env → ExecutionResult → ℕ → WorkflowStatus
status_of env (ExecutionResult.completed _ _ _) time = WorkflowStatus.completed time
status_of env (ExecutionResult.paused reason resume_at step_name _) time =
    WorkflowStatus.paused reason resume_at step_name
status_of env (ExecutionResult.failed e _ _) time =
    WorkflowStatus.failed time (record {
      message = error_message e;
      stack = env.stack_of e;
      step_name = none;
      attempt = none;
    })
status_of env (ExecutionResult.cancelled reason _) time = WorkflowStatus.cancelled time reason

-- the status that the code makes of a result
status_of-result :
    (env : Env) (result : ExecutionResult) (time : ℕ)
    → apply_transition_to_status (result_to_transition env.stack_of result) time
      ≡ status_of env result time
unfolding result_to_transition apply_transition_to_status
status_of-result env (ExecutionResult.completed _ _ _) time = refl
status_of-result env (ExecutionResult.paused _ _ _ _) time = refl
status_of-result env (ExecutionResult.failed _ _ _) time = refl
status_of-result env (ExecutionResult.cancelled _ _) time = refl

-- a purge is on record for its time, or purges are disabled
abbrev pub IsPlanned : Env → World → Type 0
IsPlanned env w =
    ((w.store.purge_scheduled ≡ some true)
      × (w.store.purge_at ≡ some (w.current_time + env.purge.delay_ms)))
    ⊎ (env.purge.enabled ≡ false)

-- a result that is no pause has its purge planned
abbrev pub HasPurge : Env → ExecutionResult → World → Type 0
HasPurge env (ExecutionResult.paused _ _ _ _) w = Unit
HasPurge env _ w = IsPlanned env w

-- what is left when a result has been dealt with
pub record Settled (env : Env) (result : ExecutionResult) (w : World) : Type 0 where
  pub status : w.store.status ≡ some (status_of env result w.current_time)
  pub alarm : w.scheduled_time ≡ alarm_after env result w.current_time
  pub purge : HasPurge env result w

schedule_purge-disabled :
    (state : TerminalState) (env : Env) (w : World)
    → env.purge.enabled ≡ false
    → schedule_purge state env w ≡ (ok tt, w)
unfolding schedule_purge asks ◌>>=◌
schedule_purge-disabled state env w d = simp d

-- a transition of a running workflow by each kind of result
result_Edge :
    (env : Env) (result : ExecutionResult) (time : ℕ)
    → Edge
        (some StatusTag.running)
        (transition_tag (result_to_transition env.stack_of result))
        (status_tag (status_of env result time))
unfolding result_to_transition
result_Edge env (ExecutionResult.completed _ _ _) time = finish
result_Edge env (ExecutionResult.paused _ _ _ _) time = suspend
result_Edge env (ExecutionResult.failed _ _ _) time = give_up
result_Edge env (ExecutionResult.cancelled _ _) time = drop_running

module _ (env : Env) (reliable : IsReliable env) where
  -- what the cleanup of a terminal status leaves
  record Cleaned (s : Option WorkflowStatus) (since : ℕ) (w : World) : Type 0 where
    status : w.store.status ≡ s
    time : w.current_time ≡ since
    alarm :
        w.scheduled_time
        ≡ (if env.purge.enabled then some (w.current_time + env.purge.delay_ms) else none)
    purge : IsPlanned env w

  cleanup-Cleaned :
      (state : TerminalState) (s : Option WorkflowStatus) (w : World)
      → w.store.status ≡ s
      → Post (λ _ w'. Cleaned s w.current_time w') Never (cleanup state env w)
  unfolding cleanup
  cleanup-Cleaned state s w h = Post-bind _ _ env w (
      Post-unschedule env w (elim (Bool-cases env.purge.enabled) [
        | inl on ↦ rw (schedule_purge-reliable env reliable on state _) (record {
          ends = record { status = h; time = refl; alarm = rw on; purge = inl (refl, refl) };
        })
        | inr off ↦
            rw (schedule_purge-disabled state env _ off) (record {
              ends = record { status = h; time = refl; alarm = rw off; purge = inr off };
            })
      ]))

  cleanup_after-Settled :
      (result : ExecutionResult) (w : World)
      → w.store.status ≡ some (status_of env result w.current_time)
      → HasAlarm result w.scheduled_time
      → Post (λ _ w'. Settled env result w') Never (cleanup_after result env w)
  unfolding cleanup_after
  cleanup_after-Settled (ExecutionResult.completed a b c) w s h =
      Post-mono (cleanup-Cleaned _ _ w s)
        (λ _ w' k. record { status = rw k.time k.status; alarm = k.alarm; purge = k.purge })
        (λ _ _ n. n)
  cleanup_after-Settled (ExecutionResult.failed a b c) w s h =
      Post-mono (cleanup-Cleaned _ _ w s)
        (λ _ w' k. record { status = rw k.time k.status; alarm = k.alarm; purge = k.purge })
        (λ _ _ n. n)
  cleanup_after-Settled (ExecutionResult.cancelled a b) w s h =
      Post-mono (cleanup-Cleaned _ _ w s)
        (λ _ w' k. record { status = rw k.time k.status; alarm = k.alarm; purge = k.purge })
        (λ _ _ n. n)
  cleanup_after-Settled (ExecutionResult.paused a b c d) w s h =
      Post-pure _ env w (record { status = s; alarm = h; purge = tt })

  settle-Settled :
      (name : String) (id : Option String) (result : ExecutionResult) (since : ℕ) (w : World)
      → w.store.status ≡ some (WorkflowStatus.running since)
      → HasAlarm result w.scheduled_time
      → Post (λ _ w'. Settled env result w') Never (settle name id result env w)
  unfolding settle
  settle-Settled name id result since w s h =
      let edge : Edge (tag_of w.store.status)
          (transition_tag (result_to_transition env.stack_of result))
          (status_tag (status_of env result w.current_time)) =
        rw s (result_Edge env result w.current_time) in
      Post-bind _ _ env w (
        Post-asks _ env w (
          Post-then _ _ env w _ _ (Edge-apply_transition _ _ env w reliable edge) (
            Post-bind _ _ env _ (
              Post-emit_event _ _ _ env _ (λ events.
                let status =
                  apply_transition_to_status (result_to_transition env.stack_of result)
                    w.current_time in
                cleanup_after-Settled result (record (with_status status w) { events = events })
                  (ap (λ (x : WorkflowStatus). some x) (status_of-result env result w.current_time))
                  h)))))

  -- The body of the definition has been run in this world, and its result dealt with.
  abbrev pub Concluded : Definition → Option Unknown → World → ExecutionResult → World → Type 0
  Concluded definition input w result w' =
      Executes env definition input w result × Settled env result w'

  -- The same from a world whose events are not looked at.
  abbrev pub RunsFrom : Definition → Option Unknown → World → ExecutionResult → World → Type 0
  RunsFrom definition input w result w' =
      (events : List Event) × Concluded definition input (record w { events = events }) result w'

  pub execute_and_settle-Concluded :
      (definition : Definition) (name : String) (input : Option Unknown) (id : Option String)
      (mode : ExecutionMode) (since : ℕ) (w : World)
      → w.store.status ≡ some (WorkflowStatus.running since)
      → Post
          (Concluded definition input w)
          Never
          (execute_and_settle definition name input id mode env w)
  unfolding execute_and_settle
  execute_and_settle-Concluded definition name input id mode since w s = Post-bind _ _ env w (
      Post-asks _ env w (
        Post-bind _ _ env w (
          Post-mono (execute-Ends (control w.store) env reliable definition _ w refl)
            (λ result w' k. Post-bind _ _ env w' (
              Post-mono
                (settle-Settled name id result since w' (ap (λ c. c.status) k.0.0 ∙ s) k.0.1)
                (λ _ w'' t. Post-pure result env w'' (k.1, t)) (λ _ _ n. n)))
            (λ _ _ n. n))))
