-- ===== src/Engine/Sequels.antt =====
-- What the next alarm finds after a queued call and after a cancellation. The storage does not fail.
use durable_effect.Prelude.{ℕ, ◌+◌, String, ◌≡◌, refl, ap, ◌∙◌, true, Option, none, some, or_else}
use durable_effect.State.{WorkflowStatus}
use durable_effect.Program.{Result, ok}
use durable_effect.World.{Env, World, Action, pure, IsReliable, ◌>>=◌}
use durable_effect.World.Outcomes.{Post, Post-mono, Post-pure, Post-bind, Post-world, Post-then}
use durable_effect.Machine.{initialized}
use durable_effect.Recovery.Repeated.{later}
use durable_effect.Purge.Lifecycle.{execute_purge-absent}
use durable_effect.Executor.Total.{Never}
use durable_effect.Orchestrator
use durable_effect.Orchestrator.{Definition, WorkflowCall, lookup_workflow, handle_alarm}
use durable_effect.Orchestrator.Start.{Queued, queued_result, queue-Queued}
use durable_effect.Orchestrator.Alarm.{
  IsIdle, IsWaiting, Runs, handle_alarm-idle, handle_alarm-Runs,
}
use durable_effect.Orchestrator.Cancel.{Answers, cancel-Answers}
use durable_effect.Engine
use durable_effect.Engine.{run_async, after_purge, alarm}

-- queued or paused
abbrev pub IsPending : Option WorkflowStatus → Type 0
IsPending (some (WorkflowStatus.queued _)) = Unit
IsPending (some (WorkflowStatus.paused _ _ _)) = Unit
IsPending _ = ⊥

module _ (env : Env) (reliable : IsReliable env) (enabled : env.purge.enabled ≡ true) where
  -- what is left by an action that does not fail
  left :
      {A : Type 0} {Q : A → World → Type 0} {P : World → Type 0} (r : Result A × World)
      → Post Q Never r
      → ((a : A) (w' : World) → Q a w' → P w')
      → P r.1
  left r h k = Post-world r (Post-mono h k (λ e w' n. absurd n))

  idle_alarm :
      (w : World)
      → w.store.purge_scheduled ≡ none
      → IsIdle w.store.status
      → alarm env w ≡ (ok tt, w)
  unfolding alarm after_purge ◌>>=◌
  idle_alarm w p i =
      simp (execute_purge-absent env reliable enabled w p) (handle_alarm-idle env reliable w i)

  -- the record of a cancellation, and none of a purge
  record Unpurged (reason : Option String) (time : ℕ) (w : World) : Type 0 where
    status : w.store.status ≡ some (WorkflowStatus.cancelled time reason)
    no_purge : w.store.purge_scheduled ≡ none
    no_alarm : w.scheduled_time ≡ none

  unchanged_after :
      {A B : Type 0} {P : World → Type 0} (m : Action A) (f : A → B) (w : World)
      → Post (λ _ w'. P w') Never (m env w)
      → Post (λ _ w'. P w') Never ((m >>= λ a. pure (f a)) env w)
  unchanged_after m f w h =
      Post-bind _ _ env w (Post-mono h (λ a w' k. Post-pure (f a) env w' k) (λ e w' n. n))

  cancelled_Unpurged :
      (reason : Option String) (status : Option WorkflowStatus) (w : World)
      → IsPending status
      → w.store.purge_scheduled ≡ none
      → Post (Answers reason env reliable w status) Never (Orchestrator.cancel reason env w)
      → Unpurged reason w.current_time (Engine.cancel reason env w).1
  unfolding Engine.cancel
  cancelled_Unpurged reason (some (WorkflowStatus.queued t)) w p none_yet h =
      left {Q = λ _ w'. Unpurged reason w.current_time w'} _
        (unchanged_after _ _ w (
          Post-mono h
            (λ r w' k. record {
              status = ap (λ s. s.status) k.1;
              no_purge = ap (λ s. s.purge_scheduled) k.1 ∙ none_yet;
              no_alarm = k.2;
            })
            (λ e w' n. n)))
        (λ _ w' k. k)
  cancelled_Unpurged reason (some (WorkflowStatus.paused a b c)) w p none_yet h =
      left {Q = λ _ w'. Unpurged reason w.current_time w'} _
        (unchanged_after _ _ w (
          Post-mono h
            (λ r w' k. record {
              status = ap (λ s. s.status) k.1;
              no_purge = ap (λ s. s.purge_scheduled) k.1 ∙ none_yet;
              no_alarm = k.2;
            })
            (λ e w' n. n)))
        (λ _ w' k. k)
  cancelled_Unpurged reason _ w p none_yet h = absurd p

  -- Even with purges enabled and a storage that does not fail, a queued or paused workflow with no
  -- purge on record is never purged once it is cancelled: no alarm is set, and an alarm that comes
  -- nevertheless, however late, changes nothing.
  pub cancel-unpurged :
      (reason : Option String) (w : World) (ms : ℕ)
      → IsPending w.store.status
      → w.store.purge_scheduled ≡ none
      → let w' = later ms (Engine.cancel reason env w).1 in
        (w'.store.status ≡ some (WorkflowStatus.cancelled w.current_time reason))
        × (w'.scheduled_time ≡ none)
        × (alarm env w' ≡ (ok tt, w'))
  cancel-unpurged reason w ms p none_yet =
      let u =
        cancelled_Unpurged reason w.store.status w p none_yet
          (cancel-Answers reason env reliable w) in
      (u.status, u.no_alarm, idle_alarm _ u.no_purge (rw u.status tt))

  -- what a queued call leaves of use to the alarm
  record Waits (call : WorkflowCall) (time : ℕ) (w : World) : Type 0 where
    status : w.store.status ≡ some (WorkflowStatus.queued time)
    name : w.store.name ≡ some call.workflow
    input : w.store.input ≡ call.input
    no_purge : w.store.purge_scheduled ≡ none
    scheduled : w.scheduled_time ≡ some (time + 1)

  run_async-Waits :
      (call : WorkflowCall) (definition : Definition) (w : World)
      → lookup_workflow call.workflow env.workflows ≡ some definition
      → w.store.status ≡ none
      → w.store.purge_scheduled ≡ none
      → Waits call w.current_time (run_async call env w).1
  unfolding run_async initialized
  run_async-Waits call definition w known blank none_yet =
      left
        {Q = λ _ w'.
          Queued call definition env reliable known w
            (queued_result call definition env reliable known) w'}
        {P = Waits call w.current_time} _
        (Post-bind _ _ env w (
          Post-mono (queue-Queued call definition env reliable known w blank)
            (λ r w' k. Post-pure r.id env w' (refl, k.1, k.2, k.3)) (λ e w' n. n)))
        (λ id w' k. record {
          status = ap (λ s. s.status) k.1;
          name = ap (λ s. s.name) k.1;
          input = ap (λ s. s.input) k.1;
          no_purge = ap (λ s. s.purge_scheduled) k.1 ∙ none_yet;
          scheduled = k.3;
        })

  alarm-Runs :
      (definition : Definition) (w : World)
      → lookup_workflow (or_else w.store.name "unknown") env.workflows ≡ some definition
      → w.store.purge_scheduled ≡ none
      → IsWaiting env w w.store.status
      → Post (Runs env reliable definition w) Never (alarm env w)
  unfolding alarm after_purge
  alarm-Runs definition w known p waiting =
      Post-then _ _ env w _ _ (execute_purge-absent env reliable enabled w p)
        (handle_alarm-Runs env reliable definition w known waiting)

  -- With purges enabled and a storage that does not fail, a queued call of a registered workflow,
  -- on an instance that holds neither a workflow nor the record of a purge, sets the alarm one
  -- millisecond later and stores the call's input. The alarm, whenever it comes, runs that workflow's
  -- body at that input, in a workflow that is running since then, and the exit of the body decides the
  -- result, the status and the next alarm.
  pub run_async-alarm :
      (call : WorkflowCall) (definition : Definition) (w : World) (ms : ℕ)
      → lookup_workflow call.workflow env.workflows ≡ some definition
      → w.store.status ≡ none
      → w.store.purge_scheduled ≡ none
      → let w' = later ms (run_async call env w).1 in
        (w'.scheduled_time ≡ some (w.current_time + 1))
        × (w'.store.status ≡ some (WorkflowStatus.queued w.current_time))
        × (w'.store.input ≡ call.input)
        × Post (Runs env reliable definition w') Never (alarm env w')
  run_async-alarm call definition w ms known blank none_yet =
      let q = run_async-Waits call definition w known blank none_yet in
      (
        q.scheduled,
        q.status,
        q.input,
        alarm-Runs definition _ (rw q.name known) q.no_purge (rw q.status tt),
      )
