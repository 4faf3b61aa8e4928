-- ===== src/Orchestrator/Start.antt =====
-- `start` and `queue`: an unknown workflow, an instance that has one already, and a new one that runs
-- at once or at the alarm.
use durable_effect.Prelude.{◌+◌, String, ◌≡◌, refl, true, false, none, some, [], map}
use durable_effect.State.{WorkflowStatus, WorkflowTransition}
use durable_effect.Errors.{Error, Operation}
use durable_effect.Program.{ok, err}
use durable_effect.World.{Env, World, IsReliable, asks, catch_error, ◌>>=◌}
use durable_effect.World.Outcomes.{
  Post, Post-pure, Post-bind, Post-then, Post-mono, Post-asks, Post-catch, Post-emit_event,
  Post-now, Post-schedule,
}
use durable_effect.World.Reliable.{get-reliable, put_batch-reliable}
use durable_effect.Machine.{get_status, initialize, initialized, apply_transition_to_status}
use durable_effect.Machine.Apply.{begin, enqueue, Edge-apply_transition}
use durable_effect.Executor.{ExecutionResult}
use durable_effect.Executor.Total.{Never}
use durable_effect.Orchestrator.{
  Definition, WorkflowCall, StartResult, lookup_workflow, registry_get, start, start_or_existing,
  start_new, queue, queue_or_existing, queue_new, existing_result, start_result,
}
use durable_effect.Orchestrator.Settle.{RunsFrom, execute_and_settle-Concluded}

abbrev pub not_found_error : Operation → WorkflowCall → Env → Error
not_found_error operation call env =
    Error.orchestrator_error operation (
      Error.workflow_not_found call.workflow (map (λ (d : String × Definition). d.0) env.workflows))

-- A call that names no registered workflow fails with the names that are registered, whether it is to
-- run at once or to be queued, and nothing is read or written.
pub start-queue-unknown :
    (call : WorkflowCall) (env : Env) (w : World)
    → lookup_workflow call.workflow env.workflows ≡ none
    → (start call env w ≡ (err (not_found_error Operation.start call env), w))
      × (queue call env w ≡ (err (not_found_error Operation.queue call env), w))
unfolding start queue registry_get asks catch_error ◌>>=◌
start-queue-unknown call env w h = simp h (refl, refl)

-- the world in which the body of a new workflow is run
abbrev pub began : WorkflowCall → World → World
began call w = record w {
  store = record w.store {
    status = some (WorkflowStatus.running w.current_time);
    name = some call.workflow;
    input = call.input;
    execution_id = call.execution_id;
    completed_steps = some [];
    completed_pause_index = some 0;
    recovery_attempts = some 0;
    cancelled = some false;
  };
}

module _ (call : WorkflowCall) (definition : Definition) (env : Env) (reliable : IsReliable env)
    (known : lookup_workflow call.workflow env.workflows ≡ some definition) where
  -- With a storage that does not fail, an instance that holds a workflow answers a second call of a
  -- registered workflow, with any input, by its identity and whether it has completed; nothing is
  -- started, queued or written.
  pub start-queue-existing :
      (status : WorkflowStatus) (w : World)
      → w.store.status ≡ some status
      → (start call env w ≡ (ok (existing_result env.instance_id status), w))
        × (queue call env w ≡ (ok (existing_result env.instance_id status), w))
  unfolding start queue start_or_existing queue_or_existing registry_get get_status asks catch_error
      ◌>>=◌
  start-queue-existing status w h = simp (known, h, get-reliable env reliable) (refl, refl)

  -- the output of a result that has one
  abbrev pub answer_of : ExecutionResult → StartResult
  answer_of (ExecutionResult.completed output _ _) = record {
    id = env.instance_id;
    completed = true;
    output = some output;
  }
  answer_of _ = record { id = env.instance_id; completed = false; output = none }

  answer_of-result :
      (result : ExecutionResult) → start_result env.instance_id result ≡ answer_of result
  answer_of-result (ExecutionResult.completed _ _ _) = refl
  answer_of-result (ExecutionResult.paused _ _ _ _) = refl
  answer_of-result (ExecutionResult.failed _ _ _) = refl
  answer_of-result (ExecutionResult.cancelled _ _) = refl

  abbrev pub Started : World → StartResult → World → Type 0
  Started w r w' =
      (result : ExecutionResult) × (r ≡ answer_of result)
      × RunsFrom env reliable definition call.input (began call w) result w'

  start_new-Started : (w : World) → Post (Started w) Never (start_new definition call env w)
  unfolding start_new initialize initialized apply_transition_to_status
  start_new-Started w = Post-then _ _ env w _ _ (put_batch-reliable env reliable _ w) (
      Post-then _ _ env _ _ _
        (Edge-apply_transition (WorkflowTransition.start call.input) _ env _ reliable begin)
        (Post-bind _ _ env _ (
          Post-emit_event _ _ _ env _ (λ events. Post-bind _ _ env _ (
            Post-mono
              (execute_and_settle-Concluded env reliable definition _ _ _ _ w.current_time _ refl)
              (λ result w' t. Post-bind _ _ env w' (
                Post-asks _ env w'
                  (Post-pure _ env w' (result, answer_of-result result, (events, t)))))
              (λ _ _ n. n))))))

  registry_known : (w : World) → registry_get call.workflow env w ≡ (ok definition, w)
  unfolding registry_get asks ◌>>=◌
  registry_known w = simp known

  -- With a storage that does not fail, a call that names a registered workflow, on an instance that
  -- holds nothing, runs the workflow's body at the call's input, in a running workflow with no step
  -- completed. The exit of the body decides the result: its output, a pause, a cancellation or a
  -- failure. The answer has the output of a completed run and says that no other has completed. The
  -- status is completed, paused until the resume time, failed with the error or cancelled, as the
  -- result is; the alarm stands at the resume time of a pause, at the purge time where purges are
  -- enabled, and nowhere else, and with that purge time the purge is on record.
  pub start-Settled :
      (w : World) → w.store.status ≡ none → Post (Started w) Never (start call env w)
  unfolding start start_or_existing get_status
  start-Settled w blank =
      Post-catch _ _ env w
        (Post-bind _ _ env w (
          Post-catch {E = Never} _ _ env w
            (rw (registry_known w) (
              Post-pure _ env w (
                Post-then _ _ env w _ _ (get-reliable env reliable _ _ w)
                  (simp blank (start_new-Started w)))))
            (λ e w' n. absurd n)))
        (λ e w' n. absurd n)

  abbrev pub queued_result : StartResult
  queued_result = record { id = env.instance_id; completed = false; output = none }

  -- what a queued call leaves: its record in the storage, and an alarm one millisecond later
  abbrev pub Queued : World → StartResult → World → Type 0
  Queued w r w' =
      (r ≡ queued_result)
      × (w'.store ≡ record (initialized call.workflow call.input call.execution_id w.store) {
        status = some (WorkflowStatus.queued w.current_time);
      })
      × (w'.current_time ≡ w.current_time)
      × (w'.scheduled_time ≡ some (w.current_time + 1))

  queue_new-Queued : (w : World) → Post (Queued w) Never (queue_new call env w)
  unfolding queue_new initialize initialized apply_transition_to_status
  queue_new-Queued w = Post-then _ _ env w _ _ (put_batch-reliable env reliable _ w) (
      Post-then _ _ env _ _ _
        (Edge-apply_transition (WorkflowTransition.queue call.input) _ env _ reliable enqueue)
        (Post-bind _ _ env _ (
          Post-emit_event _ _ _ env _ (λ events. Post-bind _ _ env _ (
            Post-now env _ (
              Post-bind _ _ env _ (
                Post-schedule _ env _ (
                  Post-bind _ _ env _
                    (Post-asks _ env _ (Post-pure _ env _ (refl, refl, refl, refl)))))))))))

  pub queue-Queued : (w : World) → w.store.status ≡ none → Post (Queued w) Never (queue call env w)
  unfolding queue queue_or_existing get_status
  queue-Queued w blank =
      Post-catch _ _ env w
        (Post-bind _ _ env w (
          Post-catch {E = Never} _ _ env w
            (rw (registry_known w) (
              Post-pure _ env w (
                Post-then _ _ env w _ _ (get-reliable env reliable _ _ w)
                  (simp blank (queue_new-Queued w)))))
            (λ e w' n. absurd n)))
        (λ e w' n. absurd n)
