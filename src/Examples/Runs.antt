-- ===== src/Examples/Runs.antt =====
-- Whole runs at concrete worlds: the executor, the orchestrator and the engine.
use durable_effect.Prelude.{◌≡◌, refl, none, some, List, [], ◌∷◌, arith}
use durable_effect.State.{WorkflowStatus}
use durable_effect.Errors.{Error, sleep_signal}
use durable_effect.Program.{Cause, parallel, fail, failure, ok}
use durable_effect.World.Outcomes.{Post}
use durable_effect.Executor.{ExecutionContext, fresh, execute, handle_exit}
use durable_effect.Executor.Frame.{control, execute-control}
use durable_effect.Executor.Total.{Never, Produces, execute-Total}
use durable_effect.Executor.Results.{Returns, handle_exit-EndsAs}
use durable_effect.Recovery.Repeated.{later}
use durable_effect.Orchestrator.{start, cancel, handle_alarm}
use durable_effect.Orchestrator.Start.{Started, start-Settled}
use durable_effect.Orchestrator.Alarm.{Runs, handle_alarm-Runs}
use durable_effect.Orchestrator.Cancel.{Answers, cancel-Answers}
use durable_effect.Engine
use durable_effect.Engine.{run_async, alarm}
use durable_effect.Engine.Traces.{
  Request, trace, constructs, runs, alarms, cancels, waits, trace-Stays,
}
use durable_effect.Engine.Lifespan.{Leaves, run-purged}
use durable_effect.Engine.Lifecycle.{Reach}
use durable_effect.Engine.Reachable.{trace-Reach}
use durable_effect.Engine.Sequels.{cancel-unpurged, run_async-alarm}
use durable_effect.Examples.Fixtures.{
  completed_over, env, keeping, blank, running, paused, completed, nap, nap_call, boom,
  first_failure-laws,
}

abbrev first_run : ExecutionContext
first_run = record {
  workflow_id = "object-1";
  workflow_name = "nap";
  input = none;
  execution_id = none;
  mode = fresh;
}

execute-control_example :
    control (execute nap first_run env running).1.store ≡ control running.store
execute-control_example = execute-control nap first_run env running

execute-Total_example :
    Post (Produces (control running.store) env refl) Never (execute nap first_run env running)
execute-Total_example = execute-Total (control running.store) env refl nap first_run running refl

-- a step that failed beside a sleep that paused
abbrev both : Cause
both = parallel (fail boom) (fail (Error.pause_signal (sleep_signal 4000)))

handle_exit-EndsAs_example :
    Returns env first_failure-laws both 30 [] running (handle_exit (failure both) 30 [] env running)
handle_exit-EndsAs_example = handle_exit-EndsAs env first_failure-laws both 30 [] running

start-Settled_example :
    Post (Started nap_call nap env refl refl blank) Never (start nap_call env blank)
start-Settled_example = start-Settled nap_call nap env refl refl blank refl

handle_alarm-Runs_example : Post (Runs env refl nap running) Never (handle_alarm env running)
handle_alarm-Runs_example = handle_alarm-Runs env refl nap running refl (omega arith)

cancel-Answers_example :
    Post
      (Answers (some "late") env refl paused paused.store.status)
      Never
      (cancel (some "late") env paused)
cancel-Answers_example = cancel-Answers (some "late") env refl paused

abbrev requests : List Request
requests = runs nap_call ∷ waits 90000 ∷ constructs ∷ alarms ∷ cancels none ∷ []

trace-Stays_example :
    (trace requests keeping completed).store.status ≡ some (WorkflowStatus.completed 950)
trace-Stays_example =
    trace-Stays (WorkflowStatus.completed 950) completed_over requests keeping completed refl refl

cancel-unpurged_example :
    let w' = later 90000 (Engine.cancel (some "late") env paused).1 in
    (w'.store.status ≡ some (WorkflowStatus.cancelled 1000 (some "late")))
    × (w'.scheduled_time ≡ none)
    × (alarm env w' ≡ (ok tt, w'))
cancel-unpurged_example = cancel-unpurged env refl refl (some "late") paused 90000 tt refl

run_async-alarm_example :
    let w' = later 1 (run_async nap_call env blank).1 in
    (w'.scheduled_time ≡ some 1001)
    × (w'.store.status ≡ some (WorkflowStatus.queued 1000))
    × (w'.store.input ≡ nap_call.input)
    × Post (Runs env refl nap w') Never (alarm env w')
run_async-alarm_example = run_async-alarm env refl refl nap_call nap blank 1 refl refl refl

run-purged_example :
    Post
      (λ _ w'. Leaves env refl refl (omega arith) nap nap_call 60000 blank w')
      Never
      (Engine.run nap_call env blank)
run-purged_example =
    run-purged env refl refl (omega arith) nap_call nap blank 60000 refl refl (omega arith)

trace-Reach_example : Reach none (trace requests keeping blank).store.status
trace-Reach_example = trace-Reach requests keeping blank refl
