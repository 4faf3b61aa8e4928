-- ===== src/Examples/Jobs.antt =====
-- Debounces, tasks, retries and services of the jobs package at concrete worlds.
use durable_effect.Prelude.{
  ℕ, Option, ◌+◌, ◌≡◌, refl, sym, ap, true, false, none, some, [], ◌∷◌, arith, str_eq, eq_iff,
}
use durable_effect.Jobs.Errors.{JobType, JobError}
use durable_effect.Jobs.Bodies.{FlushReason, user_error, JobRetryConfig}
use durable_effect.Jobs.World.{
  JobStatus, JobMetadata, empty_job_store, JobWorld, JobEnv, Eff, raise, ok, err, ◌>>◌,
}
use durable_effect.Jobs.Platform.{elapse}
use durable_effect.Jobs.Retry.{execute_with_retry, past_duration}
use durable_effect.Jobs.Retry.Attempts.{attempted, begun, no_retry, execute_with_retry-attempted}
use durable_effect.Jobs.Retry.Exhaustion.{Failing, Ended, run_after, runs_after, retries_exhaust}
use durable_effect.Jobs.Execution.{execute}
use durable_effect.Jobs.Execution.Flags.{HasFlags, execute-HasFlags}
use durable_effect.Jobs.Outcomes.{Meets, Anything}
use durable_effect.Jobs.Services.Idempotency.{check, check_and_mark, clear_mark}
use durable_effect.Jobs.Services.Idempotency.Once.{check_and_mark-once}
use durable_effect.Jobs.Debounce
use durable_effect.Jobs.Debounce.{DebounceResponse, handle_flush, flush_options, is_full}
use durable_effect.Jobs.Debounce.Body.{failure_of}
use durable_effect.Jobs.Debounce.Ends.{Holds, End, Settles}
use durable_effect.Jobs.Debounce.Flushing.{handle_flush-Settles}
use durable_effect.Jobs.Debounce.Collecting.{Models}
use durable_effect.Jobs.Debounce.Sequences.{adds, adds-collect}
use durable_effect.Jobs.Continuous
use durable_effect.Jobs.Continuous.{ContinuousAction, ContinuousRequest, ContinuousResponse}
use durable_effect.Jobs.Continuous.Ran.{IsCalmJob}
use durable_effect.Jobs.Continuous.Up.{IsUp, evolve, alarms, EndWell}
use durable_effect.Jobs.Continuous.Evolution.{start-evolves}
use durable_effect.Jobs.Task
use durable_effect.Jobs.Task.{TaskAction, TaskRequest, TaskResponse, TaskStatus}
use durable_effect.Jobs.Dispatcher.{fire_alarm, fire_repeated}
use durable_effect.Jobs.Dispatcher.Forgotten.{IsRunning, failed_alarm-adds}
use durable_effect.Jobs.Dispatcher.Stale.{IsScheduled, fire_alarm-stale}
use durable_effect.Jobs.Dispatcher.Wrapped.{IsNoPlatform, IsNoStorage, handlers-Wrapped}
use durable_effect.Jobs.Dispatcher.Ended.{IsGone, ends-IsGone}
use durable_effect.Examples.JobFixtures.{
  text-Codec, poll, boom, three_attempts, digest, report, job_env, broken_env, no_job, two_events,
  running, due, add,
}

-- a body that fails after 30 ms
abbrev failing : Eff (Unit {0})
failing = elapse 30 >> raise (user_error boom)

failing-Failing : Failing failing job_env
unfolding elapse durable_effect.Jobs.World.◌>>=◌
failing-Failing = record { error = boom; ms = 30; fails = λ w. refl }

execute_with_retry-attempted_example :
    execute_with_retry failing three_attempts JobType.debounce "digest" job_env two_events
    ≡ attempted three_attempts JobType.debounce "digest" job_env 1 1000
        (failing job_env (begun two_events))
unfolding past_duration
execute_with_retry-attempted_example =
    execute_with_retry-attempted job_env refl failing three_attempts JobType.debounce "digest"
      two_events refl

-- the third run is the last
retries_exhaust_example :
    let w' =
      runs_after job_env refl failing failing-Failing three_attempts refl JobType.debounce "digest"
        (0 ∷ 1000 ∷ [])
        two_events in
    Ended JobType.debounce "digest" job_env three_attempts boom 3 (w'.current_time + 1000) false (
      run_after job_env refl failing failing-Failing three_attempts refl JobType.debounce "digest"
        1000 w')
unfolding failing-Failing
retries_exhaust_example =
    retries_exhaust job_env refl failing failing-Failing three_attempts refl JobType.debounce
      "digest" (0 ∷ 1000 ∷ []) 1000 two_events refl (omega arith)

execute-HasFlags_example :
    Meets HasFlags Anything
      (execute (flush_options digest FlushReason.manual none) broken_env two_events).0
execute-HasFlags_example =
    execute-HasFlags (flush_options digest FlushReason.manual none) broken_env two_events

check_and_mark-once_example :
    let first = check_and_mark "a" job_env no_job in
    let second = check_and_mark "a" job_env first.1 in
    let cleared = clear_mark "a" job_env second.1 in
    (first.0 ≡ ok false)
    × (second.0 ≡ ok true)
    × (second.1.store.idempotency "a" ≡ some 1000)
    × ((check "b" job_env second.1).0 ≡ (check "b" job_env no_job).0)
    × ((check_and_mark "a" job_env cleared.1).0 ≡ ok false)
check_and_mark-once_example =
    check_and_mark-once job_env refl "a" "b" no_job refl
      (λ same. let equal : str_eq "a" "b" ≡ true = (eq_iff "a" "b").1 same in cc)

-- the first event is accepted, the second refused
adds-collect_example :
    let w' =
      adds job_env digest ((0, add "good") ∷ (10, add "bad") ∷ (10, add "fine") ∷ []) no_job in
    Models text-Codec (record { state = some "fine"; count = 2 }) w'.store
    × (w'.scheduled_time ≡ some 6000)
    × (w'.store.started_at ≡ some 1000)
unfolding is_full durable_effect.Jobs.Services.Alarm.timestamp_of
adds-collect_example =
    adds-collect job_env refl digest text-Codec 0 (add "good")
      ((10, add "bad") ∷ (10, add "fine") ∷ []) no_job refl refl refl

two_events-Holds : Holds digest two_events
two_events-Holds = record {
  meta = _;
  count = 2;
  raw = "second";
  state = "second";
  has_meta = refl;
  has_count = refl;
  some_events = ground arith;
  has_state = refl;
  decodes = refl;
}

handle_flush-Settles_example :
    Settles job_env digest FlushReason.manual two_events 2
      (End.failed boom)
      (handle_flush digest FlushReason.manual job_env two_events)
unfolding failure_of two_events-Holds
handle_flush-Settles_example =
    handle_flush-Settles job_env refl digest FlushReason.manual two_events two_events-Holds

two_events-IsRunning : IsRunning job_env digest (running JobType.debounce "digest") two_events
two_events-IsRunning = record {
  has_meta = refl;
  type = refl;
  status = refl;
  registered = refl;
  fresh = refl;
}

-- the alarm fails, and so do its two repeats, and two events later there is still none
failed_alarm-adds_example :
    let after = fire_repeated (2000 ∷ 4000 ∷ []) job_env two_events in
    (after.0
      ≡ err (JobError.execution_error JobType.debounce "digest" "instance" (user_error boom)))
    × (after.1.store ≡ no_retry two_events.store)
    × (after.1.scheduled_time ≡ none)
    × ((adds job_env digest ((10, add "third") ∷ (10, add "last") ∷ []) after.1).scheduled_time
        ≡ none)
    × Models text-Codec
        (record { state = some "last"; count = 4 })
        (adds job_env digest ((10, add "third") ∷ (10, add "last") ∷ []) after.1).store
unfolding failure_of is_full
failed_alarm-adds_example =
    failed_alarm-adds job_env refl digest text-Codec (record { state = some "second"; count = 2 })
      "second" (running JobType.debounce "digest") boom (2000 ∷ 4000 ∷ [])
      ((10, add "third") ∷ (10, add "last") ∷ []) two_events two_events-IsRunning
      (record { state = refl; count = refl }) refl (ground arith) refl (λ v e. refl) refl

due-IsScheduled :
    IsScheduled job_env report text-Codec (running JobType.task "report") (some "draft") 900 due
due-IsScheduled = record {
  has_meta = refl;
  type = refl;
  registered = refl;
  has_state = refl;
  scheduled = refl;
}

fire_alarm-stale_example :
    let after = fire_alarm job_env due in
    (after.0 ≡ ok tt)
    × (after.1.scheduled_time ≡ none)
    × ((Task.handle_status job_env after.1).0
        ≡ ok (TaskResponse.status TaskStatus.active (some 900) (some 400) 0 2))
fire_alarm-stale_example =
    fire_alarm-stale job_env refl report text-Codec 900 (running JobType.task "report")
      (some "draft") due due-IsScheduled (λ context. tt)

abbrev start_poll : ContinuousRequest
start_poll = record {
  action = ContinuousAction.start;
  name = "poll";
  id = "id";
  input = "input";
  reason = none;
}

abbrev send_report : TaskRequest
send_report = record { action = TaskAction.send; name = "report"; id = "id"; event = "event" }

-- a platform whose storage fails
handlers-Wrapped_example :
    Meets Anything IsNoPlatform (Debounce.handle_request (add "good") broken_env two_events).0
    × Meets Anything IsNoPlatform (Debounce.handle_alarm broken_env two_events).0
    × Meets Anything IsNoPlatform (Continuous.handle_request start_poll broken_env two_events).0
    × Meets Anything IsNoPlatform (Continuous.handle_alarm broken_env two_events).0
    × Meets Anything IsNoStorage (Task.handle_request send_report broken_env two_events).0
    × Meets Anything IsNoStorage (Task.handle_alarm broken_env two_events).0
handlers-Wrapped_example =
    handlers-Wrapped (add "good") start_poll send_report broken_env two_events

ends-IsGone_example :
    IsGone job_env (Debounce.handle_clear job_env two_events).1
    × IsGone job_env (Continuous.handle_terminate start_poll job_env two_events).1
    × IsGone job_env (Task.handle_terminate job_env two_events).1
ends-IsGone_example =
    ends-IsGone job_env refl start_poll (running JobType.debounce "digest") two_events refl

poll-IsCalmJob : IsCalmJob poll
unfolding past_duration
poll-IsCalmJob = record {
  calm = λ context. tt;
  patient = λ config time e.
      ap (λ (o : Option JobRetryConfig). past_duration (bound o) (some time) time) (sym e);
}
  where
    bound : Option JobRetryConfig → Option ℕ
    bound none = none
    bound (some config) = config.max_duration

-- a start and two alarms: three runs
start-evolves_example :
    let r = Continuous.handle_request start_poll job_env no_job in
    (r.0 ≡ ok (ContinuousResponse.start "instance" true JobStatus.running))
    × EndWell job_env (60000 ∷ 60000 ∷ []) r.1
    × (m : JobMetadata) × (last : ℕ) × IsUp job_env poll text-Codec m 3
        (evolve job_env poll 0 3 "input")
        last
        (alarms job_env (60000 ∷ 60000 ∷ []) r.1)
start-evolves_example =
    start-evolves job_env refl poll text-Codec poll-IsCalmJob start_poll (60000 ∷ 60000 ∷ []) no_job
      refl refl refl refl refl
