-- ===== src/Jobs/Task/Context.antt =====
-- packages/jobs/src/handlers/task/context.ts: the holders of an execution and the user's bodies over them.
use durable_effect.Prelude.{ℕ, true, false, Option, none, some, or_else, if◌then◌else◌}
use durable_effect.State.{Unknown}
use durable_effect.Jobs.Errors.{JobError}
use durable_effect.Jobs.Bodies.{user_error, TaskBody}
use durable_effect.Jobs.World.{
  ScheduleHolder, Eff, pure, raise, reads, modify, catch_all, ◌>>=◌, ◌>>◌,
}
use durable_effect.Jobs.Platform.{now, elapse}
use durable_effect.Jobs.Services.Alarm.{timestamp_of}
use durable_effect.Jobs.Execution.{holder_state, hold_state}
use durable_effect.Jobs.Task.Record.{
  get_event_count, get_execute_count, get_created_at, get_scheduled_at,
}

-- the schedule holder of the execution under way
unfoldable pub held_schedule : Eff ScheduleHolder
held_schedule = reads (λ w. w.schedule_holder)

unfoldable pub hold_schedule : ScheduleHolder → Eff (Unit {0})
hold_schedule h = modify (λ w. record w { schedule_holder = h })

-- `getScheduledTime` of a context
unfoldable pub scheduled_time_of : ScheduleHolder → Eff (Option ℕ)
scheduled_time_of h =
    if h.dirty then pure h.scheduled_at else catch_all get_scheduled_at (λ e. pure none)

-- `ctx.createdAt`, with the time where there is none
unfoldable pub created_or_now : Eff ℕ
created_or_now = do
  created_at ← catch_all get_created_at (λ e. pure none)
  time ← now
  pure (or_else created_at time)

-- What `ctx.state` reads: of the context of `onEvent` the state as it is, of the others the state
-- at the time the context was made.
unfoldable pub context_state : Option (Option Unknown) → Eff (Option Unknown)
context_state none = holder_state
context_state (some snapshot) = pure snapshot

unfoldable pub hold_updated : (Unknown → Unknown) → Option Unknown → Eff (Unit {0})
hold_updated fn none = pure tt
hold_updated fn (some s) = hold_state (fn s)

-- the user's body over `createTaskEventContext` and its kin
unfoldable pub run_body : Option (Option Unknown) → TaskBody → Eff (Unit {0})
run_body snapshot TaskBody.done = pure tt
run_body snapshot (TaskBody.fail e) = raise (user_error e)
run_body snapshot (TaskBody.wait ms k) = do elapse ms; run_body snapshot k
run_body snapshot (TaskBody.read_state k) = do s ← context_state snapshot; run_body snapshot (k s)
run_body snapshot (TaskBody.set_state s k) = do hold_state s; run_body snapshot k
run_body snapshot (TaskBody.update_state fn k) = do
  s ← holder_state
  hold_updated fn s
  run_body snapshot k
run_body snapshot (TaskBody.schedule when k) = do
  time ← now
  hold_schedule
      (record { scheduled_at = some (timestamp_of when time); cancelled = false; dirty = true })
  run_body snapshot k
run_body snapshot (TaskBody.cancel_schedule k) = do
  hold_schedule (record { scheduled_at = none; cancelled = true; dirty = true })
  run_body snapshot k
run_body snapshot (TaskBody.get_scheduled_time k) = do
  h ← held_schedule
  time ← scheduled_time_of h
  run_body snapshot (k time)
run_body snapshot (TaskBody.event_count k) = do
  n ← catch_all get_event_count (λ e. pure 0)
  run_body snapshot (k n)
run_body snapshot (TaskBody.created_at k) = do time ← created_or_now; run_body snapshot (k time)
run_body snapshot (TaskBody.execute_count k) = do
  n ← catch_all get_execute_count (λ e. pure 0)
  run_body snapshot (k n)
run_body snapshot TaskBody.terminate = raise (JobError.terminate_signal (some "terminate") true)

-- a body whose context takes its state when it is made
unfoldable pub run_snapshot : TaskBody → Eff (Unit {0})
run_snapshot body = do s ← holder_state; run_body (some s) body
