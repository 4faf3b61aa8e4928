-- ===== src/Sleep.antt =====
-- packages/workflow/src/primitives/sleep.ts. `WorkflowLevel`, the workflow scope and the absence of
-- a step scope are given by the executor's layers wherever a workflow's own body runs, so that the
-- guards at the top of both functions pass; a duration is taken as already parsed.
pub mod Pause
pub mod Until
use durable_effect.Prelude.{
  ℕ, ◌+◌, ◌-◌, String, Bool, true, false, not, Option, none, some, leb, if◌then◌else◌,
}
use durable_effect.Errors.{Error, sleep_signal}
use durable_effect.World.{
  EventBody, sleep_started, sleep_completed, Action, pure, raise, ◌>>=◌, ◌>>◌,
}
use durable_effect.World.Storage.{now, emit_event}
use durable_effect.Machine.{set_pending_resume_at, clear_pending_resume_at}
use durable_effect.Context.{
  workflow_name, execution_id, increment_pause_index, should_execute_pause,
  set_completed_pause_index, pending_resume_at,
}

-- `pendingResumeAt !== undefined && now >= pendingResumeAt`
abbrev pub has_passed : Option ℕ → ℕ → Bool
has_passed none time = false
has_passed (some resume_at) time = leb resume_at time

-- the wake time has passed: the pause point is done
unfoldable pub finish_pause : String → Option String → ℕ → EventBody → Action (Unit {0})
finish_pause name id pause_index body = do
  emit_event name id body
  set_completed_pause_index pause_index
  clear_pending_resume_at

-- the pause itself: the time is stored, and the signal is the failure
unfoldable pub begin_pause :
    String → Option String → (duration_ms resume_at : ℕ) → Action (Unit {0})
begin_pause name id duration_ms resume_at = do
  set_pending_resume_at resume_at
  emit_event name id (sleep_started duration_ms resume_at)
  raise (Error.pause_signal (sleep_signal resume_at))

-- `sleep` from the test of the pause index on
unfoldable pub sleep_at : String → Option String → (duration_ms pause_index : ℕ) → Action (Unit {0})
sleep_at name id duration_ms pause_index = do
  pending ← pending_resume_at
  time ← now
  if has_passed pending time
      then finish_pause name id pause_index (sleep_completed duration_ms)
      else begin_pause name id duration_ms (time + duration_ms)

unfoldable pub sleep : ℕ → Action (Unit {0})
sleep duration_ms = do
  name ← workflow_name
  id ← execution_id
  pause_index ← increment_pause_index
  should_execute ← should_execute_pause pause_index
  if not should_execute then pure tt else sleep_at name id duration_ms pause_index

-- `Math.max(0, pendingResumeAt - (now - (now - pendingResumeAt)))`, which is always 0
abbrev pub elapsed_until : Option ℕ → ℕ → ℕ
elapsed_until none time = 0
elapsed_until (some pending) time = pending - (time - (time - pending))

-- `sleepUntil` from the test of the pause index on
unfoldable pub sleep_until_at :
    String → Option String → (timestamp pause_index : ℕ) → Action (Unit {0})
sleep_until_at name id timestamp pause_index = do
  time ← now
  pending ← pending_resume_at
  if has_passed pending time
      then finish_pause name id pause_index (sleep_completed (elapsed_until pending time))
      else if leb timestamp time
      then pure tt
      else begin_pause name id (timestamp - time) timestamp

unfoldable pub sleep_until : ℕ → Action (Unit {0})
sleep_until timestamp = do
  name ← workflow_name
  id ← execution_id
  pause_index ← increment_pause_index
  should_execute ← should_execute_pause pause_index
  if not should_execute then pure tt else sleep_until_at name id timestamp pause_index
