-- ===== src/Sleep/Until.antt =====
-- `sleepUntil` over the runs of one workflow: however often it is reached too early, it wakes at the
-- same time. The storage does not fail.
use durable_effect.Prelude.{
  ℕ, ◌+◌, ◌≤◌, ◌<◌, ◌≡◌, refl, ap, sym, ◌∙◌, true, false, some, arith, leb, or_else, lt→ltb,
}
use durable_effect.Errors.{Error, sleep_signal}
use durable_effect.Program.{ok, err}
use durable_effect.World.{Env, World, Store, IsReliable, ◌>>=◌}
use durable_effect.World.Storage.{now, emit_event}
use durable_effect.World.Reliable.{get-reliable, put-reliable, delete-reliable}
use durable_effect.Machine.{set_pending_resume_at, clear_pending_resume_at}
use durable_effect.Context.{
  workflow_name, execution_id, increment_pause_index, should_execute_pause,
  set_completed_pause_index, pending_resume_at,
}
use durable_effect.Sleep.{sleep_until, sleep_until_at, begin_pause, finish_pause, has_passed}
use durable_effect.Sleep.Pause.{index_of, completed_of, again, at_index, finish}

-- the storage of a run that pauses until the time
abbrev pub suspend : ℕ → Store → Store
suspend timestamp s = record s {
  current_pause_index = some (or_else s.current_pause_index 0 + 1);
  pending_resume_at = some timestamp;
}

module _ (timestamp : ℕ) (env : Env) (reliable : IsReliable env) where
  sleep_until-pauses :
      (w : World)
      → completed_of w < index_of w
      → has_passed w.store.pending_resume_at w.current_time ≡ false
      → leb timestamp w.current_time ≡ false
      → let r = sleep_until timestamp env w in
        (r.0 ≡ err (Error.pause_signal (sleep_signal timestamp)))
        × (r.1.store ≡ suspend timestamp w.store)
  unfolding sleep_until sleep_until_at begin_pause workflow_name execution_id increment_pause_index
      should_execute_pause pending_resume_at set_pending_resume_at now emit_event ◌>>=◌
  sleep_until-pauses w h p f =
      simp
        (
          get-reliable env reliable,
          put-reliable env reliable,
          lt→ltb (completed_of w) (index_of w) h,
          p,
          f,
        )
        (refl, refl)

  sleep_until-wakes :
      (w : World)
      → completed_of w < index_of w
      → has_passed w.store.pending_resume_at w.current_time ≡ true
      → let r = sleep_until timestamp env w in (r.0 ≡ ok tt) × (r.1.store ≡ finish w.store)
  unfolding sleep_until sleep_until_at finish_pause workflow_name execution_id increment_pause_index
      should_execute_pause pending_resume_at set_completed_pause_index clear_pending_resume_at now
      emit_event ◌>>=◌
  sleep_until-wakes w h p =
      simp
        (
          get-reliable env reliable,
          put-reliable env reliable,
          delete-reliable env reliable,
          lt→ltb (completed_of w) (index_of w) h,
          p,
        )
        (refl, refl)

  -- With a storage that does not fail, a run that reaches the call before the timestamp pauses
  -- until it, where the pause point is not done and no stored time has passed. A run that reaches
  -- it again before the timestamp pauses until the same time; one that reaches it at that time or
  -- later goes on, counts the pause point as done and clears the stored time.
  pub sleep_until_protocol :
      (w : World) (early wake : ℕ)
      → completed_of w < index_of w
      → has_passed w.store.pending_resume_at w.current_time ≡ false
      → w.current_time < timestamp
      → early < timestamp
      → timestamp ≤ wake
      → let first = sleep_until timestamp env w in
        let second = sleep_until timestamp env (again w early first.1) in
        let third = sleep_until timestamp env (again w wake second.1) in
        (first.0 ≡ err (Error.pause_signal (sleep_signal timestamp)))
        × (second.0 ≡ err (Error.pause_signal (sleep_signal timestamp)))
        × (second.1.store ≡ first.1.store)
        × (third.0 ≡ ok tt)
        × (third.1.store ≡ finish w.store)
  sleep_until_protocol w early wake h p future soon late =
      let first = sleep_until-pauses w h p (ground (arith, future)) in
      let w1 : World = again w early (sleep_until timestamp env w).1 in
      let waiting : has_passed w1.store.pending_resume_at early ≡ false =
        rw (first.1, again, has_passed) (ground (arith, soon)) in
      let second = sleep_until-pauses w1 (rw (first.1, again) h) waiting (ground (arith, soon)) in
      let stored : (sleep_until timestamp env w1).1.store ≡ suspend timestamp w.store =
        second.1 ∙ ap (λ s. suspend timestamp s) (ap (at_index w) first.1) in
      let w2 : World = again w wake (sleep_until timestamp env w1).1 in
      let passed : has_passed w2.store.pending_resume_at wake ≡ true =
        rw (stored, again, has_passed) (ground (arith, late)) in
      let third = sleep_until-wakes w2 (rw (stored, again) h) passed in
      (
        first.0,
        second.0,
        stored ∙ sym first.1,
        third.0,
        third.1 ∙ ap (λ s. finish s) (ap (at_index w) stored),
      )
