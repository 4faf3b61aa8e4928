-- ===== src/Sleep/Pause.antt =====
-- `sleep` over the runs of one workflow: the run that pauses, the run that the alarm starts again,
-- and the runs after that. The storage does not fail.
use durable_effect.Prelude.{
  ℕ, ◌+◌, ◌≤◌, ◌<◌, ◌≡◌, refl, ap, sym, ◌∙◌, true, false, none, some, arith, ltb, or_else, lt→ltb,
}
use durable_effect.Errors.{Error, sleep_signal}
use durable_effect.Program.{ok, err}
use durable_effect.World.{Env, World, Store, IsReliable, ◌>>=◌}
use durable_effect.World.Storage.{now, emit_event}
use durable_effect.World.Reliable.{get-reliable, put-reliable, delete-reliable}
use durable_effect.Machine.{set_pending_resume_at, clear_pending_resume_at}
use durable_effect.Context.{
  workflow_name, execution_id, increment_pause_index, should_execute_pause,
  set_completed_pause_index, pending_resume_at,
}
use durable_effect.Sleep.{sleep, sleep_at, begin_pause, finish_pause, has_passed}

-- the number of the pause point that the next `sleep` of the run is at
abbrev pub index_of : World → ℕ
index_of w = or_else w.store.current_pause_index 0 + 1

-- the last pause point that is done
abbrev pub completed_of : World → ℕ
completed_of w = or_else w.store.completed_pause_index 0

-- another run has come to the pause point at which the run of the first world was
abbrev pub again : World → ℕ → World → World
again w time w' = record w' {
  current_time = time;
  store = record w'.store { current_pause_index = w.store.current_pause_index };
}

-- a pause point that is done, in the store of a run that has come to it
abbrev pub finish : Store → Store
finish s = record s {
  current_pause_index = some (or_else s.current_pause_index 0 + 1);
  completed_pause_index = some (or_else s.current_pause_index 0 + 1);
  pending_resume_at = none;
}

abbrev pub at_index : World → Store → Store
at_index w s = record s { current_pause_index = w.store.current_pause_index }

module _ (ms : ℕ) (env : Env) (reliable : IsReliable env) where
  not_done : (w : World) → completed_of w < index_of w → ltb (completed_of w) (index_of w) ≡ true
  not_done w h = lt→ltb _ _ h

  -- the first visit
  sleep-pauses :
      (w : World)
      → completed_of w < index_of w
      → has_passed w.store.pending_resume_at w.current_time ≡ false
      → let r = sleep ms env w in
        (r.0 ≡ err (Error.pause_signal (sleep_signal (w.current_time + ms))))
        × (r.1.store ≡ record w.store {
          current_pause_index = some (index_of w);
          pending_resume_at = some (w.current_time + ms);
        })
  unfolding sleep sleep_at begin_pause workflow_name execution_id increment_pause_index
      should_execute_pause pending_resume_at set_pending_resume_at now emit_event ◌>>=◌
  sleep-pauses w h p =
      simp (get-reliable env reliable, put-reliable env reliable, not_done w h, p) (refl, refl)

  -- the visit after the wake time
  sleep-wakes :
      (w : World)
      → completed_of w < index_of w
      → has_passed w.store.pending_resume_at w.current_time ≡ true
      → let r = sleep ms env w in (r.0 ≡ ok tt) × (r.1.store ≡ finish w.store)
  unfolding sleep sleep_at finish_pause workflow_name execution_id increment_pause_index
      should_execute_pause pending_resume_at set_completed_pause_index clear_pending_resume_at now
      emit_event ◌>>=◌
  sleep-wakes w h p =
      simp
        (
          get-reliable env reliable,
          put-reliable env reliable,
          delete-reliable env reliable,
          not_done w h,
          p,
        )
        (refl, refl)

  -- a visit of a pause point that is done
  sleep-skips :
      (w : World)
      → index_of w ≤ completed_of w
      → sleep ms env w
        ≡ (ok tt, record w { store = record w.store { current_pause_index = some (index_of w) } })
  unfolding sleep workflow_name execution_id increment_pause_index should_execute_pause ◌>>=◌
  sleep-skips w h =
      let e : ltb (completed_of w) (index_of w) ≡ false = ground (arith, h) in
      simp (get-reliable env reliable, put-reliable env reliable, e)

  -- With a storage that does not fail, a sleep whose pause point is not done, and for which no
  -- stored time has passed, pauses until its time and stores it. A run that reaches it again at
  -- that time or later goes on, counts the pause point as done and clears the stored time; the run
  -- after that goes on at once, at any time, and leaves the storage as the second run left it.
  pub sleep_protocol :
      (w : World) (wake replay : ℕ)
      → completed_of w < index_of w
      → has_passed w.store.pending_resume_at w.current_time ≡ false
      → w.current_time + ms ≤ wake
      → let first = sleep ms env w in
        let second = sleep ms env (again w wake first.1) in
        let third = sleep ms env (again w replay second.1) in
        (first.0 ≡ err (Error.pause_signal (sleep_signal (w.current_time + ms))))
        × (first.1.store.pending_resume_at ≡ some (w.current_time + ms))
        × (second.0 ≡ ok tt)
        × (second.1.store ≡ finish w.store)
        × (third.0 ≡ ok tt)
        × (third.1.store ≡ second.1.store)
  sleep_protocol w wake replay h p late =
      let first = sleep-pauses w h p in
      let w1 : World = again w wake (sleep ms env w).1 in
      let passed : has_passed w1.store.pending_resume_at wake ≡ true =
        rw (first.1, again, has_passed) (ground (arith, late)) in
      let second = sleep-wakes w1 (rw (first.1, again) h) passed in
      let stored : (sleep ms env w1).1.store ≡ finish w.store =
        second.1 ∙ ap (λ s. finish s) (ap (at_index w) first.1) in
      let w2 : World = again w replay (sleep ms env w1).1 in
      let skipped : index_of w2 ≤ completed_of w2 =
        omega (arith, ap (λ s. or_else s.completed_pause_index 0) stored) in
      let third = sleep-skips w2 skipped in
      (
        first.0,
        ap (λ s. s.pending_resume_at) first.1,
        second.0,
        stored,
        ap (λ r. r.0) third,
        ap (λ r. r.1.store) third
            ∙ (ap {A = Store} (λ s. record s { current_pause_index = some (index_of w) }) stored
                ∙ sym stored),
      )

  -- With a storage that does not fail, a run that reaches a sleep again before its time, such as
  -- one that a recovery alarm starts, pauses for the whole duration once more, from then on, and
  -- overwrites the stored time.
  pub sleep_restarts :
      (w : World) (early : ℕ)
      → completed_of w < index_of w
      → has_passed w.store.pending_resume_at w.current_time ≡ false
      → early < w.current_time + ms
      → let second = sleep ms env (again w early (sleep ms env w).1) in
        (second.0 ≡ err (Error.pause_signal (sleep_signal (early + ms))))
        × (second.1.store.pending_resume_at ≡ some (early + ms))
  sleep_restarts w early h p soon =
      let first = sleep-pauses w h p in
      let w1 : World = again w early (sleep ms env w).1 in
      let waiting : has_passed w1.store.pending_resume_at early ≡ false =
        rw (first.1, again, has_passed) (ground (arith, soon)) in
      let second = sleep-pauses w1 (rw (first.1, again) h) waiting in (second.0, rw second.1)
