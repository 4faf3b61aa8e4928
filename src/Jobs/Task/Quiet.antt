-- ===== src/Jobs/Task/Quiet.antt =====
-- A task's body that ends well without touching its schedule, on a platform that does not fail.
use durable_effect.Prelude.{
  ℕ, true, ◌+◌, ◌≡◌, refl, Option, none, some, or_else, Bool-cases, inl, inr,
}
use durable_effect.State.{Unknown}
use durable_effect.Jobs.Bodies.{TaskBody}
use durable_effect.Jobs.World.{
  StateHolder, JobWorld, JobEnv, IsReliable, Outcome, ok, reads, modify, catch_all, ◌>>=◌,
}
use durable_effect.Jobs.Platform.{now, elapse}
use durable_effect.Jobs.Reliable.{get-reliable}
use durable_effect.Jobs.Execution.{holder_state, hold_state}
use durable_effect.Jobs.Task.Record.{
  get_event_count, get_execute_count, get_created_at, get_scheduled_at,
}
use durable_effect.Jobs.Task.Context.{
  held_schedule, scheduled_time_of, created_or_now, context_state, hold_updated, run_body,
}

-- It may read what it likes and set the state; it does not schedule, cancel, fail or terminate.
abbrev pub IsQuiet : TaskBody → Type 0
IsQuiet TaskBody.done = Unit {0}
IsQuiet (TaskBody.fail e) = ⊥
IsQuiet (TaskBody.wait ms k) = IsQuiet k
IsQuiet (TaskBody.read_state k) = (s : Option Unknown) → IsQuiet (k s)
IsQuiet (TaskBody.set_state s k) = IsQuiet k
IsQuiet (TaskBody.update_state fn k) = IsQuiet k
IsQuiet (TaskBody.schedule when k) = ⊥
IsQuiet (TaskBody.cancel_schedule k) = ⊥
IsQuiet (TaskBody.get_scheduled_time k) = (t : Option ℕ) → IsQuiet (k t)
IsQuiet (TaskBody.event_count k) = (n : ℕ) → IsQuiet (k n)
IsQuiet (TaskBody.created_at k) = (n : ℕ) → IsQuiet (k n)
IsQuiet (TaskBody.execute_count k) = (n : ℕ) → IsQuiet (k n)
IsQuiet TaskBody.terminate = ⊥

-- what such a body may change: the state in hand and the clock
abbrev pub moved : JobWorld → StateHolder → ℕ → JobWorld
moved w h t = record w { holder = h; current_time = t }

-- a run that ends well and changes nothing else
pub record Quietly (w : JobWorld) (r : Outcome (Unit {0}) × JobWorld) : Type 0 where
  pub holder : StateHolder
  pub time : ℕ
  pub equals : r ≡ (ok tt, moved w holder time)

module _ (env : JobEnv) (reliable : IsReliable env) (snapshot : Option (Option Unknown)) where
  context_state-reads :
      (w : JobWorld) → (s : Option Unknown) × (context_state snapshot env w ≡ (ok s, w))
  unfolding context_state holder_state reads
  context_state-reads w =
      elim snapshot as (λ o. (s : Option Unknown) × (context_state o env w ≡ (ok s, w))) [
        | none ↦ (w.holder.current, refl)
        | some s ↦ (s, refl)
      ]

  updated-Quietly :
      (fn : Unknown → Unknown) (o : Option Unknown) (w : JobWorld)
      → Quietly w (hold_updated fn o env w)
  unfolding hold_updated hold_state modify
  updated-Quietly fn none w = record { holder = w.holder; time = w.current_time; equals = refl }
  updated-Quietly fn (some s) w = record { holder = _; time = w.current_time; equals = refl }

  scheduled_time-reads :
      (w : JobWorld) → (t : Option ℕ) × (scheduled_time_of w.schedule_holder env w ≡ (ok t, w))
  unfolding scheduled_time_of get_scheduled_at catch_all
  scheduled_time-reads w = elim (Bool-cases w.schedule_holder.dirty) [
    | inl d ↦ (w.schedule_holder.scheduled_at, rw d refl)
    | inr d ↦ (w.store.scheduled_at, rw d (simp (get-reliable env reliable)))
  ]

  pub run_body-Quietly :
      (b : TaskBody) (w : JobWorld) → IsQuiet b → Quietly w (run_body snapshot b env w)
  unfolding run_body holder_state hold_state held_schedule created_or_now get_event_count
      get_execute_count get_created_at elapse now reads modify catch_all ◌>>=◌
  run_body-Quietly TaskBody.done w q = record {
    holder = w.holder;
    time = w.current_time;
    equals = refl;
  }
  run_body-Quietly (TaskBody.fail e) w q = absurd q
  run_body-Quietly (TaskBody.wait ms k) w q =
      let r = run_body-Quietly k (record w { current_time = w.current_time + ms }) q in
      record { holder = r.holder; time = r.time; equals = r.equals }
  run_body-Quietly (TaskBody.read_state k) w q =
      let s = context_state-reads w in
      let r = run_body-Quietly (k s.0) w (q s.0) in
      record { holder = r.holder; time = r.time; equals = rw s.1 r.equals }
  run_body-Quietly (TaskBody.set_state s k) w q =
      let r =
        run_body-Quietly k (record w { holder = record { current = some s; dirty = true } }) q in
      record { holder = r.holder; time = r.time; equals = r.equals }
  run_body-Quietly (TaskBody.update_state fn k) w q =
      let u = updated-Quietly fn w.holder.current w in
      let r = run_body-Quietly k (moved w u.holder u.time) q in
      record { holder = r.holder; time = r.time; equals = rw u.equals r.equals }
  run_body-Quietly (TaskBody.schedule when k) w q = absurd q
  run_body-Quietly (TaskBody.cancel_schedule k) w q = absurd q
  run_body-Quietly (TaskBody.get_scheduled_time k) w q =
      let t = scheduled_time-reads w in
      let r = run_body-Quietly (k t.0) w (q t.0) in
      record { holder = r.holder; time = r.time; equals = rw t.1 r.equals }
  run_body-Quietly (TaskBody.event_count k) w q =
      let r = run_body-Quietly (k (or_else w.store.task_event_count 0)) w (q _) in
      record {
        holder = r.holder;
        time = r.time;
        equals = simp (get-reliable env reliable) r.equals;
      }
  run_body-Quietly (TaskBody.created_at k) w q =
      let r = run_body-Quietly (k (or_else w.store.created_at w.current_time)) w (q _) in
      record {
        holder = r.holder;
        time = r.time;
        equals = simp (get-reliable env reliable) r.equals;
      }
  run_body-Quietly (TaskBody.execute_count k) w q =
      let r = run_body-Quietly (k (or_else w.store.execute_count 0)) w (q _) in
      record {
        holder = r.holder;
        time = r.time;
        equals = simp (get-reliable env reliable) r.equals;
      }
  run_body-Quietly TaskBody.terminate w q = absurd q
