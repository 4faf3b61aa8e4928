-- ===== src/Jobs/Continuous/Up.antt =====
-- The alarms of a continuous job whose bodies end well, on a platform that does not fail.
use durable_effect.Prelude.{
  ℕ, zero, suc, ◌+◌, String, ◌≡◌, refl, ◌∙◌, ap, true, Option, none, some, List, [], ◌∷◌, length,
  arith,
}
use mathlib.Core.Path.{subst}
use durable_effect.State.{Unknown}
use durable_effect.Jobs.Errors.{JobType}
use durable_effect.Jobs.Bodies.{ContinuousDefinition, ContinuousSchedule}
use durable_effect.Jobs.World.{
  JobStatus, JobMetadata, JobWorld, JobEnv, IsReliable, Eff, Outcome, ok, pure, asks, catch_all,
  ◌>>=◌, ◌>>◌,
}
use durable_effect.Jobs.Platform.{now}
use durable_effect.Jobs.Services.Alarm
use durable_effect.Jobs.Services.Alarm.{timestamp_of}
use durable_effect.Jobs.Services.Metadata
use durable_effect.Jobs.Reliable.{get-reliable, put-reliable, set_alarm-reliable}
use durable_effect.Jobs.Retry.{is_retrying, get_attempt}
use durable_effect.Jobs.Retry.Exhaustion.{later}
use durable_effect.Jobs.Execution.{ExecutionResult, no_flags}
use durable_effect.Jobs.Debounce.Collecting.{Codec}
use durable_effect.Jobs.Continuous
use durable_effect.Jobs.Continuous.{
  ContinuousAction, ContinuousRequest, ContinuousResponse, get_definition, found, get_run_count,
  increment_run_count, update_last_executed_at, schedule_by, schedule_next, run_execution,
  after_first_run, first_run, start_new, start_or_existing, handle_start, perform, wrapped,
  continue_running, after_alarm, run_on_alarm, alarm_meta, handle_request,
}
use durable_effect.Jobs.Continuous.Calm.{final_state}
use durable_effect.Jobs.Continuous.Ran.{body_of, IsCalmJob, Ran, run_execution-Ran}
use durable_effect.Jobs.Dispatcher.{dispatch_alarm, alarm_for, alarm_of, fire_alarm}

-- the time of the run after a time
abbrev pub next_run : ContinuousSchedule → ℕ → ℕ
next_run (ContinuousSchedule.every interval) time = timestamp_of interval time
next_run (ContinuousSchedule.cron next) time = next time

-- the state after some runs, each with its number
unfoldable pub evolve : JobEnv → ContinuousDefinition → (run_count runs : ℕ) → Unknown → Unknown
evolve env def n zero s = s
evolve env def n (suc k) s = evolve env def (n + 1) k (final_state (body_of env def (n + 1)) s)

-- An alarm after each wait.
unfoldable pub alarms : JobEnv → List ℕ → JobWorld → JobWorld
alarms env [] w = w
alarms env (wait ∷ waits) w = alarms env waits (fire_alarm env (later wait w)).1

-- each of these alarms ends well
abbrev pub EndWell : JobEnv → List ℕ → JobWorld → Type 0
EndWell env [] w = Unit {0}
EndWell env (wait ∷ waits) w =
    ((fire_alarm env (later wait w)).0 ≡ ok tt)
    × EndWell env waits (fire_alarm env (later wait w)).1

-- A running job after so many runs, with its state, the last run at a time and the next one set.
pub record IsUp (env : JobEnv) (def : ContinuousDefinition) (codec : Codec def.state_schema)
    (m : JobMetadata) (n : ℕ) (s : Unknown) (time : ℕ) (w : JobWorld) : Type 0 where
  pub has_meta : w.store.meta ≡ some m
  pub type : m.type ≡ JobType.continuous
  pub status : m.status ≡ JobStatus.running
  pub registered : env.registry.continuous m.name ≡ some def
  pub run_count : w.store.run_count ≡ some n
  pub state : w.store.state ≡ some (codec.written s)
  pub fresh : w.store.retry_attempt ≡ none
  pub last : w.store.last_executed_at ≡ some time
  pub alarm : w.scheduled_time ≡ some (next_run def.schedule time)

module _ (env : JobEnv) (reliable : IsReliable env) (def : ContinuousDefinition)
    (codec : Codec def.state_schema) (job : IsCalmJob def) where
  -- the world after the time of a run is noted and the next one is set
  abbrev pub noted : JobWorld → JobWorld
  noted v = record v {
    store = record v.store { last_executed_at = some v.current_time };
    scheduled_time = some (next_run def.schedule v.current_time);
  }

  pub schedule_by-reliable :
      (schedule : ContinuousSchedule) (v : JobWorld)
      → schedule_by schedule env v
        ≡ (ok tt, record v { scheduled_time = some (next_run schedule v.current_time) })
  unfolding schedule_by Alarm.schedule timestamp_of now ◌>>=◌
  schedule_by-reliable (ContinuousSchedule.every interval) v =
      simp (set_alarm-reliable env reliable)
  schedule_by-reliable (ContinuousSchedule.cron next) v = simp (set_alarm-reliable env reliable)

  schedule_next-noted :
      (v : JobWorld) → (update_last_executed_at >> schedule_next def) env v ≡ (ok tt, noted v)
  unfolding update_last_executed_at schedule_next now ◌>>=◌
  schedule_next-noted v = simp (put-reliable env reliable, schedule_by-reliable)

  continue_running-noted :
      (m : JobMetadata) (v : JobWorld)
      → m.status ≡ JobStatus.running
      → continue_running def (some m) env v ≡ (ok tt, noted v)
  unfolding continue_running
  continue_running-noted m v q = ap (λ (x : JobStatus). continued x env v) q ∙ schedule_next-noted v
    where
      continued : JobStatus → Eff (Unit {0})
      continued x = elim x [
        | JobStatus.running ↦ (do update_last_executed_at; schedule_next def)
        | _ ↦ pure tt
      ]

  after_alarm-noted :
      (m : JobMetadata) (v : JobWorld)
      → v.store.meta ≡ some m
      → m.status ≡ JobStatus.running
      → after_alarm def (record no_flags { success = true }) env v ≡ (ok tt, noted v)
  unfolding after_alarm Metadata.get_meta ◌>>=◌
  after_alarm-noted m v p q = simp (get-reliable env reliable, p, continue_running-noted m v q)

  -- the job after one more run
  pub Ran-IsUp :
      (m : JobMetadata) (n : ℕ) (id : Option String) (s : Unknown) (v : JobWorld)
      (r : Outcome ExecutionResult × JobWorld)
      → Ran env reliable def codec job (n + 1) id s v r
      → v.store.meta ≡ some m
      → m.type ≡ JobType.continuous
      → m.status ≡ JobStatus.running
      → env.registry.continuous m.name ≡ some def
      → v.store.run_count ≡ some (n + 1)
      → IsUp env def codec m
          (n + 1)
          (final_state (body_of env def (n + 1)) s)
          r.1.current_time
          (noted r.1)
  Ran-IsUp m n id s v r ran p t q d c = record {
    has_meta = ran.meta ∙ p;
    type = t;
    status = q;
    registered = d;
    run_count = ran.run_count ∙ c;
    state = ran.state;
    fresh = ran.fresh;
    last = refl;
    alarm = refl;
  }

  fire_alarm-run :
      (m : JobMetadata) (n : ℕ) (s : Unknown) (time : ℕ) (w : JobWorld)
      → IsUp env def codec m n s time w
      → fire_alarm env w
        ≡ wrapped "unknown" (run_execution def (n + 1) m.id >>= after_alarm def) env (record w {
          store = record w.store { run_count = some (n + 1) };
          scheduled_time = none;
        })
  unfolding fire_alarm dispatch_alarm alarm_for alarm_of Continuous.handle_alarm alarm_meta
      get_definition found run_on_alarm is_retrying get_attempt increment_run_count get_run_count
      wrapped Metadata.get_meta asks catch_all ◌>>=◌
  fire_alarm-run m n s time w up = simp (
    get-reliable env reliable,
    put-reliable env reliable,
    up.has_meta,
    up.type,
    up.status,
    up.registered,
    up.fresh,
    up.run_count,
  )

  -- an alarm ends well and runs the job once more
  fire_alarm-IsUp :
      (m : JobMetadata) (n : ℕ) (s : Unknown) (time : ℕ) (w : JobWorld)
      → IsUp env def codec m n s time w
      → ((fire_alarm env w).0 ≡ ok tt)
        × IsUp env def codec m
            (n + 1)
            (final_state (body_of env def (n + 1)) s)
            (fire_alarm env w).1.current_time
            (fire_alarm env w).1
  unfolding wrapped asks catch_all ◌>>=◌
  fire_alarm-IsUp m n s time w up =
      let v : JobWorld = record w {
        store = record w.store { run_count = some (n + 1) };
        scheduled_time = none;
      } in
      let ran = run_execution-Ran env reliable def codec job (n + 1) m.id s v up.state up.fresh in
      let r = (run_execution def (n + 1) m.id env v).1 in
      rw (fire_alarm-run m n s time w up) (
        simp (ran.success, after_alarm-noted m r (ran.meta ∙ up.has_meta) up.status)
          (
            refl,
            Ran-IsUp m n m.id s v (run_execution def (n + 1) m.id env v) ran up.has_meta up.type
                up.status up.registered refl,
          ))

  -- a job that is up stays up over its alarms
  pub alarms-IsUp :
      (waits : List ℕ) (m : JobMetadata) (n : ℕ) (s : Unknown) (time : ℕ) (w : JobWorld)
      → IsUp env def codec m n s time w
      → EndWell env waits w
        × (last : ℕ) × IsUp env def codec m
            (n + length waits)
            (evolve env def n (length waits) s)
            last
            (alarms env waits w)
  unfolding alarms evolve
  alarms-IsUp [] m n s time w up =
      (tt, time, subst (λ k. IsUp env def codec m k s time w) (omega arith) up)
  alarms-IsUp (wait ∷ waits) m n s time w up =
      let one = fire_alarm-IsUp m n s time (later wait w) (waited m n s time wait w up) in
      let rest = alarms-IsUp waits m (n + 1) _ _ (fire_alarm env (later wait w)).1 one.1 in
      (
        (one.0, rest.0),
        rest.1,
        subst
            (λ k.
              IsUp env def codec m k (evolve env def n (length (wait ∷ waits)) s) rest.1
                (alarms env (wait ∷ waits) w))
            (omega arith) rest.2,
      )
    where
      waited :
          (m : JobMetadata) (n : ℕ) (s : Unknown) (time wait : ℕ) (w : JobWorld)
          → IsUp env def codec m n s time w
          → IsUp env def codec m n s time (later wait w)
      waited m n s time wait w up = record {
        has_meta = up.has_meta;
        type = up.type;
        status = up.status;
        registered = up.registered;
        run_count = up.run_count;
        state = up.state;
        fresh = up.fresh;
        last = up.last;
        alarm = up.alarm;
      }
