-- ===== src/Jobs/Retry/Attempts.antt =====
-- The attempts of a body that is retried, on a platform that does not fail.
use durable_effect.Prelude.{
  ℕ, ◌+◌, ◌-◌, String, Bool, true, false, ◌≡◌, refl, ◌∙◌, Option, none, some, leb, or_else, ◌==◌,
  if◌then◌else◌, Bool-cases, inl, inr,
}
use durable_effect.Jobs.Errors.{JobType, JobError, ExhaustedReason}
use durable_effect.Jobs.Bodies.{JobRetryConfig, UserError, user_error}
use durable_effect.Jobs.World.{
  JobStore, JobWorld, JobEnv, IsReliable, Eff, Outcome, ok, err, die, asks, catch_all, ◌>>=◌,
}
use durable_effect.Jobs.Platform.{now}
use durable_effect.Jobs.Services.Alarm
use durable_effect.Jobs.Services.Alarm.{timestamp_of}
use durable_effect.Jobs.Retry.{
  get_attempt, set_attempt, get_started_at, set_started_at, set_last_error, set_scheduled_at, reset,
  exhaust, past_duration, check_duration, delay_of, schedule_next_attempt, retry_or_exhaust,
  after_body, outcome_of, conclude, run_attempt, die_of, execute_with_retry,
}
use durable_effect.Jobs.Reliable.{get-reliable, put-reliable, delete-reliable, set_alarm-reliable}

-- the store without a record of retries
abbrev pub no_retry : JobStore → JobStore
no_retry s = record s {
  retry_attempt = none;
  retry_started_at = none;
  retry_last_error = none;
  retry_scheduled_at = none;
}

-- the attempt that is due
abbrev pub attempt_of : JobWorld → ℕ
attempt_of w = or_else w.store.retry_attempt 1

-- the world in which the body of an attempt begins
abbrev pub begun : JobWorld → JobWorld
begun w = record w {
  store = record w.store {
    retry_started_at = if attempt_of w == 1 then some w.current_time else w.store.retry_started_at;
  };
}

-- the time that the retries have taken, where it has reached the bound
abbrev pub elapsed_past : JobRetryConfig → JobWorld → Option ℕ
elapsed_past config w =
    past_duration config.max_duration (begun w).store.retry_started_at w.current_time

-- the world in which the next attempt is scheduled, after a body that began at a time
abbrev pub retried_at :
    JobRetryConfig → JobEnv → (attempt time : ℕ) → JobError → JobWorld → JobWorld
retried_at config env attempt time e w =
    let resume_at = time + delay_of env.add_jitter config attempt in
    record w {
      store = record w.store {
        retry_attempt = some (attempt + 1);
        retry_last_error = some e;
        retry_scheduled_at = some resume_at;
      };
      scheduled_time = some resume_at;
    }

-- What an attempt comes to whose body has ended so.
abbrev pub attempted :
    JobRetryConfig
    → JobType
    → String
    → JobEnv
    → (attempt time : ℕ) → Outcome (Unit {0}) × JobWorld
    → Outcome (Unit {0}) × JobWorld
attempted config type name env attempt time (ok a, w) =
    (ok tt, record w { store = no_retry w.store })
attempted config type name env attempt time (die e, w) = (die e, w)
attempted config type name env attempt time (err (JobError.terminate_signal reason p), w) =
    (err (JobError.terminate_signal reason p), w)
attempted config type name env attempt time (err e, w) =
    if leb config.max_attempts attempt
    then (
      err (
          JobError.retry_exhausted_signal type name env.instance_id attempt e
            (time - or_else w.store.retry_started_at time) ExhaustedReason.max_attempts_exceeded),
      record w { store = no_retry w.store },
    )
    else (
      err (
          JobError.retry_scheduled_signal (time + delay_of env.add_jitter config attempt)
            (attempt + 1)),
      retried_at config env attempt time e w,
    )

-- a failure of the user's body is retried or is the last
pub user_error-attempted :
    (env : JobEnv) (config : JobRetryConfig) (type : JobType) (name : String) (u : UserError)
    (attempt time : ℕ) (w : JobWorld)
    → attempted config type name env attempt time (err (user_error u), w) ≡ (
        if leb config.max_attempts attempt
        then (
          err (
              JobError.retry_exhausted_signal type name env.instance_id attempt
                (user_error u)
                (time - or_else w.store.retry_started_at time)
                ExhaustedReason.max_attempts_exceeded),
          record w { store = no_retry w.store },
        )
        else (
          err (
              JobError.retry_scheduled_signal
                (time + delay_of env.add_jitter config attempt)
                (attempt + 1)),
          retried_at config env attempt time (user_error u) w,
        ))
unfolding user_error
user_error-attempted env config type name (UserError.plain message stack) attempt time w = refl
user_error-attempted env config type name (UserError.thrown value) attempt time w = refl

module _ (env : JobEnv) (reliable : IsReliable env) where
  pub reset-reliable : (w : JobWorld) → reset env w ≡ (ok tt, record w { store = no_retry w.store })
  unfolding reset ◌>>=◌
  reset-reliable w = simp (delete-reliable env reliable)

  exhaust-reliable :
      (type : JobType) (name : String) (n : ℕ) (e : JobError) (total : ℕ) (r : ExhaustedReason)
      (w : JobWorld)
      → exhaust type name n e total r env w ≡ (
        err (JobError.retry_exhausted_signal type name env.instance_id n e total r),
        record w { store = no_retry w.store },
      )
  unfolding exhaust asks ◌>>=◌
  exhaust-reliable type name n e total r w = simp (reset-reliable)

  schedule_next-reliable :
      (config : JobRetryConfig) (attempt time : ℕ) (e : JobError) (w : JobWorld)
      → schedule_next_attempt config attempt time e env w ≡ (
        err (
            JobError.retry_scheduled_signal
              (time + delay_of env.add_jitter config attempt)
              (attempt + 1)),
        retried_at config env attempt time e w,
      )
  unfolding schedule_next_attempt set_last_error set_attempt set_scheduled_at Alarm.schedule
      timestamp_of asks now ◌>>=◌
  schedule_next-reliable config attempt time e w =
      simp (put-reliable env reliable, set_alarm-reliable env reliable)

  module _ (config : JobRetryConfig) (type : JobType) (name : String) (attempt time : ℕ) where
    failed : JobError → JobWorld → Outcome (Unit {0}) × JobWorld
    failed e w =
        if leb config.max_attempts attempt
        then (
          err (
              JobError.retry_exhausted_signal type name env.instance_id attempt e
                (time - or_else w.store.retry_started_at time)
                ExhaustedReason.max_attempts_exceeded),
          record w { store = no_retry w.store },
        )
        else (
          err (
              JobError.retry_scheduled_signal (time + delay_of env.add_jitter config attempt)
                (attempt + 1)),
          retried_at config env attempt time e w,
        )

    retry_or_exhaust-failed :
        (e : JobError) (w : JobWorld)
        → catch_all (retry_or_exhaust config type name attempt time e) die_of env w ≡ failed e w
    unfolding retry_or_exhaust failed catch_all get_started_at die_of ◌>>=◌
    retry_or_exhaust-failed e w = elim (Bool-cases (leb config.max_attempts attempt)) [
      | inl last ↦ simp (last, get-reliable env reliable, exhaust-reliable)
      | inr more ↦ simp (more, schedule_next-reliable)
    ]

    after_body-attempted :
        (e : JobError) (w : JobWorld)
        → catch_all (after_body config type name attempt time e) die_of env w
          ≡ attempted config type name env attempt time (err e, w)
    unfolding after_body failed catch_all die_of
    after_body-attempted (JobError.terminate_signal reason p) w = refl
    after_body-attempted (JobError.storage_error a b) w = retry_or_exhaust-failed _ w
    after_body-attempted _ w = retry_or_exhaust-failed _ w

    run_attempt-ended :
        (body : Eff (Unit {0})) (w : JobWorld) (r : Outcome (Unit {0})) (w' : JobWorld)
        → body env w ≡ (r, w')
        → catch_all (run_attempt body config type name attempt time none) die_of env w
          ≡ attempted config type name env attempt time (r, w')
    unfolding run_attempt outcome_of conclude catch_all ◌>>=◌
    run_attempt-ended body w (ok tt) w' e = rw e (simp (reset-reliable))
    run_attempt-ended body w (die x) w' e = rw e refl
    run_attempt-ended body w (err x) w' e = rw e (unfold catch_all in after_body-attempted x w')

    run_attempt-past :
        (body : Eff (Unit {0})) (w : JobWorld) (elapsed : ℕ)
        → catch_all (run_attempt body config type name attempt time (some elapsed)) die_of env w ≡ (
          err (
              JobError.retry_exhausted_signal type name env.instance_id attempt
                JobError.max_duration elapsed ExhaustedReason.max_duration_exceeded),
          record w { store = no_retry w.store },
        )
    unfolding run_attempt catch_all die_of
    run_attempt-past body w elapsed = simp (exhaust-reliable)

  check_duration-reliable :
      (max_ms : Option ℕ) (time : ℕ) (w : JobWorld)
      → check_duration max_ms time env w
        ≡ (ok (past_duration max_ms w.store.retry_started_at time), w)
  unfolding check_duration past_duration get_started_at ◌>>=◌
  check_duration-reliable none time w = refl
  check_duration-reliable (some max_ms) time w = simp (get-reliable env reliable)

  begin-reliable :
      (time : ℕ) (w : JobWorld) (b : Bool)
      → (if b then set_started_at time else (λ env' w'. (ok tt, w'))) env w ≡ (
        ok tt,
        record w {
          store = record w.store {
            retry_started_at = if b then some time else w.store.retry_started_at;
          };
        },
      )
  unfolding set_started_at
  begin-reliable time w true = put-reliable env reliable _ _ w
  begin-reliable time w false = refl

  resume_attempt :
      (body : Eff (Unit {0})) (config : JobRetryConfig) (type : JobType) (name : String)
      (w : JobWorld)
      → execute_with_retry body config type name env w
        ≡ catch_all
            (run_attempt body config type name
              (attempt_of w)
              w.current_time
              (elapsed_past config w))
            die_of
            env
            (begun w)
  unfolding execute_with_retry catch_all get_attempt now ◌>>=◌
  resume_attempt body config type name w =
      simp (get-reliable env reliable, begin-reliable, check_duration-reliable)

  module _ (body : Eff (Unit {0})) (config : JobRetryConfig) (type : JobType) (name : String) where
    -- On a platform that does not fail, and while the retries have not taken too long: an attempt
    -- whose body succeeds leaves no record of retries; a signal to terminate and a defect are
    -- handed on; any other failure is the last where the attempts are used up, which leaves no
    -- record of retries, and otherwise the attempt is counted, the failure is recorded, and the
    -- alarm is set for the time of the next attempt.
    pub execute_with_retry-attempted :
        (w : JobWorld)
        → elapsed_past config w ≡ none
        → execute_with_retry body config type name env w
          ≡ attempted config type name env (attempt_of w) w.current_time (body env (begun w))
    execute_with_retry-attempted w e =
        resume_attempt body config type name w
        ∙ rw e (
            run_attempt-ended config type name (attempt_of w) w.current_time body (begun w) _ _
              refl)

    pub execute_with_retry-past :
        (w : JobWorld) (elapsed : ℕ)
        → elapsed_past config w ≡ some elapsed
        → execute_with_retry body config type name env w ≡ (
          err (
              JobError.retry_exhausted_signal type name env.instance_id
                (attempt_of w)
                JobError.max_duration
                elapsed
                ExhaustedReason.max_duration_exceeded),
          record w { store = no_retry w.store },
        )
    execute_with_retry-past w elapsed e =
        resume_attempt body config type name w
        ∙ rw e
            (run_attempt-past config type name (attempt_of w) w.current_time body (begun w) elapsed)
