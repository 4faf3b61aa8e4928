-- ===== src/Jobs/Retry/Exhaustion.antt =====
-- How long a body that keeps failing is retried, on a platform that does not fail.
use durable_effect.Prelude.{
  ℕ, ◌+◌, ◌≤◌, ◌<◌, String, Bool, true, false, not, ◌≡◌, refl, ◌∙◌, sym, none, some, List, [], ◌∷◌,
  length, leb, arith,
}
use mathlib.Core.Path.{subst}
use durable_effect.Jobs.Errors.{JobType, JobError, ExhaustedReason}
use durable_effect.Jobs.Bodies.{JobRetryConfig, UserError, user_error}
use durable_effect.Jobs.World.{JobWorld, JobEnv, IsReliable, Eff, Outcome, err}
use durable_effect.Jobs.Retry.{execute_with_retry, past_duration, delay_of}
use durable_effect.Jobs.Retry.Attempts.{
  attempt_of, begun, attempted, no_retry, elapsed_past, execute_with_retry-attempted,
  user_error-attempted,
}

-- the world after some time
abbrev pub later : ℕ → JobWorld → JobWorld
later ms w = record w { current_time = w.current_time + ms }

-- A body that fails whenever it is run, after some milliseconds.
pub record Failing (body : Eff (Unit {0})) (env : JobEnv) : Type 0 where
  pub error : UserError
  pub ms : ℕ
  pub fails : (w : JobWorld) → body env w ≡ (err (user_error error), later ms w)

-- What the run of an attempt comes to: another attempt is scheduled, or it was the last.
abbrev pub Ended :
    JobType
    → String
    → JobEnv
    → JobRetryConfig
    → UserError
    → (attempt time : ℕ) → Bool
    → Outcome (Unit {0}) × JobWorld
    → Type 0
Ended type name env config e attempt time true (r, w) =
    let resume_at = time + delay_of env.add_jitter config attempt in
    (r ≡ err (JobError.retry_scheduled_signal resume_at (attempt + 1)))
    × (w.scheduled_time ≡ some resume_at)
    × (w.store.retry_attempt ≡ some (attempt + 1))
Ended type name env config e attempt time false (r, w) =
    (total : ℕ) × (r
      ≡ err (
          JobError.retry_exhausted_signal type name env.instance_id attempt (user_error e) total
            ExhaustedReason.max_attempts_exceeded))
    × (w.store ≡ no_retry w.store)

module _ (env : JobEnv) (reliable : IsReliable env) (body : Eff (Unit {0})) (f : Failing body env)
    (config : JobRetryConfig) (unbounded : config.max_duration ≡ none) (type : JobType)
    (name : String) where
  -- one run, some time after the last
  pub run_after : ℕ → JobWorld → Outcome (Unit {0}) × JobWorld
  run_after wait w = execute_with_retry body config type name env (later wait w)

  -- the world after a run for each wait
  pub runs_after : List ℕ → JobWorld → JobWorld
  runs_after [] w = w
  runs_after (wait ∷ waits) w = runs_after waits (run_after wait w).1

  no_bound : (w : JobWorld) → elapsed_past config w ≡ none
  unfolding past_duration
  no_bound w = rw unbounded

  run_after-failed :
      (wait : ℕ) (w : JobWorld)
      → run_after wait w
        ≡ attempted config type name env
            (attempt_of w)
            (w.current_time + wait)
            (err (user_error f.error), later f.ms (begun (later wait w)))
  unfolding run_after
  run_after-failed wait w =
      execute_with_retry-attempted env reliable body config type name (later wait w)
        (no_bound (later wait w))
      ∙ rw (f.fails (begun (later wait w)))

  -- a failure that is not the last is counted
  run_after-counts :
      (wait : ℕ) (w : JobWorld)
      → attempt_of w < config.max_attempts
      → attempt_of (run_after wait w).1 ≡ attempt_of w + 1
  run_after-counts wait w h =
      let more : leb config.max_attempts (attempt_of w) ≡ false = ground arith in
      rw (run_after-failed wait w) (
        rw
          (user_error-attempted env config type name f.error (attempt_of w) (w.current_time + wait)
            (later f.ms (begun (later wait w))))
          (rw more refl))

  runs_after-counts :
      (waits : List ℕ) (w : JobWorld)
      → attempt_of w + length waits ≤ config.max_attempts
      → attempt_of (runs_after waits w) ≡ attempt_of w + length waits
  unfolding runs_after
  runs_after-counts [] w h = omega arith
  runs_after-counts (wait ∷ waits) w h =
      let e = run_after-counts wait w (omega arith) in
      omega (arith, e, runs_after-counts waits (run_after wait w).1 (omega (arith, e)))

  attempted-Ended :
      (u : UserError) (attempt time : ℕ) (w : JobWorld) (b : Bool)
      → leb config.max_attempts attempt ≡ b
      → Ended type name env config u attempt time
          (not b)
          (attempted config type name env attempt time (err (user_error u), w))
  attempted-Ended u attempt time w true e =
      rw (user_error-attempted env config type name u attempt time w) (rw e (_, refl, refl))
  attempted-Ended u attempt time w false e =
      rw (user_error-attempted env config type name u attempt time w) (rw e (refl, refl, refl))

  run_after-Ended :
      (wait : ℕ) (w : JobWorld)
      → Ended type name env config f.error
          (attempt_of w)
          (w.current_time + wait)
          (not (leb config.max_attempts (attempt_of w)))
          (run_after wait w)
  run_after-Ended wait w =
      subst
        (Ended type name env config f.error (attempt_of w) (w.current_time + wait)
          (not (leb config.max_attempts (attempt_of w))))
        (sym (run_after-failed wait w))
        (attempted-Ended f.error (attempt_of w) (w.current_time + wait) _ _ refl)

  -- On a platform that does not fail, with no bound on the duration of the retries: a body that
  -- fails whenever it is run is run `maxAttempts` times in all, however long each run waits. The
  -- n-th run below that schedules attempt n + 1 and sets the alarm for it; the run of that number
  -- fails with the signal of exhaustion and leaves no record of retries.
  pub retries_exhaust :
      (waits : List ℕ) (wait : ℕ) (w : JobWorld)
      → w.store.retry_attempt ≡ none
      → length waits < config.max_attempts
      → let n = length waits + 1 in
        let w' = runs_after waits w in
        Ended type name env config f.error n
          (w'.current_time + wait)
          (not (leb config.max_attempts n))
          (run_after wait w')
  retries_exhaust waits wait w fresh h =
      let first : attempt_of w ≡ 1 = rw fresh refl in
      let due : attempt_of (runs_after waits w) ≡ length waits + 1 =
        omega (arith, first, runs_after-counts waits w (omega (arith, first))) in
      subst
        (λ n.
          Ended type name env config f.error n ((runs_after waits w).current_time + wait)
            (not (leb config.max_attempts n)) (run_after wait (runs_after waits w)))
        due (run_after-Ended wait (runs_after waits w))
