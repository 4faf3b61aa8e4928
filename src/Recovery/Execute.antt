-- ===== src/Recovery/Execute.antt =====
-- `executeRecovery` on a storage that does not fail: what each status and each count of attempts
-- leads to, and how the counter moves over many interruptions.
use durable_effect.Prelude.{
  ℕ, ◌+◌, ◌≡◌, refl, Bool, true, false, if◌then◌else◌, Option, none, some, leb,
}
use durable_effect.State.{WorkflowStatus, StatusTag, status_tag}
use durable_effect.State.Transitions.{
  is_recoverable_status, is_terminal_status, is_valid_transition,
}
use durable_effect.Program.{Result, ok, err}
use durable_effect.World.{Env, World, IsReliable, Action, asks, catch_error, ◌>>=◌}
use durable_effect.World.Storage.{now}
use durable_effect.World.Reliable.{get-reliable, put-reliable}
use durable_effect.Machine.{
  get_status, apply_transition, apply_transition_to_status, validate, get_completed_steps,
  increment_recovery_attempts, reset_recovery_attempts,
}
use durable_effect.Machine.Apply.{with_status}
use durable_effect.Recovery.{
  RecoveryStats, exhausted_error, RecoveryExecuteResult, ExecuteReason, get_stats, execute_recovery,
  recover_from, recover_or_fail, recover_now, after_transition, fail_exhausted,
}
use durable_effect.Recovery.Check.{attempts_of}

-- running or paused, as the matrix of transitions has it
abbrev pub IsInterruptible : WorkflowStatus → Type 0
IsInterruptible s = is_recoverable_status (status_tag s) ≡ true

-- the world after a recovery: running again, and no attempt on the counter
abbrev pub with_recovered : World → World
with_recovered w = record w {
  store = record w.store {
    status = some (WorkflowStatus.running w.current_time);
    recovery_attempts = some 0;
  };
}

abbrev pub recovered_result : ℕ → RecoveryExecuteResult
recovered_result attempt = record {
  success = true;
  attempt = attempt;
  reason = ExecuteReason.recovered;
  new_status = some StatusTag.running;
}

pub data Outcome : Type 0 where
  recovered exhausted stuck over : Outcome

abbrev outcome_of_reason : ExecuteReason → Outcome
outcome_of_reason ExecuteReason.recovered = recovered
outcome_of_reason ExecuteReason.already_completed = over
outcome_of_reason ExecuteReason.max_attempts_exceeded = exhausted
outcome_of_reason ExecuteReason.transition_failed = stuck

abbrev stats_of : Env → World → RecoveryStats
stats_of env w = record {
  attempts = attempts_of w;
  max_attempts = env.recovery.max_recovery_attempts;
  last_attempt_at = w.store.last_recovery_at;
  max_exceeded = leb env.recovery.max_recovery_attempts (attempts_of w);
}

-- the status of a workflow that has used up its attempts
abbrev pub with_exhausted : Env → World → World
with_exhausted env w =
    with_status
      (WorkflowStatus.failed w.current_time (exhausted_error env.recovery.max_recovery_attempts)) w

-- the next attempt that the storage counts
abbrev pub with_attempt : World → World
with_attempt w = record w {
  store = record w.store { recovery_attempts = some (attempts_of w + 1) };
}

-- What `executeRecovery` is to do, by the status and the attempts that are on record.
unfoldable pub expected : Env → World → Option WorkflowStatus → (Outcome × World)
expected env w none = (over, w)
expected env w (some (WorkflowStatus.completed _)) = (over, w)
expected env w (some (WorkflowStatus.failed _ _)) = (over, w)
expected env w (some (WorkflowStatus.cancelled _ _)) = (over, w)
expected env w (some (WorkflowStatus.running _)) =
    if leb env.recovery.max_recovery_attempts (attempts_of w)
    then (exhausted, with_exhausted env w)
    else (recovered, with_recovered w)
expected env w (some (WorkflowStatus.paused _ _ _)) =
    if leb env.recovery.max_recovery_attempts (attempts_of w)
    then (exhausted, w)
    else (recovered, with_recovered w)
expected env w (some _) =
    if leb env.recovery.max_recovery_attempts (attempts_of w)
    then (exhausted, w)
    else (stuck, with_attempt w)

-- the outcome that a result reports
abbrev pub outcome_of : Result RecoveryExecuteResult → Outcome
outcome_of (ok r) = outcome_of_reason r.reason
outcome_of (err _) = exhausted

module _ (env : Env) (reliable : IsReliable env) (w : World) where
  abbrev Meets : Option WorkflowStatus → Result RecoveryExecuteResult × World → Type 0
  Meets status r = (outcome_of r.0, r.1) ≡ expected env w status

  Meets-if :
      (status : Option WorkflowStatus) (b : Bool) (m n : Action RecoveryExecuteResult)
      → (b ≡ true → Meets status (m env w))
      → (b ≡ false → Meets status (n env w))
      → Meets status ((if b then m else n) env w)
  Meets-if status true m n h k = h refl
  Meets-if status false m n h k = k refl

  abbrev IsFull : Type 0
  IsFull = leb env.recovery.max_recovery_attempts (attempts_of w) ≡ true

  abbrev HasRoom : Type 0
  HasRoom = leb env.recovery.max_recovery_attempts (attempts_of w) ≡ false

  -- the two branches of a status that is not terminal
  branch :
      (status : WorkflowStatus)
      → (IsFull → Meets (some status) (fail_exhausted (stats_of env w) env w))
      → (HasRoom → Meets (some status) (recover_now status env w))
      → Meets (some status) (recover_or_fail status env w)
  unfolding recover_or_fail get_stats asks ◌>>=◌
  branch status h k = simp (get-reliable env reliable) (Meets-if (some status) _ _ _ h k)

  fail-Meets :
      (status : WorkflowStatus)
      → w.store.status ≡ some status
      → is_terminal_status (status_tag status) ≡ false
      → IsFull
      → Meets (some status) (fail_exhausted (stats_of env w) env w)
  unfolding fail_exhausted get_completed_steps apply_transition get_status now validate
      is_valid_transition apply_transition_to_status catch_error expected is_terminal_status ◌>>=◌
  fail-Meets (WorkflowStatus.running r) s t e =
      simp (get-reliable env reliable, put-reliable env reliable, s, e)
  fail-Meets (WorkflowStatus.completed r) s t e = cc
  fail-Meets (WorkflowStatus.failed r x) s t e = cc
  fail-Meets (WorkflowStatus.cancelled r x) s t e = cc
  fail-Meets _ s t e = simp (get-reliable env reliable, put-reliable env reliable, s, e)

  recover-Meets :
      (status : WorkflowStatus)
      → w.store.status ≡ some status
      → is_terminal_status (status_tag status) ≡ false
      → HasRoom
      → Meets (some status) (recover_now status env w)
  unfolding recover_now after_transition increment_recovery_attempts reset_recovery_attempts
      apply_transition get_status now validate is_valid_transition apply_transition_to_status
      catch_error expected is_terminal_status ◌>>=◌
  recover-Meets (WorkflowStatus.running r) s t e =
      simp (get-reliable env reliable, put-reliable env reliable, s, e)
  recover-Meets (WorkflowStatus.completed r) s t e = cc
  recover-Meets (WorkflowStatus.failed r x) s t e = cc
  recover-Meets (WorkflowStatus.cancelled r x) s t e = cc
  recover-Meets _ s t e = simp (get-reliable env reliable, put-reliable env reliable, s, e)

  recover_from-Meets :
      (status : Option WorkflowStatus)
      → w.store.status ≡ status
      → Meets status (recover_from status env w)
  unfolding recover_from is_terminal_status expected
  recover_from-Meets none s = refl
  recover_from-Meets (some (WorkflowStatus.completed _)) s = refl
  recover_from-Meets (some (WorkflowStatus.failed _ _)) s = refl
  recover_from-Meets (some (WorkflowStatus.cancelled _ _)) s = refl
  recover_from-Meets (some status) s =
      branch status (fail-Meets status s refl) (recover-Meets status s refl)

  -- On a storage that does not fail, `executeRecovery` does for each status and count of attempts
  -- what `expected` lists: a running or paused workflow with attempts left runs again and its
  -- counter is 0; with none left, a running one is marked as failed and the call fails, and a
  -- paused one stays paused and the call fails; a pending or queued one only counts an attempt; a
  -- finished or missing one is left alone.
  pub execute_recovery-expected : Meets w.store.status (execute_recovery env w)
  unfolding execute_recovery get_status ◌>>=◌
  execute_recovery-expected =
      simp (get-reliable env reliable) (recover_from-Meets w.store.status refl)
