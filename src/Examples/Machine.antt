-- ===== src/Examples/Machine.antt =====
-- The state machine, recovery, purge and retry delays at concrete worlds.
use durable_effect.Prelude.{◌≡◌, refl, none, some, [], ◌∷◌, arith}
use durable_effect.State.{
  WorkflowStatus, WorkflowTransition, StatusTag, PauseReason, status_tag, transition_tag,
}
use durable_effect.Program.{ok}
use durable_effect.World.{TerminalState, empty_store}
use durable_effect.World.Outcomes.{Post, Unchanged}
use durable_effect.Machine.{apply_transition, apply_transition_to_status, check_recoverability}
use durable_effect.Machine.Apply.{Edge, Refusal, with_status, apply_transition-Post}
use durable_effect.Machine.Recoverability.{Decides, check_recoverability-Decides}
use durable_effect.Recovery.{check_and_schedule_recovery, execute_recovery}
use durable_effect.Recovery.Check.{Checked, CheckFailed, check_and_schedule_recovery-Checked}
use durable_effect.Recovery.Execute.{expected, outcome_of, execute_recovery-expected}
use durable_effect.Recovery.Repeated.{IsRunning, interruptions, interruptions-IsRunning, later}
use durable_effect.Purge.{schedule_purge, execute_purge_if_due}
use durable_effect.Purge.Lifecycle.{purge_lifecycle}
use durable_effect.Retry.{calculate_backoff_delay, standard}
use durable_effect.Retry.Growth.{at_most, nth_delay, calculate_backoff_delay-nth}
use durable_effect.Examples.Fixtures.{env, running, paused, completed}

-- a pause of a running workflow until the time 5000
abbrev pause_until : WorkflowTransition
pause_until = WorkflowTransition.pause PauseReason.sleep 5000 none

apply_transition-Post_example :
    Post
      (λ s w'.
        Edge (some StatusTag.running) (transition_tag pause_until) (status_tag s)
        × (s ≡ apply_transition_to_status pause_until 1000)
        × (w' ≡ with_status s running))
      (Refusal pause_until env running)
      (apply_transition pause_until env running)
apply_transition-Post_example = apply_transition-Post pause_until env running

check_recoverability-Decides_example :
    Post
      (Decides 50 env running (some (WorkflowStatus.running 900)))
      (Unchanged env running)
      (check_recoverability 50 env running)
check_recoverability-Decides_example = check_recoverability-Decides 50 env running

check_and_schedule_recovery-Checked_example :
    Post (Checked env paused) (CheckFailed env paused) (check_and_schedule_recovery env paused)
check_and_schedule_recovery-Checked_example = check_and_schedule_recovery-Checked env paused

execute_recovery-expected_example :
    (outcome_of (execute_recovery env running).0, (execute_recovery env running).1)
    ≡ expected env running (some (WorkflowStatus.running 900))
execute_recovery-expected_example = execute_recovery-expected env refl running

interruptions-IsRunning_example :
    IsRunning env (interruptions (40000 ∷ 1 ∷ 2 ∷ 3 ∷ 4 ∷ []) env running)
interruptions-IsRunning_example =
    interruptions-IsRunning (40000 ∷ 1 ∷ 2 ∷ 3 ∷ 4 ∷ []) env running refl
      (record { since = 900; running = refl; attempts_left = omega arith })

purge_lifecycle_example :
    let w' = later 60000 (schedule_purge TerminalState.failed env completed).1 in
    (w'.scheduled_time ≡ some 61000)
    × (execute_purge_if_due env w'
        ≡ (ok (some (some TerminalState.failed)), record w' { store = empty_store }))
purge_lifecycle_example =
    purge_lifecycle env refl refl TerminalState.failed completed 60000 (omega arith)

-- the sixth delay is the cap of thirty seconds: without it, it would be 32000
calculate_backoff_delay-nth_example :
    calculate_backoff_delay standard 6 ≡ at_most (some 30000) (nth_delay standard 5)
calculate_backoff_delay-nth_example = calculate_backoff_delay-nth standard 5
