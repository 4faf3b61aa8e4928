-- ===== src/Recovery/Repeated.antt =====
-- Many interruptions in a row: the instance dies while it runs, time passes, and the alarm finds it
-- running and recovers it, again and again.
use durable_effect.Prelude.{ℕ, ◌+◌, ◌<◌, ◌≡◌, refl, false, some, List, [], ◌∷◌, arith, leb, ap, ◌∙◌}
use durable_effect.State.{WorkflowStatus}
use durable_effect.World.{Env, World, IsReliable}
use durable_effect.Recovery.{execute_recovery}
use durable_effect.Recovery.Check.{attempts_of}
use durable_effect.Recovery.Execute.{
  Outcome, recovered, expected, with_recovered, execute_recovery-expected,
}

abbrev pub later : ℕ → World → World
later ms w = record w { current_time = w.current_time + ms }

-- one interruption for each time that passes before the alarm
pub interruptions : List ℕ → Env → World → World
interruptions [] env w = w
interruptions (ms ∷ rest) env w = interruptions rest env (execute_recovery env (later ms w)).1

-- running, with an attempt left
pub record IsRunning (env : Env) (w : World) : Type 0 where
  pub since : ℕ
  pub running : w.store.status ≡ some (WorkflowStatus.running since)
  pub attempts_left : attempts_of w < env.recovery.max_recovery_attempts

later-IsRunning : {env : Env} {w : World} (ms : ℕ) → IsRunning env w → IsRunning env (later ms w)
later-IsRunning ms r = record {
  since = r.since;
  running = r.running;
  attempts_left = r.attempts_left;
}

expected-running :
    (env : Env) (w : World)
    → IsRunning env w
    → expected env w w.store.status ≡ (recovered, with_recovered w)
unfolding expected
expected-running env w r =
    let room : leb env.recovery.max_recovery_attempts (attempts_of w) ≡ false =
      ground (arith, r.attempts_left) in
    simp (r.running, room)

recovered_once :
    (env : Env) (w : World)
    → IsReliable env
    → IsRunning env w
    → (execute_recovery env w).1 ≡ with_recovered w
recovered_once env w reliable r =
    ap (λ (p : Outcome × World). p.1)
      (execute_recovery-expected env reliable w ∙ expected-running env w r)

-- With a storage that does not fail, however often the instance is interrupted, and whatever time
-- passes between, a workflow that is running with an attempt left is running again with an attempt
-- left after every recovery: the bound on the attempts is never reached.
pub interruptions-IsRunning :
    (times : List ℕ) (env : Env) (w : World)
    → IsReliable env
    → IsRunning env w
    → IsRunning env (interruptions times env w)
unfolding interruptions
interruptions-IsRunning [] env w reliable r = r
interruptions-IsRunning (ms ∷ rest) env w reliable r =
    rw (recovered_once env (later ms w) reliable (later-IsRunning ms r)) (
      interruptions-IsRunning rest env (with_recovered (later ms w)) reliable (record {
        since = w.current_time + ms;
        running = refl;
        attempts_left = omega (arith, r.attempts_left);
      }))
