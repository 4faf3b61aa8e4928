-- ===== src/Executor/Exits.antt =====
-- What a run of a workflow has to do with its body: the body is run once, in the world that the
-- executor makes for it, and its exit decides the result.
use durable_effect.Prelude.{ℕ, ◌-◌, String, ◌≡◌, Option, none, some, List, [], or_else}
use durable_effect.State.{Unknown}
use durable_effect.Errors.{PauseSignal}
use durable_effect.Program.{Cause, Exit, success, failure, Program, ok}
use durable_effect.World.{Env, World}
use durable_effect.Executor.{ExecutionResult, find_pause_signal, find_cancel_error, run_program}

-- The result of an exit, after a time and with the steps completed: the output of a success; else a
-- pause if there is a pause signal, else a cancellation if there is one, else the failure.
pub data IsResult (env : Env) (ms : ℕ) (steps : List String)
    : Exit Unknown → ExecutionResult → Type 0 where
  completes :
      (v : Unknown) → IsResult env ms steps (success v) (ExecutionResult.completed v ms steps)
  pauses :
      (cause : Cause) (s : PauseSignal)
      → find_pause_signal env.failure_option cause ≡ some s
      → IsResult env ms steps
          (failure cause)
          (ExecutionResult.paused s.reason s.resume_at s.step_name s.attempt)
  cancels :
      (cause : Cause) (step_name : String)
      → find_pause_signal env.failure_option cause ≡ none
      → find_cancel_error env.failure_option cause ≡ some step_name
      → IsResult env ms steps (failure cause) (ExecutionResult.cancelled (some step_name) steps)
  fails :
      (cause : Cause)
      → find_pause_signal env.failure_option cause ≡ none
      → find_cancel_error env.failure_option cause ≡ none
      → IsResult env ms steps
          (failure cause)
          (ExecutionResult.failed (or_else (env.failure_option cause) (env.squash cause)) ms steps)

-- the world in which the body begins
abbrev pub body_world : World → World
body_world w = record w {
  store = record w.store { started_at = some w.current_time; current_pause_index = some 0 };
}

-- The body of the definition at the input, run from a world on, comes to the result.
pub record Executes (env : Env) (definition : Option Unknown → Program) (input : Option Unknown)
    (w : World) (result : ExecutionResult) : Type 0 where
  pub exit : Exit Unknown
  pub run : (run_program (definition input) env (body_world w)).0 ≡ ok exit
  pub is_result :
      let after = (run_program (definition input) env (body_world w)).1 in
      IsResult env
        (after.current_time - w.current_time)
        (or_else after.store.completed_steps [])
        exit
        result
