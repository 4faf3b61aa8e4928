-- ===== src/Context.antt =====
-- packages/workflow/src/context/workflow-context.ts: what a workflow reads and writes in the storage.
use durable_effect.Prelude.{ℕ, ◌+◌, String, Bool, Option, some, [], ltb, or_else, includes}
use durable_effect.State.{Unknown}
use durable_effect.Errors.{Key}
use durable_effect.World.{Action, pure, ◌>>=◌, ◌>>◌}
use durable_effect.World.Storage.{get, put}
use durable_effect.Machine

unfoldable pub workflow_name : Action String
workflow_name = do name ← get Key.name (λ s. s.name); pure (or_else name "unknown")

unfoldable pub input : Action (Option Unknown)
input = get Key.input (λ s. s.input)

unfoldable pub execution_id : Action (Option String)
execution_id = get Key.execution_id (λ s. s.execution_id)

unfoldable pub has_completed_step : String → Action Bool
has_completed_step step_name = do
  steps ← get Key.completed_steps (λ s. s.completed_steps)
  pure (includes step_name (or_else steps []))

-- The context's `markStepCompleted` has the text of the state machine's.
abbrev pub mark_step_completed : String → Action (Unit {0})
mark_step_completed = Machine.mark_step_completed

unfoldable pub completed_pause_index : Action ℕ
completed_pause_index = do
  index ← get Key.completed_pause_index (λ s. s.completed_pause_index)
  pure (or_else index 0)

unfoldable pub increment_pause_index : Action ℕ
increment_pause_index = do
  current ← get Key.current_pause_index (λ s. s.current_pause_index)
  let next = or_else current 0 + 1
  put Key.current_pause_index (λ s. record s { current_pause_index = some next })
  pure next

unfoldable pub should_execute_pause : ℕ → Action Bool
should_execute_pause index = do
  completed ← get Key.completed_pause_index (λ s. s.completed_pause_index)
  pure (ltb (or_else completed 0) index)

-- `storage.put("workflow:completedPauseIndex", …)` of sleep.ts
unfoldable pub set_completed_pause_index : ℕ → Action (Unit {0})
set_completed_pause_index index =
    put Key.completed_pause_index (λ s. record s { completed_pause_index = some index })

unfoldable pub pending_resume_at : Action (Option ℕ)
pending_resume_at = get Key.pending_resume_at (λ s. s.pending_resume_at)

unfoldable pub started_at : Action (Option ℕ)
started_at = get Key.started_at (λ s. s.started_at)
