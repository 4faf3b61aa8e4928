-- ===== src/Engine.antt =====
-- packages/workflow/src/engine/engine.ts: the methods of the durable object. A call whose effect
-- fails rejects its promise. `flushEvents` does nothing with the in-memory tracker.
pub mod Traces
pub mod Sequels
pub mod Lifespan
pub mod Lifecycle
pub mod Cancelled
pub mod Reachable
use durable_effect.Prelude.{Bool, String, Option, none, some, List}
use durable_effect.State.{WorkflowStatus}
use durable_effect.World.{Action, pure, ◌>>=◌, ◌>>◌}
use durable_effect.Machine.{get_completed_steps}
use durable_effect.Recovery.{check_and_schedule_recovery}
use durable_effect.Purge.{PurgeExecutionResult, execute_purge_if_due}
use durable_effect.Orchestrator
use durable_effect.Orchestrator.{WorkflowCall, CancelReason}

-- the recovery check in the constructor
unfoldable pub construct : Action (Unit {0})
construct = do check_and_schedule_recovery; pure tt

unfoldable pub run : WorkflowCall → Action (String × Bool)
run call = do result ← Orchestrator.start call; pure (result.id, result.completed)

unfoldable pub run_async : WorkflowCall → Action String
run_async call = do result ← Orchestrator.queue call; pure result.id

unfoldable pub after_purge : PurgeExecutionResult → Action (Unit {0})
after_purge (some reason) = pure tt
after_purge none = Orchestrator.handle_alarm

unfoldable pub alarm : Action (Unit {0})
alarm = do result ← execute_purge_if_due; after_purge result

unfoldable pub cancel : Option String → Action (Bool × Option CancelReason)
cancel reason = do result ← Orchestrator.cancel reason; pure (result.cancelled, result.reason)

unfoldable pub get_status : Action (Option WorkflowStatus)
get_status = do result ← Orchestrator.get_workflow_status; pure result.status

unfoldable pub completed_steps : Action (List String)
completed_steps = get_completed_steps
