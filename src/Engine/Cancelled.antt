-- ===== src/Engine/Cancelled.antt =====
-- A cancellation moves the status along the lifecycle, whether or not the storage fails.
use durable_effect.Prelude.{String, Option, none, some, List, non_empty}
use durable_effect.State.{WorkflowStatus, WorkflowState, StatusTag}
use durable_effect.World.Keeps.{
  Keeps, Keeps-bind, Keeps-raise, Keeps-pure, Keeps-catch_error, keeps_rules,
}
use durable_effect.Machine.{
  get_status, get_state, get_completed_steps, set_cancelled, store_cancel_reason,
}
use durable_effect.Orchestrator
use durable_effect.Orchestrator.{
  Definition, WorkflowCall, start_new, start_or_existing, queue_new, queue_or_existing, rerun_if,
  handle_status, handle_alarm, cancel_now, emit_cancelled, cancel_status,
}
use durable_effect.Engine
use durable_effect.Engine.{construct, run, run_async, after_purge, alarm}
use durable_effect.Engine.Lifecycle.{Reached, apply-Keeps}

module _ (first : Option WorkflowStatus) where
  set_cancelled-Reached : (reason : Option String) → Keeps (Reached first) (set_cancelled reason)
  unfolding set_cancelled store_cancel_reason
  set_cancelled-Reached none = search keeps_rules depth 8
  set_cancelled-Reached (some reason) =
      Keeps-bind _ _ (search keeps_rules) (λ _. store_reason (non_empty (some reason)))
    where
      store_reason : (o : Option String) → Keeps (Reached first) (store_cancel_reason o)
      store_reason none = Keeps-pure tt
      store_reason (some r) = search keeps_rules

  emit_cancelled-Reached :
      (reason : Option String) (steps : List String) (o : Option WorkflowState)
      → Keeps (Reached first) (emit_cancelled reason steps o)
  unfolding emit_cancelled
  emit_cancelled-Reached reason steps none = Keeps-pure tt
  emit_cancelled-Reached reason steps (some s) = search keeps_rules

  cancel_now-Reached :
      (reason : Option String) (tag : StatusTag) → Keeps (Reached first) (cancel_now reason tag)
  unfolding cancel_now get_state get_completed_steps
  cancel_now-Reached reason tag =
      search (keeps_rules, apply-Keeps first, emit_cancelled-Reached) depth 14

  cancel_status-Reached :
      (reason : Option String) (o : Option WorkflowStatus)
      → Keeps (Reached first) (cancel_status reason o)
  unfolding cancel_status
  cancel_status-Reached reason (some (WorkflowStatus.queued _)) =
      Keeps-bind _ _ (set_cancelled-Reached reason) (λ _. cancel_now-Reached reason _)
  cancel_status-Reached reason (some (WorkflowStatus.paused _ _ _)) =
      Keeps-bind _ _ (set_cancelled-Reached reason) (λ _. cancel_now-Reached reason _)
  cancel_status-Reached reason (some (WorkflowStatus.running _)) =
      Keeps-bind _ _ (set_cancelled-Reached reason) (λ _. Keeps-pure _)
  cancel_status-Reached reason (some WorkflowStatus.pending) =
      Keeps-bind _ _ (set_cancelled-Reached reason) (λ _. Keeps-pure _)
  cancel_status-Reached reason _ = Keeps-pure _

  pub cancel-Reached : (reason : Option String) → Keeps (Reached first) (Engine.cancel reason)
  unfolding Engine.cancel Orchestrator.cancel get_status
  cancel-Reached reason =
      Keeps-bind _ _
        (Keeps-catch_error _ _ (Keeps-bind _ _ (search keeps_rules) (cancel_status-Reached reason))
          (λ e. Keeps-raise _))
        (λ r. Keeps-pure _)
