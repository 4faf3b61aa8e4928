-- ===== src/Engine/Lifecycle.antt =====
-- The lifecycle that every sequence of requests follows, whether or not the storage fails.
use durable_effect.Prelude.{String, ◌≡◌, refl, sym, ap, Option, none, some, List}
use mathlib.Core.Path.{subst}
use durable_effect.State.{
  Unknown, WorkflowStatus, WorkflowState, WorkflowTransition, TransitionTag, status_tag,
  transition_tag,
}
use durable_effect.Errors.{Error, Key}
use durable_effect.Program.{Program}
use durable_effect.World.{Env, World, Store, Action, TerminalState, ◌>>=◌}
use durable_effect.World.Outcomes.{Post, Post-get, Post-put_batch, Post-bind, Post-mono}
use durable_effect.World.Keeps.{
  Keeps, Keeps-bind, Keeps-raise, Keeps-asks, Keeps-pure, Keeps-catch_error, keeps_rules,
}
use durable_effect.Machine.{
  get_status, get_state, get_completed_steps, initialize, initialized, apply_transition,
  increment_recovery_attempts, reset_recovery_attempts,
}
use durable_effect.Machine.Apply.{Edge, tag_of, apply_transition-Post}
use durable_effect.Purge.{schedule_purge}
use durable_effect.Recovery.{
  get_stats, execute_recovery, recover_from, recover_or_fail, fail_exhausted, recover_now,
  after_transition, on_invalid_transition,
}
use durable_effect.Orchestrator.{
  Definition, lookup_workflow, found_or_fail, registry_get, cleanup, cleanup_after, settle,
  execute_and_settle, start_queued, resume_paused, rerun_recovered, with_state,
}
use durable_effect.Executor.{ExecutionContext, ExecutionMode, ExecutionResult, execute}
use durable_effect.Executor.Frame.{Control, control, execute-Keeps}

-- Where a status can get from the first one: along the edges of the lifecycle, and from nothing to
-- `Pending`.
pub data Reach (start : Option WorkflowStatus) : Option WorkflowStatus → Type 0 where
  begins : Reach start start
  moves :
      {from : Option WorkflowStatus} (t : TransitionTag) {to : WorkflowStatus}
      → Reach start from
      → Edge (tag_of from) t (status_tag to)
      → Reach start (some to)
  creates : Reach start none → Reach start (some WorkflowStatus.pending)

module _ (start : Option WorkflowStatus) where
  abbrev pub Reached : Store → Type 0
  Reached s = Reach start s.status

  pub apply-Keeps : (t : WorkflowTransition) → Keeps Reached (apply_transition t)
  apply-Keeps t = record {
    at = λ env w h.
        Post-mono (apply_transition-Post t env w)
          (λ s w' k. rw k.2 (moves (transition_tag t) h k.0)) (λ e w' k. rw k.0 h);
  }

  execute-Reached :
      (definition : Option Unknown → Program) (context : ExecutionContext)
      → Keeps Reached (execute definition context)
  execute-Reached definition context = record {
    at = λ env w h.
        Post-mono ((execute-Keeps (control w.store) definition context).at env w refl)
          (λ r w' k. subst (λ o. Reach start o) (sym (ap (λ (c : Control). c.status) k)) h)
          (λ e w' k. subst (λ o. Reach start o) (sym (ap (λ (c : Control). c.status) k)) h);
  }

  -- a read of the status, with the status that it finds
  pub read-Keeps :
      {A : Type 0} (f : Option WorkflowStatus → Action A)
      → ((env : Env) (w : World)
          → Reached w.store
          → Post (λ _ w'. Reached w'.store) (λ _ w'. Reached w'.store) (f w.store.status env w))
      → Keeps Reached (get_status >>= f)
  unfolding get_status
  read-Keeps f k = record {
    at = λ env w h. Post-bind _ _ env w (Post-get Key.status _ env w (k env w h) (λ _ _. h));
  }

  pub initialize-Reached :
      (name : String) (input : Option Unknown) (id : Option String) (env : Env) (w : World)
      → Reached w.store
      → w.store.status ≡ none
      → Post (λ _ w'. Reached w'.store) (λ _ w'. Reached w'.store) (initialize name input id env w)
  unfolding initialize initialized
  initialize-Reached name input id env w h blank =
      Post-put_batch _ env w (creates (subst (λ o. Reach start o) blank h)) (λ _ _. h)

  cleanup-Reached : (state : TerminalState) → Keeps Reached (cleanup state)
  unfolding cleanup schedule_purge
  cleanup-Reached state = search keeps_rules depth 10

  cleanup_after-Reached : (result : ExecutionResult) → Keeps Reached (cleanup_after result)
  unfolding cleanup_after
  cleanup_after-Reached (ExecutionResult.completed _ _ _) = cleanup-Reached _
  cleanup_after-Reached (ExecutionResult.failed _ _ _) = cleanup-Reached _
  cleanup_after-Reached (ExecutionResult.cancelled _ _) = cleanup-Reached _
  cleanup_after-Reached (ExecutionResult.paused _ _ _ _) = Keeps-pure tt

  pub execute_and_settle-Reached :
      (definition : Definition) (name : String) (input : Option Unknown) (id : Option String)
      (mode : ExecutionMode)
      → Keeps Reached (execute_and_settle definition name input id mode)
  unfolding execute_and_settle settle
  execute_and_settle-Reached definition name input id mode =
      search (keeps_rules, execute-Reached, apply-Keeps, cleanup_after-Reached) depth 12

  pub registry_get-Reached : (name : String) → Keeps Reached (registry_get name)
  unfolding registry_get
  registry_get-Reached name =
      Keeps-bind _ _ (Keeps-asks _) (λ ws. found-Reached ws (lookup_workflow name ws))
    where
      found-Reached :
          (ws : List (String × Definition)) (o : Option Definition)
          → Keeps Reached (found_or_fail name ws o)
      found-Reached ws none = Keeps-raise _
      found-Reached ws (some d) = Keeps-pure d

  pub get_state-Reached : Keeps Reached get_state
  unfolding get_state
  get_state-Reached = search keeps_rules

  pub completed_steps-Reached : Keeps Reached get_completed_steps
  unfolding get_completed_steps
  completed_steps-Reached = search keeps_rules

  pub start_queued-Reached : (state : WorkflowState) → Keeps Reached (start_queued state)
  unfolding start_queued
  start_queued-Reached state =
      search (keeps_rules, registry_get-Reached, apply-Keeps, execute_and_settle-Reached) depth 12

  pub resume_paused-Reached : (state : WorkflowState) → Keeps Reached (resume_paused state)
  unfolding resume_paused
  resume_paused-Reached state =
      search (keeps_rules, registry_get-Reached, apply-Keeps, execute_and_settle-Reached) depth 12

  pub rerun_recovered-Reached : (state : WorkflowState) → Keeps Reached (rerun_recovered state)
  unfolding rerun_recovered
  rerun_recovered-Reached state =
      search (keeps_rules, registry_get-Reached, execute_and_settle-Reached) depth 12

  pub with_state-Reached :
      (next : WorkflowState → Action (Unit {0})) (o : Option WorkflowState)
      → ((state : WorkflowState) → Keeps Reached (next state))
      → Keeps Reached (with_state next o)
  unfolding with_state
  with_state-Reached next none k = Keeps-pure tt
  with_state-Reached next (some state) k = k state

  handler-Reached :
      {A : Type 0} (h : Action A) (e : Error)
      → Keeps Reached h
      → Keeps Reached (on_invalid_transition h e)
  handler-Reached h (Error.invalid_transition a b c) k = k
  handler-Reached h e k = Keeps-raise e

  recover_or_fail-Reached : (status : WorkflowStatus) → Keeps Reached (recover_or_fail status)
  unfolding recover_or_fail get_stats fail_exhausted recover_now after_transition
      increment_recovery_attempts reset_recovery_attempts
  recover_or_fail-Reached status =
      search (keeps_rules, Keeps-catch_error, handler-Reached, apply-Keeps, completed_steps-Reached)
        depth 18

  recover_from-Reached : (o : Option WorkflowStatus) → Keeps Reached (recover_from o)
  unfolding recover_from
  recover_from-Reached none = Keeps-pure _
  recover_from-Reached (some (WorkflowStatus.completed _)) = Keeps-pure _
  recover_from-Reached (some (WorkflowStatus.failed _ _)) = Keeps-pure _
  recover_from-Reached (some (WorkflowStatus.cancelled _ _)) = Keeps-pure _
  recover_from-Reached (some s) = recover_or_fail-Reached s

  pub execute_recovery-Reached : Keeps Reached execute_recovery
  unfolding execute_recovery get_status
  execute_recovery-Reached = Keeps-bind _ _ (search keeps_rules) recover_from-Reached
