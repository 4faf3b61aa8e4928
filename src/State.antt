-- ===== src/State.antt =====
-- packages/workflow/src/state/types.ts: the statuses of a workflow, the transitions between them,
-- their tags and the whole state. An `unknown` payload is never looked into, so a text stands for
-- it; times are milliseconds.
pub mod Transitions
use durable_effect.Prelude.{ℕ, String, Bool, false, Option, none, List, []}

abbrev pub Unknown : Type 0
Unknown = String

pub data PauseReason : Type 0 where
  sleep retry : PauseReason

pub record WorkflowError : Type 0 where
  pub message : String
  pub stack : Option String
  pub step_name : Option String
  pub attempt : Option ℕ

pub data WorkflowStatus : Type 0 where
  pending : WorkflowStatus
  queued : (queued_at : ℕ) → WorkflowStatus
  running : (running_at : ℕ) → WorkflowStatus
  paused : (reason : PauseReason) (resume_at : ℕ) (step_name : Option String) → WorkflowStatus
  completed : (completed_at : ℕ) → WorkflowStatus
  failed : (failed_at : ℕ) (error : WorkflowError) → WorkflowStatus
  cancelled : (cancelled_at : ℕ) (reason : Option String) → WorkflowStatus

pub data RecoverReason : Type 0 where
  infrastructure_restart stale_detection manual : RecoverReason

pub data WorkflowTransition : Type 0 where
  start : (input : Option Unknown) → WorkflowTransition
  queue : (input : Option Unknown) → WorkflowTransition
  resume : WorkflowTransition
  recover : (reason : RecoverReason) (attempt : ℕ) → WorkflowTransition
  complete : (completed_steps : List String) (duration_ms : ℕ) → WorkflowTransition
  pause : (reason : PauseReason) (resume_at : ℕ) (step_name : Option String) → WorkflowTransition
  fail : (error : WorkflowError) (completed_steps : List String) → WorkflowTransition
  cancel : (reason : Option String) (completed_steps : List String) → WorkflowTransition

pub data StatusTag : Type 0 where
  pending queued running paused completed failed cancelled : StatusTag

pub data TransitionTag : Type 0 where
  start queue resume recover complete pause fail cancel : TransitionTag

-- `status._tag`
abbrev pub status_tag : WorkflowStatus → StatusTag
status_tag WorkflowStatus.pending = StatusTag.pending
status_tag (WorkflowStatus.queued _) = StatusTag.queued
status_tag (WorkflowStatus.running _) = StatusTag.running
status_tag (WorkflowStatus.paused _ _ _) = StatusTag.paused
status_tag (WorkflowStatus.completed _) = StatusTag.completed
status_tag (WorkflowStatus.failed _ _) = StatusTag.failed
status_tag (WorkflowStatus.cancelled _ _) = StatusTag.cancelled

-- `transition._tag`
abbrev pub transition_tag : WorkflowTransition → TransitionTag
transition_tag (WorkflowTransition.start _) = TransitionTag.start
transition_tag (WorkflowTransition.queue _) = TransitionTag.queue
transition_tag WorkflowTransition.resume = TransitionTag.resume
transition_tag (WorkflowTransition.recover _ _) = TransitionTag.recover
transition_tag (WorkflowTransition.complete _ _) = TransitionTag.complete
transition_tag (WorkflowTransition.pause _ _ _) = TransitionTag.pause
transition_tag (WorkflowTransition.fail _ _) = TransitionTag.fail
transition_tag (WorkflowTransition.cancel _ _) = TransitionTag.cancel

pub record WorkflowState : Type 0 where
  pub status : WorkflowStatus
  pub workflow_name : String
  pub input : Option Unknown
  pub execution_id : Option String
  pub completed_steps : List String
  pub completed_pause_index : ℕ
  pub pending_resume_at : Option ℕ
  pub recovery_attempts : ℕ
  pub is_cancelled : Bool
  pub cancel_reason : Option String

unfoldable pub initial_workflow_state : String → Option Unknown → Option String → WorkflowState
initial_workflow_state workflow_name input execution_id = record {
  status = WorkflowStatus.pending;
  workflow_name = workflow_name;
  input = input;
  execution_id = execution_id;
  completed_steps = [];
  completed_pause_index = 0;
  pending_resume_at = none;
  recovery_attempts = 0;
  is_cancelled = false;
  cancel_reason = none;
}
