-- ===== src/Orchestrator/Calls.antt =====
-- packages/workflow/src/orchestrator/{registry,types}.ts: the registry of workflows, and what the
-- operations take and return.
use durable_effect.Prelude.{
  String, Bool, Option, none, some, List, [], ◌∷◌, map, str_eq, if◌then◌else◌,
}
use durable_effect.State.{Unknown, WorkflowStatus, StatusTag}
use durable_effect.Errors.{Error}
use durable_effect.Program.{Program}
use durable_effect.World.{Action, pure, raise, asks, ◌>>=◌}

abbrev pub Definition : Type 0
Definition = Option Unknown → Program

-- `workflows[name]`
abbrev pub lookup_workflow : String → List (String × Definition) → Option Definition
lookup_workflow name [] = none
lookup_workflow name ((key, definition) ∷ rest) =
    if str_eq key name then some definition else lookup_workflow name rest

abbrev pub found_or_fail :
    String → List (String × Definition) → Option Definition → Action Definition
found_or_fail name workflows none =
    raise (Error.workflow_not_found name (map (λ (w : String × Definition). w.0) workflows))
found_or_fail name workflows (some definition) = pure definition

-- `registry.get`
unfoldable pub registry_get : String → Action Definition
registry_get name = do
  workflows ← asks (λ env. env.workflows)
  found_or_fail name workflows (lookup_workflow name workflows)

pub record WorkflowCall : Type 0 where
  pub workflow : String
  pub input : Option Unknown
  pub execution_id : Option String

pub record StartResult : Type 0 where
  pub id : String
  pub completed : Bool
  pub output : Option Unknown

pub data CancelReason : Type 0 where
  not_found already_terminal not_running : CancelReason

pub record CancelResult : Type 0 where
  pub cancelled : Bool
  pub reason : Option CancelReason
  pub previous_status : Option StatusTag

pub record WorkflowStatusResult : Type 0 where
  pub status : Option WorkflowStatus
  pub completed_steps : List String
  pub exists : Bool
