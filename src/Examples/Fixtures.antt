-- ===== src/Examples/Fixtures.antt =====
-- A concrete object: its configuration, two workflows, and worlds at which the theorems are applied.
use durable_effect.Prelude.{
  ℕ, ◌<◌, ◌≡◌, refl, Bool, true, false, Option, none, some, [], ◌∷◌, ltb, lt→ltb, inl, inr,
  if◌then◌else◌,
}
use durable_effect.State.{WorkflowStatus, StatusTag, PauseReason}
use durable_effect.State.Transitions.{is_terminal_status}
use durable_effect.Errors.{Error}
use durable_effect.Program.{
  Cause, empty, interrupt, fail, die, sequential, parallel, Program, done, ok, err, Run, StepConfig,
}
use durable_effect.World.{Env, World, Store, empty_store}
use durable_effect.Executor.{first_of_two}
use durable_effect.Executor.Results.{
  Occurs, here, in_sequential_left, in_sequential_right, in_parallel_left, in_parallel_right,
  IsFailureOption, either_of_two,
}
use durable_effect.Orchestrator.{WorkflowCall, Definition}

-- the first failure of a cause
abbrev pub first_failure : Cause → Option Error
first_failure (fail e) = some e
first_failure (sequential l r) = first_of_two (first_failure l) (first_failure r)
first_failure (parallel l r) = first_of_two (first_failure l) (first_failure r)
first_failure _ = none

first_failure_sound : (cause : Cause) (e : Error) → first_failure cause ≡ some e → Occurs e cause
first_failure_sound (fail x) e h = let same : x ≡ e = cc in rw same here
first_failure_sound (sequential l r) e h = elim (either_of_two _ _ e h) [
  | inl k ↦ in_sequential_left (first_failure_sound l e k)
  | inr k ↦ in_sequential_right (first_failure_sound r e k)
]
first_failure_sound (parallel l r) e h = elim (either_of_two _ _ e h) [
  | inl k ↦ in_parallel_left (first_failure_sound l e k)
  | inr k ↦ in_parallel_right (first_failure_sound r e k)
]
first_failure_sound empty e h = cc
first_failure_sound interrupt e h = cc
first_failure_sound (die x) e h = cc

pub first_failure-laws : IsFailureOption first_failure
first_failure-laws = record { sound = first_failure_sound; of_fail = λ e. refl }

-- a run that is too slow fails when its time is up
abbrev pub cut_short : ℕ → Error → Run → Run
cut_short remaining_ms on_timeout run =
    if ltb run.elapsed remaining_ms
    then run
    else record { outcome = err on_timeout; elapsed = remaining_ms }

pub cut_short-fast :
    (remaining_ms : ℕ) (e : Error) (run : Run)
    → run.elapsed < remaining_ms
    → cut_short remaining_ms e run ≡ run
cut_short-fast remaining_ms e run h = rw (lt→ltb _ _ h)

abbrev pub greet : Definition
greet input = done "hello"

abbrev pub nap : Definition
nap input = Program.sleep 500 (λ r. done "rested")

abbrev pub env_with : Bool → Env
env_with purges = record {
  instance_id = "object-1";
  error_config = none;
  workflows = ("greet", greet) ∷ ("nap", nap) ∷ [];
  recovery = record {
    stale_threshold_ms = 30000;
    max_recovery_attempts = 3;
    recovery_delay_ms = 100;
    emit_recovery_events = true;
  };
  purge = record { enabled = purges; delay_ms = 60000 };
  failure_option = first_failure;
  squash = λ cause. Error.plain "squashed" none;
  timeout_fail = cut_short;
  add_jitter = λ delay_ms. delay_ms;
  stack_of = λ e. none;
}

-- purges are enabled, or not
abbrev pub env : Env
env = env_with true

abbrev pub keeping : Env
keeping = env_with false

abbrev pub world_with : Store → World
world_with store = record { store = store; scheduled_time = none; current_time = 1000; events = [] }

-- an object that has never been used, at the time 1000
abbrev pub blank : World
blank = world_with empty_store

pub completed_over : is_terminal_status StatusTag.completed ≡ true
unfolding is_terminal_status
completed_over = refl

-- an object that holds the workflow `nap` in a status
abbrev pub holding : WorkflowStatus → World
holding status = world_with (record empty_store {
  status = some status;
  name = some "nap";
  completed_steps = some ("load" ∷ []);
})

abbrev pub running : World
running = holding (WorkflowStatus.running 900)

abbrev pub paused : World
paused = holding (WorkflowStatus.paused PauseReason.sleep 1500 none)

abbrev pub completed : World
completed = holding (WorkflowStatus.completed 950)

abbrev pub nap_call : WorkflowCall
nap_call = record { workflow = "nap"; input = none; execution_id = some "order-7" }

abbrev pub lost_call : WorkflowCall
lost_call = record { workflow = "lost"; input = none; execution_id = none }

-- a failure of the user's code
abbrev pub boom : Error
boom = Error.plain "boom" none

-- the effect takes 20 ms and gives a value
abbrev pub load : StepConfig
load = record {
  name = "load";
  execute = λ time attempt. record { outcome = ok "data"; elapsed = 20 };
  retry = none;
  timeout = none;
}
