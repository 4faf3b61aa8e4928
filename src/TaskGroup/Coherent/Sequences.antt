-- ===== src/TaskGroup/Coherent/Sequences.antt =====
-- Sequences of operations of the in-memory runtime.
use durable_effect.Prelude.{ℕ, ◌+◌, String, none, List, [], ◌∷◌}
use durable_effect.State.{Unknown}
use durable_effect.TaskGroup.World.{GroupRegistry, GroupWorld}
use durable_effect.TaskGroup.Runtime
use durable_effect.TaskGroup.Coherent.{IsCoherent}
use durable_effect.TaskGroup.Coherent.Operations.{
  Keeps-send, Keeps-get_state, Keeps-fire_alarm, Keeps-tick, Keeps-inject_system_failure,
}

-- what a user of the runtime asks of it, and the time that passes in between
pub data Operation : Type 0 where
  send : (name id : String) → Unknown → Operation
  get_state fire_alarm : (name id : String) → Operation
  tick : (time : ℕ) → Operation
  inject_system_failure : (name id message : String) → Operation
  pass : (ms : ℕ) → Operation

-- the world after an operation, whose answer is not looked at
unfoldable pub after_operation : GroupRegistry → ℕ → Operation → GroupWorld → GroupWorld
after_operation registry fuel (Operation.send name id event) w =
    (Runtime.send registry fuel name id event w).1
after_operation registry fuel (Operation.get_state name id) w =
    (Runtime.get_state registry fuel name id w).1
after_operation registry fuel (Operation.fire_alarm name id) w =
    (Runtime.fire_alarm registry fuel name id w).1
after_operation registry fuel (Operation.tick time) w = (Runtime.tick registry fuel time w).1
after_operation registry fuel (Operation.inject_system_failure name id message) w =
    (Runtime.inject_system_failure registry name id message w).1
after_operation registry fuel (Operation.pass ms) w = record w {
  current_time = w.current_time + ms;
}

unfoldable pub after_operations : GroupRegistry → ℕ → List Operation → GroupWorld → GroupWorld
after_operations registry fuel [] w = w
after_operations registry fuel (o ∷ os) w =
    after_operations registry fuel os (after_operation registry fuel o w)

-- a runtime without instances
abbrev pub no_instances : ℕ → GroupWorld
no_instances time = record { instances = λ key. none; keys = []; current_time = time }

module _ (registry : GroupRegistry) (fuel : ℕ) where
  after_operation-IsCoherent :
      (o : Operation) (w : GroupWorld)
      → IsCoherent w
      → IsCoherent (after_operation registry fuel o w)
  unfolding after_operation
  after_operation-IsCoherent (Operation.send name id event) w h =
      (Keeps-send registry fuel name id event).at w h
  after_operation-IsCoherent (Operation.get_state name id) w h =
      (Keeps-get_state registry fuel name id).at w h
  after_operation-IsCoherent (Operation.fire_alarm name id) w h =
      (Keeps-fire_alarm registry fuel name id).at w h
  after_operation-IsCoherent (Operation.tick time) w h = (Keeps-tick registry fuel time).at w h
  after_operation-IsCoherent (Operation.inject_system_failure name id message) w h =
      (Keeps-inject_system_failure registry name id message).at w h
  after_operation-IsCoherent (Operation.pass ms) w h = λ key. h key

  after_all-IsCoherent :
      (os : List Operation) (w : GroupWorld)
      → IsCoherent w
      → IsCoherent (after_operations registry fuel os w)
  unfolding after_operations
  after_all-IsCoherent [] w h = λ key. h key
  after_all-IsCoherent (o ∷ os) w h =
      after_all-IsCoherent os (after_operation registry fuel o w) (after_operation-IsCoherent o w h)

  -- Whatever the tasks do, and however they fail, purge themselves and send each other events, to any
  -- depth: after any operations of the in-memory runtime, from one without instances, the alarm that
  -- each instance has stored, which `nextAlarm` answers, is the alarm that is set for it.
  pub after_operations-IsCoherent :
      (os : List Operation) (time : ℕ)
      → IsCoherent (after_operations registry fuel os (no_instances time))
  after_operations-IsCoherent os time = after_all-IsCoherent os (no_instances time) (λ key. tt)
