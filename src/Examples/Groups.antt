-- ===== src/Examples/Groups.antt =====
-- A group of two tasks at concrete worlds.
use durable_effect.Prelude.{◌≡◌, none, some, [], ◌∷◌, str_eq, if◌then◌else◌}
use durable_effect.TaskGroup.World.{GroupError, Body, TaskDefinition, GroupRegistry, ok}
use durable_effect.TaskGroup.Registered.{run_body, run_hook}
use durable_effect.TaskGroup.Runtime.{dispatch_fn}
use durable_effect.TaskGroup.Handled.{emptied, hctx, run_hook-after}
use durable_effect.TaskGroup.Coherent.{IsCoherent}
use durable_effect.TaskGroup.Coherent.Sequences.{
  Operation, after_operations, no_instances, after_operations-IsCoherent,
}
use durable_effect.Examples.JobFixtures.{text}

-- an order is saved, is looked at later, and tells its customer
abbrev order : TaskDefinition
order = record {
  state = text;
  event = text;
  on_event = λ context event.
      Body.save event
        (λ r. Body.schedule_in 500 (λ r. Body.send "customer" "7" event (λ r. Body.finish)));
  on_alarm = λ context. Body.fail GroupError.purge_signal;
  on_event_error = none;
  on_alarm_error = none;
}

-- a customer fails after it has set its alarm
abbrev customer : TaskDefinition
customer = record {
  state = text;
  event = text;
  on_event = λ context event. Body.schedule_at 900 (λ r. Body.fail (GroupError.user "full"));
  on_alarm = λ context. Body.finish;
  on_event_error = some (λ context e. Body.fail GroupError.purge_signal);
  on_alarm_error = none;
}

abbrev shop : GroupRegistry
shop = record {
  tasks = λ name.
      if str_eq name "order"
      then some order
      else if str_eq name "customer"
      then some customer
      else none;
  tags = λ name. some text;
}

after_operations-IsCoherent_example : IsCoherent (
    after_operations shop 3
      (Operation.send "order" "1" "paid"
        ∷ Operation.tick 2000
        ∷ Operation.fire_alarm "customer" "7"
        ∷ [])
      (no_instances 1000))
after_operations-IsCoherent_example =
    after_operations-IsCoherent shop 3
      (Operation.send "order" "1" "paid"
        ∷ Operation.tick 2000
        ∷ Operation.fire_alarm "customer" "7"
        ∷ [])
      1000

run_hook-after_example :
    run_hook customer shop.tags
      (hctx (dispatch_fn shop 1) "customer" "7" none customer shop.tags)
      (Body.fail (GroupError.user "full"))
      customer.on_event_error
      (no_instances 1000)
    ≡ (ok tt, emptied "customer:7" (no_instances 1000))
unfolding run_body
run_hook-after_example =
    run_hook-after (dispatch_fn shop 1) "customer" "7" none customer shop.tags
      (Body.fail (GroupError.user "full")) customer.on_event_error (no_instances 1000)
