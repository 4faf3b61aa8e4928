-- ===== src/TaskGroup/Runtime.antt =====
-- packages/task-group/src/InMemoryRuntime.ts: the instances of a group in memory, how they send each
-- other events, and their alarms. A send runs the handler of its target before it returns, so that
-- sends nest; the fuel bounds how deep. The layers that the hooks are given are left out.
use Prim.Native.String.{◌++◌, find, slice, len}
use durable_effect.Prelude.{
  ℕ, zero, suc, ◌+◌, String, Bool, false, Option, none, some, List, [], ◌∷◌, leb, or_else, is_some,
  update, length, if◌then◌else◌,
}
use mathlib.Core.List.{◌++◌ as append}
use durable_effect.State.{Unknown}
use durable_effect.Jobs.Bodies.{Schema}
use durable_effect.TaskGroup.World.{
  TaskMessage, GroupError, TaskDefinition, GroupRegistry, Instance, new_instance, GroupWorld, Group,
  endless, pure, raise, reads, modify, map_error, StorageService, AlarmService, DispatchFn,
  HandlerContext, ◌>>=◌, ◌>>◌,
}
use durable_effect.TaskGroup.Registered.{checked, handle_event, handle_alarm, handle_get_state}

abbrev pub instance_key : (name id : String) → String
instance_key name id = name ++ (":" ++ id)

-- up to the first colon, and behind it
abbrev pub parse_instance_key : String → String × String
parse_instance_key key =
    let position = find key ":" in (slice key 0 position, slice key (position + 1) (len key))

-- the instance under a key, a new one where there is none
abbrev pub instance_at : String → GroupWorld → Instance
instance_at key w = or_else (w.instances key) new_instance

-- An instance is an object that stays where it is; a change of it is seen under its key.
abbrev pub changed : String → (Instance → Instance) → GroupWorld → GroupWorld
changed key change w = record w {
  instances = update w.instances key (some (change (instance_at key w)));
}

abbrev pub change : String → (Instance → Instance) → Group (Unit {0})
change key f = modify (changed key f)

-- `makeInstanceStorage`
unfoldable pub instance_storage : String → StorageService
instance_storage key = record {
  get_state = reads (λ w. (instance_at key w).state);
  set_state = λ state. change key (λ i. record i { state = some state });
  get_alarm = reads (λ w. (instance_at key w).alarm_at);
  set_alarm = λ time. change key (λ i. record i { alarm_at = some time });
  delete_alarm = change key (λ i. record i { alarm_at = none });
  delete_all = change key (λ i. record i { state = none; alarm_at = none });
}

-- `makeInstanceAlarm`
unfoldable pub instance_alarm : String → AlarmService
instance_alarm key = record {
  set = λ time. change key (λ i. record i { scheduled_alarm = some time });
  cancel = change key (λ i. record i { scheduled_alarm = none });
}

-- `getOrCreateInstance`, with the instance that is there or not
unfoldable pub create_if_missing : String → Option Instance → Group (Unit {0})
create_if_missing key (some instance_there) = pure tt
create_if_missing key none = modify (λ w. record w {
  instances = update w.instances key (some new_instance);
  keys = append w.keys (key ∷ []);
})

unfoldable pub get_or_create : String → Group (Unit {0})
get_or_create key = do there ← reads (λ w. w.instances key); create_if_missing key there

unfoldable pub make_handler_context : DispatchFn → (name id : String) → Group HandlerContext
make_handler_context dispatch name id = do
  get_or_create (instance_key name id)
  system_failure ← reads (λ w. (instance_at (instance_key name id) w).system_failure)
  pure (record {
    storage = instance_storage (instance_key name id);
    alarm = instance_alarm (instance_key name id);
    dispatch = dispatch;
    id = id;
    name = name;
    system_failure = system_failure;
  })

module _ (registry : GroupRegistry) where
  unfoldable pub send_to :
      DispatchFn → (name id : String) → Unknown → Option TaskDefinition → Group (Unit {0})
  send_to dispatch name id event none = raise (GroupError.sibling_missing name)
  send_to dispatch name id event (some def) = do
    hctx ← make_handler_context dispatch name id
    map_error (GroupError.task_error TaskMessage.dispatch_error)
        (handle_event def registry.tags hctx event)

  unfoldable pub state_from :
      DispatchFn → (name id : String) → Option TaskDefinition → Group (Option Unknown)
  state_from dispatch name id none = raise (GroupError.sibling_missing name)
  state_from dispatch name id (some def) = do
    hctx ← make_handler_context dispatch name id
    map_error (GroupError.task_error TaskMessage.get_state_error)
        (handle_get_state def registry.tags hctx)

  -- `dispatchFn`
  unfoldable pub dispatch_fn : (fuel : ℕ) → DispatchFn
  dispatch_fn zero = record {
    send = λ name id event w. (endless, w);
    get_state = λ name id w. (endless, w);
  }
  dispatch_fn (suc fuel) =
      let inner = dispatch_fn fuel in
      record {
        send = λ name id event. send_to inner name id event (registry.tasks name);
        get_state = λ name id. state_from inner name id (registry.tasks name);
      }

  -- the task of a handle, or the failure of the handle
  unfoldable pub registered : String → Option TaskDefinition → Group TaskDefinition
  registered name none = raise (GroupError.execution_error (GroupError.missing name))
  registered name (some def) = pure def

  unfoldable pub clear_failure : String → Group (Unit {0})
  clear_failure key = change key (λ i. record i { system_failure = none })

  -- `task(name).send`
  unfoldable pub send : (fuel : ℕ) (name id : String) → Unknown → Group (Unit {0})
  send fuel name id event = do
    def ← registered name (registry.tasks name)
    hctx ← make_handler_context (dispatch_fn fuel) name id
    handle_event def registry.tags hctx event
    clear_failure (instance_key name id)

  unfoldable pub decoded_by : String → Option Schema → Option Unknown → Group (Option Unknown)
  decoded_by name tag none = pure none
  decoded_by name none (some raw) = raise (GroupError.execution_error (GroupError.tag_missing name))
  decoded_by name (some state) (some raw) = do
    value ← map_error GroupError.execution_error (checked (state.decode raw))
    pure (some value)

  -- `task(name).getState`
  unfoldable pub get_state : (fuel : ℕ) (name id : String) → Group (Option Unknown)
  get_state fuel name id = do
    def ← registered name (registry.tasks name)
    hctx ← make_handler_context (dispatch_fn fuel) name id
    raw ← handle_get_state def registry.tags hctx
    decoded_by name (registry.tags name) raw

  -- the alarm of an instance, which is taken before its handler runs
  unfoldable pub run_alarm : (fuel : ℕ) → TaskDefinition → (name id : String) → Group (Unit {0})
  run_alarm fuel def name id = do
    change (instance_key name id) (λ i. record i { scheduled_alarm = none })
    hctx ← make_handler_context (dispatch_fn fuel) name id
    handle_alarm def registry.tags hctx
    clear_failure (instance_key name id)

  -- `task(name).fireAlarm`
  unfoldable pub fire_alarm : (fuel : ℕ) (name id : String) → Group (Unit {0})
  fire_alarm fuel name id = do
    def ← registered name (registry.tasks name)
    get_or_create (instance_key name id)
    run_alarm fuel def name id

  abbrev pub is_due_at : ℕ → Option ℕ → Bool
  is_due_at time none = false
  is_due_at time (some scheduled) = leb scheduled time

  -- the keys of the instances whose alarm is due
  unfoldable pub due_keys : ℕ → GroupWorld → List String → List String
  due_keys time w [] = []
  due_keys time w (key ∷ keys) =
      let rest = due_keys time w keys in
      if is_due_at time (instance_at key w).scheduled_alarm then key ∷ rest else rest

  unfoldable pub fire_due : (fuel : ℕ) → String × String → Option TaskDefinition → Group (Unit {0})
  fire_due fuel (name, id) none = pure tt
  fire_due fuel (name, id) (some def) = run_alarm fuel def name id

  -- A failure of a handler ends the round.
  unfoldable pub fire_each : (fuel : ℕ) → List String → Group (Unit {0})
  fire_each fuel [] = pure tt
  fire_each fuel (key ∷ keys) = do
    fire_due fuel (parse_instance_key key) (registry.tasks (parse_instance_key key).0)
    fire_each fuel keys

  -- `tick`, with the number of alarms that were due
  unfoldable pub tick : (fuel time : ℕ) → Group ℕ
  tick fuel time = do
    due ← reads (λ w. due_keys time w w.keys)
    fire_each fuel due
    pure (length due)

  -- `injectSystemFailure`
  unfoldable pub inject_system_failure : (name id message : String) → Group (Unit {0})
  inject_system_failure name id message = do
    get_or_create (instance_key name id)
    change (instance_key name id) (λ i. record i { system_failure = some message })

-- the alarms that are set, as `getScheduledAlarms` lists them
pub record ScheduledAlarm : Type 0 where
  pub name : String
  pub id : String
  pub timestamp : ℕ

unfoldable pub listed : String → Option ℕ → List ScheduledAlarm → List ScheduledAlarm
listed key none rest = rest
listed key (some timestamp) rest =
    record {
      name = (parse_instance_key key).0;
      id = (parse_instance_key key).1;
      timestamp = timestamp;
    }
    ∷ rest

unfoldable pub get_scheduled_alarms : GroupWorld → List String → List ScheduledAlarm
get_scheduled_alarms w [] = []
get_scheduled_alarms w (key ∷ keys) =
    listed key (instance_at key w).scheduled_alarm (get_scheduled_alarms w keys)

-- `hasInstance`
abbrev pub has_instance : (name id : String) → GroupWorld → Bool
has_instance name id w = is_some (w.instances (instance_key name id))
