-- ===== src/World/Storage.antt =====
-- packages/workflow/src/adapters/in-memory/{storage,scheduler,runtime}.ts: the operations of the
-- three adapters, with the failures that `createInMemoryStorageWithErrors` injects.
use durable_effect.Prelude.{
  ℕ, ◌+◌, String, Bool, false, ◌||◌, Option, none, some, ◌∷◌, [], ◌++◌, leb, is_some, non_empty,
  if◌then◌else◌,
}
use durable_effect.Errors.{Error, Key, StorageOp}
use durable_effect.Program.{ok, err}
use durable_effect.World.{Store, empty_store, ErrorConfig, EventBody, Event, Action}

-- `shouldFail` for one key
abbrev pub should_fail : Option ErrorConfig → StorageOp → Key → Bool
should_fail none op key = false
should_fail (some config) op key = config.fail_all || config.fail_on op key

-- the operations on no single key fail with `failAll` alone
abbrev pub fails_all : Option ErrorConfig → Bool
fails_all none = false
fails_all (some config) = config.fail_all

-- `storage.get`; the projection reads the key's value
unfoldable pub get : {A : Type 0} → Key → (Store → A) → Action A
get key value env w =
    if should_fail env.error_config StorageOp.get key
    then (err (Error.storage_error StorageOp.get (some key)), w)
    else (ok (value w.store), w)

-- `storage.put`; the function writes the key's value
unfoldable pub put : Key → (Store → Store) → Action (Unit {0})
put key write env w =
    if should_fail env.error_config StorageOp.put key
    then (err (Error.storage_error StorageOp.put (some key)), w)
    else (ok tt, record w { store = write w.store })

-- `storage.putBatch`
unfoldable pub put_batch : (Store → Store) → Action (Unit {0})
put_batch write env w =
    if fails_all env.error_config
    then (err (Error.storage_error StorageOp.put none), w)
    else (ok tt, record w { store = write w.store })

-- `storage.delete`, with whether the key was there
unfoldable pub delete : {A : Type 0} → Key → (Store → Option A) → (Store → Store) → Action Bool
delete key value erase env w =
    if should_fail env.error_config StorageOp.delete key
    then (err (Error.storage_error StorageOp.delete (some key)), w)
    else (ok (is_some (value w.store)), record w { store = erase w.store })

-- `storage.deleteAll`
unfoldable pub delete_all : Action (Unit {0})
delete_all env w =
    if fails_all env.error_config
    then (err (Error.storage_error StorageOp.delete_all none), w)
    else (ok tt, record w { store = empty_store })

-- `storage.list("workflow:")`: every key of the workflow at once
unfoldable pub list : Action Store
list env w =
    if fails_all env.error_config
    then (err (Error.storage_error StorageOp.list none), w)
    else (ok w.store, w)

-- `scheduler.schedule`
unfoldable pub schedule : ℕ → Action (Unit {0})
schedule time env w = (ok tt, record w { scheduled_time = some time })

-- `scheduler.cancel`
unfoldable pub unschedule : Action (Unit {0})
unschedule env w = (ok tt, record w { scheduled_time = none })

-- `scheduler.getScheduled`
unfoldable pub get_scheduled : Action (Option ℕ)
get_scheduled env w = (ok w.scheduled_time, w)

-- `runtime.now`
unfoldable pub now : Action ℕ
now env w = (ok w.current_time, w)

-- `handle.advanceTime`
unfoldable pub advance_time : ℕ → Action (Unit {0})
advance_time ms env w = (ok tt, record w { current_time = w.current_time + ms })

-- `shouldAlarmFire`
unfoldable pub should_alarm_fire : Option ℕ → ℕ → Bool
should_alarm_fire none current_time = false
should_alarm_fire (some time) current_time = leb time current_time

-- `emitEvent` with the in-memory tracker, over `createWorkflowBaseEvent`
unfoldable pub emit_event :
    (workflow_name : String) (execution_id : Option String) → EventBody → Action (Unit {0})
emit_event workflow_name execution_id body env w =
    let event : Event = record {
      workflow_id = env.instance_id;
      workflow_name = workflow_name;
      execution_id = non_empty execution_id;
      body = body;
    } in
    (ok tt, record w { events = w.events ++ event ∷ [] })
