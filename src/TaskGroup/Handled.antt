-- ===== src/TaskGroup/Handled.antt =====
-- How a hook of a task ends, and how its error handler does.
use durable_effect.Prelude.{String, ◌≡◌, refl, Option, none, some}
use durable_effect.Jobs.Bodies.{Schema}
use durable_effect.TaskGroup.World.{
  GroupError, Body, TaskContext, TaskDefinition, GroupWorld, Answer, ok, err, endless, handle,
  raise, modify, catch_all, DispatchFn, HandlerContext, ◌>>=◌,
}
use durable_effect.TaskGroup.Registered.{
  run_body, cleanup, handler_failed, handle_failure, handle_error, with_context, context_of,
  run_hook,
}
use durable_effect.TaskGroup.Runtime.{instance_key, changed, instance_storage, instance_alarm}

-- the world in which an instance has nothing stored and no alarm
abbrev pub emptied : String → GroupWorld → GroupWorld
emptied key w =
    changed key (λ i. record i { scheduled_alarm = none })
      (changed key (λ i. record i { state = none; alarm_at = none }) w)

-- how an error handler's end is answered
abbrev pub after_handler : String → Answer (Unit {0}) × GroupWorld → Answer (Unit {0}) × GroupWorld
after_handler key (ok a, w) = (ok tt, w)
after_handler key (err GroupError.purge_signal, w) = (ok tt, emptied key w)
after_handler key (err e, w) = (err (GroupError.execution_error (GroupError.execution_error e)), w)
after_handler key (endless, w) = (endless, w)

-- how a hook's end is answered
abbrev pub after_hook :
    String
    → Option (GroupError → GroupWorld → Answer (Unit {0}) × GroupWorld)
    → Answer (Unit {0}) × GroupWorld
    → Answer (Unit {0}) × GroupWorld
after_hook key handler (ok a, w) = (ok tt, w)
after_hook key handler (err GroupError.purge_signal, w) = (ok tt, emptied key w)
after_hook key none (err e, w) = (err (GroupError.execution_error e), w)
after_hook key (some handler) (err e, w) = after_handler key (handler e w)
after_hook key handler (endless, w) = (endless, w)

-- the runs of an error handler
abbrev pub handler_runs :
    HandlerContext
    → Schema
    → (String → Option Schema)
    → Option (TaskContext → GroupError → Body)
    → Option (GroupError → GroupWorld → Answer (Unit {0}) × GroupWorld)
handler_runs hctx schema tags none = none
handler_runs hctx schema tags (some handler) =
    some (λ e. run_body hctx schema tags (handler (context_of hctx) e))

module _ (dispatch : DispatchFn) (name id : String) (failure : Option String) (def : TaskDefinition)
    (tags : String → Option Schema) where
  -- a context that the runtime makes
  abbrev pub hctx : HandlerContext
  hctx = record {
    storage = instance_storage (instance_key name id);
    alarm = instance_alarm (instance_key name id);
    dispatch = dispatch;
    id = id;
    name = name;
    system_failure = failure;
  }

  cleanup-emptied :
      (w : GroupWorld) → cleanup hctx def.state tags w ≡ (ok tt, emptied (instance_key name id) w)
  unfolding cleanup instance_storage instance_alarm modify catch_all ◌>>=◌
  cleanup-emptied w = refl

  -- how a failure of the error handler is answered
  handler_failed-after :
      (r : Answer (Unit {0})) (w : GroupWorld)
      → handle
          (handle r (handler_failed hctx def.state tags) w).0
          (λ e. raise (GroupError.execution_error e))
          (handle r (handler_failed hctx def.state tags) w).1
        ≡ after_handler (instance_key name id) (r, w)
  unfolding handler_failed
  handler_failed-after (ok tt) w = refl
  handler_failed-after endless w = refl
  handler_failed-after (err GroupError.purge_signal) w = rw (cleanup-emptied w) refl
  handler_failed-after (err (GroupError.storage_error op)) w = refl
  handler_failed-after (err _) w = refl

  -- A hook of a task, in a context that the in-memory runtime makes. Where its code ends well, so does
  -- the hook. Where it asks for a purge, or its error handler does, nothing is stored any more, no alarm
  -- is set, and the hook ends well. Another failure without an error handler is answered as the cause
  -- of an execution error; with one, the error handler runs on it: it may end well, and a failure of
  -- it is answered as the cause of the cause, wrapped twice.
  pub run_hook-after :
      (body : Body) (on_error : Option (TaskContext → GroupError → Body)) (w : GroupWorld)
      → run_hook def tags hctx body on_error w
        ≡ after_hook
            (instance_key name id)
            (handler_runs hctx def.state tags on_error)
            (run_body hctx def.state tags body w)
  unfolding run_hook handle_error handle_failure with_context catch_all
  run_hook-after body on_error w = ended (run_body hctx def.state tags body w) on_error
    where
      ended :
          (r : Answer (Unit {0}) × GroupWorld) (o : Option (TaskContext → GroupError → Body))
          → handle r.0 (handle_error hctx def.state tags (with_context hctx o)) r.1
            ≡ after_hook (instance_key name id) (handler_runs hctx def.state tags o) r
      ended (ok tt, v) o = refl
      ended (endless, v) o = refl
      ended (err GroupError.purge_signal, v) o = cleanup-emptied v
      ended (err e, v) none = refl
      ended (err e, v) (some handler) =
          handler_failed-after (run_body hctx def.state tags (handler (context_of hctx) e) v).0
            (run_body hctx def.state tags (handler (context_of hctx) e) v).1
