-- ===== src/TaskGroup/Registered.antt =====
-- packages/task-group/src/RegisteredTask.ts: the context of a task and its three handlers.
use durable_effect.Prelude.{ℕ, ◌+◌, String, Option, none, some}
use durable_effect.State.{Unknown}
use durable_effect.Jobs.Bodies.{Schema, Checked, valid, invalid}
use durable_effect.TaskGroup.World.{
  TaskMessage, GroupError, Body, TaskContext, TaskDefinition, Group, pure, raise, reads, modify,
  catch_all, map_error, attempt, HandlerContext, ◌>>=◌, ◌>>◌,
}

-- `mapStorageError`, `mapAlarmError` and `mapSchemaError`
abbrev pub of_cause : GroupError → GroupError
of_cause e = GroupError.task_error TaskMessage.of_cause e

unfoldable pub checked : Checked → Group Unknown
checked (valid value) = pure value
checked (invalid issues) = raise (GroupError.schema_error issues)

unfoldable pub decoded : Schema → Option Unknown → Group (Option Unknown)
decoded schema none = pure none
decoded schema (some raw) = do
  value ← map_error of_cause (checked (schema.decode raw))
  pure (some value)

module _ (hctx : HandlerContext) (schema : Schema) (tags : String → Option Schema) where
  unfoldable pub recall : Group (Option Unknown)
  recall = do raw ← map_error of_cause hctx.storage.get_state; decoded schema raw

  unfoldable pub save : Unknown → Group (Unit {0})
  save state = do
    encoded ← map_error of_cause (checked (schema.encode state))
    map_error of_cause (hctx.storage.set_state encoded)

  unfoldable pub update_current : (Unknown → Unknown) → Option Unknown → Group (Unit {0})
  update_current fn none = pure tt
  update_current fn (some current) = save (fn current)

  unfoldable pub update : (Unknown → Unknown) → Group (Unit {0})
  update fn = do current ← recall; update_current fn current

  unfoldable pub schedule_at : ℕ → Group (Unit {0})
  schedule_at time = do
    map_error of_cause (hctx.alarm.set time)
    map_error of_cause (hctx.storage.set_alarm time)

  unfoldable pub schedule_in : ℕ → Group (Unit {0})
  schedule_in ms = do time ← reads (λ w. w.current_time); schedule_at (time + ms)

  unfoldable pub cancel_schedule : Group (Unit {0})
  cancel_schedule = do
    map_error of_cause hctx.alarm.cancel
    map_error of_cause hctx.storage.delete_alarm

  unfoldable pub next_alarm : Group (Option ℕ)
  next_alarm = map_error of_cause hctx.storage.get_alarm

  -- the state of a sibling, by the schema of its tag
  unfoldable pub sibling_decoded : String → Option Schema → Unknown → Group (Option Unknown)
  sibling_decoded target none raw = raise (GroupError.unknown_sibling target)
  sibling_decoded target (some sibling) raw = decoded sibling (some raw)

  unfoldable pub sibling_found : String → Option Unknown → Group (Option Unknown)
  sibling_found target none = pure none
  sibling_found target (some raw) = sibling_decoded target (tags target) raw

  unfoldable pub sibling_state : String → String → Group (Option Unknown)
  sibling_state target target_id = do
    raw ← hctx.dispatch.get_state target target_id
    sibling_found target raw

  -- the user's code over its context; `purge` is a failure with the signal
  unfoldable pub run_body : Body → Group (Unit {0})
  run_body Body.finish = pure tt
  run_body (Body.fail e) = raise e
  run_body (Body.wait ms k) = do
    modify (λ w. record w { current_time = w.current_time + ms })
    run_body k
  run_body (Body.recall k) = do r ← attempt recall; run_body (k r)
  run_body (Body.save s k) = do r ← attempt (save s); run_body (k r)
  run_body (Body.update fn k) = do r ← attempt (update fn); run_body (k r)
  run_body (Body.schedule_in ms k) = do r ← attempt (schedule_in ms); run_body (k r)
  run_body (Body.schedule_at time k) = do r ← attempt (schedule_at time); run_body (k r)
  run_body (Body.cancel_schedule k) = do r ← attempt cancel_schedule; run_body (k r)
  run_body (Body.next_alarm k) = do r ← attempt next_alarm; run_body (k r)
  run_body (Body.send target target_id event k) = do
    r ← attempt (hctx.dispatch.send target target_id event)
    run_body (k r)
  run_body (Body.get_state target target_id k) = do
    r ← attempt (sibling_state target target_id)
    run_body (k r)

  unfoldable pub cleanup : Group (Unit {0})
  cleanup = map_error GroupError.execution_error (do hctx.storage.delete_all; hctx.alarm.cancel)

  -- a failure of the error handler
  unfoldable pub handler_failed : GroupError → Group (Unit {0})
  handler_failed GroupError.purge_signal = cleanup
  handler_failed e = raise (GroupError.execution_error e)

  -- a failure that is no signal to purge
  unfoldable pub handle_failure : Option (GroupError → Body) → GroupError → Group (Unit {0})
  handle_failure none error = raise (GroupError.execution_error error)
  handle_failure (some handler) error =
      map_error GroupError.execution_error (catch_all (run_body (handler error)) handler_failed)

  unfoldable pub handle_error : Option (GroupError → Body) → GroupError → Group (Unit {0})
  handle_error handler GroupError.purge_signal = cleanup
  handle_error handler error = handle_failure handler error

unfoldable pub context_of : HandlerContext → TaskContext
context_of hctx = record { id = hctx.id; name = hctx.name; system_failure = hctx.system_failure }

-- the handler for the failures of a hook, with the context of the hook
unfoldable pub with_context :
    HandlerContext → Option (TaskContext → GroupError → Body) → Option (GroupError → Body)
with_context hctx none = none
with_context hctx (some handler) = some (handler (context_of hctx))

module _ (def : TaskDefinition) (tags : String → Option Schema) (hctx : HandlerContext) where
  -- a hook, whose failures go to its error handler
  unfoldable pub run_hook : Body → Option (TaskContext → GroupError → Body) → Group (Unit {0})
  run_hook body on_error =
      catch_all (run_body hctx def.state tags body)
        (handle_error hctx def.state tags (with_context hctx on_error))

  unfoldable pub handle_event : Unknown → Group (Unit {0})
  handle_event raw_event = do
    event ← map_error GroupError.validation_error (checked (def.event.decode raw_event))
    run_hook (def.on_event (context_of hctx) event) def.on_event_error

  unfoldable pub handle_alarm : Group (Unit {0})
  handle_alarm = do
    map_error GroupError.execution_error hctx.storage.delete_alarm
    run_hook (def.on_alarm (context_of hctx)) def.on_alarm_error

  unfoldable pub encoded : Option Unknown → Group (Option Unknown)
  encoded none = pure none
  encoded (some state) = do
    raw ← map_error GroupError.execution_error (checked (def.state.encode state))
    pure (some raw)

  unfoldable pub handle_get_state : Group (Option Unknown)
  handle_get_state = do
    state ← map_error GroupError.execution_error (recall hctx def.state tags)
    encoded state
