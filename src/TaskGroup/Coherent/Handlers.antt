-- ===== src/TaskGroup/Coherent/Handlers.antt =====
-- The handlers of a task (RegisteredTask.ts) keep the stored alarm and the one that is set alike.
use durable_effect.Prelude.{ℕ, ◌+◌, String, ◌≡◌, refl, sym, Option, none, some}
use durable_effect.State.{Unknown}
use durable_effect.Jobs.Bodies.{Schema}
use durable_effect.TaskGroup.World.{
  GroupError, Body, TaskContext, TaskDefinition, Instance, GroupWorld, modify, catch_all,
  DispatchFn, HandlerContext, ◌>>=◌,
}
use durable_effect.TaskGroup.Registered
use durable_effect.TaskGroup.Registered.{
  of_cause, checked, decoded, recall, save, update_current, schedule_at, schedule_in,
  cancel_schedule, next_alarm, sibling_decoded, sibling_found, sibling_state, run_body, cleanup,
  handler_failed, handle_failure, handle_error, with_context, context_of, run_hook, handle_event,
  handle_alarm, encoded, handle_get_state,
}
use durable_effect.TaskGroup.Runtime.{
  instance_key, instance_at, changed, instance_storage, instance_alarm,
}
use durable_effect.TaskGroup.Coherent.{
  IsCoherent, IsBut, IsBut-changed, IsCoherent-IsBut, changed-IsCoherent, instance_at-changed,
  Keeps, Keeps-pure, Keeps-raise, Keeps-reads, Keeps-catch_all, Keeps-map_error, Keeps-bind,
  Keeps-attempt, Keeps-change, Keeps-checked, Keeps-decoded,
}

-- Sends that leave a coherent group coherent.
pub record IsKept (dispatch : DispatchFn) : Type 0 where
  pub send : (name id : String) (event : Unknown) → Keeps (dispatch.send name id event)
  pub state : (name id : String) → Keeps (dispatch.get_state name id)

module _ (dispatch : DispatchFn) (kept : IsKept dispatch) (name id : String)
    (failure : Option String) where
  -- a context that the runtime makes
  abbrev pub hctx : HandlerContext
  hctx = record {
    storage = instance_storage (instance_key name id);
    alarm = instance_alarm (instance_key name id);
    dispatch = dispatch;
    id = id;
    name = name;
    system_failure = failure;
  }

  module _ (schema : Schema) (tags : String → Option Schema) where
    Keeps-recall : Keeps (recall hctx schema tags)
    unfolding recall instance_storage
    Keeps-recall =
        Keeps-bind _ _ (Keeps-map_error _ _ (Keeps-reads _)) (λ o. Keeps-decoded schema o)

    Keeps-save : (s : Unknown) → Keeps (save hctx schema tags s)
    unfolding save instance_storage
    Keeps-save s = Keeps-bind _ _ (Keeps-map_error _ _ (Keeps-checked _)) (λ raw.
        Keeps-map_error _ _
          (Keeps-change (instance_key name id) (λ i. record i { state = some raw }) (λ i a. a)))

    Keeps-update : (fn : Unknown → Unknown) → Keeps (Registered.update hctx schema tags fn)
    unfolding Registered.update update_current
    Keeps-update fn = Keeps-bind _ _ Keeps-recall current
      where
        current : (o : Option Unknown) → Keeps (update_current hctx schema tags fn o)
        current none = Keeps-pure tt
        current (some s) = Keeps-save (fn s)

    Keeps-schedule_at : (time : ℕ) → Keeps (schedule_at hctx schema tags time)
    unfolding schedule_at instance_storage instance_alarm catch_all modify ◌>>=◌
    Keeps-schedule_at time = record {
      at = λ w h.
          let key = instance_key name id in
          let first : Instance → Instance = λ i. record i { scheduled_alarm = some time } in
          changed-IsCoherent key (λ i. record i { alarm_at = some time }) (changed key first w)
            (IsBut-changed key first w (IsCoherent-IsBut key w h))
            (rw (instance_at-changed key first w) refl);
    }

    Keeps-cancel_schedule : Keeps (cancel_schedule hctx schema tags)
    unfolding cancel_schedule instance_storage instance_alarm catch_all modify ◌>>=◌
    Keeps-cancel_schedule = record {
      at = λ w h.
          let key = instance_key name id in
          let first : Instance → Instance = λ i. record i { scheduled_alarm = none } in
          changed-IsCoherent key (λ i. record i { alarm_at = none }) (changed key first w)
            (IsBut-changed key first w (IsCoherent-IsBut key w h))
            (rw (instance_at-changed key first w) refl);
    }

    Keeps-cleanup : Keeps (cleanup hctx schema tags)
    unfolding cleanup instance_storage instance_alarm catch_all modify ◌>>=◌
    Keeps-cleanup = record {
      at = λ w h.
          let key = instance_key name id in
          let first : Instance → Instance = λ i. record i { state = none; alarm_at = none } in
          changed-IsCoherent key (λ i. record i { scheduled_alarm = none }) (changed key first w)
            (IsBut-changed key first w (IsCoherent-IsBut key w h))
            (rw (instance_at-changed key first w) refl);
    }

    Keeps-schedule_in : (ms : ℕ) → Keeps (schedule_in hctx schema tags ms)
    unfolding schedule_in
    Keeps-schedule_in ms = Keeps-bind _ _ (Keeps-reads _) (λ time. Keeps-schedule_at (time + ms))

    Keeps-next_alarm : Keeps (next_alarm hctx schema tags)
    unfolding next_alarm instance_storage
    Keeps-next_alarm = Keeps-map_error _ _ (Keeps-reads _)

    Keeps-sibling_decoded :
        (target : String) (o : Option Schema) (raw : Unknown)
        → Keeps (sibling_decoded hctx schema tags target o raw)
    unfolding sibling_decoded
    Keeps-sibling_decoded target none raw = Keeps-raise _
    Keeps-sibling_decoded target (some sibling) raw = Keeps-decoded sibling (some raw)

    Keeps-sibling_found :
        (target : String) (o : Option Unknown) → Keeps (sibling_found hctx schema tags target o)
    unfolding sibling_found
    Keeps-sibling_found target none = Keeps-pure none
    Keeps-sibling_found target (some raw) = Keeps-sibling_decoded target (tags target) raw

    Keeps-sibling_state :
        (target target_id : String) → Keeps (sibling_state hctx schema tags target target_id)
    unfolding sibling_state
    Keeps-sibling_state target target_id =
        Keeps-bind _ _ (kept.state target target_id) (λ raw. Keeps-sibling_found target raw)

    Keeps-run_body : (b : Body) → Keeps (run_body hctx schema tags b)
    unfolding run_body modify
    Keeps-run_body Body.finish = Keeps-pure tt
    Keeps-run_body (Body.fail e) = Keeps-raise e
    Keeps-run_body (Body.wait ms k) =
        Keeps-bind _ _ (record { at = λ w h. waited ms w h }) (λ u. Keeps-run_body k)
      where
        waited :
            (ms : ℕ) (w : GroupWorld)
            → IsCoherent w
            → IsCoherent (record w { current_time = w.current_time + ms })
        waited ms w h = h
    Keeps-run_body (Body.recall k) =
        Keeps-bind _ _ (Keeps-attempt _ Keeps-recall) (λ r. Keeps-run_body (k r))
    Keeps-run_body (Body.save s k) =
        Keeps-bind _ _ (Keeps-attempt _ (Keeps-save s)) (λ r. Keeps-run_body (k r))
    Keeps-run_body (Body.update fn k) =
        Keeps-bind _ _ (Keeps-attempt _ (Keeps-update fn)) (λ r. Keeps-run_body (k r))
    Keeps-run_body (Body.schedule_in ms k) =
        Keeps-bind _ _ (Keeps-attempt _ (Keeps-schedule_in ms)) (λ r. Keeps-run_body (k r))
    Keeps-run_body (Body.schedule_at time k) =
        Keeps-bind _ _ (Keeps-attempt _ (Keeps-schedule_at time)) (λ r. Keeps-run_body (k r))
    Keeps-run_body (Body.cancel_schedule k) =
        Keeps-bind _ _ (Keeps-attempt _ Keeps-cancel_schedule) (λ r. Keeps-run_body (k r))
    Keeps-run_body (Body.next_alarm k) =
        Keeps-bind _ _ (Keeps-attempt _ Keeps-next_alarm) (λ r. Keeps-run_body (k r))
    Keeps-run_body (Body.send target target_id event k) =
        Keeps-bind _ _ (Keeps-attempt _ (kept.send target target_id event))
          (λ r. Keeps-run_body (k r))
    Keeps-run_body (Body.get_state target target_id k) =
        Keeps-bind _ _ (Keeps-attempt _ (Keeps-sibling_state target target_id))
          (λ r. Keeps-run_body (k r))

    Keeps-handler_failed : (e : GroupError) → Keeps (handler_failed hctx schema tags e)
    unfolding handler_failed
    Keeps-handler_failed GroupError.purge_signal = Keeps-cleanup
    Keeps-handler_failed _ = Keeps-raise _

    Keeps-handle_failure :
        (o : Option (GroupError → Body)) (e : GroupError)
        → Keeps (handle_failure hctx schema tags o e)
    unfolding handle_failure
    Keeps-handle_failure none e = Keeps-raise _
    Keeps-handle_failure (some handler) e =
        Keeps-map_error _ _ (Keeps-catch_all _ _ (Keeps-run_body (handler e)) Keeps-handler_failed)

    Keeps-handle_error :
        (o : Option (GroupError → Body)) (e : GroupError)
        → Keeps (handle_error hctx schema tags o e)
    unfolding handle_error
    Keeps-handle_error o GroupError.purge_signal = Keeps-cleanup
    Keeps-handle_error o _ = Keeps-handle_failure o _

  module _ (def : TaskDefinition) (tags : String → Option Schema) where
    Keeps-run_hook :
        (body : Body) (o : Option (TaskContext → GroupError → Body))
        → Keeps (run_hook def tags hctx body o)
    unfolding run_hook
    Keeps-run_hook body o =
        Keeps-catch_all _ _ (Keeps-run_body def.state tags body)
          (Keeps-handle_error def.state tags (with_context hctx o))

    pub Keeps-handle_event : (event : Unknown) → Keeps (handle_event def tags hctx event)
    unfolding handle_event
    Keeps-handle_event event =
        Keeps-bind _ _ (Keeps-map_error _ _ (Keeps-checked _)) (λ e. Keeps-run_hook _ _)

    Keeps-encoded : (o : Option Unknown) → Keeps (encoded def tags hctx o)
    unfolding encoded
    Keeps-encoded none = Keeps-pure none
    Keeps-encoded (some s) =
        Keeps-bind _ _ (Keeps-map_error _ _ (Keeps-checked _)) (λ raw. Keeps-pure _)

    pub Keeps-handle_get_state : Keeps (handle_get_state def tags hctx)
    unfolding handle_get_state
    Keeps-handle_get_state =
        Keeps-bind _ _ (Keeps-map_error _ _ (Keeps-recall def.state tags)) Keeps-encoded

    -- an alarm that has been taken, of an instance that agrees only when its record is deleted
    pub handle_alarm-IsCoherent :
        (w : GroupWorld)
        → IsBut (instance_key name id) w
        → (instance_at (instance_key name id) w).scheduled_alarm ≡ none
        → IsCoherent (handle_alarm def tags hctx w).1
    unfolding handle_alarm instance_storage catch_all modify ◌>>=◌
    handle_alarm-IsCoherent w h e =
        (Keeps-run_hook (def.on_alarm (context_of hctx)) def.on_alarm_error).at
          (changed (instance_key name id) (λ i. record i { alarm_at = none }) w)
          (changed-IsCoherent (instance_key name id) (λ i. record i { alarm_at = none }) w h
            (sym e))
