-- ===== src/TaskGroup/Coherent/Operations.antt =====
-- The operations of the runtime (InMemoryRuntime.ts) keep the stored alarm of every instance and the
-- one that is set alike.
use durable_effect.Prelude.{
  ℕ, zero, suc, String, ◌≡◌, refl, ap, Option, none, some, List, [], ◌∷◌, ◌++◌, update, str_eq,
  eq_refl, Bool-cases, inl, inr,
}
use durable_effect.State.{Unknown}
use durable_effect.Jobs.Bodies.{Schema}
use durable_effect.TaskGroup.World.{
  TaskDefinition, GroupRegistry, Instance, new_instance, GroupWorld, Group, ok, reads, modify,
  DispatchFn, HandlerContext, ◌>>=◌,
}
use durable_effect.TaskGroup.Runtime.{
  instance_key, parse_instance_key, changed, create_if_missing, get_or_create, make_handler_context,
  send_to, state_from, dispatch_fn, registered, clear_failure, send, decoded_by, get_state,
  run_alarm, fire_alarm, fire_due, fire_each, tick, inject_system_failure,
}
use durable_effect.TaskGroup.Coherent.{
  IsCoherent, IsBut-changed, IsCoherent-IsBut, instance_at-changed, Keeps, Keeps-pure, Keeps-raise,
  Keeps-reads, Keeps-map_error, continued, Keeps-bind, Keeps-change, Keeps-checked,
}
use durable_effect.TaskGroup.Coherent.Handlers.{
  IsKept, hctx, Keeps-handle_event, Keeps-handle_get_state, handle_alarm-IsCoherent,
}

-- the world in which an instance is there
abbrev created : String → Option Instance → GroupWorld → GroupWorld
created key (some i) w = w
created key none w = record w {
  instances = update w.instances key (some new_instance);
  keys = w.keys ++ key ∷ [];
}

create_if_missing-created :
    (key : String) (o : Option Instance) (w : GroupWorld)
    → create_if_missing key o w ≡ (ok tt, created key o w)
unfolding create_if_missing modify
create_if_missing-created key none w = refl
create_if_missing-created key (some i) w = refl

created-IsCoherent :
    (key : String) (o : Option Instance) (w : GroupWorld)
    → IsCoherent w
    → IsCoherent (created key o w)
created-IsCoherent key (some i) w h other = h other
created-IsCoherent key none w h other = elim (Bool-cases (str_eq key other)) [
  | inl e ↦ rw e refl
  | inr e ↦ rw e (h other)
]

Keeps-get_or_create : (key : String) → Keeps (get_or_create key)
unfolding get_or_create reads ◌>>=◌
Keeps-get_or_create key = record {
  at = λ w h. simp (create_if_missing-created) (created-IsCoherent key (w.instances key) w h);
}

-- what is done with a context that the runtime makes
Keeps-made :
    {A : Type 0} (dispatch : DispatchFn) (name id : String) (f : HandlerContext → Group A)
    (kept : IsKept dispatch)
    → ((failure : Option String) → Keeps (f (hctx dispatch kept name id failure)))
    → Keeps (make_handler_context dispatch name id >>= f)
unfolding make_handler_context get_or_create reads ◌>>=◌
Keeps-made dispatch name id f kept k = record {
  at = λ w h.
      let key = instance_key name id in
      simp (create_if_missing-created)
        ((k _).at (created key (w.instances key) w) (created-IsCoherent key (w.instances key) w h));
}

-- an alarm that is taken and run, whether or not the instance agreed before
module _ (registry : GroupRegistry) where
  send_to-kept :
      (dispatch : DispatchFn) (kept : IsKept dispatch) (name id : String) (event : Unknown)
      (o : Option TaskDefinition)
      → Keeps (send_to registry dispatch name id event o)
  unfolding send_to
  send_to-kept dispatch kept name id event none = Keeps-raise _
  send_to-kept dispatch kept name id event (some def) =
      Keeps-made dispatch name id _ kept (λ failure.
        Keeps-map_error _ _
          (Keeps-handle_event dispatch kept name id failure def registry.tags event))

  state_from-kept :
      (dispatch : DispatchFn) (kept : IsKept dispatch) (name id : String)
      (o : Option TaskDefinition)
      → Keeps (state_from registry dispatch name id o)
  unfolding state_from
  state_from-kept dispatch kept name id none = Keeps-raise _
  state_from-kept dispatch kept name id (some def) = Keeps-made dispatch name id _ kept (λ failure.
      Keeps-map_error _ _ (Keeps-handle_get_state dispatch kept name id failure def registry.tags))

  -- sends keep the group coherent, however deep they nest
  dispatch_fn-IsKept : (fuel : ℕ) → IsKept (dispatch_fn registry fuel)
  unfolding dispatch_fn
  dispatch_fn-IsKept zero = record {
    send = λ name id event. record { at = λ w h. h };
    state = λ name id. record { at = λ w h. h };
  }
  dispatch_fn-IsKept (suc fuel) = record {
    send = λ name id event.
        send_to-kept (dispatch_fn registry fuel) (dispatch_fn-IsKept fuel) name id event
          (registry.tasks name);
    state = λ name id.
        state_from-kept (dispatch_fn registry fuel) (dispatch_fn-IsKept fuel) name id
          (registry.tasks name);
  }

  Keeps-registered :
      (name : String) (o : Option TaskDefinition) → Keeps (registered registry name o)
  unfolding registered
  Keeps-registered name none = Keeps-raise _
  Keeps-registered name (some def) = Keeps-pure def

  Keeps-clear_failure : (key : String) → Keeps (clear_failure registry key)
  unfolding clear_failure
  Keeps-clear_failure key = Keeps-change key (λ i. record i { system_failure = none }) (λ i a. a)

  pub Keeps-send :
      (fuel : ℕ) (name id : String) (event : Unknown) → Keeps (send registry fuel name id event)
  unfolding send
  Keeps-send fuel name id event =
      let kept = dispatch_fn-IsKept fuel in
      Keeps-bind _ _ (Keeps-registered name _) (λ def.
        Keeps-made (dispatch_fn registry fuel) name id _ kept (λ failure.
          Keeps-bind _ _
            (Keeps-handle_event (dispatch_fn registry fuel) kept name id failure def registry.tags
              event)
            (λ u. Keeps-clear_failure _)))

  Keeps-decoded_by :
      (name : String) (tag : Option Schema) (o : Option Unknown)
      → Keeps (decoded_by registry name tag o)
  unfolding decoded_by
  Keeps-decoded_by name tag none = Keeps-pure none
  Keeps-decoded_by name none (some raw) = Keeps-raise _
  Keeps-decoded_by name (some state) (some raw) =
      Keeps-bind _ _ (Keeps-map_error _ _ (Keeps-checked _)) (λ v. Keeps-pure _)

  pub Keeps-get_state : (fuel : ℕ) (name id : String) → Keeps (get_state registry fuel name id)
  unfolding get_state
  Keeps-get_state fuel name id =
      let kept = dispatch_fn-IsKept fuel in
      Keeps-bind _ _ (Keeps-registered name _) (λ def.
        Keeps-made (dispatch_fn registry fuel) name id _ kept (λ failure.
          Keeps-bind _ _
            (Keeps-handle_get_state (dispatch_fn registry fuel) kept name id failure def
              registry.tags)
            (λ raw. Keeps-decoded_by name _ raw)))

  Keeps-run_alarm :
      (fuel : ℕ) (def : TaskDefinition) (name id : String)
      → Keeps (run_alarm registry fuel def name id)
  unfolding run_alarm make_handler_context get_or_create reads modify ◌>>=◌
  Keeps-run_alarm fuel def name id = record {
    at = λ w h.
        let key = instance_key name id in
        let taken : Instance → Instance = λ i. record i { scheduled_alarm = none } in
        let v = changed key taken w in
        let kept = dispatch_fn-IsKept fuel in
        simp (eq_refl, create_if_missing-created)
          (continued _ _ _ (λ u. Keeps-clear_failure key)
            (handle_alarm-IsCoherent (dispatch_fn registry fuel) kept name id _ def registry.tags v
              (IsBut-changed key taken w (IsCoherent-IsBut key w h))
              (ap (λ (i : Instance). i.scheduled_alarm) (instance_at-changed key taken w))));
  }

  pub Keeps-fire_alarm : (fuel : ℕ) (name id : String) → Keeps (fire_alarm registry fuel name id)
  unfolding fire_alarm
  Keeps-fire_alarm fuel name id =
      Keeps-bind _ _ (Keeps-registered name _)
        (λ def. Keeps-bind _ _ (Keeps-get_or_create _) (λ u. Keeps-run_alarm fuel def name id))

  Keeps-fire_due :
      (fuel : ℕ) (parsed : String × String) (o : Option TaskDefinition)
      → Keeps (fire_due registry fuel parsed o)
  unfolding fire_due
  Keeps-fire_due fuel (name, id) none = Keeps-pure tt
  Keeps-fire_due fuel (name, id) (some def) = Keeps-run_alarm fuel def name id

  Keeps-fire_each : (fuel : ℕ) (keys : List String) → Keeps (fire_each registry fuel keys)
  unfolding fire_each
  Keeps-fire_each fuel [] = Keeps-pure tt
  Keeps-fire_each fuel (key ∷ keys) =
      Keeps-bind _ _ (Keeps-fire_due fuel (parse_instance_key key) _)
        (λ u. Keeps-fire_each fuel keys)

  pub Keeps-tick : (fuel time : ℕ) → Keeps (tick registry fuel time)
  unfolding tick
  Keeps-tick fuel time =
      Keeps-bind _ _ (Keeps-reads _)
        (λ due. Keeps-bind _ _ (Keeps-fire_each fuel due) (λ u. Keeps-pure _))

  pub Keeps-inject_system_failure :
      (name id message : String) → Keeps (inject_system_failure registry name id message)
  unfolding inject_system_failure
  Keeps-inject_system_failure name id message = Keeps-bind _ _ (Keeps-get_or_create _) (λ u.
      Keeps-change (instance_key name id) (λ i. record i { system_failure = some message })
        (λ i a. a))
