-- ===== src/TaskGroup/Coherent.antt =====
-- What an instance has stored of its alarm, and the alarm that is set: the rules for the effects that
-- leave the two alike.
pub mod Handlers
pub mod Operations
pub mod Sequences
use durable_effect.Prelude.{
  ℕ, zero, suc, ◌+◌, String, ◌≡◌, refl, sym, Bool, true, false, Option, none, some, List, [], ◌∷◌,
  ◌++◌, or_else, update, str_eq, eq_refl, Bool-cases, inl, inr, if◌then◌else◌,
}
use durable_effect.State.{Unknown}
use durable_effect.Jobs.Bodies.{Schema, Checked, valid, invalid}
use durable_effect.TaskGroup.World.{
  GroupError, Tried, Body, TaskContext, TaskDefinition, GroupRegistry, Instance, new_instance,
  GroupWorld, Group, Answer, ok, err, endless, continue, handle, pure, raise, reads, modify,
  catch_all, map_error, attempt, DispatchFn, HandlerContext, ◌>>=◌, ◌>>◌,
}
use durable_effect.TaskGroup.Registered
use durable_effect.TaskGroup.Registered.{
  of_cause, checked, decoded, recall, save, update_current, schedule_at, schedule_in,
  cancel_schedule, next_alarm, sibling_decoded, sibling_found, sibling_state, run_body, cleanup,
  handler_failed, handle_failure, handle_error, with_context, context_of, run_hook, handle_event,
  handle_alarm, encoded, handle_get_state,
}
use durable_effect.TaskGroup.Runtime.{
  instance_key, parse_instance_key, instance_at, changed, change, instance_storage, instance_alarm,
  create_if_missing, get_or_create, make_handler_context, send_to, state_from, dispatch_fn,
  registered, clear_failure, send, decoded_by, get_state, run_alarm, fire_alarm, fire_due,
  fire_each, tick, inject_system_failure,
}

-- the alarm that is stored is the one that is set
abbrev pub Agrees : Option Instance → Type 0
Agrees none = Unit {0}
Agrees (some i) = i.alarm_at ≡ i.scheduled_alarm

abbrev pub IsCoherent : GroupWorld → Type 0
IsCoherent w = (key : String) → Agrees (w.instances key)

-- one instance is changed so that it agrees, whatever it was before
abbrev pub IsBut : String → GroupWorld → Type 0
IsBut key w = (other : String) → str_eq key other ≡ false → Agrees (w.instances other)

pub IsBut-changed :
    (key : String) (f : Instance → Instance) (w : GroupWorld)
    → IsBut key w
    → IsBut key (changed key f w)
IsBut-changed key f w h other e = rw e (h other e)

pub IsCoherent-IsBut : (key : String) (w : GroupWorld) → IsCoherent w → IsBut key w
IsCoherent-IsBut key w h other e = h other

pub changed-IsCoherent :
    (key : String) (f : Instance → Instance) (w : GroupWorld)
    → IsBut key w
    → (f (instance_at key w)).alarm_at ≡ (f (instance_at key w)).scheduled_alarm
    → IsCoherent (changed key f w)
changed-IsCoherent key f w h a other = elim (Bool-cases (str_eq key other)) [
  | inl e ↦ rw e a
  | inr e ↦ rw e (h other e)
]

pub instance_at-changed :
    (key : String) (f : Instance → Instance) (w : GroupWorld)
    → instance_at key (changed key f w) ≡ f (instance_at key w)
instance_at-changed key f w = simp (eq_refl)

-- the instance agrees where the world does
Agrees-instance_at :
    (key : String) (w : GroupWorld)
    → IsCoherent w
    → (instance_at key w).alarm_at ≡ (instance_at key w).scheduled_alarm
Agrees-instance_at key w h = there (w.instances key) (h key)
  where
    there :
        (o : Option Instance)
        → Agrees o
        → (or_else o new_instance).alarm_at ≡ (or_else o new_instance).scheduled_alarm
    there none a = refl
    there (some i) a = a

pub record Keeps {A : Type 0} (m : Group A) : Type 0 where
  pub at : (w : GroupWorld) → IsCoherent w → IsCoherent (m w).1

module _ {A : Type 0} where
  pub Keeps-pure : (a : A) → Keeps (pure a)
  Keeps-pure a = record { at = λ w h. h }

  pub Keeps-raise : (e : GroupError) → Keeps (raise {A = A} e)
  Keeps-raise e = record { at = λ w h. h }

  pub Keeps-reads : (f : GroupWorld → A) → Keeps (reads f)
  unfolding reads
  Keeps-reads f = record { at = λ w h. h }

  handled :
      (r : Answer A) (handler : GroupError → Group A) (w : GroupWorld)
      → ((e : GroupError) → Keeps (handler e))
      → IsCoherent w
      → IsCoherent (handle r handler w).1
  handled (ok a) handler w k h = h
  handled (err e) handler w k h = (k e).at w h
  handled endless handler w k h = h

  pub Keeps-catch_all :
      (m : Group A) (handler : GroupError → Group A)
      → Keeps m
      → ((e : GroupError) → Keeps (handler e))
      → Keeps (catch_all m handler)
  unfolding catch_all
  Keeps-catch_all m handler a k = record {
    at = λ w h. handled (m w).0 handler (m w).1 k (a.at w h);
  }

  pub Keeps-map_error :
      (f : GroupError → GroupError) (m : Group A) → Keeps m → Keeps (map_error f m)
  Keeps-map_error f m a = Keeps-catch_all m _ a (λ e. Keeps-raise (f e))

module _ {A B : Type 0} where
  pub continued :
      (r : Answer A) (f : A → Group B) (w : GroupWorld)
      → ((a : A) → Keeps (f a))
      → IsCoherent w
      → IsCoherent (continue r f w).1
  continued (ok a) f w k h = (k a).at w h
  continued (err e) f w k h = h
  continued endless f w k h = h

  pub Keeps-bind :
      (m : Group A) (f : A → Group B) → Keeps m → ((a : A) → Keeps (f a)) → Keeps (m >>= f)
  unfolding ◌>>=◌
  Keeps-bind m f a k = record { at = λ w h. continued (m w).0 f (m w).1 k (a.at w h) }

pub Keeps-attempt : {A : Type 0} (m : Group A) → Keeps m → Keeps (attempt m)
Keeps-attempt m k = Keeps-catch_all _ _ (Keeps-bind m _ k (λ a. Keeps-pure _)) (λ e. Keeps-pure _)

-- a change that touches neither of the two
pub Keeps-change :
    (key : String) (f : Instance → Instance)
    → ((i : Instance) → i.alarm_at ≡ i.scheduled_alarm → (f i).alarm_at ≡ (f i).scheduled_alarm)
    → Keeps (change key f)
unfolding modify
Keeps-change key f k = record {
  at = λ w h.
      changed-IsCoherent key f w (IsCoherent-IsBut key w h)
        (k (instance_at key w) (Agrees-instance_at key w h));
}

pub Keeps-checked : (c : Checked) → Keeps (checked c)
unfolding checked
Keeps-checked (valid v) = Keeps-pure v
Keeps-checked (invalid issues) = Keeps-raise _

pub Keeps-decoded : (schema : Schema) (o : Option Unknown) → Keeps (decoded schema o)
unfolding decoded
Keeps-decoded schema none = Keeps-pure none
Keeps-decoded schema (some raw) =
    Keeps-bind _ _ (Keeps-map_error _ _ (Keeps-checked _)) (λ v. Keeps-pure _)
