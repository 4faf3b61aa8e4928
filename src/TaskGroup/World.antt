-- ===== src/TaskGroup/World.antt =====
-- packages/task-group/src/errors.ts, TaskCtx.ts, services/{Storage,Alarm}.ts and the instances of
-- InMemoryRuntime.ts: the failures, what a user writes, the services, and the effects over the
-- instances.
use durable_effect.Prelude.{ℕ, String, Option, none, List}
use durable_effect.State.{Unknown}
use durable_effect.Errors.{StorageOp}
use durable_effect.Jobs.Bodies.{Schema}

-- the text of a `TaskError` with a cause: that of its cause, or one of its own
pub data TaskMessage : Type 0 where
  of_cause dispatch_error get_state_error : TaskMessage

-- `sibling_missing` and `unknown_sibling` are a `TaskError` without a cause, `missing` and `tag_missing` are texts that stand as a cause, `user` a failure of the user's code.
pub data GroupError : Type 0 where
  storage_error : StorageOp → GroupError
  alarm_error : GroupError
  schema_error : (issues : Unknown) → GroupError
  task_error : TaskMessage → (cause : GroupError) → GroupError
  sibling_missing unknown_sibling : (name : String) → GroupError
  purge_signal : GroupError
  validation_error : (cause : GroupError) → GroupError
  execution_error : (cause : GroupError) → GroupError
  missing tag_missing : (name : String) → GroupError
  user : (value : Unknown) → GroupError

-- How a call of the context ended, which the user's code may look at.
pub data Tried (A : Type 0) : Type 0 where
  done : A → Tried A
  failed : GroupError → Tried A

-- The user's code: the tree of the calls that it makes of its context.
pub data Body : Type 0 where
  finish : Body
  fail : GroupError → Body
  wait : (ms : ℕ) → Body → Body
  recall : (Tried (Option Unknown) → Body) → Body
  save : Unknown → (Tried (Unit {0}) → Body) → Body
  update : (Unknown → Unknown) → (Tried (Unit {0}) → Body) → Body
  schedule_in : (ms : ℕ) → (Tried (Unit {0}) → Body) → Body
  schedule_at : (time : ℕ) → (Tried (Unit {0}) → Body) → Body
  cancel_schedule : (Tried (Unit {0}) → Body) → Body
  next_alarm : (Tried (Option ℕ) → Body) → Body
  send : (name id : String) → Unknown → (Tried (Unit {0}) → Body) → Body
  get_state : (name id : String) → (Tried (Option Unknown) → Body) → Body

-- the data of `TaskCtx`; the message of a `SystemFailure`
pub record TaskContext : Type 0 where
  pub id : String
  pub name : String
  pub system_failure : Option String

-- a tag and its `ResolvedHandlerConfig`
pub record TaskDefinition : Type 0 where
  pub state : Schema
  pub event : Schema
  pub on_event : TaskContext → Unknown → Body
  pub on_alarm : TaskContext → Body
  pub on_event_error : Option (TaskContext → GroupError → Body)
  pub on_alarm_error : Option (TaskContext → GroupError → Body)

-- `BuiltRegistry`: the tasks, and the tags by their names
pub record GroupRegistry : Type 0 where
  pub tasks : String → Option TaskDefinition
  pub tags : String → Option Schema

-- `Instance`, whose storage has the keys of the state and of the alarm
pub record Instance : Type 0 where
  pub state : Option Unknown
  pub alarm_at : Option ℕ
  pub scheduled_alarm : Option ℕ
  pub system_failure : Option String

abbrev pub new_instance : Instance
new_instance = record {
  state = none;
  alarm_at = none;
  scheduled_alarm = none;
  system_failure = none;
}

-- The instances, with their keys in the order in which they were made.
pub record GroupWorld : Type 0 where
  pub instances : String → Option Instance
  pub keys : List String
  pub current_time : ℕ

-- How an effect ends. `endless` is a chain of sends that is longer than the fuel.
pub data Answer (A : Type 0) : Type 0 where
  ok : A → Answer A
  err : GroupError → Answer A
  endless : Answer A

abbrev pub Group : Type 0 → Type 0
Group A = GroupWorld → Answer A × GroupWorld

abbrev pub continue : {A B : Type 0} → Answer A → (A → Group B) → Group B
continue (ok a) f w = f a w
continue (err e) f w = (err e, w)
continue endless f w = (endless, w)

abbrev pub handle : {A : Type 0} → Answer A → (GroupError → Group A) → Group A
handle (ok a) handler w = (ok a, w)
handle (err e) handler w = handler e w
handle endless handler w = (endless, w)

infixl 5 ◌>>=◌ ◌>>◌
unfoldable pub ◌>>=◌ : {A B : Type 0} → Group A → (A → Group B) → Group B
◌>>=◌ m f w = let (r, w') = m w in continue r f w'

abbrev pub ◌>>◌ : {A B : Type 0} → Group A → Group B → Group B
m >> k = m >>= λ _. k

abbrev pub pure : {A : Type 0} → A → Group A
pure a w = (ok a, w)

abbrev pub raise : {A : Type 0} → GroupError → Group A
raise e w = (err e, w)

unfoldable pub reads : {A : Type 0} → (GroupWorld → A) → Group A
reads f w = (ok (f w), w)

unfoldable pub modify : (GroupWorld → GroupWorld) → Group (Unit {0})
modify f w = (ok tt, f w)

-- `Effect.catch`
unfoldable pub catch_all : {A : Type 0} → Group A → (GroupError → Group A) → Group A
catch_all m handler w = let (r, w') = m w in handle r handler w'

-- `Effect.mapError`
abbrev pub map_error : {A : Type 0} → (GroupError → GroupError) → Group A → Group A
map_error f m = catch_all m (λ e. raise (f e))

-- a call with its end as a value
abbrev pub attempt : {A : Type 0} → Group A → Group (Tried A)
attempt m = catch_all (m >>= λ a. pure (Tried.done a)) (λ e. pure (Tried.failed e))

-- the `Storage` of an instance
pub record StorageService : Type 0 where
  pub get_state : Group (Option Unknown)
  pub set_state : Unknown → Group (Unit {0})
  pub get_alarm : Group (Option ℕ)
  pub set_alarm : ℕ → Group (Unit {0})
  pub delete_alarm : Group (Unit {0})
  pub delete_all : Group (Unit {0})

-- the `Alarm` of an instance
pub record AlarmService : Type 0 where
  pub set : ℕ → Group (Unit {0})
  pub cancel : Group (Unit {0})

-- `DispatchFn`
pub record DispatchFn : Type 0 where
  pub send : (name id : String) → Unknown → Group (Unit {0})
  pub get_state : (name id : String) → Group (Option Unknown)

-- `HandlerContext`, less the cache and the scope of the layers that the hooks are given
pub record HandlerContext : Type 0 where
  pub storage : StorageService
  pub alarm : AlarmService
  pub dispatch : DispatchFn
  pub id : String
  pub name : String
  pub system_failure : Option String
