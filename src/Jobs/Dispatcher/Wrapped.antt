-- ===== src/Jobs/Dispatcher/Wrapped.antt =====
-- Which failures leave the handlers, whether or not the platform fails.
use durable_effect.Prelude.{String}
use durable_effect.Jobs.Errors.{JobError}
use durable_effect.Jobs.World.{JobEnv, JobWorld, Eff}
use durable_effect.Jobs.Outcomes.{
  Meets, Anything, Yields, Yields-raise, Yields-catch_all, Yields-bind, Yields-Anything,
}
use durable_effect.Jobs.Debounce
use durable_effect.Jobs.Debounce.{DebounceRequest}
use durable_effect.Jobs.Continuous
use durable_effect.Jobs.Continuous.{ContinuousRequest}
use durable_effect.Jobs.Task
use durable_effect.Jobs.Task.{TaskRequest}
use durable_effect.Jobs.World.{asks}

-- no bare failure of the storage, and none of the alarm
abbrev pub IsNoStorage : JobError → Type 0
IsNoStorage (JobError.storage_error op key) = ⊥
IsNoStorage e = Unit {0}

abbrev pub IsNoPlatform : JobError → Type 0
IsNoPlatform (JobError.storage_error op key) = ⊥
IsNoPlatform (JobError.scheduler_error op) = ⊥
IsNoPlatform e = Unit {0}

module _ (name id : String) where
  debounce-IsNoPlatform : (e : JobError) → IsNoPlatform (Debounce.wrap_platform name id e)
  unfolding Debounce.wrap_platform
  debounce-IsNoPlatform (JobError.storage_error a b) = tt
  debounce-IsNoPlatform (JobError.scheduler_error a) = tt
  debounce-IsNoPlatform _ = tt

  continuous-IsNoPlatform : (e : JobError) → IsNoPlatform (Continuous.wrap_platform name id e)
  unfolding Continuous.wrap_platform
  continuous-IsNoPlatform (JobError.storage_error a b) = tt
  continuous-IsNoPlatform (JobError.scheduler_error a) = tt
  continuous-IsNoPlatform _ = tt

  task-IsNoStorage : (e : JobError) → IsNoStorage (Task.wrap_storage name id e)
  unfolding Task.wrap_storage
  task-IsNoStorage (JobError.storage_error a b) = tt
  task-IsNoStorage _ = tt

module _ {A : Type 0} (name : String) (m : Eff A) where
  instance_asked : {E : JobError → Type 0} → Yields Anything E (asks (λ env. env.instance_id))
  unfolding asks
  instance_asked = record { at = λ env w. tt }

  debounce-Yields : Yields Anything IsNoPlatform (Debounce.wrapped name m)
  unfolding Debounce.wrapped
  debounce-Yields = Yields-bind _ _ instance_asked (λ id h.
      Yields-catch_all m _ (Yields-Anything m)
        (λ e k. Yields-raise _ (debounce-IsNoPlatform name id e)))

  continuous-Yields : Yields Anything IsNoPlatform (Continuous.wrapped name m)
  unfolding Continuous.wrapped
  continuous-Yields = Yields-bind _ _ instance_asked (λ id h.
      Yields-catch_all m _ (Yields-Anything m)
        (λ e k. Yields-raise _ (continuous-IsNoPlatform name id e)))

  task-Yields : Yields Anything IsNoStorage (Task.wrapped name m)
  unfolding Task.wrapped
  task-Yields = Yields-bind _ _ instance_asked (λ id h.
      Yields-catch_all m _ (Yields-Anything m) (λ e k. Yields-raise _ (task-IsNoStorage name id e)))

-- Whatever the platform does: no request to a debounce or to a continuous job, and no alarm of one,
-- fails with a bare failure of the storage or of the alarm. Those of a task never fail with a bare
-- failure of the storage.
pub handlers-Wrapped :
    (d : DebounceRequest) (c : ContinuousRequest) (t : TaskRequest) (env : JobEnv) (w : JobWorld)
    → Meets Anything IsNoPlatform (Debounce.handle_request d env w).0
      × Meets Anything IsNoPlatform (Debounce.handle_alarm env w).0
      × Meets Anything IsNoPlatform (Continuous.handle_request c env w).0
      × Meets Anything IsNoPlatform (Continuous.handle_alarm env w).0
      × Meets Anything IsNoStorage (Task.handle_request t env w).0
      × Meets Anything IsNoStorage (Task.handle_alarm env w).0
unfolding Debounce.handle_request Debounce.handle_alarm Continuous.handle_request
    Continuous.handle_alarm Task.handle_request Task.handle_alarm
handlers-Wrapped d c t env w = (
  (debounce-Yields _ _).at env w,
  (debounce-Yields _ _).at env w,
  (continuous-Yields _ _).at env w,
  (continuous-Yields _ _).at env w,
  (task-Yields _ _).at env w,
  (task-Yields _ _).at env w,
)
