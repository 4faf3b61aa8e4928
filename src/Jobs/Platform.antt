-- ===== src/Jobs/Platform.antt =====
-- packages/core/src/adapters/durable-object/{storage,scheduler,runtime}.ts: the calls of the platform
-- that the jobs package makes, and `emitEvent` of packages/core/src/tracker/tracker.ts. A failure is
-- one that is left after the adapter's own retries.
use durable_effect.Prelude.{
  ℕ, ◌+◌, String, Bool, false, Option, none, some, ◌∷◌, [], ◌++◌, is_some, if◌then◌else◌,
}
use durable_effect.Errors.{StorageOp}
use durable_effect.Jobs.Errors.{JobType, JobKey, JobError, SchedulerOp}
use durable_effect.Jobs.World.{
  Faults, JobStore, empty_job_store, JobEvent, JobEventBody, Eff, ok, err,
}

abbrev pub storage_fails : Option Faults → StorageOp → Option JobKey → Bool
storage_fails none op key = false
storage_fails (some f) op key = f.storage op key

abbrev pub scheduler_fails : Option Faults → SchedulerOp → Bool
scheduler_fails none op = false
scheduler_fails (some f) op = f.scheduler op

-- `storage.get`; the projection reads the key's value
unfoldable pub get : {A : Type 0} → JobKey → (JobStore → A) → Eff A
get key value env w =
    if storage_fails env.faults StorageOp.get (some key)
    then (err (JobError.storage_error StorageOp.get (some key)), w)
    else (ok (value w.store), w)

-- `storage.put`; the function writes the key's value
unfoldable pub put : JobKey → (JobStore → JobStore) → Eff (Unit {0})
put key write env w =
    if storage_fails env.faults StorageOp.put (some key)
    then (err (JobError.storage_error StorageOp.put (some key)), w)
    else (ok tt, record w { store = write w.store })

-- `storage.delete`, with whether the key was there
unfoldable pub delete :
    {A : Type 0} → JobKey → (JobStore → Option A) → (JobStore → JobStore) → Eff Bool
delete key value erase env w =
    if storage_fails env.faults StorageOp.delete (some key)
    then (err (JobError.storage_error StorageOp.delete (some key)), w)
    else (ok (is_some (value w.store)), record w { store = erase w.store })

-- `storage.deleteAll`
unfoldable pub delete_all : Eff (Unit {0})
delete_all env w =
    if storage_fails env.faults StorageOp.delete_all none
    then (err (JobError.storage_error StorageOp.delete_all none), w)
    else (ok tt, record w { store = empty_job_store })

-- `scheduler.schedule`
unfoldable pub set_alarm : ℕ → Eff (Unit {0})
set_alarm time env w =
    if scheduler_fails env.faults SchedulerOp.schedule
    then (err (JobError.scheduler_error SchedulerOp.schedule), w)
    else (ok tt, record w { scheduled_time = some time })

-- `scheduler.cancel`
unfoldable pub delete_alarm : Eff (Unit {0})
delete_alarm env w =
    if scheduler_fails env.faults SchedulerOp.cancel
    then (err (JobError.scheduler_error SchedulerOp.cancel), w)
    else (ok tt, record w { scheduled_time = none })

-- `scheduler.getScheduled`
unfoldable pub get_alarm : Eff (Option ℕ)
get_alarm env w =
    if scheduler_fails env.faults SchedulerOp.get
    then (err (JobError.scheduler_error SchedulerOp.get), w)
    else (ok w.scheduled_time, w)

-- `runtime.now` and `Date.now`, which are one clock here
unfoldable pub now : Eff ℕ
now env w = (ok w.current_time, w)

-- the time that passes while the user's body waits
unfoldable pub elapse : ℕ → Eff (Unit {0})
elapse ms env w = (ok tt, record w { current_time = w.current_time + ms })

-- `emitEvent` over `createJobBaseEvent`
unfoldable pub emit_event : JobType → String → Option String → JobEventBody → Eff (Unit {0})
emit_event job_type job_name id body env w =
    let event : JobEvent = record {
      instance_id = env.instance_id;
      job_type = job_type;
      job_name = job_name;
      id = id;
      body = body;
    } in
    (ok tt, record w { events = w.events ++ event ∷ [] })
