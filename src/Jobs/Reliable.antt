-- ===== src/Jobs/Reliable.antt =====
-- The calls of a platform that does not fail, as equations: with these a handler runs by rewriting.
use durable_effect.Prelude.{ℕ, ◌≡◌, is_some, Option, none, some}
use durable_effect.Jobs.Errors.{JobKey}
use durable_effect.Jobs.World.{JobStore, empty_job_store, JobWorld, JobEnv, IsReliable, ok, ◌>>=◌}
use durable_effect.Jobs.Platform.{get, put, delete, delete_all, set_alarm, delete_alarm, get_alarm}
use durable_effect.Jobs.Services.{purge}
use durable_effect.Jobs.Services.Alarm

-- the world after everything of an instance has been deleted
abbrev pub purged : JobWorld → JobWorld
purged w = record w { store = empty_job_store; scheduled_time = none }

module _ (env : JobEnv) (reliable : IsReliable env) where
  pub get-reliable :
      {A : Type 0} (key : JobKey) (value : JobStore → A) (w : JobWorld)
      → get key value env w ≡ (ok (value w.store), w)
  unfolding get
  get-reliable key value w = rw reliable

  pub put-reliable :
      (key : JobKey) (write : JobStore → JobStore) (w : JobWorld)
      → put key write env w ≡ (ok tt, record w { store = write w.store })
  unfolding put
  put-reliable key write w = rw reliable

  pub delete-reliable :
      {A : Type 0} (key : JobKey) (value : JobStore → Option A) (erase : JobStore → JobStore)
      (w : JobWorld)
      → delete key value erase env w
        ≡ (ok (is_some (value w.store)), record w { store = erase w.store })
  unfolding delete
  delete-reliable key value erase w = rw reliable

  pub delete_all-reliable :
      (w : JobWorld) → delete_all env w ≡ (ok tt, record w { store = empty_job_store })
  unfolding delete_all
  delete_all-reliable w = rw reliable

  pub set_alarm-reliable :
      (time : ℕ) (w : JobWorld)
      → set_alarm time env w ≡ (ok tt, record w { scheduled_time = some time })
  unfolding set_alarm
  set_alarm-reliable time w = rw reliable

  pub delete_alarm-reliable :
      (w : JobWorld) → delete_alarm env w ≡ (ok tt, record w { scheduled_time = none })
  unfolding delete_alarm
  delete_alarm-reliable w = rw reliable

  pub get_alarm-reliable : (w : JobWorld) → get_alarm env w ≡ (ok w.scheduled_time, w)
  unfolding get_alarm
  get_alarm-reliable w = rw reliable

  pub purge-reliable : (w : JobWorld) → purge env w ≡ (ok tt, purged w)
  unfolding purge Alarm.cancel ◌>>=◌
  purge-reliable w = simp (delete_alarm-reliable, delete_all-reliable)
