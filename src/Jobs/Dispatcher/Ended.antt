-- ===== src/Jobs/Dispatcher/Ended.antt =====
-- The ways to end an instance, on a platform that does not fail.
use durable_effect.Prelude.{◌≡◌, refl, sym, none, some}
use durable_effect.Jobs.World.{
  JobMetadata, empty_job_store, JobWorld, JobEnv, IsReliable, ok, asks, ◌>>=◌,
}
use durable_effect.Jobs.Platform.{emit_event}
use durable_effect.Jobs.Services.Metadata
use durable_effect.Jobs.Reliable.{get-reliable, purge-reliable}
use durable_effect.Jobs.Debounce
use durable_effect.Jobs.Debounce.{get_event_count}
use durable_effect.Jobs.Continuous
use durable_effect.Jobs.Continuous.{ContinuousRequest, get_run_count, terminate_existing}
use durable_effect.Jobs.Task
use durable_effect.Jobs.Dispatcher.{dispatch_alarm, alarm_for, fire_alarm}

-- Nothing is stored, no alarm is set, and an alarm that comes all the same changes nothing.
pub record IsGone (env : JobEnv) (w : JobWorld) : Type 0 where
  pub store : w.store ≡ empty_job_store
  pub alarm : w.scheduled_time ≡ none
  pub silent : fire_alarm env w ≡ (ok tt, w)

module _ (env : JobEnv) (reliable : IsReliable env) where
  gone : (w : JobWorld) → w.store ≡ empty_job_store → w.scheduled_time ≡ none → IsGone env w
  unfolding fire_alarm dispatch_alarm alarm_for Metadata.get_meta ◌>>=◌
  gone w p q = record {
    store = p;
    alarm = q;
    silent =
        simp (get-reliable env reliable, p)
          (λ i. (ok tt, record w { store = (sym p) i; scheduled_time = (sym q) i }));
  }

  -- On a platform that does not fail: clearing a debounce, terminating a continuous job and
  -- terminating a task each leave nothing behind, where the instance is there: no key and no alarm,
  -- and an alarm that comes all the same changes nothing.
  pub ends-IsGone :
      (request : ContinuousRequest) (m : JobMetadata) (w : JobWorld)
      → w.store.meta ≡ some m
      → IsGone env (Debounce.handle_clear env w).1
        × IsGone env (Continuous.handle_terminate request env w).1
        × IsGone env (Task.handle_terminate env w).1
  unfolding Debounce.handle_clear Continuous.handle_terminate terminate_existing
      Task.handle_terminate get_event_count get_run_count Metadata.get_meta emit_event asks ◌>>=◌
  ends-IsGone request m w p =
      simp (get-reliable env reliable, purge-reliable env reliable, p)
        (gone _ refl refl, gone _ refl refl, gone _ refl refl)
