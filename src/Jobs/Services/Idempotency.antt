-- ===== src/Jobs/Services/Idempotency.antt =====
-- packages/jobs/src/services/idempotency.ts: events that have been processed.
pub mod Once
use durable_effect.Prelude.{ℕ, String, Bool, true, false, Option, none, some, is_some, update}
use durable_effect.Jobs.Errors.{JobKey}
use durable_effect.Jobs.World.{Eff, pure, ◌>>=◌, ◌>>◌}
use durable_effect.Jobs.Platform.{get, put, delete, now}

unfoldable pub check : String → Eff Bool
check event_id = do
  existing ← get (JobKey.idempotency event_id) (λ s. s.idempotency event_id)
  pure (is_some existing)

unfoldable pub mark : String → Eff (Unit {0})
mark event_id = do
  time ← now
  put (JobKey.idempotency event_id)
      (λ s. record s { idempotency = update s.idempotency event_id (some time) })

unfoldable pub mark_new : String → Option ℕ → Eff Bool
mark_new event_id (some processed_at) = pure true
mark_new event_id none = do mark event_id; pure false

unfoldable pub check_and_mark : String → Eff Bool
check_and_mark event_id = do
  existing ← get (JobKey.idempotency event_id) (λ s. s.idempotency event_id)
  mark_new event_id existing

unfoldable pub clear_mark : String → Eff Bool
clear_mark event_id =
    delete (JobKey.idempotency event_id) (λ s. s.idempotency event_id)
      (λ s. record s { idempotency = update s.idempotency event_id none })
