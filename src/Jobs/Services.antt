-- ===== src/Jobs/Services.antt =====
-- packages/jobs/src/services: a module for each, and the cleanup of an instance.
pub mod Alarm
pub mod Metadata
pub mod EntityState
pub mod Idempotency
use durable_effect.Jobs.World.{Eff, ◌>>=◌, ◌>>◌}
use durable_effect.Jobs.Platform.{delete_all}
use durable_effect.Jobs.Services.Alarm

-- `terminate` of `CleanupService`, and `purge` of the debounce and the task handler
unfoldable pub purge : Eff (Unit {0})
purge = do Alarm.cancel; delete_all
