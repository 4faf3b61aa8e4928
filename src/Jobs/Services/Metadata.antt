-- ===== src/Jobs/Services/Metadata.antt =====
-- packages/jobs/src/services/metadata.ts: an instance's metadata.
use durable_effect.Prelude.{String, Bool, Option, none, some}
use durable_effect.Jobs.Errors.{JobType, JobKey}
use durable_effect.Jobs.World.{JobStatus, JobMetadata, Eff, pure, ◌>>=◌}
use durable_effect.Jobs.Platform.{get, put, delete, now}

unfoldable pub initialize : JobType → String → Option String → Eff (Unit {0})
initialize type name id = do
  time ← now
  put JobKey.meta (λ s. record s {
    meta = some (record {
      type = type;
      name = name;
      status = JobStatus.initializing;
      created_at = time;
      updated_at = time;
      id = id;
      stop_reason = none;
    });
  })

unfoldable pub get_meta : Eff (Option JobMetadata)
get_meta = get JobKey.meta (λ s. s.meta)

-- what the two updates write, where there is metadata
unfoldable pub write_meta : Option JobMetadata → (JobMetadata → JobMetadata) → Eff (Unit {0})
write_meta none change = pure tt
write_meta (some current) change = do
  time ← now
  put JobKey.meta (λ s. record s { meta = some (record (change current) { updated_at = time }) })

unfoldable pub update_status : JobStatus → Eff (Unit {0})
update_status status = do
  current ← get JobKey.meta (λ s. s.meta)
  write_meta current (λ m. record m { status = status })

unfoldable pub delete_meta : Eff Bool
delete_meta = delete JobKey.meta (λ s. s.meta) (λ s. record s { meta = none })

unfoldable pub set_stop_reason : Option String → Eff (Unit {0})
set_stop_reason reason = do
  current ← get JobKey.meta (λ s. s.meta)
  write_meta current (λ m. record m { stop_reason = reason })
