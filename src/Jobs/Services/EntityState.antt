-- ===== src/Jobs/Services/EntityState.antt =====
-- packages/jobs/src/services/entity-state.ts: the user's state, which a schema checks.
use durable_effect.Prelude.{Bool, Option, none, some}
use durable_effect.State.{Unknown}
use durable_effect.Jobs.Errors.{JobKey, JobError}
use durable_effect.Jobs.Bodies.{Schema, Checked, valid, invalid}
use durable_effect.Jobs.World.{Eff, pure, raise, ◌>>=◌}
use durable_effect.Jobs.Platform.{get, put, delete}

unfoldable pub checked : Schema → Checked → Eff Unknown
checked schema (valid value) = pure value
checked schema (invalid issues) = raise (JobError.validation_error schema.tag issues)

unfoldable pub decoded : Schema → Option Unknown → Eff (Option Unknown)
decoded schema none = pure none
decoded schema (some raw) = do value ← checked schema (schema.decode raw); pure (some value)

unfoldable pub get_state : Schema → Eff (Option Unknown)
get_state schema = do raw ← get JobKey.state (λ s. s.state); decoded schema raw

unfoldable pub set_state : Schema → Unknown → Eff (Unit {0})
set_state schema value = do
  encoded ← checked schema (schema.encode value)
  put JobKey.state (λ s. record s { state = some encoded })

unfoldable pub update_raw : Schema → (Unknown → Unknown) → Option Unknown → Eff (Unit {0})
update_raw schema fn none = pure tt
update_raw schema fn (some raw) = do
  current ← checked schema (schema.decode raw)
  set_state schema (fn current)

unfoldable pub update_state : Schema → (Unknown → Unknown) → Eff (Unit {0})
update_state schema fn = do raw ← get JobKey.state (λ s. s.state); update_raw schema fn raw

unfoldable pub delete_state : Eff Bool
delete_state = delete JobKey.state (λ s. s.state) (λ s. record s { state = none })
