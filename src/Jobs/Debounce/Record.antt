-- ===== src/Jobs/Debounce/Record.antt =====
-- packages/jobs/src/runtime/types.ts and handlers/debounce/handler.ts: the requests and answers of a
-- debounce, and what it keeps in the storage.
use durable_effect.Prelude.{ℕ, String, Bool, Option, none, some, or_else}
use durable_effect.State.{Unknown}
use durable_effect.Jobs.Errors.{JobType, JobKey, JobError}
use durable_effect.Jobs.Bodies.{DebounceDefinition, FlushReason}
use durable_effect.Jobs.World.{Eff, pure, raise, asks, ◌>>=◌}
use durable_effect.Jobs.Platform.{get, put, now}

pub data DebounceAction : Type 0 where
  add flush clear status get_state : DebounceAction

pub record DebounceRequest : Type 0 where
  pub action : DebounceAction
  pub name : String
  pub id : String
  pub event : Unknown

pub data FlushAnswer : Type 0 where
  empty : FlushAnswer
  flushed_for : FlushReason → FlushAnswer

pub data DebounceStatus : Type 0 where
  debouncing idle : DebounceStatus

-- `retry_scheduled` is `none` where the response has no such field.
pub data DebounceResponse : Type 0 where
  add :
      (instance_id : String) (event_count : ℕ) (will_flush_at : Option ℕ) (created : Bool)
      (retry_scheduled : Option Bool)
      → DebounceResponse
  flush :
      (flushed : Bool) (event_count : ℕ) (reason : FlushAnswer) (retry_scheduled : Option Bool)
      → DebounceResponse
  clear : (cleared : Bool) (discarded_events : ℕ) → DebounceResponse
  not_found : DebounceResponse
  status :
      DebounceStatus → (event_count : ℕ) (started_at will_flush_at : Option ℕ) → DebounceResponse
  stored_state : Option Unknown → DebounceResponse

unfoldable pub found : String → Option DebounceDefinition → Eff DebounceDefinition
found name none = raise (JobError.job_not_found JobType.debounce name)
found name (some def) = pure def

unfoldable pub get_definition : String → Eff DebounceDefinition
get_definition name = do registry ← asks (λ env. env.registry); found name (registry.debounce name)

unfoldable pub get_event_count : Eff ℕ
get_event_count = do n ← get JobKey.event_count (λ s. s.event_count); pure (or_else n 0)

unfoldable pub set_event_count : ℕ → Eff (Unit {0})
set_event_count count = put JobKey.event_count (λ s. record s { event_count = some count })

unfoldable pub get_started_at : Eff (Option ℕ)
get_started_at = get JobKey.started_at (λ s. s.started_at)

unfoldable pub set_started_at : Eff (Unit {0})
set_started_at = do time ← now; put JobKey.started_at (λ s. record s { started_at = some time })
