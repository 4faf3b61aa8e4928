-- ===== src/Purge.antt =====
-- packages/workflow/src/purge/{config,manager}.ts: the purge of a finished workflow's data. The
-- layer is `DisabledPurgeManagerLayer` exactly where the parsed configuration is not enabled.
pub mod Lifecycle
use durable_effect.Prelude.{
  ℕ, ◌+◌, Bool, true, false, not, ◌&&◌, Option, none, some, leb, or_else, ◌==◌, if◌then◌else◌,
}
use durable_effect.Errors.{Key}
use durable_effect.World.{TerminalState, ParsedPurgeConfig, Action, pure, asks, ◌>>=◌, ◌>>◌}
use durable_effect.World.Storage.{get, put_batch, delete, delete_all, now, schedule}

abbrev pub default_purge_delay_ms : ℕ
default_purge_delay_ms = 60000

-- `parsePurgeConfig`; the inner option is the `delay`, already parsed to milliseconds
unfoldable pub parse_purge_config : Option (Option ℕ) → ParsedPurgeConfig
parse_purge_config none = record { enabled = false; delay_ms = default_purge_delay_ms }
parse_purge_config (some delay) = record {
  enabled = true;
  delay_ms = or_else delay default_purge_delay_ms;
}

unfoldable pub schedule_purge : TerminalState → Action (Unit {0})
schedule_purge terminal_state = do
  config ← asks (λ env. env.purge)
  if not config.enabled then pure tt else (do
    time ← now
    let purge_at = time + config.delay_ms
    put_batch (λ s. record s {
      purge_scheduled = some true;
      purge_at = some purge_at;
      purge_reason = some terminal_state;
      alarm_type = some "purge";
    })
    schedule purge_at)

-- `none` is `{ purged: false }`; the reason is absent where the code says `"unknown"`
abbrev pub PurgeExecutionResult : Type 0
PurgeExecutionResult = Option (Option TerminalState)

-- `purgeAt && now >= purgeAt`: a time 0 counts as none
abbrev pub is_due : Option ℕ → ℕ → Bool
is_due none time = false
is_due (some purge_at) time = not (purge_at == 0) && leb purge_at time

-- of the manager that is enabled
unfoldable pub execute_purge_if_scheduled : Action PurgeExecutionResult
execute_purge_if_scheduled = do
  scheduled ← get Key.purge_scheduled (λ s. s.purge_scheduled)
  if not (or_else scheduled false) then pure none else (do
    purge_at ← get Key.purge_at (λ s. s.purge_at)
    reason ← get Key.purge_reason (λ s. s.purge_reason)
    time ← now
    if is_due purge_at time then (do delete_all; pure (some reason)) else pure none)

-- of the layer that is provided
unfoldable pub execute_purge_if_due : Action PurgeExecutionResult
execute_purge_if_due = do
  config ← asks (λ env. env.purge)
  if config.enabled then execute_purge_if_scheduled else pure none

unfoldable pub is_purge_scheduled : Action Bool
is_purge_scheduled = do
  config ← asks (λ env. env.purge)
  if config.enabled
      then (do
        scheduled ← get Key.purge_scheduled (λ s. s.purge_scheduled)
        pure (or_else scheduled false))
      else pure false

unfoldable pub cancel_purge : Action (Unit {0})
cancel_purge = do
  config ← asks (λ env. env.purge)
  if config.enabled
      then (do
        delete Key.purge_scheduled (λ s. s.purge_scheduled)
            (λ s. record s { purge_scheduled = none })
        delete Key.purge_at (λ s. s.purge_at) (λ s. record s { purge_at = none })
        delete Key.purge_reason (λ s. s.purge_reason) (λ s. record s { purge_reason = none })
        delete Key.alarm_type (λ s. s.alarm_type) (λ s. record s { alarm_type = none })
        pure tt)
      else pure tt
