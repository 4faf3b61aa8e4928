-- ===== src/Retry.antt =====
-- packages/core/src/retry/backoff.ts, and `getDelay` of packages/workflow/src/primitives/step.ts:
-- the delay before a retry. Delays are milliseconds and attempts count from 1, so that
-- `attempt - 1` is exact; a duration is taken as already parsed to milliseconds.
pub mod Growth
use Prim.Native.Nat.{min}
use durable_effect.Prelude.{ℕ, ◌+◌, ◌-◌, ◌*◌, ◌^◌, Option, none, some, or_else}
use durable_effect.Program.{
  BackoffStrategy, constant, linear, exponential, RetryDelay, duration, strategy, custom,
}

-- `BackoffStrategies.constant`, `.linear` and `.exponential`
abbrev pub constant_strategy : ℕ → BackoffStrategy
constant_strategy delay_ms = constant delay_ms

abbrev pub linear_strategy : ℕ → ℕ → Option ℕ → BackoffStrategy
linear_strategy initial_delay_ms increment_ms max_delay_ms =
    linear initial_delay_ms increment_ms max_delay_ms

abbrev pub exponential_strategy : ℕ → Option ℕ → Option ℕ → BackoffStrategy
exponential_strategy initial_delay_ms multiplier max_delay_ms =
    exponential initial_delay_ms (some (or_else multiplier 2)) max_delay_ms

-- `maxDelayMs !== undefined ? Math.min(delay, maxDelayMs) : delay`
abbrev pub capped : Option ℕ → ℕ → ℕ
capped none delay = delay
capped (some max_delay_ms) delay = min delay max_delay_ms

unfoldable pub calculate_backoff_delay : BackoffStrategy → ℕ → ℕ
calculate_backoff_delay (constant delay_ms) attempt = delay_ms
calculate_backoff_delay (linear initial_delay_ms increment_ms max_delay_ms) attempt =
    capped max_delay_ms (initial_delay_ms + increment_ms * (attempt - 1))
calculate_backoff_delay (exponential initial_delay_ms multiplier max_delay_ms) attempt =
    capped max_delay_ms (initial_delay_ms * or_else multiplier 2 ^ (attempt - 1))

-- `Backoff.presets`
abbrev pub standard : BackoffStrategy
standard = exponential_strategy 1000 none (some 30000)

abbrev pub aggressive : BackoffStrategy
aggressive = exponential_strategy 100 none (some 5000)

abbrev pub patient : BackoffStrategy
patient = exponential_strategy 5000 none (some 120000)

abbrev pub simple : BackoffStrategy
simple = constant_strategy 1000

-- `addJitter` at the factor 1 / 10, exactly, in units of 1 / (10 * d) ms: `Math.random()` is k / d.
unfoldable pub add_jitter_scaled : (k d : ℕ) (delay_ms : ℕ) → ℕ
add_jitter_scaled k d delay_ms = 10 * d * delay_ms + 2 * k * delay_ms - d * delay_ms

unfoldable pub resolve_delay : Option RetryDelay → ℕ → ℕ
resolve_delay none attempt = calculate_backoff_delay standard attempt
resolve_delay (some (custom delay)) attempt = delay attempt
resolve_delay (some (strategy s)) attempt = calculate_backoff_delay s attempt
resolve_delay (some (duration ms)) attempt = ms

-- `getDelay` of step.ts, whose default has another cap
unfoldable pub get_delay : Option RetryDelay → ℕ → ℕ
get_delay none attempt =
    calculate_backoff_delay (exponential_strategy 1000 none (some 60000)) attempt
get_delay (some (duration ms)) attempt = ms
get_delay (some (custom delay)) attempt = delay attempt
get_delay (some (strategy s)) attempt = calculate_backoff_delay s attempt
