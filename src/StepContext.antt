-- ===== src/StepContext.antt =====
-- packages/workflow/src/context/step-context.ts: the fields of `createStepContext(stepName)`.
use durable_effect.Prelude.{ℕ, ◌+◌, String, Bool, Option, none, some, or_else, is_some, update}
use durable_effect.State.{Unknown}
use durable_effect.Errors.{Error, Key}
use durable_effect.World.{CachedStepResult, StepResultMeta, Action, pure, ◌>>=◌, ◌>>◌}
use durable_effect.World.Storage.{get, put, delete, now}

unfoldable pub attempt : String → Action ℕ
attempt step_name = do
  stored ← get (Key.step_attempt step_name) (λ s. s.step_attempt step_name)
  pure (or_else stored 1)

abbrev set_attempt : String → Option ℕ → Action (Unit {0})
set_attempt step_name value =
    put (Key.step_attempt step_name)
      (λ s. record s { step_attempt = update s.step_attempt step_name value })

unfoldable pub increment_attempt : String → Action ℕ
increment_attempt step_name = do
  stored ← get (Key.step_attempt step_name) (λ s. s.step_attempt step_name)
  let next = or_else stored 1 + 1
  set_attempt step_name (some next)
  pure next

unfoldable pub reset_attempt : String → Action (Unit {0})
reset_attempt step_name = set_attempt step_name (some 1)

unfoldable pub started_at : String → Action (Option ℕ)
started_at step_name = get (Key.step_started_at step_name) (λ s. s.step_started_at step_name)

unfoldable pub set_started_at : String → ℕ → Action (Unit {0})
set_started_at step_name time =
    put (Key.step_started_at step_name)
      (λ s. record s { step_started_at = update s.step_started_at step_name (some time) })

unfoldable pub get_result : String → Action (Option CachedStepResult)
get_result step_name = get (Key.step_result step_name) (λ s. s.step_result step_name)

unfoldable pub set_result : String → Unknown → StepResultMeta → Action (Unit {0})
set_result step_name value meta = put (Key.step_result step_name) (λ s. record s {
  step_result = update s.step_result step_name (some (record { value = value; meta = meta }));
})

unfoldable pub has_result : String → Action Bool
has_result step_name = do
  stored ← get (Key.step_result step_name) (λ s. s.step_result step_name)
  pure (is_some stored)

-- `getMeta("lastError")`
unfoldable pub last_error : String → Action (Option Error)
last_error step_name = get (Key.step_last_error step_name) (λ s. s.step_last_error step_name)

-- `setMeta("lastError", …)`
unfoldable pub set_last_error : String → Error → Action (Unit {0})
set_last_error step_name e =
    put (Key.step_last_error step_name)
      (λ s. record s { step_last_error = update s.step_last_error step_name (some e) })

unfoldable pub clear : String → Action (Unit {0})
clear step_name = do
  delete (Key.step_attempt step_name) (λ s. s.step_attempt step_name)
      (λ s. record s { step_attempt = update s.step_attempt step_name none })
  delete (Key.step_started_at step_name) (λ s. s.step_started_at step_name)
      (λ s. record s { step_started_at = update s.step_started_at step_name none })
  delete (Key.step_result step_name) (λ s. s.step_result step_name)
      (λ s. record s { step_result = update s.step_result step_name none })
  pure tt

abbrev deadline_from : ℕ → Option ℕ → Action ℕ
deadline_from timeout_ms none = do time ← now; pure (time + timeout_ms)
deadline_from timeout_ms (some started) = pure (started + timeout_ms)

unfoldable pub calculate_deadline : String → ℕ → Action ℕ
calculate_deadline step_name timeout_ms = do
  started ← get (Key.step_started_at step_name) (λ s. s.step_started_at step_name)
  deadline_from timeout_ms started
