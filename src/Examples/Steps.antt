-- ===== src/Examples/Steps.antt =====
-- Steps and sleeps at concrete worlds.
use durable_effect.Prelude.{◌+◌, ◌≡◌, refl, true, false, some, [], ◌∷◌, arith}
use durable_effect.Errors.{Error, sleep_signal, retry_signal}
use durable_effect.Program.{ok, err, RetryDelay, StepConfig}
use durable_effect.World.{World, asks, empty_store, ◌>>=◌}
use durable_effect.World.Storage.{get, put, now, emit_event, advance_time}
use durable_effect.Machine.{mark_step_completed}
use durable_effect.Context.{workflow_name, execution_id}
use durable_effect.StepContext
use durable_effect.Step.{
  step, cached_or_run, run_step, check_exhaustion, execute_effect, run_effect, conclude,
  cache_result,
}
use durable_effect.Step.Isolation.{elsewhere, step-elsewhere}
use durable_effect.Program.{Program, done, success}
use durable_effect.Prelude.{◌≢◌, str_eq, eq_iff}
use durable_effect.Executor.{run_program}
use durable_effect.Executor.Replay.{passes, ends, run_program_replay}
use durable_effect.Sleep.{sleep_until}
use durable_effect.Sleep.Until.{sleep_until_protocol}
use durable_effect.Step.Cache.{step_replay}
use durable_effect.Step.Retries.{
  IsAt, visits, always_failing, retry_config, delay_after, retries_bounded,
}
use durable_effect.Step.Deadline.{retry_past_deadline}
use durable_effect.Sleep.{sleep}
use durable_effect.Sleep.Pause.{again, finish, sleep_protocol, sleep_restarts}
use durable_effect.Examples.Fixtures.{env, blank, world_with, boom, load, cut_short-fast}

load_succeeds : (step load env blank).0 ≡ ok "data"
unfolding step cached_or_run run_step check_exhaustion execute_effect run_effect conclude
    cache_result mark_step_completed workflow_name execution_id StepContext.get_result
    StepContext.started_at StepContext.attempt StepContext.set_started_at StepContext.set_result get
    put now emit_event advance_time asks ◌>>=◌
load_succeeds = refl

step_replay_example :
    let w' = record (step load env blank).1 { current_time = 9000 } in
    step load env w' ≡ (ok "data", w')
step_replay_example = step_replay load env refl blank "data" 9000 load_succeeds

-- a workflow that is to stop
abbrev stopping : World
stopping = world_with (record empty_store { cancelled = some true })

-- two retries, a second apart
abbrev flaky : StepConfig
flaky =
    always_failing "load" boom (λ time attempt. 20)
      (retry_config 2 (some (RetryDelay.duration 1000)) (some false))

blank-IsAt : IsAt "load" 1 blank
blank-IsAt = record { running = refl; no_result = refl; attempt = refl }

retries_bounded_example :
    (step flaky env (visits (0 ∷ 1000 ∷ []) flaky env blank)).0
    ≡ err (Error.retry_exhausted "load" 3 boom)
retries_bounded_example =
    retries_bounded "load" boom tt (λ time attempt. 20) 2 (some (RetryDelay.duration 1000))
      (some false) env refl (0 ∷ 1000 ∷ []) blank blank-IsAt (omega arith)

-- the same step with 500 ms for the effect
abbrev hasty : StepConfig
hasty = record flaky { timeout = some 500 }

retry_past_deadline_example :
    let first = step hasty env blank in
    let second = step hasty env (record first.1 { current_time = 2000 }) in
    (first.0
      ≡ err (
          Error.pause_signal (
            retry_signal
              (1000
                + delay_after env (retry_config 2 (some (RetryDelay.duration 1000)) (some false)) 1)
              "load"
              2)))
    × (second.0 ≡ err (Error.workflow_timeout "load" 500 1000))
    × (second.1.current_time ≡ 2000)
retry_past_deadline_example =
    retry_past_deadline "load" boom tt (λ time attempt. 20) 2 (some (RetryDelay.duration 1000))
      (some false) 499 env refl cut_short-fast blank 2000 blank-IsAt refl (omega arith)
      (omega arith) (omega arith)

sleep_protocol_example :
    let first = sleep 500 env blank in
    let second = sleep 500 env (again blank 1500 first.1) in
    let third = sleep 500 env (again blank 7000 second.1) in
    (first.0 ≡ err (Error.pause_signal (sleep_signal 1500)))
    × (first.1.store.pending_resume_at ≡ some 1500)
    × (second.0 ≡ ok tt)
    × (second.1.store ≡ finish empty_store)
    × (third.0 ≡ ok tt)
    × (third.1.store ≡ second.1.store)
sleep_protocol_example =
    sleep_protocol 500 env refl blank 1500 7000 (omega arith) refl (omega arith)

sleep_restarts_example :
    let second = sleep 500 env (again blank 1100 (sleep 500 env blank).1) in
    (second.0 ≡ err (Error.pause_signal (sleep_signal 1600)))
    × (second.1.store.pending_resume_at ≡ some 1600)
sleep_restarts_example = sleep_restarts 500 env refl blank 1100 (omega arith) refl (omega arith)

-- a body of one step
abbrev body : Program
body = Program.step load (λ r. done "loaded")

run_program_replay_example :
    let w' = record (step load env blank).1 { current_time = 9000 } in
    run_program body env w' ≡ (ok (success "loaded"), w')
run_program_replay_example = run_program_replay env refl 9000 (passes load_succeeds ends)

load_other : load.name ≢ "save"
load_other = λ same. let equal : str_eq "load" "save" ≡ true = (eq_iff "load" "save").1 same in cc

step-elsewhere_example :
    elsewhere "save" (step load env blank).1.store ≡ elsewhere "save" blank.store
step-elsewhere_example = step-elsewhere load "save" env blank load_other

sleep_until_protocol_example :
    let first = sleep_until 5000 env blank in
    let second = sleep_until 5000 env (again blank 1200 first.1) in
    let third = sleep_until 5000 env (again blank 5000 second.1) in
    (first.0 ≡ err (Error.pause_signal (sleep_signal 5000)))
    × (second.0 ≡ err (Error.pause_signal (sleep_signal 5000)))
    × (second.1.store ≡ first.1.store)
    × (third.0 ≡ ok tt)
    × (third.1.store ≡ finish empty_store)
sleep_until_protocol_example =
    sleep_until_protocol 5000 env refl blank 1200 5000 (omega arith) refl (omega arith)
      (omega arith) (omega arith)
