-- ===== src/Jobs/Debounce/Ends.antt =====
-- How a flush of a debounce may leave it: the ends, and which of them its configuration and its body
-- decide for.
use durable_effect.Prelude.{
  ℕ, ◌+◌, ◌≢◌, ◌≡◌, true, false, Option, none, some, ltb, leb, if◌then◌else◌,
}
use durable_effect.State.{Unknown}
use durable_effect.Jobs.Errors.{JobType, JobError}
use durable_effect.Jobs.Bodies.{
  UserError, user_error, JobRetryConfig, DebounceBody, DebounceDefinition, FlushReason, valid,
}
use durable_effect.Jobs.World.{JobMetadata, empty_job_store, JobWorld, JobEnv, Outcome, ok, err}
use durable_effect.Jobs.Retry.{delay_of}
use durable_effect.Jobs.Retry.Attempts.{attempt_of, begun, retried_at, elapsed_past}
use durable_effect.Jobs.Debounce.{DebounceResponse, FlushAnswer}
use durable_effect.Jobs.Debounce.Body.{failure_of}

-- A debounce with events, and the state that is read from its store.
pub record Holds (def : DebounceDefinition) (w : JobWorld) : Type 0 where
  pub meta : JobMetadata
  pub count : ℕ
  pub raw : Unknown
  pub state : Unknown
  pub has_meta : w.store.meta ≡ some meta
  pub has_count : w.store.event_count ≡ some count
  pub some_events : count ≢ 0
  pub has_state : w.store.state ≡ some raw
  pub decodes : def.state_schema.decode raw ≡ valid state

-- the body of the flush
abbrev pub body_of : JobEnv → DebounceDefinition → FlushReason → JobWorld → Unknown → DebounceBody
body_of env def reason w state = def.execute (record {
  state = some state;
  instance_id = env.instance_id;
  execution_started_at = w.current_time;
  flush_reason = reason;
  attempt = attempt_of w;
  is_retry = ltb 1 (attempt_of w);
})

-- How a flush leaves the instance: emptied, with the failure of its body, or waiting for a retry.
pub data End : Type 0 where
  emptied : End
  failed : UserError → End
  waiting : JobRetryConfig → UserError → End

-- the end of a body that failed, or did not, where it is not retried, and where it is
abbrev pub plain_end : Option UserError → End
plain_end none = End.emptied
plain_end (some e) = End.failed e

abbrev pub retried_end : JobRetryConfig → ℕ → Option UserError → End
retried_end config attempt none = End.emptied
retried_end config attempt (some e) =
    if leb config.max_attempts attempt then End.emptied else End.waiting config e

-- A retry that has taken too long is the last whatever its body would do.
abbrev pub bounded_end : JobRetryConfig → ℕ → Option UserError → Option ℕ → End
bounded_end config attempt failure (some elapsed) = End.emptied
bounded_end config attempt failure none = retried_end config attempt failure

abbrev pub flush_end : DebounceBody → JobWorld → Option JobRetryConfig → End
flush_end body w none = plain_end (failure_of body w.store)
flush_end body w (some config) =
    bounded_end config (attempt_of w) (failure_of body (begun w).store) (elapsed_past config w)

abbrev pub Settles :
    JobEnv
    → DebounceDefinition
    → FlushReason
    → JobWorld
    → ℕ
    → End
    → Outcome DebounceResponse × JobWorld
    → Type 0
Settles env def reason w count End.emptied (r, w') =
    (r ≡ ok (DebounceResponse.flush true count (FlushAnswer.flushed_for reason) (some false)))
    × (w'.store ≡ empty_job_store)
    × (w'.scheduled_time ≡ none)
Settles env def reason w count (End.failed e) (r, w') =
    (r ≡ err (JobError.execution_error JobType.debounce def.name env.instance_id (user_error e)))
    × (w'.store ≡ w.store)
    × (w'.scheduled_time ≡ w.scheduled_time)
Settles env def reason w count (End.waiting config e) (r, w') =
    let time = w.current_time in
    (r ≡ ok (DebounceResponse.flush true count (FlushAnswer.flushed_for reason) (some true)))
    × (w'.store ≡ (retried_at config env (attempt_of w) time (user_error e) (begun w)).store)
    × (w'.scheduled_time ≡ some (time + delay_of env.add_jitter config (attempt_of w)))
