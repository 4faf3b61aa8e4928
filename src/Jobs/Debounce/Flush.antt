-- ===== src/Jobs/Debounce/Flush.antt =====
-- packages/jobs/src/handlers/debounce/handler.ts: the run of the body and what follows it.
use durable_effect.Prelude.{
  ℕ, ◌-◌, String, true, false, not, ◌&&◌, Option, none, some, or_else, ◌==◌, if◌then◌else◌,
}
use durable_effect.Jobs.Errors.{JobType}
use durable_effect.Jobs.Bodies.{user_error, DebounceBody, DebounceDefinition, FlushReason}
use durable_effect.Jobs.World.{or_die, JobEventBody, FlushedReason, Eff, pure, raise, ◌>>=◌, ◌>>◌}
use durable_effect.Jobs.Platform.{now, elapse, emit_event}
use durable_effect.Jobs.Services.{purge}
use durable_effect.Jobs.Execution.{
  ContextBase, ExecuteOptions, ExecutionResult, execute, holder_state,
}
use durable_effect.Jobs.Debounce.Record.{get_event_count, get_started_at}

-- the user's body, whose reads of the storage cannot fail but by a defect
unfoldable pub run_body : DebounceBody → Eff (Unit {0})
run_body DebounceBody.done = pure tt
run_body (DebounceBody.fail e) = raise (user_error e)
run_body (DebounceBody.wait ms k) = do elapse ms; run_body k
run_body (DebounceBody.event_count k) = do count ← or_die get_event_count; run_body (k count)
run_body (DebounceBody.debounce_started_at k) = do
  time ← or_die get_started_at
  run_body (k (or_else time 0))

-- the context of a flush, with the state as it is when the run begins
unfoldable pub run_flush_body : DebounceDefinition → FlushReason → ContextBase → Eff (Unit {0})
run_flush_body def flush_reason base = do
  state ← holder_state
  time ← now
  run_body (
      def.execute (record {
        state = state;
        instance_id = base.instance_id;
        execution_started_at = time;
        flush_reason = flush_reason;
        attempt = base.attempt;
        is_retry = base.is_retry;
      }))

unfoldable pub flush_options : DebounceDefinition → FlushReason → Option String → ExecuteOptions
flush_options def flush_reason id = record {
  job_type = JobType.debounce;
  job_name = def.name;
  schema = def.state_schema;
  retry_config = def.retry;
  run_count = some 0;
  allow_null_state = false;
  id = id;
  include_state_in_events = true;
  run = run_flush_body def flush_reason;
}

unfoldable pub run_flush : DebounceDefinition → FlushReason → Option String → Eff ExecutionResult
run_flush def flush_reason id = execute (flush_options def flush_reason id)

-- `startedAt ? Date.now() - startedAt : 0`
unfoldable pub duration_since : Option ℕ → ℕ → ℕ
duration_since none time = 0
duration_since (some started_at) time = if started_at == 0 then 0 else time - started_at

abbrev pub flushed_reason : FlushReason → FlushedReason
flushed_reason FlushReason.max_events = FlushedReason.max_events
flushed_reason FlushReason.flush_after = FlushedReason.timeout
flushed_reason FlushReason.manual = FlushedReason.manual

-- What follows a flush: a success is told and purged; a run that was terminated has been purged
-- already; one that is retried keeps its data; any other is purged.
unfoldable pub settle_flush :
    DebounceDefinition → Option String → ℕ → FlushReason → ℕ → ExecutionResult → Eff (Unit {0})
settle_flush def id event_count reason duration_ms r =
    if r.success
    then (do
      emit_event JobType.debounce def.name id
          (JobEventBody.debounce_flushed event_count (flushed_reason reason) duration_ms)
      purge)
    else if r.terminated
    then pure tt
    else if not r.retry_scheduled && not r.rescheduled
    then purge
    else pure tt

-- the flush of the collected events, with how long they were collected
unfoldable pub flush_now :
    DebounceDefinition → Option String → ℕ → FlushReason → Eff ExecutionResult
flush_now def id event_count reason = do
  started_at ← get_started_at
  time ← now
  r ← run_flush def reason id
  settle_flush def id event_count reason (duration_since started_at time) r
  pure r
