-- ===== src/Jobs/Dispatcher/Forgotten.antt =====
-- The alarm of a debounce without retries whose body fails, on a platform that does not fail.
use durable_effect.Prelude.{
  ℕ, ◌+◌, ◌≢◌, ◌≡◌, refl, ◌∙◌, ap, false, none, some, List, [], ◌∷◌, length,
}
use mathlib.Core.Path.{subst}
use durable_effect.State.{Unknown}
use durable_effect.Jobs.Errors.{JobType, JobError}
use durable_effect.Jobs.Bodies.{UserError, user_error, FlushReason, DebounceDefinition}
use durable_effect.Jobs.World.{
  JobMetadata, is_over, JobStore, JobWorld, JobEnv, IsReliable, Outcome, ok, err, die, asks,
  catch_all, ◌>>=◌, ◌>>◌,
}
use durable_effect.Jobs.Services.Metadata
use durable_effect.Jobs.Reliable.{get-reliable}
use durable_effect.Jobs.Retry.{is_retrying, get_attempt}
use durable_effect.Jobs.Retry.Attempts.{no_retry, reset-reliable}
use durable_effect.Jobs.Debounce
use durable_effect.Jobs.Debounce.{
  DebounceRequest, get_definition, found, is_full, handle_flush, flush_on_alarm, alarm_meta,
  wrapped, wrap_platform,
}
use durable_effect.Jobs.Debounce.Body.{failure_of}
use durable_effect.Jobs.Debounce.Ends.{Holds, body_of, Settles, End, flush_end, plain_end}
use durable_effect.Jobs.Debounce.Flushing.{handle_flush-Settles}
use durable_effect.Jobs.Debounce.Collecting.{Codec, Collected, Models, written_state}
use durable_effect.Jobs.Debounce.Sequences.{adds, collect, adds-Kept}
use durable_effect.Jobs.Dispatcher.{
  dispatch_alarm, alarm_for, alarm_of, fire_alarm, unless_failed, fire_repeated,
}
use durable_effect.Jobs.Retry.Exhaustion.{later}

-- A running debounce of this definition, which is not being retried.
pub record IsRunning (env : JobEnv) (def : DebounceDefinition) (m : JobMetadata) (w : JobWorld)
    : Type 0 where
  pub has_meta : w.store.meta ≡ some m
  pub type : m.type ≡ JobType.debounce
  pub status : is_over m.status ≡ false
  pub registered : env.registry.debounce m.name ≡ some def
  pub fresh : w.store.retry_attempt ≡ none

module _ (env : JobEnv) (reliable : IsReliable env) (def : DebounceDefinition) where
  -- the world that the flush of an alarm begins with
  abbrev pub alarmed : JobWorld → JobWorld
  alarmed w = record w { store = no_retry w.store; scheduled_time = none }

  fire_alarm-flush :
      (m : JobMetadata) (w : JobWorld)
      → IsRunning env def m w
      → fire_alarm env w
        ≡ wrapped "unknown"
            (handle_flush def FlushReason.flush_after >> (λ env' v. (ok tt, v)))
            env
            (alarmed w)
  unfolding fire_alarm dispatch_alarm alarm_for alarm_of Debounce.handle_alarm alarm_meta
      get_definition found flush_on_alarm is_retrying get_attempt wrapped Metadata.get_meta asks
      catch_all ◌>>=◌
  fire_alarm-flush m w r = simp (
    get-reliable env reliable,
    r.has_meta,
    r.type,
    r.status,
    r.registered,
    r.fresh,
    reset-reliable env reliable,
  )

  -- what is collected, and the state of it
  holds :
      (codec : Codec def.state_schema) (c : Collected) (s : Unknown) (m : JobMetadata)
      (w : JobWorld)
      → w.store.meta ≡ some m
      → Models codec c w.store
      → c.state ≡ some s
      → c.count ≢ 0
      → Holds def (alarmed w)
  holds codec c s m w p k q n = record {
    meta = m;
    count = c.count;
    raw = codec.written s;
    state = s;
    has_meta = p;
    has_count = k.count;
    some_events = n;
    has_state = k.state ∙ ap (written_state codec) q;
    decodes = codec.decodes s;
  }

  -- the flush fails with the failure of the body and changes nothing
  flush_failed :
      {w : JobWorld} (h : Holds def w) (u : UserError)
      → def.retry ≡ none
      → failure_of (body_of env def FlushReason.flush_after w h.state) w.store ≡ some u
      → Settles env def FlushReason.flush_after w h.count
          (End.failed u)
          (handle_flush def FlushReason.flush_after env w)
  flush_failed {w} h u plain f =
      let body = body_of env def FlushReason.flush_after w h.state in
      subst
        (λ e.
          Settles env def FlushReason.flush_after w h.count e
            (handle_flush def FlushReason.flush_after env w))
        (ap (flush_end body w) plain ∙ ap plain_end f)
        (handle_flush-Settles env reliable def FlushReason.flush_after w h)

  fire_alarm-failed :
      (m : JobMetadata) (u : UserError) (w : JobWorld)
      → IsRunning env def m w
      → (handle_flush def FlushReason.flush_after env (alarmed w)).0
        ≡ err (JobError.execution_error JobType.debounce def.name env.instance_id (user_error u))
      → fire_alarm env w ≡ (
        err (JobError.execution_error JobType.debounce def.name env.instance_id (user_error u)),
        (handle_flush def FlushReason.flush_after env (alarmed w)).1,
      )
  unfolding wrapped wrap_platform asks catch_all ◌>>=◌
  fire_alarm-failed m u w r e = fire_alarm-flush m w r ∙ rw e refl

  -- what is collected, and why every flush fails
  record IsStuck (codec : Codec def.state_schema) (c : Collected) (s : Unknown) (m : JobMetadata)
      (u : UserError) (w : JobWorld) : Type 0 where
    running : IsRunning env def m w
    models : Models codec c w.store
    has_state : c.state ≡ some s
    some_events : c.count ≢ 0
    plain : def.retry ≡ none
    fails :
        (v : JobWorld)
        → v.store ≡ no_retry w.store
        → failure_of (body_of env def FlushReason.flush_after v s) v.store ≡ some u

  -- the failure that such an alarm ends with, and that all else is as it was
  record Fails (u : UserError) (store : JobStore) (r : Outcome (Unit {0}) × JobWorld) : Type 0 where
    failure :
        r.0
        ≡ err (JobError.execution_error JobType.debounce def.name env.instance_id (user_error u))
    kept : r.1.store ≡ no_retry store
    alarm : r.1.scheduled_time ≡ none

  module _ (codec : Codec def.state_schema) (c : Collected) (s : Unknown) (m : JobMetadata)
      (u : UserError) where
    fire_alarm-Fails : (w : JobWorld) → IsStuck codec c s m u w → Fails u w.store (fire_alarm env w)
    unfolding holds
    fire_alarm-Fails w k =
        let h = holds codec c s m w k.running.has_meta k.models k.has_state k.some_events in
        let flushed = flush_failed h u k.plain (k.fails (alarmed w) refl) in
        rw (fire_alarm-failed m u w k.running flushed.0)
          (record { failure = refl; kept = flushed.1; alarm = flushed.2 })

    -- it is still stuck when it is repeated
    Fails-IsStuck :
        (w v : JobWorld)
        → IsStuck codec c s m u w
        → v.store ≡ no_retry w.store
        → IsStuck codec c s m u v
    Fails-IsStuck w v k e = record {
      running = record {
        has_meta = ap (λ (x : JobStore). x.meta) e ∙ k.running.has_meta;
        type = k.running.type;
        status = k.running.status;
        registered = k.running.registered;
        fresh = ap (λ (x : JobStore). x.retry_attempt) e;
      };
      models = record {
        state = ap (λ (x : JobStore). x.state) e ∙ k.models.state;
        count = ap (λ (x : JobStore). x.event_count) e ∙ k.models.count;
      };
      has_state = k.has_state;
      some_events = k.some_events;
      plain = k.plain;
      fails = λ v' e'. k.fails v' (e' ∙ ap no_retry e);
    }

    again_after :
        (first again : Outcome (Unit {0}) × JobWorld) (store : JobStore)
        → Fails u store first
        → unless_failed first again ≡ again
    again_after (ok a, w) again store f = let e = f.failure in cc
    again_after (err x, w) again store f = refl
    again_after (die x, w) again store f = refl

    fire_repeated-Fails :
        (waits : List ℕ) (w : JobWorld)
        → IsStuck codec c s m u w
        → Fails u w.store (fire_repeated waits env w)
    unfolding fire_repeated
    fire_repeated-Fails [] w k = fire_alarm-Fails w k
    fire_repeated-Fails (wait ∷ waits) w k =
        let one = fire_alarm-Fails w k in
        let v = later wait (fire_alarm env w).1 in
        let rest = fire_repeated-Fails waits v (Fails-IsStuck w v k one.kept) in
        rw (again_after (fire_alarm env w) (fire_repeated waits env v) w.store one) (record {
          failure = rest.failure;
          kept = rest.kept ∙ ap no_retry one.kept;
          alarm = rest.alarm;
        })

  -- On a platform that does not fail, take a debounce without retries that holds events, and whose
  -- body fails, with the same failure, whenever it is run on them. The alarm that flushes it, with any
  -- number of repeats by the platform, each after any wait, ends with that failure and everything
  -- stays in the storage. No alarm is set then, and none is set by any further events after the last
  -- repeat that leave it below its maximum, which are collected as before.
  pub failed_alarm-adds :
      (codec : Codec def.state_schema) (c : Collected) (s : Unknown) (m : JobMetadata)
      (u : UserError) (waits : List ℕ) (rs : List (ℕ × DebounceRequest)) (w : JobWorld)
      → IsRunning env def m w
      → Models codec c w.store
      → c.state ≡ some s
      → c.count ≢ 0
      → def.retry ≡ none
      → ((v : JobWorld)
          → v.store ≡ no_retry w.store
          → failure_of (body_of env def FlushReason.flush_after v s) v.store ≡ some u)
      → is_full def.max_events (c.count + length rs) ≡ false
      → let after = fire_repeated waits env w in
        (after.0
          ≡ err (JobError.execution_error JobType.debounce def.name env.instance_id (user_error u)))
        × (after.1.store ≡ no_retry w.store)
        × (after.1.scheduled_time ≡ none)
        × ((adds env def rs after.1).scheduled_time ≡ none)
        × Models codec (collect env def rs c) (adds env def rs after.1).store
  failed_alarm-adds codec c s m u waits rs w r k q n plain f full =
      let stuck : IsStuck codec c s m u w = record {
        running = r;
        models = k;
        has_state = q;
        some_events = n;
        plain = plain;
        fails = f;
      } in
      let after = fire_repeated-Fails codec c s m u waits w stuck in
      let v = (fire_repeated waits env w).1 in
      let still = Fails-IsStuck codec c s m u w v stuck after.kept in
      let kept =
        adds-Kept env reliable def codec rs c m v still.running.has_meta still.models full in
      (after.failure, after.kept, after.alarm, kept.1 ∙ after.alarm, kept.0)
