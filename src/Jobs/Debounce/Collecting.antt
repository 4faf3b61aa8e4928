-- ===== src/Jobs/Debounce/Collecting.antt =====
-- The events of a debounce that is not full, on a platform that does not fail.
use durable_effect.Prelude.{ℕ, ◌+◌, ◌≡◌, refl, sym, false, Option, none, some, or_else}
use durable_effect.State.{Unknown}
use durable_effect.Jobs.Errors.{JobType, JobError}
use durable_effect.Jobs.Bodies.{Schema, Checked, valid, invalid, DebounceDefinition}
use durable_effect.Jobs.World.{
  JobStatus, JobMetadata, JobStore, JobWorld, JobEnv, IsReliable, ok, err, asks, ◌>>=◌,
}
use durable_effect.Jobs.Platform.{now, emit_event}
use durable_effect.Jobs.Services.Alarm
use durable_effect.Jobs.Services.Alarm.{timestamp_of}
use durable_effect.Jobs.Services.Metadata
use durable_effect.Jobs.Services.EntityState
use durable_effect.Jobs.Reliable.{
  get-reliable, put-reliable, set_alarm-reliable, get_alarm-reliable,
}
use durable_effect.Jobs.Debounce.{
  DebounceRequest, get_event_count, set_event_count, set_started_at, create, validated, start_timer,
  is_full, reduce, handle_add,
}

-- A schema that accepts every state and reads back what it has written.
pub record Codec (schema : Schema) : Type 0 where
  pub written : Unknown → Unknown
  pub encodes : (s : Unknown) → schema.encode s ≡ valid (written s)
  pub decodes : (s : Unknown) → schema.decode (written s) ≡ valid s

-- What a debounce has collected: the state and the number of events.
pub record Collected : Type 0 where
  pub state : Option Unknown
  pub count : ℕ

-- An event that the schema accepts is reduced into the state and counted; another changes nothing.
abbrev pub absorb_checked : JobEnv → DebounceDefinition → Collected → Checked → Collected
absorb_checked env def c (invalid issues) = c
absorb_checked env def c (valid event) = record {
  state = some (
      def.on_event (record {
        event = event;
        state = or_else c.state event;
        event_count = c.count + 1;
        instance_id = env.instance_id;
      }));
  count = c.count + 1;
}

abbrev pub absorb : JobEnv → DebounceDefinition → Collected → Unknown → Collected
absorb env def c event = absorb_checked env def c (def.event_schema.decode event)

abbrev pub nothing : Collected
nothing = record { state = none; count = 0 }

-- the alarm after the first event of an instance
abbrev pub first_alarm : DebounceDefinition → JobWorld → Checked → Option ℕ
first_alarm def w (valid event) = some (timestamp_of def.flush_after w.current_time)
first_alarm def w (invalid issues) = w.scheduled_time

abbrev pub written_state : {schema : Schema} → Codec schema → Option Unknown → Option Unknown
written_state codec none = none
written_state codec (some s) = some (codec.written s)

-- the store holds what has been collected
pub record Models {schema : Schema} (codec : Codec schema) (c : Collected) (s : JobStore)
    : Type 0 where
  pub state : s.state ≡ written_state codec c.state
  pub count : s.event_count ≡ some c.count

module _ (env : JobEnv) (reliable : IsReliable env) (def : DebounceDefinition)
    (codec : Codec def.state_schema) where
  read_state :
      (o : Option Unknown) (w : JobWorld)
      → EntityState.decoded def.state_schema (written_state codec o) env w ≡ (ok o, w)
  unfolding EntityState.decoded EntityState.checked ◌>>=◌
  read_state none w = refl
  read_state (some s) w = simp (codec.decodes)

  -- the store after an event
  abbrev absorbed : JobStore → Collected → JobStore
  absorbed s c = record s { state = written_state codec c.state; event_count = some c.count }

  reduce-valid :
      (request : DebounceRequest) (c : Collected) (event : Unknown) (w : JobWorld)
      → Models codec c w.store
      → def.event_schema.decode request.event ≡ valid event
      → reduce def request env w ≡ (
        ok (c.count + 1),
        record w { store = absorbed w.store (absorb_checked env def c (valid event)) },
      )
  unfolding reduce EntityState.get_state EntityState.set_state EntityState.checked get_event_count
      set_event_count validated asks ◌>>=◌
  reduce-valid request c event w m e = simp (
    get-reliable env reliable,
    put-reliable env reliable,
    m.state,
    m.count,
    read_state,
    e,
    codec.encodes,
  )

  reduce-invalid :
      (request : DebounceRequest) (c : Collected) (issues : Unknown) (w : JobWorld)
      → Models codec c w.store
      → def.event_schema.decode request.event ≡ invalid issues
      → reduce def request env w ≡ (
        err (
            JobError.execution_error JobType.debounce def.name env.instance_id
              (JobError.parse_error issues)),
        w,
      )
  unfolding reduce EntityState.get_state get_event_count validated asks ◌>>=◌
  reduce-invalid request c issues w m e = simp (get-reliable env reliable, m.state, read_state, e)

  -- what an event leaves of an instance that is there
  pub record Kept (w w' : JobWorld) (c : Collected) : Type 0 where
    pub models : Models codec c w'.store
    pub alarm : w'.scheduled_time ≡ w.scheduled_time
    pub meta : w'.store.meta ≡ w.store.meta
    pub started : w'.store.started_at ≡ w.store.started_at

  pub add_existing :
      (request : DebounceRequest) (c : Collected) (m : JobMetadata) (checked : Checked)
      (w : JobWorld)
      → w.store.meta ≡ some m
      → Models codec c w.store
      → is_full def.max_events (c.count + 1) ≡ false
      → def.event_schema.decode request.event ≡ checked
      → Kept w (handle_add def request env w).1 (absorb_checked env def c checked)
  unfolding handle_add Metadata.get_meta Alarm.get_scheduled asks ◌>>=◌
  add_existing request c m (valid event) w p k full e =
      simp
        (
          get-reliable env reliable,
          get_alarm-reliable env reliable,
          p,
          reduce-valid request c event w k e,
          full,
        )
        (record {
          models = record { state = refl; count = refl };
          alarm = refl;
          meta = sym p;
          started = refl;
        })
  add_existing request c m (invalid issues) w p k full e =
      simp (get-reliable env reliable, p, reduce-invalid request c issues w k e)
        (record { models = k; alarm = refl; meta = refl; started = refl })

  -- the first event of an instance
  pub record Begun (w w' : JobWorld) (checked : Checked) : Type 0 where
    pub models : Models codec (absorb_checked env def nothing checked) w'.store
    pub alarm : w'.scheduled_time ≡ first_alarm def w checked
    pub meta : (m : JobMetadata) × (w'.store.meta ≡ some m)
    pub started : w'.store.started_at ≡ some w.current_time

  -- the world after an instance has been created
  abbrev created : JobWorld → DebounceRequest → JobWorld
  created w request = record w {
    store = record w.store {
      meta = some (record {
        type = JobType.debounce;
        name = request.name;
        status = JobStatus.running;
        created_at = w.current_time;
        updated_at = w.current_time;
        id = some request.id;
        stop_reason = none;
      });
      started_at = some w.current_time;
      event_count = some 0;
    };
  }

  create-reliable :
      (request : DebounceRequest) (w : JobWorld) → create request env w ≡ (ok tt, created w request)
  unfolding create Metadata.initialize Metadata.update_status Metadata.write_meta set_started_at
      set_event_count now ◌>>=◌
  create-reliable request w = simp (get-reliable env reliable, put-reliable env reliable)

  created-Models :
      (request : DebounceRequest) (w : JobWorld)
      → w.store.state ≡ none
      → Models codec nothing (created w request).store
  created-Models request w q = record { state = q; count = refl }

  pub add_first :
      (request : DebounceRequest) (checked : Checked) (w : JobWorld)
      → w.store.meta ≡ none
      → w.store.state ≡ none
      → is_full def.max_events 1 ≡ false
      → def.event_schema.decode request.event ≡ checked
      → Begun w (handle_add def request env w).1 checked
  unfolding handle_add start_timer Metadata.get_meta Alarm.get_scheduled Alarm.schedule asks now
      emit_event ◌>>=◌
  add_first request (valid event) w p q full e =
      let r =
        reduce-valid request nothing event (created w request) (created-Models request w q) e in
      simp (get-reliable env reliable, p, create-reliable, r)
        (simp (set_alarm-reliable env reliable, get_alarm-reliable env reliable, full)
          (record {
            models = record { state = refl; count = refl };
            alarm = refl;
            meta = (_, refl);
            started = refl;
          }))
  add_first request (invalid issues) w p q full e =
      let r =
        reduce-invalid request nothing issues (created w request) (created-Models request w q) e in
      simp (get-reliable env reliable, p, create-reliable, r)
        (record {
          models = created-Models request w q;
          alarm = refl;
          meta = (_, refl);
          started = refl;
        })
