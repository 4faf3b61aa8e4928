-- ===== src/Examples/JobFixtures.antt =====
-- A concrete job instance: definitions of a debounce and of a task, and the worlds that its handlers
-- are applied at.
use durable_effect.Prelude.{refl, String, true, false, none, some, [], str_eq, if◌then◌else◌}
use durable_effect.State.{Unknown}
use durable_effect.Program.{RetryDelay}
use durable_effect.Jobs.Errors.{JobType}
use durable_effect.Jobs.Bodies.{
  ContinuousBody, ContinuousSchedule, ContinuousDefinition, Schema, valid, invalid, When, UserError,
  JobRetryConfig, DebounceBody, DebounceDefinition, TaskBody, TaskDefinition,
}
use durable_effect.Jobs.World.{
  JobStatus, JobMetadata, JobStore, empty_job_store, JobWorld, JobEnv, clean_schedule,
}
use durable_effect.Jobs.Debounce.{DebounceRequest, DebounceAction}
use durable_effect.Jobs.Debounce.Collecting.{Codec}

-- a schema that writes a state as it is
abbrev pub text : Schema
text = record { tag = "String"; decode = λ x. valid x; encode = λ x. valid x }

abbrev pub text-Codec : Codec text
text-Codec = record { written = λ x. x; encodes = λ s. refl; decodes = λ s. refl }

-- a schema that refuses one event
abbrev pub picky : Schema
picky = record {
  tag = "String";
  decode = λ x. if str_eq x "bad" then invalid "issues" else valid x;
  encode = λ x. valid x;
}

abbrev pub boom : UserError
boom = UserError.plain "boom" none

-- three attempts, a second apart
abbrev pub three_attempts : JobRetryConfig
three_attempts = record {
  max_attempts = 3;
  delay = some (RetryDelay.duration 1000);
  jitter = some false;
  max_duration = none;
}

-- a debounce that keeps its last event, and fails when it is flushed
abbrev pub digest : DebounceDefinition
digest = record {
  name = "digest";
  event_schema = picky;
  state_schema = text;
  flush_after = When.duration 5000;
  max_events = some 10;
  retry = none;
  execute = λ context. DebounceBody.wait 20 (DebounceBody.fail boom);
  on_event = λ context. context.event;
}

-- a task that sets its state
abbrev pub report : TaskDefinition
report = record {
  name = "report";
  state_schema = text;
  event_schema = text;
  on_event = λ event context. TaskBody.schedule (When.duration 100) TaskBody.done;
  execute = λ context. TaskBody.set_state "sent" TaskBody.done;
  on_idle = some (λ trigger. TaskBody.terminate);
  on_error = none;
}

-- a job that polls every minute, and writes its state
abbrev pub poll : ContinuousDefinition
poll = record {
  name = "poll";
  state_schema = text;
  schedule = ContinuousSchedule.every (When.duration 60000);
  start_immediately = none;
  retry = some three_attempts;
  execute = λ context.
      ContinuousBody.wait 30 (ContinuousBody.update_state (λ s. "polled") ContinuousBody.done);
}

abbrev pub job_env : JobEnv
job_env = record {
  instance_id = "instance";
  registry = record {
    continuous = λ name. if str_eq name "poll" then some poll else none;
    debounce = λ name. if str_eq name "digest" then some digest else none;
    task = λ name. if str_eq name "report" then some report else none;
  };
  faults = none;
  add_jitter = λ delay. delay;
}

-- the platform whose storage fails whenever it is used
abbrev pub broken_env : JobEnv
broken_env = record job_env {
  faults = some (record { storage = λ op key. true; scheduler = λ op. false });
}

abbrev pub job_world : JobStore → JobWorld
job_world s = record {
  store = s;
  scheduled_time = none;
  current_time = 1000;
  events = [];
  holder = record { current = none; dirty = false };
  schedule_holder = clean_schedule;
}

abbrev pub no_job : JobWorld
no_job = job_world empty_job_store

abbrev pub running : JobType → String → JobMetadata
running type name = record {
  type = type;
  name = name;
  status = JobStatus.running;
  created_at = 1000;
  updated_at = 1000;
  id = some "id";
  stop_reason = none;
}

-- a debounce with two events
abbrev pub two_events : JobWorld
two_events = job_world (record empty_job_store {
  meta = some (running JobType.debounce "digest");
  state = some "second";
  event_count = some 2;
  started_at = some 500;
})

-- a task that is due
abbrev pub due : JobWorld
due = job_world (record empty_job_store {
  meta = some (running JobType.task "report");
  state = some "draft";
  created_at = some 400;
  scheduled_at = some 900;
  execute_count = some 1;
})

abbrev pub add : Unknown → DebounceRequest
add event = record { action = DebounceAction.add; name = "digest"; id = "id"; event = event }
