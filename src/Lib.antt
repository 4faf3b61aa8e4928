-- ===== src/Lib.antt =====
-- The workflow engine and the durable jobs of this repository: packages/workflow and packages/jobs,
-- with what they take from packages/core. A workflow is a body of steps and sleeps that one
-- durable object runs. When a step is to be retried, or the body sleeps, the run fails with a pause
-- signal, the object's alarm is set, and the alarm runs the body again from its beginning, where
-- the steps that are done answer from the storage.
--
-- The parts, from the storage up, and the files that model them:
--   * the storage, the alarm, the clock and the tracker that the object runs on
--     (packages/workflow/src/adapters/in-memory, packages/core/src/tracker): World, whose `Action`
--     is an effect over these, and World/Storage;
--   * the statuses, the transitions and the matrix of those that are allowed
--     (packages/workflow/src/state/types.ts, transitions.ts): State, State/Transitions;
--   * the state machine, which keeps the status and the record of a workflow's progress
--     (packages/workflow/src/state/machine.ts): Machine, one definition for each operation;
--   * errors, their messages and the pause signal (errors.ts of both packages,
--     primitives/pause-signal.ts): Errors, Messages;
--   * retry delays (packages/core/src/retry/backoff.ts): Retry;
--   * the context of a workflow and of a step (packages/workflow/src/context): Context, StepContext;
--   * `step`, `sleep` and `sleepUntil` (packages/workflow/src/primitives): Step, Sleep; what a user
--     writes with them: Program;
--   * the executor, which runs a body and turns its exit into a result
--     (packages/workflow/src/executor): Executor;
--   * recovery from interruptions (packages/workflow/src/recovery): Recovery;
--   * the purge of finished workflows (packages/workflow/src/purge): Purge;
--   * the orchestrator, whose `start`, `queue`, `handleAlarm` and `cancel` call all of these
--     (packages/workflow/src/orchestrator): Orchestrator;
--   * the methods of the durable object (packages/workflow/src/engine/engine.ts): Engine.
--   * durable jobs (packages/jobs/src): Jobs. An instance of a durable object is a debounce, a
--     continuous job or a task: Jobs/Debounce, Jobs/Continuous, Jobs/Task, the handlers of
--     handlers/*; Jobs/Dispatcher sends requests and alarms to them. They share the run of a body
--     (services/execution.ts): Jobs/Execution; its retries (retry/executor.ts): Jobs/Retry; the
--     alarm, the metadata, the user's state, idempotency and cleanup (services): Jobs/Services; and
--     the platform's storage and alarm (packages/core/src/adapters/durable-object): Jobs/Platform.
--     Jobs/World has the state of an instance and the shape of its effects, Jobs/Bodies what a user
--     writes;
--   * groups of tasks (packages/task-group/src): TaskGroup, with the handlers of RegisteredTask.ts in
--     TaskGroup/Registered, and InMemoryRuntime.ts, which keeps the instances and sends events
--     between them, in TaskGroup/Runtime.
-- The children of each module hold its theorems. World/Outcomes has the rules for what an action
-- leaves when it succeeds and when it fails, World/Keeps those for what it preserves, and
-- World/Reliable the equations of a storage that does not fail. Examples applies the theorems at
-- concrete worlds.
--
-- How the code is read. An effect takes the configuration and the world, and gives a result and the
-- world that it leaves; what was written before a failure stays written. The storage is a record
-- with one field for each key, so that the keys are distinct by construction. It may fail as
-- `createInMemoryStorageWithErrors` says; `IsReliable` is the storage that never does. A scheduler
-- does not fail. Times and durations are natural numbers of milliseconds, already parsed; the clock
-- moves between requests and while a step's effect runs. The delays and the multiplier of a backoff
-- strategy are whole numbers too, where the code takes fractions as well. No request comes in between while another
-- is under way. A step's effect ends with a value or an error; a defect or an interruption can be
-- the end of the whole body only.
--
-- A job's effect may also end with a defect, as the retry executor turns a failure of the storage
-- into one; what catches failures does not catch it. The objects that a run of a job's body shares
-- with its context, the state holder and the schedule holder, are cells of the world. A job's
-- schemas are functions that answer with a value or with issues; its clock is that of the platform
-- and does not run backwards. A call of the platform fails where the environment says so, which may
-- differ from one request to the next.
--
-- Recursion is structural: over a body, a cause, or a list of requests. The only fuel is that of
-- `digits_text` in Messages, one more than the number, which is enough as a number has no more
-- digits than that, and that of the sends in TaskGroup/Runtime, which bounds how deep sends nest:
-- the code has no bound, and a send that passes it is answered as endless.
--
-- Parameters, as fields of `Env`, stand for code that is not of this repository: how the effect
-- library finds the failure in a cause, squashes a cause and cuts an effect short, random jitter,
-- and the stack trace of an error. Their documented behaviour is a hypothesis where it is used.
--
-- Not modelled: the parsing of duration texts, metadata of the user's own, the guards that tell a
-- step's scope from a workflow's (the executor gives both where a body runs), event identifiers and
-- the text form of times, the retries of the adapters that call the platform, the typed clients, the
-- worker pool of the jobs package, which has no handler, and the registry, the runner and the
-- Cloudflare runtime of the package task-group.
mod Prelude
pub mod State
pub mod Errors
pub mod Messages
pub mod Program
pub mod World
pub mod Machine
pub mod Retry
pub mod Recovery
pub mod Purge
pub mod Context
pub mod StepContext
pub mod Sleep
pub mod Step
pub mod Executor
pub mod Orchestrator
pub mod Engine
pub mod Jobs
pub mod TaskGroup
pub mod Examples
