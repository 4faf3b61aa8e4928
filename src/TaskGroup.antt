-- ===== src/TaskGroup.antt =====
-- packages/task-group/src: a group of tasks that send each other events, and the runtime that keeps
-- their instances in memory. World has the instances and the effects over them, Registered the
-- handlers of a task (RegisteredTask.ts), Runtime the runtime (InMemoryRuntime.ts).
pub mod World
pub mod Registered
pub mod Runtime
pub mod Handled
pub mod Coherent
