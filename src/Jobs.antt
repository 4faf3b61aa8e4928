-- ===== src/Jobs.antt =====
-- packages/jobs: durable jobs that an instance of a durable object runs. The children hold the
-- services, the handlers and their theorems.
pub mod Errors
pub mod Bodies
pub mod World
pub mod Platform
pub mod Services
pub mod Retry
pub mod Execution
pub mod Debounce
pub mod Continuous
pub mod Task
pub mod Dispatcher
pub mod Reliable
pub mod Outcomes
