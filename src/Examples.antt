-- ===== src/Examples.antt =====
-- Instances of the theorems at concrete worlds, by component, over the object of `Fixtures`.
pub mod Fixtures
pub mod Machine
pub mod Steps
pub mod Runs
pub mod JobFixtures
pub mod Jobs
pub mod Groups
