-- ===== src/Examples.antt =====
-- Concrete services, databases and calls.
pub mod Fixtures
pub mod Runs
pub mod Lifecycle
pub mod Stored
pub mod Work
pub mod Callers
pub mod Snapshots
