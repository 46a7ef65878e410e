-- ===== src/Snapshots.antt =====
-- Snapshots: how a creation ends, and what a restore leaves.
pub mod Building
pub mod Restoring
