-- ===== src/Reconciling.antt =====
-- What Reconcile brings about.
pub mod Loops
pub mod Leftovers
pub mod Statuses
