-- ===== src/Service.antt =====
-- The service layer (internal/service).
pub mod Quota
pub mod Admission
pub mod Policy
pub mod Storage
pub mod Tunnels
pub mod Preview
pub mod Exec
pub mod Terminals
pub mod Snapshots
pub mod Reconcile
pub mod Transitions
pub mod Create
pub mod Delete
