-- ===== src/Service/Snapshots.antt =====
-- Snapshots (internal/service/service.go).
pub mod Artifacts
pub mod Create
pub mod Restore
