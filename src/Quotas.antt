-- ===== src/Quotas.antt =====
-- What the quota checks of internal/service/service.go ensure.
pub mod Check
pub mod Reserve
pub mod Overflow
pub mod Running
pub mod Tunnels
pub mod Reserved
pub mod Counted
