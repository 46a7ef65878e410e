-- ===== src/Model.antt =====
-- The control plane's data (internal/model): statuses, runtime selections, guest profiles, CPU
-- quantities and the records that the store keeps.
pub mod Status
pub mod Selection
pub mod Guest
pub mod Records
pub mod Cpu
