-- ===== src/Service/Create.antt =====
-- CreateSandbox (internal/service/service.go): defaults, validation, reservation under the quotas,
-- the runtime's part, and the rollback when it fails.
pub mod Validate
pub mod Reserve
pub mod Run
