-- ===== src/Outcome.antt =====
-- What a lifecycle call of internal/service/service.go leaves behind where it succeeds.
pub mod Marks
pub mod Steps
pub mod Calls
pub mod Revoke
