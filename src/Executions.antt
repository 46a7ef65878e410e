-- ===== src/Executions.antt =====
-- Executions and their previews.
pub mod Preview
pub mod Slots
pub mod Closing
