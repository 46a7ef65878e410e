-- ===== src/Isolation.antt =====
-- Tenants do not touch one another's rows.
pub mod Rows
pub mod Store
pub mod Others
pub mod Own
pub mod Calls
pub mod Keys
pub mod Sequences
