-- ===== src/Store.antt =====
-- The repository (internal/repository/store.go): one function for each method that the modelled
-- parts of the service call, each an SQL statement or a transaction over the tables.
pub mod Columns
pub mod Sandboxes
pub mod Usage
pub mod Audit
pub mod Tunnels
pub mod Executions
pub mod Terminals
pub mod Snapshots
