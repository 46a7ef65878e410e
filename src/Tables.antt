-- ===== src/Tables.antt =====
-- The tables of the control-plane database (internal/db/db.go), without the columns that no query
-- of the service reads back. A sandbox's row carries its row of sandbox_runtime_state, which the
-- same transaction inserts under the same primary key.
use or3_sandbox.Base.{ℕ, Text, List}
use or3_sandbox.Model.Records.{
  Sandbox, TenantQuota, Execution, TtySession, Tunnel, TunnelCapability, Snapshot,
  PromotedGuestImage, AuditEvent, StorageUsage,
}

pub record StorageRow : Type 0 where
  pub sandbox_id : Text
  pub usage : StorageUsage
  pub updated_at : ℕ

-- A row of audit_event_counts.
pub record AuditCount : Type 0 where
  pub tenant_id : Text
  pub action : Text
  pub outcome : Text
  pub total : ℕ

pub record Db : Type 0 where
  pub quotas : List TenantQuota
  pub sandboxes : List Sandbox
  pub storage : List StorageRow
  pub executions : List Execution
  pub tty_sessions : List TtySession
  pub tunnels : List Tunnel
  pub tunnel_capabilities : List TunnelCapability
  pub snapshots : List Snapshot
  pub promoted_images : List PromotedGuestImage
  pub audit_events : List AuditEvent
  pub audit_counts : List AuditCount
