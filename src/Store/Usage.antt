-- ===== src/Store/Usage.antt =====
-- Quotas, and what a tenant uses of them.
use or3_sandbox.Base.{
  ℕ, ◌+◌, ◌^◌, Bool, not, ◌&&◌, ◌||◌, Text, Option, none, some, eq_text, select, find, length,
  sum_by, leb, is_null, if◌then◌else◌,
}
use or3_sandbox.Errors.{Result, ok, err, integer_overflow}
use or3_sandbox.Model.Status.{is_deleted, is_running, is_execution_running}
use or3_sandbox.Model.Records.{Sandbox, TenantQuota, StorageUsage}
use or3_sandbox.Tables.{Db, StorageRow}
use or3_sandbox.Effect.{M, Service, query}
use or3_sandbox.Store.Sandboxes.{found, no_usage}

pub record TenantUsage : Type 0 where
  pub sandboxes : ℕ
  pub running_sandboxes : ℕ
  pub concurrent_execs : ℕ
  pub active_tunnels : ℕ
  pub requested_cpu : ℕ
  pub requested_memory : ℕ
  pub requested_storage : ℕ
  pub actual_storage_bytes : ℕ
  pub actual_storage_entries : ℕ

-- `WHERE s.tenant_id = ? AND s.status != 'deleted'`
abbrev pub counts_for : Text → Sandbox → Bool
counts_for tenant_id row = eq_text row.tenant_id tenant_id && not (is_deleted row.status)

abbrev usage_or_zero : Option StorageRow → StorageUsage
usage_or_zero none = no_usage
usage_or_zero (some row) = row.usage

-- The row that the LEFT JOIN finds, or zeros.
abbrev storage_of : Db → Sandbox → StorageUsage
storage_of db row = usage_or_zero (find (λ r. eq_text r.sandbox_id row.id) db.storage)

abbrev bytes : StorageUsage → ℕ
bytes u = u.rootfs_bytes + u.workspace_bytes + u.cache_bytes + u.snapshot_bytes

abbrev entries : StorageUsage → ℕ
entries u = u.rootfs_entries + u.workspace_entries + u.cache_entries + u.snapshot_entries

-- The columns of the query, before SQLite checks its sums.
unfoldable pub usage_of : Text → Db → TenantUsage
usage_of tenant_id db =
    let rows = select (counts_for tenant_id) db.sandboxes in
    record {
      sandboxes = length rows;
      running_sandboxes = length (select (λ row. is_running row.status) rows);
      concurrent_execs = length (
          select (λ e. eq_text e.tenant_id tenant_id && is_execution_running e.status)
            db.executions);
      active_tunnels =
          length (select (λ t. eq_text t.tenant_id tenant_id && is_null t.revoked_at) db.tunnels);
      requested_cpu = sum_by (λ row. row.cpu_limit) rows;
      requested_memory = sum_by (λ row. row.memory_limit_mb) rows;
      requested_storage = sum_by (λ row. row.disk_limit_mb) rows;
      actual_storage_bytes = sum_by (λ row. bytes (storage_of db row)) rows;
      actual_storage_entries = sum_by (λ row. entries (storage_of db row)) rows;
    }

-- SUM raises an error when an integer sum leaves the 64-bit range.
abbrev pub overflows : TenantUsage → Bool
overflows u =
    leb (2 ^ 63) u.requested_cpu
    || leb (2 ^ 63) u.requested_memory
    || leb (2 ^ 63) u.requested_storage
    || leb (2 ^ 63) u.actual_storage_bytes
    || leb (2 ^ 63) u.actual_storage_entries

unfoldable pub checked_usage : TenantUsage → Result TenantUsage
checked_usage u = if overflows u then err integer_overflow else ok u

module _ (s : Service) where
  -- func (Store) TenantUsage
  unfoldable pub tenant_usage : Text → M TenantUsage
  tenant_usage tenant_id = query s (λ db. checked_usage (usage_of tenant_id db))

  -- func (Store) GetQuota
  unfoldable pub get_quota : Text → M TenantQuota
  get_quota tenant_id = query s (λ db. found (find (λ q. eq_text q.tenant_id tenant_id) db.quotas))
