-- ===== src/Service/Storage.antt =====
-- refreshStorage, auditStoragePressure and touchSandboxActivity of internal/service/service.go.
use or3_sandbox.Errors.{Result, ok, err, not_found}
use or3_sandbox.Base.{ℕ, ◌+◌, ◌-◌, ◌*◌, Bool, if◌then◌else◌, ◌&&◌, codes, ltb}
use or3_sandbox.Model.Records.{Sandbox, StorageUsage}
use or3_sandbox.Effect.{M, Service, ask, get, when, attempt, pure, fail, ◌>>=◌, ◌>>◌}
use or3_sandbox.Store.Sandboxes.{
  update_sandbox_state, update_storage_usage, storage_usage_updated_at,
}
use or3_sandbox.Store.Audit.{record_audit}

abbrev pub entries : StorageUsage → ℕ
entries u = u.rootfs_entries + u.workspace_entries + u.cache_entries + u.snapshot_entries

module _ (s : Service) where
  -- func (Service) auditStoragePressure
  unfoldable pub audit_storage_pressure : Sandbox → StorageUsage → M (Unit {0})
  audit_storage_pressure x usage =
      when
        (ltb 0 s.cfg.storage_warning_file_count
          && ltb s.cfg.storage_warning_file_count (entries usage))
        (record_audit s x.tenant_id x.id (codes "sandbox.storage_pressure") x.id "ok")

  -- func (Service) refreshStorage; the measurement, by the runtime or by walking the sandbox's
  -- directories, is the environment's.
  unfoldable pub refresh_storage : Sandbox → M (Unit {0})
  refresh_storage x = do
    usage ← ask (λ n. s.env.runtime.measure_storage n x)
    audit_storage_pressure x usage
    update_storage_usage s x.id usage

  -- func (Service) touchSandboxActivity
  unfoldable pub touch_sandbox_activity : Sandbox → M (Unit {0})
  touch_sandbox_activity x = do
    now ← get s.env.now
    update_sandbox_state s (record x { last_active_at = now; updated_at = now })

  -- func (Service) reconcileStorageRefreshInterval, in nanoseconds
  unfoldable pub storage_refresh_interval : ℕ
  storage_refresh_interval =
      if ltb 0 s.cfg.cleanup_interval then s.cfg.cleanup_interval else 5 * 60 * 1_000_000_000

  unfoldable pub refresh_unless_fresh : Sandbox → Result ℕ → M (Unit {0})
  refresh_unless_fresh x (ok updated_at) = do
    now ← get s.env.now
    if ltb (now - updated_at) storage_refresh_interval then pure tt else refresh_storage x
  refresh_unless_fresh x (err not_found) = refresh_storage x
  refresh_unless_fresh x (err e) = fail e

  -- func (Service) refreshStorageIfStale
  unfoldable pub refresh_storage_if_stale : Sandbox → Bool → M (Unit {0})
  refresh_storage_if_stale x force =
      if force
      then refresh_storage x
      else (do r ← attempt (storage_usage_updated_at s x.id); refresh_unless_fresh x r)
