-- ===== src/Service/Quota.antt =====
-- checkQuota and checkRunningQuota of internal/service/service.go.
use or3_sandbox.Base.{Bool, false, not, ◌&&◌, Text, Option, none, some, leb, pos_part, exceeds64}
use or3_sandbox.Errors.{quota, sandboxes, cpu, memory, storage, tunnel_policy, running}
use or3_sandbox.Model.Records.{CreateSandboxRequest, TenantQuota}
use or3_sandbox.Effect.{M, Service, guard, ◌>>=◌, ◌>>◌}
use or3_sandbox.Store.Usage.{tenant_usage}

-- `req.AllowTunnels != nil && *req.AllowTunnels`
abbrev pub asks_tunnels : Option Bool → Bool
asks_tunnels none = false
asks_tunnels (some b) = b

module _ (s : Service) where
  -- func (Service) checkQuota. The limits of the request are positive: validateCreate comes first.
  unfoldable pub check_quota : Text → TenantQuota → CreateSandboxRequest → M (Unit {0})
  check_quota tenant_id q req = do
    usage ← tenant_usage s tenant_id
    guard (leb q.max_sandboxes usage.sandboxes) (quota sandboxes)
    guard (exceeds64 usage.requested_cpu (pos_part req.cpu_limit) q.max_cpu_cores) (quota cpu)
    guard (exceeds64 usage.requested_memory (pos_part req.memory_limit_mb) q.max_memory_mb)
        (quota memory)
    guard (exceeds64 usage.requested_storage (pos_part req.disk_limit_mb) q.max_storage_mb)
        (quota storage)
    guard (asks_tunnels req.allow_tunnels && not q.allow_tunnels) (quota tunnel_policy)

  -- func (Service) checkRunningQuota
  unfoldable pub check_running_quota : Text → TenantQuota → M (Unit {0})
  check_running_quota tenant_id q = do
    usage ← tenant_usage s tenant_id
    guard (leb q.max_running_sandboxes usage.running_sandboxes) (quota running)
