-- ===== src/Service/Create/Reserve.antt =====
-- reserveSandboxCreate: the quotas, admission and the insertion, under `admissionMu`.
use or3_sandbox.Base.{Text, codes, pos_part, if◌then◌else◌}
use or3_sandbox.Model.Records.{Sandbox, CreateSandboxRequest, TenantQuota}
use or3_sandbox.Effect.{M, Service, when, ◌>>◌}
use or3_sandbox.Store.Sandboxes.{create_sandbox}
use or3_sandbox.Service.Quota.{check_quota, check_running_quota}
use or3_sandbox.Service.Admission.{AdmissionDelta, enforce_admission}

abbrev pub create_delta : CreateSandboxRequest → AdmissionDelta
create_delta req =
    if req.start
    then record {
      node_sandboxes = 1;
      node_running = 1;
      running_cpu = pos_part req.cpu_limit;
      running_memory = pos_part req.memory_limit_mb;
      tenant_starts = 1;
      tenant_heavy = 1;
    }
    else record {
      node_sandboxes = 1;
      node_running = 0;
      running_cpu = 0;
      running_memory = 0;
      tenant_starts = 0;
      tenant_heavy = 1;
    }

module _ (s : Service) where
  -- func (Service) reserveSandboxCreate
  unfoldable pub reserve_sandbox_create :
      Text → TenantQuota → Sandbox → CreateSandboxRequest → M (Unit {0})
  reserve_sandbox_create tenant_id q x req = do
    check_quota s tenant_id q req
    when req.start (check_running_quota s tenant_id q)
    enforce_admission s tenant_id x.id (codes "create") (create_delta req)
    create_sandbox s x
