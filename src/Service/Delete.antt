-- ===== src/Service/Delete.antt =====
-- DeleteSandbox (internal/service/service.go).
use or3_sandbox.Base.{ℕ, Bool, true, false, not, Text, [], none, some, codes, if◌then◌else◌}
use or3_sandbox.Errors.{Result, ok, err}
use or3_sandbox.Paths.{join}
use or3_sandbox.Model.Status.{SandboxStatus, NetworkMode, is_live}
use or3_sandbox.Model.Selection.{RuntimeSelection, RuntimeClass}
use or3_sandbox.Model.Guest.{GuestProfile, GuestControlMode}
use or3_sandbox.Model.Records.{Sandbox}
use or3_sandbox.Effect.{M, Service, ask, get, attempt, ignore, pure, when, remove_all, ◌>>=◌, ◌>>◌}
use or3_sandbox.Store.Sandboxes.{get_sandbox, update_sandbox_state}
use or3_sandbox.Store.Audit.{record_audit}
use or3_sandbox.Service.Tunnels.{revoke_active_tunnels}
use or3_sandbox.Service.Transitions.{in_transition, record_failure, stop_sandbox}

-- model.Sandbox{}, what GetSandbox returns beside an error.
abbrev pub zero_sandbox : Sandbox
zero_sandbox = record {
  id = [];
  tenant_id = [];
  status = SandboxStatus.unset;
  runtime_selection = RuntimeSelection.unknown [];
  runtime_backend = [];
  runtime_class = RuntimeClass.unset;
  base_image_ref = [];
  profile = GuestProfile.unknown [];
  features = [];
  capabilities = [];
  control_mode = GuestControlMode.unknown [];
  control_protocol_version = [];
  workspace_contract_version = [];
  image_contract_version = [];
  cpu_limit = 0;
  memory_limit_mb = 0;
  pids_limit = 0;
  disk_limit_mb = 0;
  network_mode = NetworkMode.unset;
  allow_tunnels = false;
  storage_root = [];
  workspace_root = [];
  cache_root = [];
  runtime_id = [];
  runtime_status = SandboxStatus.unset;
  last_runtime_error = [];
  created_at = 0;
  updated_at = 0;
  last_active_at = 0;
  deleted_at = none;
}

abbrev pub or_zero : Result Sandbox → Sandbox
or_zero (ok x) = x
or_zero (err e) = zero_sandbox

abbrev pub deleted : ℕ → Sandbox → Sandbox
deleted now x = record x {
  status = SandboxStatus.deleted;
  runtime_status = SandboxStatus.deleted;
  updated_at = now;
  last_active_at = now;
  deleted_at = some now;
}

module _ (s : Service) where
  -- `sandbox, _ = s.store.GetSandbox(…)`: the error is dropped.
  unfoldable pub reread : Text → Text → M Sandbox
  reread tenant_id sandbox_id = do
    r ← attempt (get_sandbox s tenant_id sandbox_id)
    pure (or_zero r)

  -- A running or suspended sandbox is stopped by force first.
  unfoldable pub stop_if_live : Text → Sandbox → Text → M Sandbox
  stop_if_live tenant_id x sandbox_id =
      if is_live x.status
      then stop_sandbox s tenant_id sandbox_id true >> reread tenant_id sandbox_id
      else pure x

  -- The end of DeleteSandbox, once the runtime has destroyed the sandbox.
  unfoldable pub finish_delete : Text → Sandbox → Bool → M (Unit {0})
  finish_delete tenant_id x preserve_snapshots = do
    remove_all s (join s.cfg.storage_root x.id)
    when (not preserve_snapshots) (ignore (remove_all s (join s.cfg.snapshot_root x.id)))
    now ← get s.env.now
    update_sandbox_state s (deleted now x)
    record_audit s tenant_id x.id (codes "sandbox.delete") x.id "ok"

  unfoldable pub settle_delete : Text → Sandbox → Bool → Result (Unit {0}) → M (Unit {0})
  settle_delete tenant_id x preserve (err e) =
      record_failure s tenant_id x (codes "sandbox.delete") e
  settle_delete tenant_id x preserve (ok tt) = finish_delete tenant_id x preserve

  -- func (Service) DeleteSandbox
  unfoldable pub delete_sandbox : Text → Text → Bool → M (Unit {0})
  delete_sandbox tenant_id sandbox_id preserve_snapshots = do
    found ← get_sandbox s tenant_id sandbox_id
    revoke_active_tunnels s tenant_id found
    x ← stop_if_live tenant_id found sandbox_id
    now ← get s.env.now
    update_sandbox_state s (in_transition SandboxStatus.deleting now x)
    answer ←
        attempt (ask (λ n. s.env.runtime.destroy n (in_transition SandboxStatus.deleting now x)))
    settle_delete tenant_id (in_transition SandboxStatus.deleting now x) preserve_snapshots answer
