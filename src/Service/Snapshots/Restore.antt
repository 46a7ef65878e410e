-- ===== src/Service/Snapshots/Restore.antt =====
-- RestoreSnapshot and validateSnapshotCompatibility (internal/service/service.go).
use or3_sandbox.Base.{
  Bool, true, not, ◌&&◌, ◌||◌, Text, [], codes, eq_text, is_empty, if◌then◌else◌, ℕ,
}
use or3_sandbox.Errors.{Result, ok, err, invalid, snapshot_mismatch}
use or3_sandbox.Model.Status.{SandboxStatus, is_live}
use or3_sandbox.Model.Selection.{
  RuntimeSelection, backend, backend_name, is_qemu, is_named, eq_selection, runtime_class,
  resolve_runtime_selection,
}
use or3_sandbox.Model.Guest.{is_named as is_profile_named, eq_profile}
use or3_sandbox.Model.Records.{Sandbox, Snapshot, RuntimeState}
use or3_sandbox.Effect.{M, Service, ask, get, attempt, fail, guard, pure, ◌>>=◌, ◌>>◌}
use or3_sandbox.Store.Sandboxes.{get_sandbox, update_sandbox_state, update_runtime_state}
use or3_sandbox.Store.Snapshots.{get_snapshot}
use or3_sandbox.Store.Audit.{record_audit}
use or3_sandbox.Service.Admission.{enforce_admission}
use or3_sandbox.Service.Policy.Images.{snapshot_restore, no_contract, enforce_promoted_image_policy}
use or3_sandbox.Service.Policy.Lifecycle.{sandbox_selection}
use or3_sandbox.Service.Storage.{refresh_storage}
use or3_sandbox.Service.Tunnels.{revoke_active_tunnels}
use or3_sandbox.Service.Transitions.{stop_sandbox}
use or3_sandbox.Service.Delete.{reread}
use or3_sandbox.Service.Snapshots.Artifacts.{ensure_snapshot_artifacts}
use or3_sandbox.Service.Snapshots.Create.{heavy_delta}

-- func resolvedSnapshotRuntimeSelection
unfoldable pub snapshot_selection : Snapshot → RuntimeSelection
unfolding resolve_runtime_selection
snapshot_selection x = resolve_runtime_selection x.runtime_selection x.runtime_backend

abbrev differ : Text → Text → Bool
differ a b = not (is_empty a) && not (is_empty b) && not (eq_text a b)

-- The conditions of validateSnapshotCompatibility that compare the two records.
unfoldable pub mismatched : Snapshot → Sandbox → Bool
unfolding snapshot_selection sandbox_selection eq_selection eq_profile eq_text
mismatched snapshot x =
    let a = snapshot_selection snapshot in
    let b = sandbox_selection x in
    (is_named a && is_named b && not (eq_selection a b))
    || (not (is_named a)
        && not (is_empty snapshot.runtime_backend)
        && not (eq_text snapshot.runtime_backend (backend_name (backend b))))
    || (is_profile_named snapshot.profile
        && is_profile_named x.profile
        && not (eq_profile snapshot.profile x.profile))
    || differ snapshot.workspace_contract_version x.workspace_contract_version

-- The image that a restore would run.
abbrev pub restore_image : Snapshot → Sandbox → Text
restore_image snapshot x =
    if is_qemu (backend (sandbox_selection x)) then x.base_image_ref else snapshot.image_ref

-- The sandbox after the restore; its class is that of its resolved selection.
abbrev pub restored : Snapshot → RuntimeState → ℕ → Sandbox → Sandbox
restored snapshot state now x = record x {
  status = SandboxStatus.stopped;
  runtime_selection = sandbox_selection x;
  runtime_class = runtime_class (sandbox_selection x);
  runtime_status = state.status;
  profile = snapshot.profile;
  image_contract_version = snapshot.image_contract_version;
  control_protocol_version = snapshot.control_protocol_version;
  workspace_contract_version = snapshot.workspace_contract_version;
  base_image_ref =
      if is_qemu (backend (resolve_runtime_selection (sandbox_selection x) x.runtime_backend))
      then x.base_image_ref
      else snapshot.image_ref;
  updated_at = now;
}

module _ (s : Service) where
  -- func (Service) validateSnapshotCompatibility
  unfoldable pub validate_snapshot_compatibility : Snapshot → Sandbox → M (Unit {0})
  validate_snapshot_compatibility snapshot x = do
    guard (mismatched snapshot x) (invalid snapshot_mismatch)
    enforce_promoted_image_policy s x.tenant_id x.id (sandbox_selection x)
        (restore_image snapshot x) snapshot_restore no_contract

  -- `if err != nil { s.recordAudit(…); return … }`
  unfoldable pub or_audit : {A : Type 0} → Text → Text → Text → Result A → M A
  or_audit tenant_id sandbox_id snapshot_id (ok a) = pure a
  or_audit tenant_id sandbox_id snapshot_id (err e) = do
    record_audit s tenant_id sandbox_id (codes "snapshot.restore") snapshot_id "error"
    fail e

  -- The same for a snapshot that does not fit.
  unfoldable pub or_deny : Text → Text → Text → Result (Unit {0}) → M (Unit {0})
  or_deny tenant_id sandbox_id snapshot_id (ok tt) = pure tt
  or_deny tenant_id sandbox_id snapshot_id (err e) = do
    record_audit s tenant_id sandbox_id (codes "snapshot.restore") snapshot_id "denied"
    fail e

  -- A running or suspended target is stopped by force first.
  unfoldable pub stop_target : Text → Sandbox → Text → M Sandbox
  stop_target tenant_id x snapshot_id =
      if is_live x.status
      then (do
        r ← attempt (stop_sandbox s tenant_id x.id true)
        or_audit tenant_id x.id snapshot_id r
        reread s tenant_id x.id)
      else pure x

  -- The end of RestoreSnapshot, once the runtime has restored.
  unfoldable pub finish_restore : Text → Snapshot → Sandbox → RuntimeState → M Sandbox
  finish_restore tenant_id snapshot x state = do
    now ← get s.env.now
    update_sandbox_state s (restored snapshot state now x)
    update_runtime_state s x.id state
    refresh_storage s (restored snapshot state now x)
    record_audit s tenant_id x.id (codes "snapshot.restore") snapshot.id "ok"
    revoke_active_tunnels s tenant_id (restored snapshot state now x)
    get_sandbox s tenant_id x.id

  -- func (Service) RestoreSnapshot. The assignment of ensureSnapshotArtifacts has emptied `snapshot`
  -- when its error is recorded.
  unfoldable pub restore_snapshot : Text → Text → Text → M Sandbox
  restore_snapshot tenant_id snapshot_id target_sandbox_id = do
    stored ← get_snapshot s tenant_id snapshot_id
    x ← get_sandbox s tenant_id target_sandbox_id
    enforce_admission s tenant_id x.id (codes "snapshot_restore") heavy_delta
    fits ← attempt (validate_snapshot_compatibility stored x)
    or_deny tenant_id x.id stored.id fits
    fetched ← attempt (ensure_snapshot_artifacts s x stored)
    snapshot ← or_audit tenant_id x.id [] fetched
    target ← stop_target tenant_id x snapshot.id
    answer ← attempt (ask (λ n. s.env.runtime.restore_snapshot n target snapshot))
    state ← or_audit tenant_id target.id snapshot.id answer
    finish_restore tenant_id snapshot target state
