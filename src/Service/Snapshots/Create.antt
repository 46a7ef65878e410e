-- ===== src/Service/Snapshots/Create.antt =====
-- CreateSnapshot (internal/service/service.go). What the source keeps in the variable `snapshot` is
-- passed from step to step, so that a failure stores what the variable holds by then.
use or3_sandbox.Base.{ℕ, not, ◌&&◌, Text, [], none, some, codes, eq_text, is_empty, if◌then◌else◌}
use or3_sandbox.Errors.{Result, ok, err, Error, invalid, snapshot_stopped, snapshot_artifact}
use or3_sandbox.Paths.{join}
use or3_sandbox.Model.Status.{SnapshotStatus, is_stopped}
use or3_sandbox.Model.Selection.{backend, backend_name, is_qemu}
use or3_sandbox.Model.Records.{Sandbox, Snapshot}
use or3_sandbox.Effect.{
  M, Service, ask, get, attempt, call, ignore, fail, guard, pure, when, remove_all, ◌>>=◌, ◌>>◌,
}
use or3_sandbox.Store.Sandboxes.{get_sandbox}
use or3_sandbox.Store.Snapshots.{create_snapshot_row, update_snapshot}
use or3_sandbox.Store.Audit.{new_id, record_audit}
use or3_sandbox.Service.Admission.{AdmissionDelta, enforce_admission}
use or3_sandbox.Service.Policy.Lifecycle.{sandbox_selection}
use or3_sandbox.Service.Storage.{refresh_storage}
use or3_sandbox.Service.Snapshots.Artifacts.{
  looks_like_filesystem_path, snapshot_dir, export_snapshot_bundle,
}

-- `admissionDelta{tenantHeavy: 1}`
abbrev pub heavy_delta : AdmissionDelta
heavy_delta = record {
  node_sandboxes = 0;
  node_running = 0;
  running_cpu = 0;
  running_memory = 0;
  tenant_starts = 0;
  tenant_heavy = 1;
}

abbrev pub new_snapshot : Text → Sandbox → Text → Text → ℕ → Snapshot
new_snapshot tenant_id x name id now = record {
  id = id;
  sandbox_id = x.id;
  tenant_id = tenant_id;
  name = if is_empty name then id else name;
  status = SnapshotStatus.creating;
  image_ref = [];
  runtime_selection = sandbox_selection x;
  runtime_backend = backend_name (backend (sandbox_selection x));
  profile = x.profile;
  image_contract_version = x.image_contract_version;
  control_protocol_version = x.control_protocol_version;
  workspace_contract_version = x.workspace_contract_version;
  workspace_tar = [];
  bundle_sha256 = [];
  export_location = [];
  created_at = now;
  completed_at = none;
}

abbrev pub failed_snapshot : Snapshot → Snapshot
failed_snapshot x = record x { status = SnapshotStatus.error }

abbrev pub completed_snapshot : ℕ → Snapshot → Snapshot
completed_snapshot now x = record x { status = SnapshotStatus.ready; completed_at = some now }

module _ (s : Service) (tenant_id sandbox_id : Text) (x : Sandbox) where
  -- failSnapshot, the closure of CreateSnapshot
  unfoldable pub fail_snapshot : {A : Type 0} → Snapshot → Error → M A
  fail_snapshot snapshot e = do
    ignore (remove_all s (snapshot_dir s.cfg x snapshot.id))
    ignore (update_snapshot s (failed_snapshot snapshot))
    record_audit s tenant_id sandbox_id (codes "snapshot.create") snapshot.id "error"
    fail e

  unfoldable pub settle_stage : {A : Type 0} → Snapshot → Result A → M A
  settle_stage snapshot (ok a) = pure a
  settle_stage snapshot (err e) = fail_snapshot snapshot e

  -- `if err != nil { return failSnapshot(err) }`
  unfoldable pub stage : {A : Type 0} → Snapshot → M A → M A
  stage snapshot m = do r ← attempt m; settle_stage snapshot r

  -- copyFile, then os.Remove of the original, unless the artifact stands where it belongs
  unfoldable pub move_artifact : Snapshot → Text → Text → M (Unit {0})
  move_artifact snapshot target path =
      when (not (eq_text path target))
        (do stage snapshot (call s.env.host_fails); ignore (call s.env.host_fails))

  unfoldable pub place_image : Snapshot → Text → M Snapshot
  place_image snapshot path =
      if not (looks_like_filesystem_path path)
      then pure (record snapshot { image_ref = path })
      else (do
        readable ← get (λ n. s.env.is_readable_file n path)
        stage snapshot (guard (not readable) (invalid snapshot_artifact))
        move_artifact snapshot (join (snapshot_dir s.cfg x snapshot.id) (codes "rootfs.img")) path
        pure (record snapshot {
          image_ref = join (snapshot_dir s.cfg x snapshot.id) (codes "rootfs.img");
        }))

  unfoldable pub place_workspace : Snapshot → Text → M Snapshot
  place_workspace snapshot path =
      if is_empty path then pure (record snapshot { workspace_tar = path }) else (do
        move_artifact snapshot (join (snapshot_dir s.cfg x snapshot.id) (codes "workspace.tar.gz"))
            path
        pure (record snapshot {
          workspace_tar = join (snapshot_dir s.cfg x snapshot.id) (codes "workspace.tar.gz");
        }))

  unfoldable pub add_checksum : Snapshot → M Snapshot
  add_checksum snapshot =
      if not (is_empty snapshot.workspace_tar) && looks_like_filesystem_path snapshot.workspace_tar
      then (do
        sum ← stage snapshot (ask (λ n. s.env.file_sha256 n snapshot.workspace_tar))
        pure (record snapshot { bundle_sha256 = sum }))
      else pure snapshot

  unfoldable pub export_bundle : Snapshot → M Snapshot
  export_bundle snapshot = if is_empty s.cfg.optional_snapshot_export then pure snapshot else (do
    location ← stage snapshot (export_snapshot_bundle s x snapshot)
    pure (record snapshot { export_location = location }))

  -- CreateSnapshot from the runtime's call on: every error goes through failSnapshot.
  unfoldable pub build_snapshot : Snapshot → M Snapshot
  build_snapshot new = do
    info ← stage new (ask (λ n. s.env.runtime.create_snapshot n x new.id))
    stage new (call s.env.host_fails)
    imaged ← place_image new info.image_ref
    placed ← place_workspace imaged info.workspace_tar
    now ← get s.env.now
    summed ← add_checksum (completed_snapshot now placed)
    exported ← export_bundle summed
    stage exported (update_snapshot s exported)
    stage exported (refresh_storage s x)
    record_audit s tenant_id sandbox_id (codes "snapshot.create") exported.id "ok"
    pure exported

module _ (s : Service) where
  -- func (Service) CreateSnapshot
  unfoldable pub create_snapshot : Text → Text → Text → M Snapshot
  create_snapshot tenant_id sandbox_id name = do
    x ← get_sandbox s tenant_id sandbox_id
    enforce_admission s tenant_id x.id (codes "snapshot_create") heavy_delta
    guard (is_qemu (backend (sandbox_selection x)) && not (is_stopped x.status))
        (invalid snapshot_stopped)
    id ← new_id s "snap-"
    now ← get s.env.now
    create_snapshot_row s (new_snapshot tenant_id x name id now)
    build_snapshot s tenant_id sandbox_id x (new_snapshot tenant_id x name id now)
