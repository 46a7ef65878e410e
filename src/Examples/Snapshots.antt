-- ===== src/Examples/Snapshots.antt =====
-- Snapshots at concrete calls.
use or3_sandbox.Base.{true, ◌≡◌, refl, [], ◌∷◌, codes, eq_text}
use or3_sandbox.Model.Status.{SandboxStatus, SnapshotStatus}
use or3_sandbox.Model.Records.{Sandbox, Snapshot}
use or3_sandbox.Effect.{World, Service, query, transact, attempt, ask, ◌>>=◌, pure, fail}
use or3_sandbox.Effect.Splits.{Outcome}
use or3_sandbox.Store.Sandboxes.{
  get_sandbox, lookup_sandbox, scan_sandbox, update_sandbox_state, update_runtime_state,
  update_state_rows, update_runtime_rows, update_storage_usage,
}
use or3_sandbox.Store.Columns.{join_string_list, split_string_list}
use or3_sandbox.Store.Snapshots.{get_snapshot, scan_snapshot}
use or3_sandbox.Store.Tunnels.{
  list_tunnels, revoke_tunnel_row, revoke_rows, revoke_tunnel_capabilities, revoke_capability_rows,
}
use or3_sandbox.Store.Audit.{record_audit, add_audit_event, insert_event, count_event}
use or3_sandbox.Model.Selection.{resolve_runtime_selection, parse_runtime_selection, eq_selection}
use or3_sandbox.Model.Guest.{eq_profile}
use or3_sandbox.Service.Admission.{enforce_admission}
use or3_sandbox.Service.Delete.{or_zero}
use or3_sandbox.Service.Storage.{refresh_storage, audit_storage_pressure}
use or3_sandbox.Service.Policy.Images.{enforce_promoted_image_policy}
use or3_sandbox.Service.Policy.Lifecycle.{sandbox_selection}
use or3_sandbox.Service.Tunnels.{revoke_active_tunnels, revoke_each, revoke_one}
use or3_sandbox.Service.Snapshots.Create.{new_snapshot, completed_snapshot, build_snapshot}
use or3_sandbox.Service.Snapshots.Artifacts.{
  ensure_snapshot_artifacts, have_local, verify_checksum, verified, looks_like_filesystem_path,
}
use or3_sandbox.Service.Snapshots.Restore.{
  snapshot_selection, mismatched, validate_snapshot_compatibility, or_deny, or_audit, stop_target,
  finish_restore, restore_snapshot,
}
use or3_sandbox.Snapshots.Building.{Stored, build_snapshot-Outcome}
use or3_sandbox.Snapshots.Restoring.{restore_snapshot-AtRest}
use or3_sandbox.Outcome.Calls.{AtRest}
use or3_sandbox.Examples.Fixtures.{
  service, alice, bob, box_a, box_b, world, database, sandbox_of, good_environment,
}

abbrev taken : Snapshot
taken =
    new_snapshot alice (sandbox_of alice box_a SandboxStatus.running) (codes "before")
      (codes "snap-1") 3

abbrev taken_stopped : Snapshot
taken_stopped =
    new_snapshot bob (sandbox_of bob box_b SandboxStatus.stopped) (codes "before") (codes "snap-2")
      3

abbrev snapshot_world : World
snapshot_world = record world {
  db = record database { snapshots = taken ∷ completed_snapshot 4 taken_stopped ∷ [] };
}

-- The host makes no directory for the snapshot.
abbrev full_disk : Service
full_disk = record service { env = record good_environment { host_fails = λ n. true } }

build_snapshot-Outcome_example :
    Outcome
      (λ y db.
        (y.status ≡ SnapshotStatus.ready) × Stored alice (codes "snap-1") SnapshotStatus.ready db)
      (Stored alice (codes "snap-1") SnapshotStatus.error)
      (build_snapshot full_disk alice box_a
        (sandbox_of alice box_a SandboxStatus.running)
        taken
        snapshot_world).0
      (build_snapshot full_disk alice box_a
        (sandbox_of alice box_a SandboxStatus.running)
        taken
        snapshot_world).1.db
build_snapshot-Outcome_example =
    build_snapshot-Outcome full_disk alice box_a (sandbox_of alice box_a SandboxStatus.running)
      taken snapshot_world (λ n. refl) refl

abbrev restored_box : Sandbox
restored_box = or_zero (restore_snapshot service bob (codes "snap-2") box_b snapshot_world).0

restore_snapshot-AtRest_example :
    AtRest bob box_b SandboxStatus.stopped restored_box
      (restore_snapshot service bob (codes "snap-2") box_b snapshot_world).1.db
unfolding eq_text restore_snapshot get_snapshot scan_snapshot get_sandbox lookup_sandbox
    scan_sandbox query ◌>>=◌ pure fail attempt ask enforce_admission validate_snapshot_compatibility
    mismatched snapshot_selection sandbox_selection eq_selection eq_profile
    enforce_promoted_image_policy or_deny or_audit ensure_snapshot_artifacts have_local
    verify_checksum verified looks_like_filesystem_path stop_target finish_restore
    update_sandbox_state update_runtime_state update_state_rows update_runtime_rows transact
    refresh_storage audit_storage_pressure update_storage_usage record_audit add_audit_event
    insert_event count_event revoke_active_tunnels list_tunnels revoke_each revoke_one
    revoke_tunnel_row revoke_rows revoke_tunnel_capabilities revoke_capability_rows join_string_list
    split_string_list resolve_runtime_selection parse_runtime_selection
restore_snapshot-AtRest_example =
    restore_snapshot-AtRest service bob (codes "snap-2") box_b snapshot_world restored_box refl refl
