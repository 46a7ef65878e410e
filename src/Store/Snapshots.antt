-- ===== src/Store/Snapshots.antt =====
-- Snapshots and promoted guest images.
use or3_sandbox.Base.{
  ℕ, Bool, ◌&&◌, Text, List, [], ◌∷◌, ◌++◌, Option, none, some, eq_text, select, update, any, find,
  map, length, if◌then◌else◌,
}
use mathlib.Core.Option
use or3_sandbox.Errors.{ok}
use or3_sandbox.Model.Status.{is_snapshot_creating}
use or3_sandbox.Model.Selection.{selection_name, parse_runtime_selection, resolve_runtime_selection}
use or3_sandbox.Model.Records.{Snapshot, PromotedGuestImage}
use or3_sandbox.Tables.{Db}
use or3_sandbox.Effect.{M, Service, query, transact, transact_always}
use or3_sandbox.Store.Sandboxes.{found}

-- func scanSnapshot, on a row whose times parse.
unfoldable pub scan_snapshot : Snapshot → Snapshot
unfolding resolve_runtime_selection parse_runtime_selection
scan_snapshot row = record row {
  runtime_selection =
      resolve_runtime_selection (parse_runtime_selection (selection_name row.runtime_selection))
        row.runtime_backend;
}

unfoldable pub insert_snapshot : Snapshot → Db → Option Db
insert_snapshot x db =
    if any (λ row. eq_text row.id x.id) db.snapshots
    then none
    else some (record db { snapshots = db.snapshots ++ (x ∷ []) })

-- The columns that `UpdateSnapshot` sets.
abbrev pub set_snapshot : Snapshot → Snapshot → Snapshot
set_snapshot x row = record row {
  status = x.status;
  image_ref = x.image_ref;
  runtime_selection = x.runtime_selection;
  runtime_backend = x.runtime_backend;
  profile = x.profile;
  image_contract_version = x.image_contract_version;
  control_protocol_version = x.control_protocol_version;
  workspace_contract_version = x.workspace_contract_version;
  workspace_tar = x.workspace_tar;
  bundle_sha256 = x.bundle_sha256;
  export_location = x.export_location;
  completed_at = x.completed_at;
}

abbrev pub snapshot_key : Text → Text → Snapshot → Bool
snapshot_key tenant_id snapshot_id row =
    eq_text row.id snapshot_id && eq_text row.tenant_id tenant_id

unfoldable pub update_snapshot_rows : Snapshot → List Snapshot → List Snapshot
update_snapshot_rows x rows = update (snapshot_key x.tenant_id x.id) (set_snapshot x) rows

module _ (s : Service) where
  -- func (Store) CreateSnapshot
  unfoldable pub create_snapshot_row : Snapshot → M (Unit {0})
  create_snapshot_row x = transact s (insert_snapshot x)

  -- func (Store) UpdateSnapshot
  unfoldable pub update_snapshot : Snapshot → M (Unit {0})
  update_snapshot x =
      transact_always s (λ db. record db { snapshots = update_snapshot_rows x db.snapshots })

  -- func (Store) GetSnapshot
  unfoldable pub get_snapshot : Text → Text → M Snapshot
  get_snapshot tenant_id snapshot_id = query s (λ db. found (
      Option.map scan_snapshot
        (find (λ row. eq_text row.tenant_id tenant_id && eq_text row.id snapshot_id) db.snapshots)))

  -- func (Store) ListSnapshotsByStatus, at the status that the service asks for: creating.
  unfoldable pub list_creating_snapshots : M (List Snapshot)
  list_creating_snapshots =
      query s
        (λ db. ok (map scan_snapshot (select (λ x. is_snapshot_creating x.status) db.snapshots)))

  -- func (Store) SnapshotCounts of a tenant, at the status that the service reads: creating.
  unfoldable pub count_creating_snapshots : Text → M ℕ
  count_creating_snapshots tenant_id = query s (λ db. ok (
      length (
        select (λ x. eq_text x.tenant_id tenant_id && is_snapshot_creating x.status) db.snapshots)))

  -- func (Store) GetPromotedGuestImage
  unfoldable pub get_promoted_guest_image : Text → M PromotedGuestImage
  get_promoted_guest_image image_ref =
      query s (λ db. found (find (λ row. eq_text row.image_ref image_ref) db.promoted_images))
