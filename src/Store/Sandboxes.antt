-- ===== src/Store/Sandboxes.antt =====
-- Sandboxes: insert, the two updates, and the reads with `scanSandbox`.
use mathlib.Core.Option
use or3_sandbox.Base.{
  ℕ, Bool, not, ◌&&◌, Text, List, [], ◌∷◌, ◌++◌, Option, none, some, eq_text, if◌then◌else◌, update,
  select, find, any, map,
}
use or3_sandbox.Store.Columns.{join_string_list, split_string_list}
use or3_sandbox.Errors.{Result, ok, err, not_found}
use or3_sandbox.Model.Status.{is_deleted}
use or3_sandbox.Model.Selection.{
  RuntimeClass, selection_name, parse_runtime_selection, resolve_runtime_selection, runtime_class,
}
use or3_sandbox.Model.Records.{Sandbox, RuntimeState, StorageUsage}
use or3_sandbox.Tables.{Db}
use or3_sandbox.Effect.{M, Service, query, transact, transact_always, get, ◌>>=◌}

abbrev pub has_id : Text → Sandbox → Bool
has_id sandbox_id row = eq_text row.id sandbox_id

abbrev pub has_key : Text → Text → Sandbox → Bool
has_key tenant_id sandbox_id row = eq_text row.id sandbox_id && eq_text row.tenant_id tenant_id

abbrev class_or : RuntimeClass → RuntimeClass → RuntimeClass
class_or RuntimeClass.unset derived = derived
class_or stored derived = stored

-- func scanSandbox, on a row whose times parse.
unfoldable pub scan_sandbox : Sandbox → Sandbox
unfolding join_string_list split_string_list resolve_runtime_selection parse_runtime_selection
scan_sandbox row =
    let selection =
      resolve_runtime_selection (parse_runtime_selection (selection_name row.runtime_selection))
        row.runtime_backend in
    record row {
      features = split_string_list (join_string_list row.features);
      capabilities = split_string_list (join_string_list row.capabilities);
      runtime_selection = selection;
      runtime_class = class_or row.runtime_class (runtime_class selection);
    }

abbrev pub no_usage : StorageUsage
no_usage = record {
  rootfs_bytes = 0;
  workspace_bytes = 0;
  cache_bytes = 0;
  snapshot_bytes = 0;
  rootfs_entries = 0;
  workspace_entries = 0;
  cache_entries = 0;
  snapshot_entries = 0;
}

-- The rows that `CreateSandbox` inserts.
unfoldable pub insert_sandbox : Sandbox → Db → Option Db
insert_sandbox sandbox db =
    if any (has_id sandbox.id) db.sandboxes
    then none
    else some (record db {
      sandboxes =
          db.sandboxes ++ (record sandbox { last_runtime_error = []; deleted_at = none } ∷ []);
      storage =
          db.storage
          ++ (record { sandbox_id = sandbox.id; usage = no_usage; updated_at = sandbox.created_at }
              ∷ []);
    })

-- The columns of `sandboxes` that `UpdateSandboxState` sets.
abbrev pub set_state : Sandbox → Sandbox → Sandbox
set_state new row = record row {
  status = new.status;
  base_image_ref = new.base_image_ref;
  profile = new.profile;
  features = new.features;
  capabilities = new.capabilities;
  control_mode = new.control_mode;
  control_protocol_version = new.control_protocol_version;
  workspace_contract_version = new.workspace_contract_version;
  image_contract_version = new.image_contract_version;
  cpu_limit = new.cpu_limit;
  memory_limit_mb = new.memory_limit_mb;
  pids_limit = new.pids_limit;
  disk_limit_mb = new.disk_limit_mb;
  network_mode = new.network_mode;
  allow_tunnels = new.allow_tunnels;
  updated_at = new.updated_at;
  last_active_at = new.last_active_at;
  deleted_at = new.deleted_at;
}

-- The columns of `sandbox_runtime_state` that both updates set.
abbrev pub set_runtime : RuntimeState → Sandbox → Sandbox
set_runtime state row = record row {
  runtime_id = state.runtime_id;
  runtime_status = state.status;
  last_runtime_error = state.error;
}

unfoldable pub update_state_rows : Sandbox → List Sandbox → List Sandbox
update_state_rows new rows =
    update (has_id new.id)
      (set_runtime (record {
        runtime_id = new.runtime_id;
        status = new.runtime_status;
        error = new.last_runtime_error;
      }))
      (update (has_key new.tenant_id new.id) (set_state new) rows)

unfoldable pub update_runtime_rows : Text → RuntimeState → List Sandbox → List Sandbox
update_runtime_rows sandbox_id state rows = update (has_id sandbox_id) (set_runtime state) rows

abbrev pub found {ℓ} : {A : Type ℓ} → Option A → Result A
found none = err not_found
found (some a) = ok a

unfoldable pub lookup_sandbox : Text → Text → Db → Result Sandbox
unfolding scan_sandbox
lookup_sandbox tenant_id sandbox_id db =
    found (Option.map scan_sandbox (find (has_key tenant_id sandbox_id) db.sandboxes))

module _ (s : Service) where
  -- func (Store) CreateSandbox
  unfoldable pub create_sandbox : Sandbox → M (Unit {0})
  create_sandbox sandbox = transact s (insert_sandbox sandbox)

  -- func (Store) UpdateSandboxState
  unfoldable pub update_sandbox_state : Sandbox → M (Unit {0})
  update_sandbox_state sandbox =
      transact_always s (λ db. record db { sandboxes = update_state_rows sandbox db.sandboxes })

  -- func (Store) UpdateRuntimeState
  unfoldable pub update_runtime_state : Text → RuntimeState → M (Unit {0})
  update_runtime_state sandbox_id state =
      transact_always s
        (λ db. record db { sandboxes = update_runtime_rows sandbox_id state db.sandboxes })

  -- func (Store) GetSandbox
  unfoldable pub get_sandbox : Text → Text → M Sandbox
  get_sandbox tenant_id sandbox_id = query s (lookup_sandbox tenant_id sandbox_id)

  -- func (Store) ListNonDeletedSandboxes
  unfoldable pub list_non_deleted_sandboxes : M (List Sandbox)
  list_non_deleted_sandboxes =
      query s
        (λ db. ok (map scan_sandbox (select (λ row. not (is_deleted row.status)) db.sandboxes)))

  -- func (Store) UpdateStorageUsage
  unfoldable pub update_storage_usage : Text → StorageUsage → M (Unit {0})
  update_storage_usage sandbox_id usage = do
    now ← get s.env.now
    transact_always s (λ db. record db {
      storage =
          update (λ row. eq_text row.sandbox_id sandbox_id)
            (λ row. record row { usage = usage; updated_at = now }) db.storage;
    })

  -- func (Store) StorageUsageUpdatedAt, on a row whose time parses
  unfoldable pub storage_usage_updated_at : Text → M ℕ
  storage_usage_updated_at sandbox_id = query s (λ db. found (
      Option.map (λ row. row.updated_at)
        (find (λ row. eq_text row.sandbox_id sandbox_id) db.storage)))
