-- ===== src/Examples/Lifecycle.antt =====
-- Stopping, suspending, starting and resuming concrete sandboxes.
use or3_sandbox.Base.{◌≡◌, codes, [], ◌∷◌, ◌<◌, inl, true, refl, eq_text}
use or3_sandbox.Model.Status.{SandboxStatus}
use or3_sandbox.Model.Selection.{resolve_runtime_selection, parse_runtime_selection, eq_selection}
use or3_sandbox.Effect.{World, query, transact, ◌>>=◌, pure, fail, attempt, ask}
use or3_sandbox.Store.Sandboxes.{
  get_sandbox, lookup_sandbox, scan_sandbox, update_sandbox_state, update_runtime_state,
  update_state_rows, update_runtime_rows, update_storage_usage,
}
use or3_sandbox.Store.Columns.{join_string_list, split_string_list}
use or3_sandbox.Store.Audit.{record_audit, add_audit_event, insert_event, count_event}
use or3_sandbox.Store.Tunnels.{
  list_tunnels, revoke_tunnel_row, revoke_rows, revoke_tunnel_capabilities, revoke_capability_rows,
}
use or3_sandbox.Service.Storage.{refresh_storage, audit_storage_pressure}
use or3_sandbox.Service.Tunnels.{revoke_active_tunnels, revoke_each, revoke_one}
use or3_sandbox.Service.Admission.{enforce_admission}
use or3_sandbox.Service.Policy.Lifecycle.{
  enforce_lifecycle_policy, enforce_sandbox_policy, sandbox_selection,
}
use or3_sandbox.Service.Policy.Docker.{
  enforce_docker_create_policy, settle_capabilities, scan_capabilities, is_denied_feature,
}
use or3_sandbox.Service.Policy.Profiles.{enforce_guest_profile_policy}
use or3_sandbox.Service.Policy.Images.{
  runtime_image_allowed, image_allowed, enforce_promoted_image_policy,
}
use or3_sandbox.Model.Guest.{normalize_features, normalize_capabilities}
use or3_sandbox.Config.{is_dangerous_guest_profile}
use or3_sandbox.Service.Delete.{or_zero}
use or3_sandbox.Store.Usage.{usage_of, tenant_usage, checked_usage}
use or3_sandbox.Service.Quota.{check_running_quota}
use or3_sandbox.Service.Transitions.{
  reserve_lifecycle_transition, execute_reserved_transition, settle, enter, record_success,
  stop_sandbox, suspend_sandbox, start_sandbox,
}
use or3_sandbox.Outcome.Calls.{
  AtRest, Up, stop_sandbox-AtRest, suspend_sandbox-AtRest, start_sandbox-Up,
}
use or3_sandbox.Quotas.Running.{running_count, start_sandbox-running_count}
use or3_sandbox.Store.Tunnels.{get_tunnel}
use or3_sandbox.Quotas.Counted.{is_counted, stop_sandbox-counts_for}
use or3_sandbox.Outcome.Revoke.{Revoked, revoke_tunnel-Revoked}
use or3_sandbox.Service.Tunnels.{revoke_tunnel}
use or3_sandbox.Examples.Fixtures.{
  deleted_world, capability, database, service, alice, bob, box_a, box_b, world, quota_of,
}

stop_sandbox-AtRest_example :
    AtRest alice box_a SandboxStatus.stopped
      (or_zero (stop_sandbox service alice box_a true world).0)
      (stop_sandbox service alice box_a true world).1.db
unfolding eq_text stop_sandbox enter get_sandbox lookup_sandbox scan_sandbox query ◌>>=◌ pure
    attempt ask update_sandbox_state update_runtime_state update_state_rows update_runtime_rows
    transact settle record_success refresh_storage audit_storage_pressure update_storage_usage
    record_audit add_audit_event insert_event count_event revoke_active_tunnels list_tunnels
    revoke_each revoke_one revoke_tunnel_row revoke_rows revoke_tunnel_capabilities
    revoke_capability_rows join_string_list split_string_list resolve_runtime_selection
    parse_runtime_selection
stop_sandbox-AtRest_example =
    stop_sandbox-AtRest service alice box_a true world
      (or_zero (stop_sandbox service alice box_a true world).0) refl

suspend_sandbox-AtRest_example :
    AtRest alice box_a SandboxStatus.suspended
      (or_zero (suspend_sandbox service alice box_a world).0)
      (suspend_sandbox service alice box_a world).1.db
unfolding eq_text suspend_sandbox enter get_sandbox lookup_sandbox scan_sandbox query ◌>>=◌ pure
    attempt ask update_sandbox_state update_runtime_state update_state_rows update_runtime_rows
    transact settle record_success refresh_storage audit_storage_pressure update_storage_usage
    record_audit add_audit_event insert_event count_event revoke_active_tunnels list_tunnels
    revoke_each revoke_one revoke_tunnel_row revoke_rows revoke_tunnel_capabilities
    revoke_capability_rows join_string_list split_string_list resolve_runtime_selection
    parse_runtime_selection
suspend_sandbox-AtRest_example =
    suspend_sandbox-AtRest service alice box_a world
      (or_zero (suspend_sandbox service alice box_a world).0) refl

start_sandbox-Up_example :
    Up bob box_b
      (or_zero (start_sandbox service bob box_b (quota_of bob) world).0)
      (start_sandbox service bob box_b (quota_of bob) world).1.db
unfolding eq_text start_sandbox reserve_lifecycle_transition execute_reserved_transition
    enforce_lifecycle_policy enforce_sandbox_policy sandbox_selection enforce_docker_create_policy
    settle_capabilities scan_capabilities is_denied_feature normalize_features
    normalize_capabilities runtime_image_allowed image_allowed enforce_guest_profile_policy
    enforce_promoted_image_policy is_dangerous_guest_profile check_running_quota tenant_usage
    usage_of checked_usage enforce_admission fail get_sandbox lookup_sandbox scan_sandbox query
    ◌>>=◌ pure attempt ask update_sandbox_state update_runtime_state update_state_rows
    update_runtime_rows transact settle record_success refresh_storage audit_storage_pressure
    update_storage_usage record_audit add_audit_event insert_event count_event join_string_list
    split_string_list resolve_runtime_selection parse_runtime_selection eq_selection
start_sandbox-Up_example =
    start_sandbox-Up service bob box_b (quota_of bob) world
      (or_zero (start_sandbox service bob box_b (quota_of bob) world).0) refl

start_sandbox-running_count_example :
    running_count bob database < (quota_of bob).max_running_sandboxes
unfolding eq_text start_sandbox reserve_lifecycle_transition execute_reserved_transition
    enforce_lifecycle_policy enforce_sandbox_policy sandbox_selection enforce_docker_create_policy
    settle_capabilities scan_capabilities is_denied_feature normalize_features
    normalize_capabilities runtime_image_allowed image_allowed enforce_guest_profile_policy
    enforce_promoted_image_policy is_dangerous_guest_profile check_running_quota tenant_usage
    usage_of checked_usage enforce_admission fail get_sandbox lookup_sandbox scan_sandbox query
    ◌>>=◌ pure attempt ask update_sandbox_state update_runtime_state update_state_rows
    update_runtime_rows transact settle record_success refresh_storage audit_storage_pressure
    update_storage_usage record_audit add_audit_event insert_event count_event join_string_list
    split_string_list resolve_runtime_selection parse_runtime_selection eq_selection
start_sandbox-running_count_example =
    start_sandbox-running_count service bob box_b (quota_of bob) world
      (or_zero (start_sandbox service bob box_b (quota_of bob) world).0)
      (or_zero (start_sandbox service bob box_b (quota_of bob) world).0) (inl refl)

-- A deleted sandbox is stopped, and counts again.
stop_sandbox-counts_for_example :
    is_counted alice box_a (stop_sandbox service alice box_a true deleted_world).1.db.sandboxes
    ≡ true
unfolding eq_text lookup_sandbox
stop_sandbox-counts_for_example =
    stop_sandbox-counts_for service alice box_a true deleted_world (λ n. refl) refl

abbrev issued_world : World
issued_world = record world { db = record database { tunnel_capabilities = capability ∷ [] } }

-- Alice closes her tunnel, for which a capability was issued.
revoke_tunnel-Revoked_example :
    Revoked alice
      (codes "t1")
      issued_world.db
      (revoke_tunnel service alice (codes "t1") issued_world).1.db
unfolding eq_text revoke_tunnel get_tunnel revoke_tunnel_row revoke_rows revoke_tunnel_capabilities
    revoke_capability_rows record_audit add_audit_event insert_event count_event query ◌>>=◌ pure
    attempt ask transact
revoke_tunnel-Revoked_example = revoke_tunnel-Revoked service alice (codes "t1") issued_world refl
