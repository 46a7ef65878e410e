-- ===== src/Examples/Work.antt =====
-- Executions, tunnels and reconciliation at concrete calls.
use or3_sandbox.Base.{
  ◌≤◌, true, false, ◌≡◌, refl, [], ◌∷◌, codes, pos, ltb, length, eq_text, equal_fold,
}
use or3_sandbox.Errors.{Result, ok, err, external}
use or3_sandbox.Tables.{Db}
use or3_sandbox.Model.Status.{SandboxStatus, is_running}
use or3_sandbox.Model.Records.{ExecRequest, CreateTunnelRequest}
use or3_sandbox.Model.Status.{TunnelProtocol}
use or3_sandbox.Effect.{World, query, transact, attempt, ask, ◌>>=◌, pure, fail, lift}
use or3_sandbox.Effect.Ends.{is_ok}
use or3_sandbox.Effect.Splits.{Outcome}
use or3_sandbox.Store.Sandboxes.{get_sandbox, lookup_sandbox, scan_sandbox}
use or3_sandbox.Store.Columns.{join_string_list, split_string_list}
use or3_sandbox.Store.Executions.{create_execution, insert_execution}
use or3_sandbox.Store.Tunnels.{insert_tunnel, create_tunnel_row}
use or3_sandbox.Store.Usage.{usage_of, tenant_usage, checked_usage, get_quota}
use or3_sandbox.Model.Selection.{resolve_runtime_selection, parse_runtime_selection, eq_selection}
use or3_sandbox.Service.Policy.Images.{
  runtime_image_allowed, image_allowed, enforce_promoted_image_policy,
}
use or3_sandbox.Service.Policy.Docker.{
  enforce_docker_create_policy, settle_capabilities, scan_capabilities, is_denied_feature,
}
use or3_sandbox.Model.Guest.{normalize_features, normalize_capabilities}
use or3_sandbox.Config.{is_dangerous_guest_profile}
use or3_sandbox.Service.Policy.Profiles.{enforce_guest_profile_policy, enforce_tunnel_policy}
use or3_sandbox.Service.Policy.Lifecycle.{
  enforce_lifecycle_policy, enforce_sandbox_policy, sandbox_selection,
}
use or3_sandbox.Service.Preview.{first, write_all, empty_buffer}
use or3_sandbox.Service.Exec.{
  StartedExec, started_exec, new_execution, join_words, timeout_seconds, begin_exec,
  reserve_execution_slot, finish_exec,
}
use or3_sandbox.Service.Tunnels.Create.{
  Prepared, prepared, new_tunnel, tunnel_endpoint, reserve_tunnel_create, check_tunnel_quota,
}
use or3_sandbox.Service.Tunnels.Access.{apply_tunnel_request_defaults}
use or3_sandbox.Service.Reconcile.{reconcile, settle_reconcile}
use or3_sandbox.Executions.Preview.{write_all-first}
use or3_sandbox.Executions.Slots.{running_execs, begin_exec-running_execs}
use or3_sandbox.Executions.Closing.{Reported, Failed, last_status, finish_exec-Outcome}
use or3_sandbox.Outcome.Marks.{Marked}
use or3_sandbox.Quotas.Tunnels.{live_tunnels, reserve_tunnel_create-live_tunnels}
use or3_sandbox.Reconciling.Leftovers.{Settled, reconcile-Settled}
use or3_sandbox.Reconciling.Statuses.{settle_reconcile-status}
use or3_sandbox.Examples.Fixtures.{service, alice, box_a, world, database, sandbox_of, quota_of}

-- "hello" cut in two, of which four bytes are kept.
write_all-first_example : write_all (empty_buffer 4) (codes "hel" ∷ codes "lo" ∷ []) ≡ record {
  limit = 4;
  buf = first 4 (codes "hello");
  truncated = ltb 4 (length (codes "hello"));
}
write_all-first_example = write_all-first 4 (codes "hel" ∷ codes "lo" ∷ []) (refl, (refl, tt))

abbrev pub echo : ExecRequest
echo = record { command = codes "echo" ∷ []; cwd = []; timeout = 0; detached = false }

abbrev pub begun : StartedExec
begun =
    let x = sandbox_of alice box_a SandboxStatus.running in
    started_exec x (new_execution alice x echo (codes "exec-1") 1)

abbrev work_database : Db
work_database = record database { executions = begun.execution ∷ []; quotas = quota_of alice ∷ [] }

abbrev work_world : World
work_world = record world { db = work_database }

-- A command that the runtime takes and completes.
finish_exec-Outcome_example :
    Outcome
      (Reported (last_status service begun echo 0) begun)
      (Failed begun)
      (finish_exec service alice begun echo (ok tt) work_world).0
      (finish_exec service alice begun echo (ok tt) work_world).1.db
    × (is_ok (finish_exec service alice begun echo (ok tt) work_world).0 ≡ true)
unfolding eq_text
finish_exec-Outcome_example =
    finish_exec-Outcome service alice begun echo (ok tt) work_world (λ n. refl) refl

reconcile-Settled_example : Settled (reconcile service work_world).1.db
reconcile-Settled_example = reconcile-Settled service work_world (λ n. refl)

settle_reconcile-status_example :
    Marked alice box_a SandboxStatus.degraded
      (settle_reconcile service
        (sandbox_of alice box_a SandboxStatus.running)
        (err (external 3))
        world).1.db.sandboxes
settle_reconcile-status_example =
    settle_reconcile-status service (sandbox_of alice box_a SandboxStatus.running)
      (err (external 3)) world (λ n. refl)

abbrev exec_or : Result StartedExec → StartedExec
exec_or (ok b) = b
exec_or (err e) = begun

abbrev reserved_exec : StartedExec
reserved_exec = exec_or (begin_exec service alice (quota_of alice) box_a echo work_world).0

-- One execution of two is under way, and a second is begun.
begin_exec-running_execs_example :
    (is_running reserved_exec.sandbox.status ≡ true)
    × (running_execs alice (begin_exec service alice (quota_of alice) box_a echo work_world).1.db
        ≤ 2)
unfolding eq_text begin_exec reserve_execution_slot enforce_lifecycle_policy enforce_sandbox_policy
    sandbox_selection enforce_docker_create_policy settle_capabilities scan_capabilities
    is_denied_feature normalize_features normalize_capabilities runtime_image_allowed image_allowed
    enforce_guest_profile_policy enforce_promoted_image_policy is_dangerous_guest_profile
    tenant_usage usage_of checked_usage fail get_sandbox lookup_sandbox scan_sandbox query ◌>>=◌
    pure attempt ask transact create_execution insert_execution join_string_list split_string_list
    resolve_runtime_selection parse_runtime_selection eq_selection join_words timeout_seconds
begin_exec-running_execs_example =
    begin_exec-running_execs service alice box_a (quota_of alice) echo work_world reserved_exec refl

abbrev wanted : CreateTunnelRequest
wanted = record {
  target_port = pos 8080;
  protocol = TunnelProtocol.http;
  auth_mode = codes "none";
  visibility = codes "private";
}

abbrev ready : Prepared
ready =
    let x = sandbox_of alice box_a SandboxStatus.running in
    prepared x wanted (new_tunnel service.cfg alice x wanted (codes "t3") 5)

-- One tunnel of two is live, and a second is created.
reserve_tunnel_create-live_tunnels_example :
    (live_tunnels alice (reserve_tunnel_create service alice ready work_world).1.db ≤ 2)
    × ((quota_of alice).allow_tunnels ≡ true)
unfolding eq_text reserve_tunnel_create tenant_usage usage_of checked_usage get_quota query attempt
    check_tunnel_quota apply_tunnel_request_defaults lift enforce_tunnel_policy create_tunnel_row
    insert_tunnel transact ◌>>=◌ pure fail tunnel_endpoint equal_fold
reserve_tunnel_create-live_tunnels_example =
    reserve_tunnel_create-live_tunnels service alice (quota_of alice) ready work_world ready.tunnel
      (λ n. refl) refl refl refl
