-- ===== src/Service/Reconcile.antt =====
-- Reconcile (internal/service/service.go), which the control plane runs when it starts and then from
-- time to time: executions and snapshots that were under way are closed, and every sandbox takes the
-- status that the runtime reports.
use or3_sandbox.Base.{
  ℕ, Bool, not, ◌||◌, Text, List, [], ◌∷◌, Option, none, some, pos, codes, eq_text, milliseconds,
}
use or3_sandbox.Errors.{Result, ok, err, Error}
use or3_sandbox.Model.Status.{SandboxStatus, ExecutionStatus, eq_status}
use or3_sandbox.Model.Records.{Sandbox, Execution, Snapshot, RuntimeState}
use or3_sandbox.Effect.{M, Service, ask, get, attempt, fail, pure, when, ◌>>=◌, ◌>>◌}
use or3_sandbox.Store.Sandboxes.{
  list_non_deleted_sandboxes, update_sandbox_state, update_runtime_state,
}
use or3_sandbox.Store.Executions.{list_running_executions, update_execution}
use or3_sandbox.Store.Snapshots.{list_creating_snapshots, update_snapshot}
use or3_sandbox.Store.Audit.{record_audit}
use or3_sandbox.Service.Storage.{refresh_storage_if_stale}
use or3_sandbox.Service.Snapshots.Create.{failed_snapshot}

abbrev pub orphaned : ℕ → Execution → Execution
orphaned now e = record e {
  status = ExecutionStatus.canceled;
  exit_code = some (pos 1);
  stderr_preview = codes "control plane restarted during execution";
  completed_at = some now;
  duration_ms = some (milliseconds e.started_at now);
}

abbrev pub unreachable : Text → ℕ → Sandbox → Sandbox
unreachable message now x = record x {
  status = SandboxStatus.degraded;
  runtime_status = SandboxStatus.degraded;
  last_runtime_error = message;
  updated_at = now;
}

-- Every branch of the switch takes the runtime's status.
abbrev pub observed : RuntimeState → ℕ → Sandbox → Sandbox
observed state now x = record x {
  status = state.status;
  runtime_status = state.status;
  runtime_id = state.runtime_id;
  last_runtime_error = state.error;
  updated_at = now;
}

-- stateChanged
unfoldable pub state_changed : Sandbox → RuntimeState → Bool
unfolding eq_status eq_text
state_changed x state =
    not (eq_status state.status x.status)
    || not (eq_status state.status x.runtime_status)
    || not (eq_text state.runtime_id x.runtime_id)
    || not (eq_text state.error x.last_runtime_error)

-- errors.Join, of which the first error is kept
unfoldable pub join_errors : Option Error → Option Error → Option Error
join_errors none other = other
join_errors (some e) other = some e

abbrev error_of : Result (Unit {0}) → Option Error
error_of (ok tt) = none
error_of (err e) = some e

module _ (s : Service) where
  -- `if updateErr := …; updateErr != nil { reconcileErr = errors.Join(…) }`
  unfoldable pub collect : M (Unit {0}) → M (Option Error)
  collect m = do r ← attempt m; pure (error_of r)

  unfoldable pub reconcile_execution : Execution → M (Unit {0})
  reconcile_execution e = do
    now ← get s.env.now
    update_execution s (orphaned now e)
    record_audit s e.tenant_id e.sandbox_id (codes "sandbox.exec.reconcile") e.id "canceled"

  unfoldable pub reconcile_executions : List Execution → M (Unit {0})
  reconcile_executions [] = pure tt
  reconcile_executions (e ∷ es) = reconcile_execution e >> reconcile_executions es

  -- func (Service) reconcileOrphanedExecutions
  unfoldable pub reconcile_orphaned_executions : M (Unit {0})
  reconcile_orphaned_executions = do es ← list_running_executions s; reconcile_executions es

  unfoldable pub reconcile_snapshot : Snapshot → M (Unit {0})
  reconcile_snapshot x = do
    update_snapshot s (failed_snapshot x)
    record_audit s x.tenant_id x.sandbox_id (codes "snapshot.reconcile") x.id "error"

  unfoldable pub reconcile_snapshots : List Snapshot → M (Unit {0})
  reconcile_snapshots [] = pure tt
  reconcile_snapshots (x ∷ xs) = reconcile_snapshot x >> reconcile_snapshots xs

  -- func (Service) reconcileIncompleteSnapshots
  unfoldable pub reconcile_incomplete_snapshots : M (Unit {0})
  reconcile_incomplete_snapshots = do xs ← list_creating_snapshots s; reconcile_snapshots xs

  -- The loop's body after the runtime's answer.
  unfoldable pub settle_reconcile : Sandbox → Result RuntimeState → M (Option Error)
  settle_reconcile x (err e) = do
    now ← get s.env.now
    r ← collect (update_sandbox_state s (unreachable (s.env.error_text e) now x))
    record_audit s x.tenant_id x.id (codes "sandbox.reconcile") x.id "error"
    pure r
  settle_reconcile x (ok state) = do
    now ← get s.env.now
    r1 ← collect (update_sandbox_state s (observed state now x))
    r2 ← collect (update_runtime_state s x.id state)
    when (state_changed x state)
        (record_audit s x.tenant_id x.id (codes "sandbox.reconcile") x.id "ok")
    r3 ← collect (refresh_storage_if_stale s (observed state now x) (state_changed x state))
    pure (join_errors r1 (join_errors r2 r3))

  unfoldable pub reconcile_sandbox : Sandbox → M (Option Error)
  reconcile_sandbox x = do
    answer ← attempt (ask (λ n. s.env.runtime.inspect n x))
    settle_reconcile x answer

  unfoldable pub reconcile_sandboxes : List Sandbox → M (Option Error)
  reconcile_sandboxes [] = pure none
  reconcile_sandboxes (x ∷ xs) = do
    r ← reconcile_sandbox x
    rest ← reconcile_sandboxes xs
    pure (join_errors r rest)

  unfoldable pub report : Option Error → M (Unit {0})
  report none = pure tt
  report (some e) = fail e

  -- func (Service) Reconcile
  unfoldable pub reconcile : M (Unit {0})
  reconcile = do
    reconcile_orphaned_executions
    reconcile_incomplete_snapshots
    xs ← list_non_deleted_sandboxes s
    r ← reconcile_sandboxes xs
    report r
