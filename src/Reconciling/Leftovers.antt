-- ===== src/Reconciling/Leftovers.antt =====
-- Reconcile closes every execution and every snapshot that is under way, whoever is at work on it.
use mathlib.Core.Path.{subst}
use or3_sandbox.Base.{
  Bool, false, ◌≡◌, refl, Text, List, [], ◌∷◌, any, eq_text_refl, some-injective, Option, none,
  some,
}
use or3_sandbox.Errors.{Result, ok, err, Error}
use or3_sandbox.Tables.{Db}
use or3_sandbox.Model.Status.{is_execution_running, is_snapshot_creating}
use or3_sandbox.Model.Records.{Sandbox, Execution, Snapshot, RuntimeState}
use or3_sandbox.Effect.{Service, World}
use or3_sandbox.Effect.Keeps.{
  Keeps, keeps_rules, Keeps-transact_always, Keeps-bind, Keeps-ask, Keeps-attempt, Keeps-pure,
}
use or3_sandbox.Effect.Yields.{
  Yields, Yields-bind, Yields-query, Yields-pure, Yields-Keeps, Yields-transact, Yields-mono,
}
use or3_sandbox.Effect.Ends.{
  Returns, Reliable, Returns-query, Returns-pure, returns_rules, Ends-Yields, Ends-bind, Ends-then,
  Returns-bind,
}
use or3_sandbox.Store.Audit.{record_audit}
use or3_sandbox.Store.Sandboxes.{
  update_sandbox_state, update_runtime_state, update_storage_usage, list_non_deleted_sandboxes,
}
use or3_sandbox.Store.Tunnels.{revoke_tunnel_row, revoke_tunnel_capabilities}
use or3_sandbox.Respects.{Aside}
use or3_sandbox.Respects.Transitions.{refresh_storage_if_stale-Keeps}
use or3_sandbox.Store.Executions.{
  unfinished, execution_key, update_execution_rows, update_execution, list_running_executions,
}
use or3_sandbox.Store.Snapshots.{
  scan_snapshot, update_snapshot_rows, update_snapshot, list_creating_snapshots, snapshot_key,
}
use or3_sandbox.Service.Reconcile.{
  reconcile_execution, reconcile_executions, reconcile_orphaned_executions, reconcile_snapshot,
  reconcile_snapshots, reconcile_incomplete_snapshots, settle_reconcile, reconcile_sandbox,
  reconcile_sandboxes, reconcile, report, collect,
}
use or3_sandbox.Checks.{KeepsAudit, audit-Keeps}
use or3_sandbox.Reconciling.Loops.{Pending, Pending-step, Pending-none, Pending-listed}

abbrev running : Execution → Bool
running e = is_execution_running e.status

abbrev same_execution : Execution → Execution → Bool
same_execution u row = execution_key u.tenant_id u.id row

abbrev PendingExecs : List Execution → Db → Type 0
PendingExecs us db = Pending running same_execution us db.executions

-- No execution is under way.
abbrev pub NoExecs : Db → Type 0
NoExecs db = any running db.executions ≡ false

module _ (s : Service) where
  audit-PendingExecs : (us : List Execution) → KeepsAudit s (PendingExecs us)
  audit-PendingExecs us = audit-Keeps s (PendingExecs us) (λ db events counts h. h)

  execution-Pending :
      (u : Execution) (us : List Execution)
      → Yields (PendingExecs (u ∷ us)) (λ _. PendingExecs us) (reconcile_execution s u)
  unfolding reconcile_execution update_execution update_execution_rows
  execution-Pending u us =
      Yields-bind {Q = λ _. PendingExecs (u ∷ us)} (Yields-Keeps (search keeps_rules)) (λ now.
        Yields-bind {Q = λ _. PendingExecs us}
          (Yields-transact s _ (λ db db' h e.
            subst (PendingExecs us) (some-injective e)
              (Pending-step running same_execution _ u us db.executions (λ x. refl) h)))
          (λ _. Yields-Keeps (audit-PendingExecs us _ _ _ _ _)))

  executions-Pending :
      (us : List Execution)
      → Yields (PendingExecs us) (λ _. PendingExecs []) (reconcile_executions s us)
  unfolding reconcile_executions
  executions-Pending [] = Yields-pure tt (λ db h. h)
  executions-Pending (u ∷ us) = Yields-bind (execution-Pending u us) (λ _. executions-Pending us)

  orphaned-NoExecs : {P : Db → Type 0} → Yields P (λ _. NoExecs) (reconcile_orphaned_executions s)
  unfolding reconcile_orphaned_executions list_running_executions
  orphaned-NoExecs =
      Yields-bind {Q = λ us. PendingExecs us}
        (Yields-query s _ (λ db us p e.
          subst (λ l. PendingExecs l db) (cc)
            (Pending-listed running same_execution unfinished
              (λ x. rw (eq_text_refl x.id) (eq_text_refl x.tenant_id)) db.executions)))
        (λ us.
          Yields-mono (executions-Pending us)
            (λ _ db h. Pending-none running same_execution db.executions h))

abbrev creating : Snapshot → Bool
creating x = is_snapshot_creating x.status

abbrev same_snapshot : Snapshot → Snapshot → Bool
same_snapshot u row = snapshot_key u.tenant_id u.id row

abbrev PendingSnapshots : List Snapshot → Db → Type 0
PendingSnapshots us db = NoExecs db × Pending creating same_snapshot us db.snapshots

-- Nothing is under way: no execution runs and no snapshot is being created.
pub record Settled (db : Db) : Type 0 where
  pub executions : any (λ e. is_execution_running e.status) db.executions ≡ false
  pub snapshots : any (λ x. is_snapshot_creating x.status) db.snapshots ≡ false

module _ (s : Service) where
  audit-PendingSnapshots : (us : List Snapshot) → KeepsAudit s (PendingSnapshots us)
  audit-PendingSnapshots us = audit-Keeps s (PendingSnapshots us) (λ db events counts h. h)

  snapshot-Pending :
      (u : Snapshot) (us : List Snapshot)
      → Yields (PendingSnapshots (u ∷ us)) (λ _. PendingSnapshots us) (reconcile_snapshot s u)
  unfolding reconcile_snapshot update_snapshot update_snapshot_rows
  snapshot-Pending u us =
      Yields-bind {Q = λ _. PendingSnapshots us}
        (Yields-transact s _ (λ db db' h e.
          subst (PendingSnapshots us) (some-injective e)
            (h.0, Pending-step creating same_snapshot _ u us db.snapshots (λ x. refl) h.1)))
        (λ _. Yields-Keeps (audit-PendingSnapshots us _ _ _ _ _))

  snapshots-Pending :
      (us : List Snapshot)
      → Yields (PendingSnapshots us) (λ _. PendingSnapshots []) (reconcile_snapshots s us)
  unfolding reconcile_snapshots
  snapshots-Pending [] = Yields-pure tt (λ db h. h)
  snapshots-Pending (u ∷ us) = Yields-bind (snapshot-Pending u us) (λ _. snapshots-Pending us)

  incomplete-Settled : Yields NoExecs (λ _. Settled) (reconcile_incomplete_snapshots s)
  unfolding reconcile_incomplete_snapshots list_creating_snapshots scan_snapshot
  incomplete-Settled =
      Yields-bind {Q = λ us. PendingSnapshots us}
        (Yields-query s _ (λ db us p e. (
          p,
          subst (λ l. Pending creating same_snapshot l db.snapshots) (cc)
              (Pending-listed creating same_snapshot scan_snapshot
                (λ x. rw (eq_text_refl x.id) (eq_text_refl x.tenant_id)) db.snapshots),
        )))
        (λ us. Yields-mono (snapshots-Pending us) (λ _ db h. record {
          executions = h.0;
          snapshots = Pending-none creating same_snapshot db.snapshots h.1;
        }))

  module _ (sound : Reliable s) where
    executions-Returns : (us : List Execution) → Returns (reconcile_executions s us)
    unfolding reconcile_executions reconcile_execution record_audit update_execution
    executions-Returns [] = Returns-pure tt
    executions-Returns (u ∷ us) =
        Returns-bind (search (sound, returns_rules) depth 15) (λ _. executions-Returns us)

    orphaned-Returns : Returns (reconcile_orphaned_executions s)
    unfolding reconcile_orphaned_executions list_running_executions
    orphaned-Returns = Returns-bind (Returns-query s _ sound) (λ us. executions-Returns us)

    snapshots-Returns : (us : List Snapshot) → Returns (reconcile_snapshots s us)
    unfolding reconcile_snapshots reconcile_snapshot record_audit update_snapshot
    snapshots-Returns [] = Returns-pure tt
    snapshots-Returns (u ∷ us) =
        Returns-bind (search (sound, returns_rules) depth 15) (λ _. snapshots-Returns us)

    incomplete-Returns : Returns (reconcile_incomplete_snapshots s)
    unfolding reconcile_incomplete_snapshots list_creating_snapshots
    incomplete-Returns = Returns-bind (Returns-query s _ sound) (λ us. snapshots-Returns us)

module _ (s : Service) where
  audit-Settled : KeepsAudit s Settled
  audit-Settled =
      audit-Keeps s Settled
        (λ db events counts h. record { executions = h.executions; snapshots = h.snapshots })

  write_state-Settled : (x : Sandbox) → Keeps Settled (update_sandbox_state s x)
  unfolding update_sandbox_state
  write_state-Settled x =
      Keeps-transact_always s _
        (λ db h. record { executions = h.executions; snapshots = h.snapshots })

  write_runtime-Settled :
      (k : Text) (state : RuntimeState) → Keeps Settled (update_runtime_state s k state)
  unfolding update_runtime_state
  write_runtime-Settled k state =
      Keeps-transact_always s _
        (λ db h. record { executions = h.executions; snapshots = h.snapshots })

  -- The other statements of a reconciliation write neither table.
  Settled-Aside : (t : Text) → Aside s t Settled
  unfolding update_storage_usage revoke_tunnel_row revoke_tunnel_capabilities
  Settled-Aside t = record {
    audit = audit-Settled;
    write_usage = λ k u. Keeps-bind (Keeps-ask _) (λ now.
        Keeps-transact_always s _
          (λ db h. record { executions = h.executions; snapshots = h.snapshots }));
    revoke = λ k. Keeps-bind (Keeps-ask _) (λ now.
        Keeps-transact_always s _
          (λ db h. record { executions = h.executions; snapshots = h.snapshots }));
    revoke_capabilities = λ k. Keeps-bind (Keeps-ask _) (λ now.
        Keeps-transact_always s _
          (λ db h. record { executions = h.executions; snapshots = h.snapshots }));
  }

  settle-Settled :
      (x : Sandbox) (answer : Result RuntimeState) → Keeps Settled (settle_reconcile s x answer)
  unfolding settle_reconcile collect
  settle-Settled x (err e) = search (audit-Settled, write_state-Settled, keeps_rules) depth 20
  settle-Settled x (ok state) =
      search
        (
          audit-Settled,
          write_state-Settled,
          write_runtime-Settled,
          refresh_storage_if_stale-Keeps (Settled-Aside x.tenant_id),
          keeps_rules,
        )
        depth 30

  sandboxes-Settled : (xs : List Sandbox) → Keeps Settled (reconcile_sandboxes s xs)
  unfolding reconcile_sandboxes reconcile_sandbox
  sandboxes-Settled [] = search keeps_rules
  sandboxes-Settled (x ∷ xs) =
      Keeps-bind (Keeps-bind (Keeps-attempt (Keeps-ask _)) (settle-Settled x))
        (λ r. Keeps-bind (sandboxes-Settled xs) (λ rest. Keeps-pure _))

  report-Settled : (r : Option Error) → Keeps Settled (report s r)
  unfolding report
  report-Settled none = search keeps_rules
  report-Settled (some e) = search keeps_rules

-- Reconcile, where statements do not fail, ends with no execution running and no snapshot being
-- created, whatever the runtime reports of the sandboxes and whether or not it returns an error. This
-- holds of every row that was running or being created when it began: Reconcile does not tell what an
-- earlier process has left from the commands and the snapshots that this process is at work on.
pub reconcile-Settled : (s : Service) (w : World) → Reliable s → Settled (reconcile s w).1.db
unfolding reconcile list_non_deleted_sandboxes
reconcile-Settled s w sound =
    (Ends-bind {P = λ _. Unit {0}} (orphaned-Returns s sound)
        (Ends-Yields (orphaned-Returns s sound) (orphaned-NoExecs s))
        (λ _.
          Ends-then (Ends-Yields (incomplete-Returns s sound) (incomplete-Settled s))
            (λ _. search (sandboxes-Settled s, report-Settled s, keeps_rules) depth 15))).at
      w tt
