-- ===== src/Isolation/Others.antt =====
-- The statements that write no sandbox leave the rows of the other tenants as they are.
use or3_sandbox.Base.{◌&&◌, refl, Text, some, arith, ◌∙◌, is_null}
use or3_sandbox.Model.Records.{StorageUsage}
use or3_sandbox.Tables.{Db}
use or3_sandbox.Effect.{Service}
use or3_sandbox.Effect.Keeps.{Keeps, Keeps-ask, Keeps-bind, Keeps-transact_always}
use or3_sandbox.Store.Sandboxes.{update_storage_usage}
use or3_sandbox.Store.Tunnels.{
  revoke_rows, revoke_tunnel_row, revoke_tunnel_capabilities, tunnel_key,
}
use or3_sandbox.Checks.{KeepsAudit, audit-Keeps}
use or3_sandbox.Isolation.Store.{Scoped, is_foreign_tunnel, select-update_other}

module _ (t : Text) (base : Db) where
  module _ (s : Service) where
    pub update_storage_usage-Scoped :
        (k : Text) (u : StorageUsage) → Keeps (Scoped t base) (update_storage_usage s k u)
    unfolding update_storage_usage
    update_storage_usage-Scoped k u = Keeps-bind (Keeps-ask _) (λ now.
        Keeps-transact_always s _ (λ db h. record {
          distinct = h.distinct;
          sandboxes = h.sandboxes;
          tunnels = h.tunnels;
          executions = h.executions;
          snapshots = h.snapshots;
          terminals = h.terminals;
        }))

    pub record_audit-Scoped : KeepsAudit s (Scoped t base)
    record_audit-Scoped = audit-Keeps s (Scoped t base) (λ db events counts h. record {
      distinct = h.distinct;
      sandboxes = h.sandboxes;
      tunnels = h.tunnels;
      executions = h.executions;
      snapshots = h.snapshots;
      terminals = h.terminals;
    })

    pub revoke_tunnel_row-Scoped : (k : Text) → Keeps (Scoped t base) (revoke_tunnel_row s t k)
    unfolding revoke_tunnel_row revoke_rows
    revoke_tunnel_row-Scoped k = Keeps-bind (Keeps-ask _) (λ now. Keeps-transact_always s _ (λ db h.
        record {
          distinct = h.distinct;
          sandboxes = h.sandboxes;
          tunnels =
              select-update_other (is_foreign_tunnel t)
                (λ row. tunnel_key t k row && is_null row.revoked_at)
                (λ row. record row { revoked_at = some now }) (λ row e. ground arith) (λ row. refl)
                db.tunnels
              ∙ h.tunnels;
          executions = h.executions;
          snapshots = h.snapshots;
          terminals = h.terminals;
        }))

    pub revoke_tunnel_capabilities-Scoped :
        (k : Text) → Keeps (Scoped t base) (revoke_tunnel_capabilities s k)
    unfolding revoke_tunnel_capabilities
    revoke_tunnel_capabilities-Scoped k = Keeps-bind (Keeps-ask _) (λ now.
        Keeps-transact_always s _ (λ db h. record {
          distinct = h.distinct;
          sandboxes = h.sandboxes;
          tunnels = h.tunnels;
          executions = h.executions;
          snapshots = h.snapshots;
          terminals = h.terminals;
        }))
