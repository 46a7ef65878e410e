-- ===== src/Respects.antt =====
-- An interface between the store and the service: what a property of the database must satisfy at each
-- statement that the lifecycle calls of internal/service/service.go issue for a tenant. The children
-- show that the calls then keep the property, at every outcome of every statement and of the runtime.
pub mod Transitions
pub mod Create
pub mod Delete
pub mod Own
pub mod Exec
pub mod Tunnels
pub mod Snapshots
use or3_sandbox.Base.{List, Text, ◌≡◌, false, is_empty}
use or3_sandbox.Tables.{Db}
use or3_sandbox.Model.Records.{Sandbox, Snapshot, RuntimeState, StorageUsage}
use or3_sandbox.Effect.{Service}
use or3_sandbox.Effect.Keeps.{Ensures, Keeps, Keeps-bind, Keeps-ask, Keeps-transact_always}
use or3_sandbox.Store.Sandboxes.{
  get_sandbox, create_sandbox, update_sandbox_state, update_runtime_state, update_storage_usage,
}
use or3_sandbox.Store.Tunnels.{revoke_tunnel_row, revoke_tunnel_capabilities}
use or3_sandbox.Checks.{KeepsAudit, audit-Keeps}

-- The statements that do not write a sandbox.
pub record Aside (s : Service) (t : Text) (P : Db → Type 0) : Type 0 where
  pub audit : KeepsAudit s P
  pub write_usage : (k : Text) (u : StorageUsage) → Keeps P (update_storage_usage s k u)
  pub revoke : (k : Text) → Keeps P (revoke_tunnel_row s t k)
  pub revoke_capabilities : (k : Text) → Keeps P (revoke_tunnel_capabilities s k)

-- What is said of the sandboxes alone.
pub sandboxes-Aside :
    (s : Service) (t : Text) (Q : List Sandbox → Type 0) → Aside s t (λ db. Q db.sandboxes)
unfolding update_storage_usage revoke_tunnel_row revoke_tunnel_capabilities
sandboxes-Aside s t Q = record {
  audit = audit-Keeps s (λ db. Q db.sandboxes) (λ db events counts h. h);
  write_usage = λ k u. Keeps-bind (Keeps-ask _) (λ now. Keeps-transact_always s _ (λ db h. h));
  revoke = λ k. Keeps-bind (Keeps-ask _) (λ now. Keeps-transact_always s _ (λ db h. h));
  revoke_capabilities =
      λ k. Keeps-bind (Keeps-ask _) (λ now. Keeps-transact_always s _ (λ db h. h));
}

-- What is said of the snapshots alone.
pub snapshots-Aside :
    (s : Service) (t : Text) (Q : List Snapshot → Type 0) → Aside s t (λ db. Q db.snapshots)
unfolding update_storage_usage revoke_tunnel_row revoke_tunnel_capabilities
snapshots-Aside s t Q = record {
  audit = audit-Keeps s (λ db. Q db.snapshots) (λ db events counts h. h);
  write_usage = λ k u. Keeps-bind (Keeps-ask _) (λ now. Keeps-transact_always s _ (λ db h. h));
  revoke = λ k. Keeps-bind (Keeps-ask _) (λ now. Keeps-transact_always s _ (λ db h. h));
  revoke_capabilities =
      λ k. Keeps-bind (Keeps-ask _) (λ now. Keeps-transact_always s _ (λ db h. h));
}

-- `R` holds of the ids that the tenant may write.
pub record Respects (s : Service) (t : Text) (P : Db → Type 0) (R : Text → Type 0) : Type 0 where
  pub aside : Aside s t P
  pub read : (k : Text) → Ensures P (λ x. R x.id) (get_sandbox s t k)
  pub insert :
      (x : Sandbox)
      → x.tenant_id ≡ t
      → is_empty x.id ≡ false
      → Ensures P (λ _. R x.id) (create_sandbox s x)
  pub write_state : (x : Sandbox) → R x.id → Keeps P (update_sandbox_state s x)
  pub write_runtime :
      (k : Text) (state : RuntimeState) → R k → Keeps P (update_runtime_state s k state)
