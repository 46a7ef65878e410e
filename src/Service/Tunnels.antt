-- ===== src/Service/Tunnels.antt =====
-- Revoking the tunnels of a sandbox with the capabilities that were issued for them
-- (internal/service/service.go).
pub mod Access
pub mod Create
use or3_sandbox.Base.{Text, List, [], ◌∷◌, codes, is_null}
use or3_sandbox.Model.Records.{Sandbox, Tunnel}
use or3_sandbox.Effect.{M, Service, pure, when, ◌>>=◌, ◌>>◌}
use or3_sandbox.Store.Audit.{record_audit}
use or3_sandbox.Store.Tunnels.{
  list_tunnels, get_tunnel, revoke_tunnel_row, revoke_tunnel_capabilities,
}

module _ (s : Service) where
  unfoldable pub revoke_one : Text → Sandbox → Tunnel → M (Unit {0})
  revoke_one tenant_id x t = do
    revoke_tunnel_row s tenant_id t.id
    revoke_tunnel_capabilities s t.id
    record_audit s tenant_id x.id (codes "tunnel.revoke") t.id "ok"

  -- The loop of revokeActiveTunnels; a tunnel that is already revoked is passed over.
  unfoldable pub revoke_each : Text → Sandbox → List Tunnel → M (Unit {0})
  revoke_each tenant_id x [] = pure tt
  revoke_each tenant_id x (t ∷ ts) =
      when (is_null t.revoked_at) (revoke_one tenant_id x t) >> revoke_each tenant_id x ts

  -- func (Service) revokeActiveTunnels
  unfoldable pub revoke_active_tunnels : Text → Sandbox → M (Unit {0})
  revoke_active_tunnels tenant_id x = do
    ts ← list_tunnels s tenant_id x.id
    revoke_each tenant_id x ts

  -- func (Service) RevokeTunnel
  unfoldable pub revoke_tunnel : Text → Text → M (Unit {0})
  revoke_tunnel tenant_id tunnel_id = do
    t ← get_tunnel s tenant_id tunnel_id
    revoke_tunnel_row s tenant_id tunnel_id
    revoke_tunnel_capabilities s tunnel_id
    record_audit s tenant_id t.sandbox_id (codes "tunnel.revoke") tunnel_id "ok"
