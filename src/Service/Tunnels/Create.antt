-- ===== src/Service/Tunnels/Create.antt =====
-- Creating and reading tunnels (internal/service/service.go). `admissionMu` is held for
-- reserveTunnelCreate alone, so the call is three actions: what comes before, the reservation, and
-- what comes after.
use or3_sandbox.Base.{
  ℕ, not, ◌||◌, Text, List, [], ◌++◌, none, codes, leb, ltb_ℤ, pos, if◌then◌else◌, map,
}
use or3_sandbox.Errors.{
  Result, ok, err, Error, quota, invalid, tunnels, tunnel_policy, target_port, tunnel_protocol,
  sandbox_tunnels,
}
use or3_sandbox.Model.Status.{TunnelProtocol}
use or3_sandbox.Model.Records.{Sandbox, TenantQuota, Tunnel, CreateTunnelRequest}
use or3_sandbox.Config.{Config}
use or3_sandbox.Effect.{M, Service, get, attempt, ignore, fail, lift, pure, when, ◌>>=◌, ◌>>◌}
use or3_sandbox.Store.Sandboxes.{get_sandbox}
use or3_sandbox.Store.Tunnels.{
  create_tunnel_row, list_tunnels, get_tunnel, get_tunnel_by_id, no_access,
}
use or3_sandbox.Store.Usage.{TenantUsage, tenant_usage, get_quota}
use or3_sandbox.Store.Audit.{new_id, record_audit}
use or3_sandbox.Paths.{trim_right_slashes}
use or3_sandbox.Service.Policy.Profiles.{enforce_tunnel_policy}
use or3_sandbox.Service.Storage.{touch_sandbox_activity}
use or3_sandbox.Service.Tunnels.Access.{
  is_token, decorate_tunnel_access, apply_tunnel_request_defaults,
}

abbrev with_protocol : TunnelProtocol → CreateTunnelRequest → Result CreateTunnelRequest
with_protocol TunnelProtocol.http req = ok req
with_protocol TunnelProtocol.unset req = ok (record req { protocol = TunnelProtocol.http })
with_protocol TunnelProtocol.tcp req = err (invalid tunnel_protocol)

-- The checks of CreateTunnel on the port and the protocol.
unfoldable pub check_target : CreateTunnelRequest → Result CreateTunnelRequest
check_target req =
    if ltb_ℤ req.target_port (pos 1) || ltb_ℤ (pos 65535) req.target_port
    then err (invalid target_port)
    else with_protocol req.protocol req

unfoldable pub tunnel_endpoint : Config → Text → Text
unfolding trim_right_slashes
tunnel_endpoint c id =
    trim_right_slashes c.operator_host ++ (codes "/v1/tunnels/" ++ (id ++ codes "/proxy"))

abbrev pub new_tunnel : Config → Text → Sandbox → CreateTunnelRequest → Text → ℕ → Tunnel
new_tunnel c tenant_id x req id now = record {
  id = id;
  sandbox_id = x.id;
  tenant_id = tenant_id;
  target_port = req.target_port;
  protocol = req.protocol;
  auth_mode = req.auth_mode;
  auth_secret_hash = [];
  visibility = req.visibility;
  endpoint = tunnel_endpoint c id;
  access_token = [];
  access = no_access;
  created_at = now;
  revoked_at = none;
}

-- A tunnel with the request that it is made from.
pub record Prepared : Type 0 where
  pub sandbox : Sandbox
  pub request : CreateTunnelRequest
  pub tunnel : Tunnel

abbrev pub prepared : Sandbox → CreateTunnelRequest → Tunnel → Prepared
prepared x req t = record { sandbox = x; request = req; tunnel = t }

-- The columns that reserveTunnelCreate takes from the request again.
abbrev pub with_modes : CreateTunnelRequest → Tunnel → Tunnel
with_modes req t = record t { auth_mode = req.auth_mode; visibility = req.visibility }

module _ (s : Service) where
  -- `if tunnel.AuthMode == "token"`
  unfoldable pub issue_token : Tunnel → M Tunnel
  issue_token t =
      if is_token t.auth_mode
      then (do
        token ← new_id s "ttok-"
        pure (record t { access_token = token; auth_secret_hash = s.env.hash_token token }))
      else pure t

  -- func (Service) CreateTunnel, up to the reservation
  unfoldable pub prepare_tunnel : Text → Text → CreateTunnelRequest → M Prepared
  prepare_tunnel tenant_id sandbox_id req = do
    x ← get_sandbox s tenant_id sandbox_id
    when (not x.allow_tunnels) (do
      record_audit s tenant_id sandbox_id (codes "tunnel.create") sandbox_id "denied"
      fail (invalid sandbox_tunnels))
    id ← new_id s "tun-"
    checked ← lift (check_target req)
    q ← attempt (get_quota s tenant_id)
    full ← lift (apply_tunnel_request_defaults checked q)
    now ← get s.env.now
    t ← issue_token (new_tunnel s.cfg tenant_id x full id now)
    pure (prepared x full (decorate_tunnel_access t))

  unfoldable pub refuse : Text → Text → Error → M (Unit {0})
  refuse tenant_id sandbox_id e = do
    record_audit s tenant_id sandbox_id (codes "tunnel.create") sandbox_id "denied"
    fail e

  -- The two checks under `quotaErr == nil`.
  unfoldable pub check_tunnel_quota : Text → Text → TenantUsage → Result TenantQuota → M (Unit {0})
  unfolding refuse
  check_tunnel_quota tenant_id sandbox_id usage (err e) = pure tt
  check_tunnel_quota tenant_id sandbox_id usage (ok q) =
      if not q.allow_tunnels
      then refuse tenant_id sandbox_id (quota tunnel_policy)
      else if leb q.max_tunnels usage.active_tunnels
      then refuse tenant_id sandbox_id (quota tunnels)
      else pure tt

  -- func (Service) reserveTunnelCreate
  unfoldable pub reserve_tunnel_create : Text → Prepared → M Tunnel
  reserve_tunnel_create tenant_id p = do
    usage ← tenant_usage s tenant_id
    q ← attempt (get_quota s tenant_id)
    check_tunnel_quota tenant_id p.sandbox.id usage q
    req ← lift (apply_tunnel_request_defaults p.request q)
    enforce_tunnel_policy s p.sandbox req
    create_tunnel_row s (with_modes req p.tunnel)
    pure (with_modes req p.tunnel)

  -- func (Service) CreateTunnel, after the reservation
  unfoldable pub announce_tunnel : Text → Text → Sandbox → Tunnel → M Tunnel
  announce_tunnel tenant_id sandbox_id x t = do
    ignore (touch_sandbox_activity s x)
    record_audit s tenant_id sandbox_id (codes "tunnel.create") t.id "ok"
    pure t

  -- func (Service) CreateTunnel
  unfoldable pub create_tunnel : Text → Text → CreateTunnelRequest → M Tunnel
  create_tunnel tenant_id sandbox_id req = do
    p ← prepare_tunnel tenant_id sandbox_id req
    t ← reserve_tunnel_create tenant_id p
    announce_tunnel tenant_id sandbox_id p.sandbox t

  -- func (Service) ListTunnels
  unfoldable pub list_tunnels_decorated : Text → Text → M (List Tunnel)
  list_tunnels_decorated tenant_id sandbox_id = do
    ts ← list_tunnels s tenant_id sandbox_id
    pure (map decorate_tunnel_access ts)

  -- func (Service) GetTunnel
  unfoldable pub get_tunnel_with_sandbox : Text → Text → M (Tunnel × Sandbox)
  get_tunnel_with_sandbox tenant_id tunnel_id = do
    t ← get_tunnel s tenant_id tunnel_id
    x ← get_sandbox s tenant_id t.sandbox_id
    pure (t, x)

  -- func (Service) GetTunnelForProxy
  unfoldable pub get_tunnel_for_proxy : Text → M (Tunnel × Sandbox)
  get_tunnel_for_proxy tunnel_id = do
    t ← get_tunnel_by_id s tunnel_id
    x ← get_sandbox s t.tenant_id t.sandbox_id
    pure (t, x)
