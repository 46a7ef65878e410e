-- ===== src/Store/Tunnels.antt =====
-- Tunnels and their one-time capabilities.
use or3_sandbox.Base.{
  ℕ, Bool, false, ◌&&◌, Text, List, [], ◌∷◌, ◌++◌, Option, none, some, eq_text, select, find,
  update, any, is_null, if◌then◌else◌,
}
use or3_sandbox.Errors.{ok}
use or3_sandbox.Model.Records.{Tunnel, TunnelAccess, TunnelCapability}
use or3_sandbox.Tables.{Db}
use or3_sandbox.Effect.{M, Service, query, transact, transact_always, get, ◌>>=◌}
use or3_sandbox.Store.Sandboxes.{found}

abbrev pub tunnel_key : Text → Text → Tunnel → Bool
tunnel_key tenant_id tunnel_id row = eq_text row.tenant_id tenant_id && eq_text row.id tunnel_id

abbrev pub tunnel_of : Text → Text → Tunnel → Bool
tunnel_of tenant_id sandbox_id row =
    eq_text row.tenant_id tenant_id && eq_text row.sandbox_id sandbox_id

abbrev pub no_access : TunnelAccess
no_access = record {
  requires_tenant_token = false;
  tunnel_token_header = [];
  tunnel_token_query = [];
  example_curl = [];
}

-- The row has no column for the access token and what shows it.
unfoldable pub insert_tunnel : Tunnel → Db → Option Db
insert_tunnel t db =
    if any (λ row. eq_text row.id t.id) db.tunnels
    then none
    else some (record db {
      tunnels =
          db.tunnels
          ++ (record t { access_token = []; access = no_access; revoked_at = none } ∷ []);
    })

unfoldable pub revoke_rows : Text → Text → ℕ → List Tunnel → List Tunnel
revoke_rows tenant_id tunnel_id now rows =
    update (λ row. tunnel_key tenant_id tunnel_id row && is_null row.revoked_at)
      (λ row. record row { revoked_at = some now }) rows

unfoldable pub insert_capability : TunnelCapability → Db → Option Db
insert_capability c db =
    if any (λ row. eq_text row.id c.id) db.tunnel_capabilities
    then none
    else some (record db {
      tunnel_capabilities =
          db.tunnel_capabilities ++ (record c { consumed_at = none; revoked_at = none } ∷ []);
    })

unfoldable pub consume_rows : Text → ℕ → List TunnelCapability → List TunnelCapability
consume_rows capability_id now rows =
    update
      (λ row. eq_text row.id capability_id && is_null row.consumed_at && is_null row.revoked_at)
      (λ row. record row { consumed_at = some now }) rows

unfoldable pub revoke_capability_rows : Text → ℕ → List TunnelCapability → List TunnelCapability
revoke_capability_rows tunnel_id now rows =
    update (λ row. eq_text row.tunnel_id tunnel_id && is_null row.revoked_at)
      (λ row. record row { revoked_at = some now }) rows

module _ (s : Service) where
  -- func (Store) CreateTunnel
  unfoldable pub create_tunnel_row : Tunnel → M (Unit {0})
  create_tunnel_row t = transact s (insert_tunnel t)

  -- func (Store) ListTunnels; rows stand in the order of insertion, which is that of created_at.
  unfoldable pub list_tunnels : Text → Text → M (List Tunnel)
  list_tunnels tenant_id sandbox_id =
      query s (λ db. ok (select (tunnel_of tenant_id sandbox_id) db.tunnels))

  -- func (Store) GetTunnel
  unfoldable pub get_tunnel : Text → Text → M Tunnel
  get_tunnel tenant_id tunnel_id =
      query s (λ db. found (find (tunnel_key tenant_id tunnel_id) db.tunnels))

  -- func (Store) GetTunnelByID
  unfoldable pub get_tunnel_by_id : Text → M Tunnel
  get_tunnel_by_id tunnel_id =
      query s (λ db. found (find (λ row. eq_text row.id tunnel_id) db.tunnels))

  -- func (Store) RevokeTunnel
  unfoldable pub revoke_tunnel_row : Text → Text → M (Unit {0})
  revoke_tunnel_row tenant_id tunnel_id = do
    now ← get s.env.now
    transact_always s (λ db. record db { tunnels = revoke_rows tenant_id tunnel_id now db.tunnels })

  -- func (Store) CreateTunnelCapability
  unfoldable pub create_tunnel_capability : TunnelCapability → M (Unit {0})
  create_tunnel_capability c = transact s (insert_capability c)

  -- func (Store) GetTunnelCapability
  unfoldable pub get_tunnel_capability : Text → M TunnelCapability
  get_tunnel_capability capability_id =
      query s (λ db. found (find (λ row. eq_text row.id capability_id) db.tunnel_capabilities))

  -- func (Store) ConsumeTunnelCapability
  unfoldable pub consume_tunnel_capability : Text → M (Unit {0})
  consume_tunnel_capability capability_id = do
    now ← get s.env.now
    transact_always s (λ db. record db {
      tunnel_capabilities = consume_rows capability_id now db.tunnel_capabilities;
    })

  -- func (Store) RevokeTunnelCapabilities
  unfoldable pub revoke_tunnel_capabilities : Text → M (Unit {0})
  revoke_tunnel_capabilities tunnel_id = do
    now ← get s.env.now
    transact_always s (λ db. record db {
      tunnel_capabilities = revoke_capability_rows tunnel_id now db.tunnel_capabilities;
    })
