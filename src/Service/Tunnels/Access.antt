-- ===== src/Service/Tunnels/Access.antt =====
-- What a tunnel shows to its owner (internal/service/service.go): decorateTunnelAccess, and the
-- defaults of a request.
use or3_sandbox.Base.{
  Bool, not, ◌&&◌, Text, List, [], ◌∷◌, ◌++◌, codes, eq_text, is_empty, trim_space, if◌then◌else◌,
}
use or3_sandbox.Errors.{Result, ok, err, invalid, auth_mode, visibility}
use or3_sandbox.Model.Records.{TenantQuota, Tunnel, CreateTunnelRequest}
use or3_sandbox.Service.Exec.{join_words}

abbrev pub is_token : Text → Bool
is_token mode = eq_text mode (codes "token")

-- The words of the example, before they are joined.
unfoldable pub curl_words : Bool → Tunnel → List Text
curl_words tenant_token t =
    (codes "curl" ∷ [])
    ++ ((if tenant_token
          then codes "-H" ∷ codes "'Authorization: Bearer <tenant-token>'" ∷ []
          else [])
        ++ ((if is_token t.auth_mode && not (is_empty (trim_space t.access_token))
              then codes "-H" ∷ (codes "'X-Tunnel-Token: " ++ (t.access_token ++ codes "'")) ∷ []
              else [])
            ++ ((codes "'" ++ (t.endpoint ++ codes "'")) ∷ [])))

-- func (Service) decorateTunnelAccess
unfoldable pub decorate_tunnel_access : Tunnel → Tunnel
unfolding curl_words
decorate_tunnel_access t =
    let tenant_token = not (eq_text t.visibility (codes "public")) in
    record t {
      access = record {
        requires_tenant_token = tenant_token;
        tunnel_token_header = if is_token t.auth_mode then codes "X-Tunnel-Token" else [];
        tunnel_token_query = if is_token t.auth_mode then codes "token" else [];
        example_curl =
            if is_empty (trim_space t.endpoint) then [] else join_words (curl_words tenant_token t);
      };
    }

-- `if value == "" && quotaErr == nil { value = quota.… }`, then the constant
abbrev default_mode : Text → Result TenantQuota → Text
default_mode mode (ok q) = if is_empty mode then q.default_tunnel_auth_mode else mode
default_mode mode (err e) = mode

abbrev default_visibility : Text → Result TenantQuota → Text
default_visibility v (ok q) = if is_empty v then q.default_tunnel_visibility else v
default_visibility v (err e) = v

abbrev or_text : Text → Text → Text
or_text [] other = other
or_text (c ∷ s) other = c ∷ s

abbrev defaulted : CreateTunnelRequest → Result TenantQuota → CreateTunnelRequest
defaulted req q = record req {
  auth_mode = or_text (default_mode req.auth_mode q) (codes "token");
  visibility = or_text (default_visibility req.visibility q) (codes "private");
}

abbrev checked : CreateTunnelRequest → Result CreateTunnelRequest
checked req =
    if not (eq_text req.auth_mode (codes "token")) && not (eq_text req.auth_mode (codes "none"))
    then err (invalid auth_mode)
    else if not (eq_text req.visibility (codes "private"))
        && not (eq_text req.visibility (codes "public"))
    then err (invalid visibility)
    else ok req

-- func applyTunnelRequestDefaults. A request that is refused is not used further.
unfoldable pub apply_tunnel_request_defaults :
    CreateTunnelRequest → Result TenantQuota → Result CreateTunnelRequest
apply_tunnel_request_defaults req q = checked (defaulted req q)
