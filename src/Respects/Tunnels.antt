-- ===== src/Respects/Tunnels.antt =====
-- Creating a tunnel keeps what the store's statements keep.
use or3_sandbox.Base.{not, ◌≡◌, refl, Text}
use or3_sandbox.Errors.{Result, ok, err}
use or3_sandbox.Tables.{Db}
use or3_sandbox.Model.Records.{Sandbox, TenantQuota, Tunnel, CreateTunnelRequest}
use or3_sandbox.Effect.{Service}
use or3_sandbox.Effect.Keeps.{
  Ensures, Keeps, keeps_rules, Ensures-bind, Keeps-bind, Ensures-pure, Ensures-if, Keeps-ask,
  Keeps-attempt, Keeps-ignore, Keeps-when, Keeps-lift, Keeps-query, Keeps-pure,
}
use or3_sandbox.Store.Usage.{TenantUsage, tenant_usage, get_quota}
use or3_sandbox.Service.Policy.Profiles.{enforce_tunnel_policy}
use or3_sandbox.Service.Tunnels.Access.{decorate_tunnel_access, is_token}
use or3_sandbox.Service.Tunnels.Create.{
  Prepared, new_tunnel, with_modes, issue_token, prepare_tunnel, check_tunnel_quota, refuse,
  reserve_tunnel_create, announce_tunnel, create_tunnel,
}
use or3_sandbox.Checks.{deny-Keeps}
use or3_sandbox.Respects.{Respects}
use or3_sandbox.Respects.Own.{Owns}
use or3_sandbox.Respects.Exec.{touch-Keeps}

module _ {s : Service} {t : Text} {P : Db → Type 0} {R : Text → Type 0} (i : Respects s t P R)
    (o : Owns s t P) where
  Mine : Tunnel → Type 0
  Mine u = u.tenant_id ≡ t

  -- A sandbox that may be written, and a tunnel of the tenant.
  Ready : Prepared → Type 0
  Ready p = R p.sandbox.id × (p.tunnel.tenant_id ≡ t)

  issue-Ensures : (u : Tunnel) → u.tenant_id ≡ t → Ensures P Mine (issue_token s u)
  unfolding issue_token Mine
  issue-Ensures u own =
      Ensures-if (is_token u.auth_mode) (Keeps-bind (Keeps-ask _) (λ token. Ensures-pure _ _ own))
        (Ensures-pure _ u own)

  prepare-Ensures :
      (k : Text) (req : CreateTunnelRequest) → Ensures P Ready (prepare_tunnel s t k req)
  unfolding prepare_tunnel get_quota Ready Mine decorate_tunnel_access
  prepare-Ensures k req = Ensures-bind (i.read k) (λ x r.
      Keeps-bind (Keeps-when (not x.allow_tunnels) (search (i.aside.audit, keeps_rules))) (λ _.
        Keeps-bind (Keeps-ask _) (λ id. Keeps-bind (Keeps-lift _) (λ checked.
          Keeps-bind (Keeps-attempt (Keeps-query s _)) (λ q. Keeps-bind (Keeps-lift _) (λ full.
            Keeps-bind (Keeps-ask _) (λ now.
              Ensures-bind (issue-Ensures (new_tunnel s.cfg t x full id now) refl)
                (λ u own. Ensures-pure _ _ (r, own)))))))))

  check-Keeps :
      (k : Text) (usage : TenantUsage) (q : Result TenantQuota)
      → Keeps P (check_tunnel_quota s t k usage q)
  unfolding check_tunnel_quota refuse
  check-Keeps k usage (ok q) = search (i.aside.audit, keeps_rules) depth 15
  check-Keeps k usage (err e) = search keeps_rules

  policy-Keeps : (x : Sandbox) (req : CreateTunnelRequest) → Keeps P (enforce_tunnel_policy s x req)
  unfolding enforce_tunnel_policy
  policy-Keeps x req = search (deny-Keeps s i.aside.audit, keeps_rules)

  reserve-Keeps : (p : Prepared) → p.tunnel.tenant_id ≡ t → Keeps P (reserve_tunnel_create s t p)
  unfolding reserve_tunnel_create tenant_usage get_quota
  reserve-Keeps p own = Keeps-bind (Keeps-query s _) (λ usage.
      Keeps-bind (Keeps-attempt (Keeps-query s _)) (λ q.
        Keeps-bind (check-Keeps p.sandbox.id usage q) (λ _. Keeps-bind (Keeps-lift _) (λ req.
          Keeps-bind (policy-Keeps p.sandbox req) (λ _.
            Keeps-bind (o.insert_tunnel (with_modes req p.tunnel) own) (λ _. Keeps-pure _))))))

  pub create_tunnel-Keeps :
      (k : Text) (req : CreateTunnelRequest) → Keeps P (create_tunnel s t k req)
  unfolding create_tunnel announce_tunnel Ready
  create_tunnel-Keeps k req = Ensures-bind (prepare-Ensures k req) (λ p h.
      Keeps-bind (reserve-Keeps p h.1) (λ u.
        Keeps-bind (Keeps-ignore (touch-Keeps i o p.sandbox h.0))
          (λ _. search (i.aside.audit, keeps_rules))))
