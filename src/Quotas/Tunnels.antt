-- ===== src/Quotas/Tunnels.antt =====
-- reserveTunnelCreate: how many tunnels of a tenant are live once one is created.
use mathlib.Core.Path.{subst}
use or3_sandbox.Base.{
  ℕ, ◌+◌, ◌≤◌, Bool, true, false, ◌&&◌, ◌≡◌, refl, sym, ap, ◌∙◌, Text, some, length, select, find,
  any, leb, eq_text, eq_text_refl, is_null, arith, Bool-cases, inl, inr, some-injective,
  length-append,
}
use or3_sandbox.Errors.{Result, ok}
use or3_sandbox.Tables.{Db}
use or3_sandbox.Model.Records.{TenantQuota, Tunnel}
use or3_sandbox.Effect.{Service, World, attempt, query}
use or3_sandbox.Effect.Keeps.{Keeps-lift, keeps_rules}
use or3_sandbox.Effect.Yields.{
  Yields, Yields-query, Yields-bind, Yields-mono, Yields-Keeps, Yields-transact, Yields-fail,
  Yields-pure, Yields-skip,
}
use or3_sandbox.Effect.Ends.{Reliable}
use or3_sandbox.Store.Sandboxes.{found}
use or3_sandbox.Store.Tunnels.{insert_tunnel, create_tunnel_row}
use or3_sandbox.Store.Usage.{TenantUsage, usage_of, tenant_usage, get_quota}
use or3_sandbox.Service.Tunnels.Create.{
  Prepared, with_modes, check_tunnel_quota, reserve_tunnel_create,
}
use or3_sandbox.Service.Policy.Profiles.{enforce_tunnel_policy}
use or3_sandbox.Checks.{audit-Keeps, deny-Keeps}
use or3_sandbox.Quotas.Check.{checked_usage-ok}
use or3_sandbox.Executions.Slots.{select-append}

abbrev counts_live : Text → Tunnel → Bool
counts_live t row = eq_text row.tenant_id t && is_null row.revoked_at

-- The tenant's tunnels that are not revoked.
abbrev pub live_tunnels : Text → Db → ℕ
live_tunnels t db = length (select (counts_live t) db.tunnels)

-- The quota that the tenant has in the database.
abbrev pub HasQuota : Text → TenantQuota → Db → Type 0
HasQuota t q db = find (λ row. eq_text row.tenant_id t) db.quotas ≡ some q

insert-counts :
    (t : Text) (u : Tunnel) (db db' : Db)
    → u.tenant_id ≡ t
    → insert_tunnel u db ≡ some db'
    → live_tunnels t db' ≡ live_tunnels t db + 1
unfolding insert_tunnel
insert-counts t u db db' own h = elim (Bool-cases (any (λ row. eq_text row.id u.id) db.tunnels)) [
  | inl taken ↦ cc
  | inr fresh ↦
      let mine : eq_text u.tenant_id t ≡ true = rw own (eq_text_refl t) in
      subst (λ d. live_tunnels t d ≡ live_tunnels t db + 1) (some-injective (rw fresh at h))
        (ap length (select-append (counts_live t) db.tunnels _)
          ∙ rw mine (length-append (select (counts_live t) db.tunnels) _))
]

-- The result of a read that does not fail.
attempt-query :
    {A : Type 0} {P : Db → Type 0} (s : Service) (f : Db → Result A)
    → Reliable s
    → Yields P (λ r db. P db × (r ≡ f db)) (attempt (query s f))
unfolding attempt query
attempt-query s f sound = record { at = λ w p r e. let h = rw (sound w.step) at e in (p, (cc)) }

module _ (s : Service) (sound : Reliable s) (t : Text) (q : TenantQuota) where
  abbrev Counted : ℕ → Db → Type 0
  Counted n db = live_tunnels t db ≡ n

  check-Room :
      (k : Text) (usage : TenantUsage) (P : Db → Type 0)
      → Yields P
          (λ _ db.
            P db × (leb q.max_tunnels usage.active_tunnels ≡ false) × (q.allow_tunnels ≡ true))
          (check_tunnel_quota s t k usage (ok q))
  unfolding check_tunnel_quota
  check-Room k usage P = elim (Bool-cases q.allow_tunnels) [
    | inl allowed ↦ elim (Bool-cases (leb q.max_tunnels usage.active_tunnels)) [
      | inl over ↦ rw (allowed, over) (Yields-skip _ (λ _. Yields-fail _))
      | inr room ↦ rw (allowed, room) (Yields-pure tt (λ db p. (p, refl, refl)))
    ]
    | inr refused ↦ rw refused (Yields-skip _ (λ _. Yields-fail _))
  ]

  -- What the checks have shown, of the usage that was read.
  abbrev Roomy : TenantUsage → Db → Type 0
  Roomy u db =
      (u.active_tunnels ≡ live_tunnels t db)
      × (leb q.max_tunnels u.active_tunnels ≡ false)
      × (q.allow_tunnels ≡ true)

  checked-Roomy :
      (k : Text) (u : TenantUsage) (r : Result TenantQuota)
      → Yields
          (λ db. (u.active_tunnels ≡ live_tunnels t db) × (r ≡ ok q))
          (λ _. Roomy u)
          (check_tunnel_quota s t k u r)
  checked-Roomy k u r = record {
    at = λ w h a e.
        rw h.1
          ((check-Room k u (λ db. u.active_tunnels ≡ live_tunnels t db)).at w h.0 a (rw h.1 at e));
  }

  reserve-Room :
      (p : Prepared)
      → p.tunnel.tenant_id ≡ t
      → Yields
          (HasQuota t q)
          (λ _ db. (live_tunnels t db ≤ q.max_tunnels) × (q.allow_tunnels ≡ true))
          (reserve_tunnel_create s t p)
  unfolding reserve_tunnel_create tenant_usage get_quota usage_of create_tunnel_row
      enforce_tunnel_policy
  reserve-Room p own =
      Yields-bind {Q = λ u db. HasQuota t q db × (u.active_tunnels ≡ live_tunnels t db)}
        (Yields-query s _ (λ db u h read.
          (h, sym (ap (λ v. v.active_tunnels) (checked_usage-ok (usage_of t db) u read)))))
        (λ u.
          let audit = audit-Keeps s (Roomy u) (λ db events counts h. h) in
          Yields-bind
            (Yields-mono (attempt-query s _ sound) (λ r db h. (h.0.1, h.1 ∙ ap found h.0.0)))
            (λ r. Yields-bind (checked-Roomy p.sandbox.id u r) (λ _.
              Yields-bind (Yields-Keeps (Keeps-lift _)) (λ req.
                Yields-bind (Yields-Keeps (search (deny-Keeps s audit, keeps_rules))) (λ _.
                  Yields-bind
                    (Yields-transact s _ (λ db db' h e.
                      let one_more = insert-counts t (with_modes req p.tunnel) db db' own e in
                      (ground arith, h.2)))
                    (λ _. Yields-pure _ (λ db h. h)))))))

-- A tunnel that is reserved leaves the tenant with at most as many live tunnels as its quota allows, the
-- new one included, and the quota allows tunnels: where the tenant has a quota, no statement fails and
-- the tunnel is the tenant's.
pub reserve_tunnel_create-live_tunnels :
    (s : Service) (t : Text) (q : TenantQuota) (p : Prepared) (w : World) (u : Tunnel)
    → Reliable s
    → p.tunnel.tenant_id ≡ t
    → HasQuota t q w.db
    → (reserve_tunnel_create s t p w).0 ≡ ok u
    → (live_tunnels t (reserve_tunnel_create s t p w).1.db ≤ q.max_tunnels)
      × (q.allow_tunnels ≡ true)
reserve_tunnel_create-live_tunnels s t q p w u sound own has e =
    (reserve-Room s sound t q p own).at w has u e
