-- ===== src/Auth/Permissions.antt =====
-- What a permission that is granted rests on.
use or3_sandbox.Base.{
  Bool, true, false, ◌&&◌, ◌≡◌, refl, Text, List, [], ◌∷◌, eq_text, any, arith, to_lower,
  trim_space,
}
use or3_sandbox.Auth.Identity.{
  TenantContext, Role, operator, admin, developer, viewer, service, other, role_of, permissions_of,
  role_permissions, all_permissions, admin_inspect, contains_permission, has_scopes, granted_by,
  has_permission,
}

-- The two roles that see across tenants.
abbrev pub inspects : Role → Bool
inspects operator = true
inspects service = true
inspects _ = false

abbrev pub role_named : Text → Role
role_named role = role_of (to_lower (trim_space role))

permissions-known :
    (r : Role) (p : Text)
    → any (λ granted. eq_text granted p) (permissions_of r) ≡ true
    → any (λ granted. eq_text granted p) all_permissions ≡ true
permissions-known operator p h = h
permissions-known admin p h = ground arith
permissions-known developer p h = ground arith
permissions-known viewer p h = ground arith
permissions-known service p h = h
permissions-known other p h = cc

inspection :
    (r : Role)
    → any (λ granted. eq_text granted admin_inspect) (permissions_of r) ≡ true
    → inspects r ≡ true
unfolding eq_text
inspection operator h = refl
inspection admin h = cc
inspection developer h = cc
inspection viewer h = cc
inspection service h = refl
inspection other h = cc

any_mono {ℓ} :
    {A : Type ℓ} (p q : A → Bool)
    → ((x : A) → p x ≡ true → q x ≡ true)
    → (xs : List A) → any p xs ≡ true
    → any q xs ≡ true
any_mono p q h [] e = cc
any_mono p q h (x ∷ xs) e = ground (arith, h x, any_mono p q h xs)

any_const {ℓ} :
    {A : Type ℓ} (p : A → Bool) (b : Bool)
    → ((x : A) → p x ≡ true → b ≡ true)
    → (xs : List A) → any p xs ≡ true
    → b ≡ true
any_const p b h [] e = cc
any_const p b h (x ∷ xs) e = ground (arith, h x, any_const p b h xs)

-- What a permission rests on: it is one that the control plane knows; a service account with scopes has
-- it among its scopes; and a caller who may inspect has a role that inspects.
pub record Warranted (c : TenantContext) (p : Text) : Type 0 where
  pub known : any (λ granted. eq_text granted p) all_permissions ≡ true
  pub scoped :
      c.identity.is_service && has_scopes c.identity ≡ true
      → contains_permission c.identity.scopes p ≡ true
  pub inspector :
      p ≡ admin_inspect → any (λ role. inspects (role_named role)) c.identity.roles ≡ true

has_permission-roles :
    (c : TenantContext) (p : Text)
    → has_permission c p ≡ true
    → granted_by c.identity.roles p ≡ true
unfolding has_permission
has_permission-roles c p h = ground arith

has_permission-scoped :
    (c : TenantContext) (p : Text)
    → has_permission c p ≡ true
    → c.identity.is_service && has_scopes c.identity ≡ true
    → contains_permission c.identity.scopes p ≡ true
unfolding has_permission
has_permission-scoped c p h e = ground arith

-- A permission that HasPermission reports is one that the control plane knows; a service account that
-- has scopes has it among them; and the permission to inspect comes from the role of an operator or a
-- service account.
pub has_permission-Warranted :
    (c : TenantContext) (p : Text) → has_permission c p ≡ true → Warranted c p
unfolding granted_by role_permissions
has_permission-Warranted c p h =
    let roles = has_permission-roles c p h in
    record {
      known =
          any_const (λ role. any (λ granted. eq_text granted p) (permissions_of (role_named role)))
            (any (λ granted. eq_text granted p) all_permissions)
            (λ role. permissions-known (role_named role) p) c.identity.roles roles;
      scoped = has_permission-scoped c p h;
      inspector = λ e.
          any_mono
            (λ role.
              any (λ granted. eq_text granted admin_inspect) (permissions_of (role_named role)))
            (λ role. inspects (role_named role)) (λ role. inspection (role_named role))
            c.identity.roles (rw e at roles);
    }

-- A service account's scopes only narrow what its roles grant: what it may do with scopes it may do
-- without them.
pub has_permission-narrows :
    (c : TenantContext) (p : Text)
    → has_permission c p ≡ true
    → has_permission (record c { identity = record c.identity { scopes = [] } }) p ≡ true
unfolding has_permission
has_permission-narrows c p h = ground arith
