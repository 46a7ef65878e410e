-- ===== src/Revocation.antt =====
-- revokeActiveTunnels, and the calls that end with it: no tunnel of the sandbox stays live.
use mathlib.Core.Path.{subst}
use or3_sandbox.Base.{
  ℕ, Bool, true, false, not, ◌&&◌, ◌≡◌, refl, Text, List, [], ◌∷◌, any, select, eq_text,
  eq_text_refl, is_null, arith, Bool-cases, some-injective, inl, inr, ◌∙◌, sym, eq_text_sym,
}
use or3_sandbox.Tables.{Db}
use or3_sandbox.Model.Records.{Sandbox, Tunnel}
use or3_sandbox.Effect.{Service, when}
use or3_sandbox.Effect.Keeps.{Keeps-ask, Keeps-bind, Keeps-transact_always}
use or3_sandbox.Effect.Yields.{
  Yields, Yields-query, Yields-bind, Yields-transact, Yields-Keeps, Yields-pure, Yields-mono,
}
use or3_sandbox.Store.Tunnels.{
  tunnel_of, revoke_rows, list_tunnels, revoke_tunnel_row, revoke_tunnel_capabilities,
}
use or3_sandbox.Service.Tunnels.{revoke_one, revoke_each, revoke_active_tunnels}
use or3_sandbox.Checks.{KeepsAudit, audit-Keeps}

-- A live tunnel of the tenant's sandbox `k`.
abbrev pub is_live_tunnel : Text → Text → Tunnel → Bool
is_live_tunnel t k row = tunnel_of t k row && is_null row.revoked_at

-- `row` is live and none of `us` is a live tunnel of its id.
abbrev escapes : Text → Text → List Tunnel → Tunnel → Bool
escapes t k us row =
    is_live_tunnel t k row && not (any (λ u. eq_text u.id row.id && is_null u.revoked_at) us)

-- Every live tunnel of the sandbox is still to be revoked, `us` being what is left of the loop.
abbrev pub Pending : Text → Text → List Tunnel → Db → Type 0
Pending t k us db = any (escapes t k us) db.tunnels ≡ false

-- Revoking the head of what is left leaves the rest.
escapes-revoke :
    (t k : Text) (now : ℕ) (u : Tunnel) (us xs : List Tunnel)
    → any (escapes t k (u ∷ us)) xs ≡ false
    → any (escapes t k us) (revoke_rows t u.id now xs) ≡ false
unfolding revoke_rows
escapes-revoke t k now u us [] h = refl
escapes-revoke t k now u us (x ∷ xs) h =
    ground (arith, escapes-revoke t k now u us xs, eq_text_sym u.id x.id)

-- Passing over a tunnel that is revoked already.
escapes-pass :
    (t k : Text) (u : Tunnel) (us xs : List Tunnel)
    → is_null u.revoked_at ≡ false
    → any (escapes t k (u ∷ us)) xs ≡ false
    → any (escapes t k us) xs ≡ false
escapes-pass t k u us [] r h = refl
escapes-pass t k u us (x ∷ xs) r h = ground (arith, escapes-pass t k u us xs r)

escapes-none :
    (t k : Text) (xs : List Tunnel) → any (escapes t k []) xs ≡ any (is_live_tunnel t k) xs
escapes-none t k [] = refl
escapes-none t k (x ∷ xs) = ground (arith, escapes-none t k xs)

module _ (t k : Text) where
  escapes-more :
      (u : Tunnel) (us xs : List Tunnel)
      → any (escapes t k us) xs ≡ false
      → any (escapes t k (u ∷ us)) xs ≡ false
  escapes-more u us [] h = refl
  escapes-more u us (x ∷ xs) h = ground (arith, escapes-more u us xs)

  escapes-listed : (xs : List Tunnel) → any (escapes t k (select (tunnel_of t k) xs)) xs ≡ false
  escapes-listed [] = refl
  escapes-listed (x ∷ xs) = elim (Bool-cases (tunnel_of t k x)) [
    | inl mine ↦
        let rest = escapes-more x (select (tunnel_of t k) xs) xs (escapes-listed xs) in
        let all : select (tunnel_of t k) (x ∷ xs) ≡ x ∷ select (tunnel_of t k) xs = rw mine refl in
        subst (λ us. any (escapes t k us) (x ∷ xs) ≡ false) (sym all)
          (ground (arith, eq_text_refl x.id, rest))
    | inr theirs ↦
        let all : select (tunnel_of t k) (x ∷ xs) ≡ select (tunnel_of t k) xs = rw theirs refl in
        subst (λ us. any (escapes t k us) (x ∷ xs) ≡ false) (sym all)
          (ground (arith, escapes-listed xs))
  ]

module _ (s : Service) (t k : Text) where
  -- What is revoked stays so under the events and the capabilities' updates.
  audit-Pending : (us : List Tunnel) → KeepsAudit s (Pending t k us)
  audit-Pending us = audit-Keeps s (Pending t k us) (λ db events counts h. h)

  revoke_one-Pending :
      (x : Sandbox) (u : Tunnel) (us : List Tunnel)
      → Yields (Pending t k (u ∷ us)) (λ _. Pending t k us) (revoke_one s t x u)
  unfolding revoke_one revoke_tunnel_row revoke_tunnel_capabilities
  revoke_one-Pending x u us =
      Yields-bind
        (Yields-bind (Yields-Keeps (Keeps-ask _)) (λ now. Yields-transact s _ (λ db db' h e.
          subst (Pending t k us) (some-injective e) (escapes-revoke t k now u us db.tunnels h))))
        (λ _.
          Yields-bind
            (Yields-Keeps (Keeps-bind (Keeps-ask _) (λ now. Keeps-transact_always s _ (λ db h. h))))
            (λ _. Yields-Keeps (audit-Pending us _ _ _ _ _)))

  revoke_when-Pending :
      (x : Sandbox) (u : Tunnel) (us : List Tunnel) (b : Bool)
      → is_null u.revoked_at ≡ b
      → Yields (Pending t k (u ∷ us)) (λ _. Pending t k us) (when b (revoke_one s t x u))
  revoke_when-Pending x u us true e = revoke_one-Pending x u us
  revoke_when-Pending x u us false e = Yields-pure tt (λ db h. escapes-pass t k u us db.tunnels e h)

  revoke_each-Pending :
      (x : Sandbox) (us : List Tunnel)
      → Yields (Pending t k us) (λ _. Pending t k []) (revoke_each s t x us)
  unfolding revoke_each
  revoke_each-Pending x [] = Yields-pure tt (λ db h. h)
  revoke_each-Pending x (u ∷ us) =
      Yields-bind (revoke_when-Pending x u us (is_null u.revoked_at) refl)
        (λ _. revoke_each-Pending x us)

-- The sandbox `k` of the tenant has no live tunnel.
abbrev pub NoTunnels : Text → Text → Db → Type 0
NoTunnels t k db = any (is_live_tunnel t k) db.tunnels ≡ false

pub revoke_active_tunnels-NoTunnels :
    {P : Db → Type 0} (s : Service) (t : Text) (x : Sandbox)
    → Yields P (λ _. NoTunnels t x.id) (revoke_active_tunnels s t x)
unfolding revoke_active_tunnels list_tunnels
revoke_active_tunnels-NoTunnels s t x =
    Yields-bind {Q = λ us. Pending t x.id us}
      (Yields-query s _
        (λ db us p e. subst (λ l. Pending t x.id l db) (cc) (escapes-listed t x.id db.tunnels)))
      (λ us.
        Yields-mono (revoke_each-Pending s t x.id x us)
          (λ _ db h. sym (escapes-none t x.id db.tunnels) ∙ h))
