-- ===== src/Outcome/Revoke.antt =====
-- RevokeTunnel: the tunnel that is closed with its capabilities, and what it leaves alone.
use mathlib.Core.Path.{subst}
use or3_sandbox.Base.{
  ℕ, Bool, true, false, not, ◌&&◌, ◌≡◌, ◌∙◌, refl, sym, ap, Text, List, [], ◌∷◌, Option, none, some,
  any, select, find, find-any, eq_text, is_null, arith, some-injective,
}
use or3_sandbox.Errors.{ok}
use or3_sandbox.Tables.{Db}
use or3_sandbox.Model.Records.{Tunnel, TunnelCapability}
use or3_sandbox.Effect.{Service, World}
use or3_sandbox.Effect.Keeps.{Keeps-ask}
use or3_sandbox.Effect.Yields.{Yields, Yields-bind, Yields-query, Yields-transact, Yields-Keeps}
use or3_sandbox.Store.Sandboxes.{found}
use or3_sandbox.Store.Tunnels.{
  tunnel_key, revoke_rows, revoke_capability_rows, get_tunnel, revoke_tunnel_row,
  revoke_tunnel_capabilities,
}
use or3_sandbox.Service.Tunnels.{revoke_tunnel}
use or3_sandbox.Checks.{audit-Keeps}

-- A tunnel of the key that is not revoked, and a tunnel of another key.
abbrev pub is_open : Text → Text → Tunnel → Bool
is_open t k row = tunnel_key t k row && is_null row.revoked_at

abbrev pub is_other : Text → Text → Tunnel → Bool
is_other t k row = not (tunnel_key t k row)

-- A capability for the tunnel that is not revoked, and a capability for another tunnel.
abbrev pub is_valid_for : Text → TunnelCapability → Bool
is_valid_for k row = eq_text row.tunnel_id k && is_null row.revoked_at

abbrev pub is_for_other : Text → TunnelCapability → Bool
is_for_other k row = not (eq_text row.tunnel_id k)

-- The tunnel `k` was the tenant's in `base`; in `db` it is closed, and the rest is as it was.
pub record Revoked (t k : Text) (base db : Db) : Type 0 where
  pub owned : any (tunnel_key t k) base.tunnels ≡ true
  pub closed : any (is_open t k) db.tunnels ≡ false
  pub other_tunnels : select (is_other t k) db.tunnels ≡ select (is_other t k) base.tunnels
  pub spent : any (is_valid_for k) db.tunnel_capabilities ≡ false
  pub other_capabilities :
      select (is_for_other k) db.tunnel_capabilities
      ≡ select (is_for_other k) base.tunnel_capabilities

revoke_rows-closed :
    (t k : Text) (now : ℕ) (rows : List Tunnel)
    → any (is_open t k) (revoke_rows t k now rows) ≡ false
unfolding revoke_rows
revoke_rows-closed t k now [] = refl
revoke_rows-closed t k now (y ∷ rows) = ground (arith, revoke_rows-closed t k now rows)

revoke_rows-others :
    (t k : Text) (now : ℕ) (rows : List Tunnel)
    → select (is_other t k) (revoke_rows t k now rows) ≡ select (is_other t k) rows
unfolding revoke_rows
revoke_rows-others t k now [] = refl
revoke_rows-others t k now (y ∷ rows) = ground (arith, revoke_rows-others t k now rows)

revoke_capability_rows-spent :
    (k : Text) (now : ℕ) (rows : List TunnelCapability)
    → any (is_valid_for k) (revoke_capability_rows k now rows) ≡ false
unfolding revoke_capability_rows
revoke_capability_rows-spent k now [] = refl
revoke_capability_rows-spent k now (y ∷ rows) =
    ground (arith, revoke_capability_rows-spent k now rows)

revoke_capability_rows-others :
    (k : Text) (now : ℕ) (rows : List TunnelCapability)
    → select (is_for_other k) (revoke_capability_rows k now rows) ≡ select (is_for_other k) rows
unfolding revoke_capability_rows
revoke_capability_rows-others k now [] = refl
revoke_capability_rows-others k now (y ∷ rows) =
    ground (arith, revoke_capability_rows-others k now rows)

found-any :
    (p : Tunnel → Bool) (rows : List Tunnel) (u : Tunnel)
    → found (find p rows) ≡ ok u
    → any p rows ≡ true
found-any p rows u e = go (find p rows) refl e
  where
    go : (o : Option Tunnel) → find p rows ≡ o → found o ≡ ok u → any p rows ≡ true
    go none eq e = cc
    go (some y) eq e = find-any p rows eq

-- The stages of the call.
record Same (base db : Db) : Type 0 where
  tunnels : db.tunnels ≡ base.tunnels
  capabilities : db.tunnel_capabilities ≡ base.tunnel_capabilities

record Closed (t k : Text) (base db : Db) : Type 0 where
  owned : any (tunnel_key t k) base.tunnels ≡ true
  closed : any (is_open t k) db.tunnels ≡ false
  others : select (is_other t k) db.tunnels ≡ select (is_other t k) base.tunnels
  capabilities : db.tunnel_capabilities ≡ base.tunnel_capabilities

module _ (s : Service) (t k : Text) (base : Db) where
  Owned : Db → Type 0
  Owned db = Same base db × (any (tunnel_key t k) base.tunnels ≡ true)

  get-Owned : Yields (Same base) (λ _. Owned) (get_tunnel s t k)
  unfolding get_tunnel Owned
  get-Owned =
      Yields-query s _
        (λ db u same e. (same, rw (sym same.tunnels) (found-any (tunnel_key t k) db.tunnels u e)))

  revoke-Closed : Yields Owned (λ _. Closed t k base) (revoke_tunnel_row s t k)
  unfolding revoke_tunnel_row Owned
  revoke-Closed = Yields-bind (Yields-Keeps (Keeps-ask _)) (λ now.
      Yields-transact s _ (λ db db' h e. subst (Closed t k base) (some-injective e) (record {
        owned = h.1;
        closed = revoke_rows-closed t k now db.tunnels;
        others = revoke_rows-others t k now db.tunnels ∙ ap (select (is_other t k)) h.0.tunnels;
        capabilities = h.0.capabilities;
      })))

  spend-Revoked : Yields (Closed t k base) (λ _. Revoked t k base) (revoke_tunnel_capabilities s k)
  unfolding revoke_tunnel_capabilities
  spend-Revoked = Yields-bind (Yields-Keeps (Keeps-ask _)) (λ now.
      Yields-transact s _ (λ db db' h e. subst (Revoked t k base) (some-injective e) (record {
        owned = h.owned;
        closed = h.closed;
        other_tunnels = h.others;
        spent = revoke_capability_rows-spent k now db.tunnel_capabilities;
        other_capabilities =
            revoke_capability_rows-others k now db.tunnel_capabilities
            ∙ ap (select (is_for_other k)) h.capabilities;
      })))

  revoke-Revoked : Yields (Same base) (λ _. Revoked t k base) (revoke_tunnel s t k)
  unfolding revoke_tunnel
  revoke-Revoked = Yields-bind get-Owned (λ u. Yields-bind revoke-Closed (λ _.
      Yields-bind spend-Revoked (λ _. Yields-Keeps (
        audit-Keeps s (Revoked t k base)
          (λ db events counts h. record {
            owned = h.owned;
            closed = h.closed;
            other_tunnels = h.other_tunnels;
            spent = h.spent;
            other_capabilities = h.other_capabilities;
          })
          _ _ _ _ _))))

-- Where RevokeTunnel succeeds, the tunnel was the tenant's; it is revoked, and so is every capability
-- that was issued for it. The tunnels of other keys and the capabilities for other tunnels are as they
-- were.
pub revoke_tunnel-Revoked :
    (s : Service) (t k : Text) (w : World)
    → (revoke_tunnel s t k w).0 ≡ ok tt
    → Revoked t k w.db (revoke_tunnel s t k w).1.db
revoke_tunnel-Revoked s t k w e =
    (revoke-Revoked s t k w.db).at w (record { tunnels = refl; capabilities = refl }) tt e
