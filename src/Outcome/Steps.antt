-- ===== src/Outcome/Steps.antt =====
-- The steps of a lifecycle call: the status that they leave in the database and return.
use mathlib.Core.Path.{subst}
use or3_sandbox.Base.{true, ◌≡◌, refl, Text, some, eq_text, eq_text→eq, some-injective}
use or3_sandbox.Errors.{Result, ok, err}
use or3_sandbox.Tables.{Db}
use or3_sandbox.Model.Status.{SandboxStatus}
use or3_sandbox.Model.Records.{Sandbox, RuntimeState}
use or3_sandbox.Effect.{Service}
use or3_sandbox.Effect.Keeps.{Keeps, Keeps-transact_always}
use or3_sandbox.Effect.Yields.{
  Yields, Yields-bind, Yields-query, Yields-pure, Yields-fail, Yields-Keeps, Yields-transact,
  Yields-with, Yields-any, Yields-given, Yields-mono,
}
use or3_sandbox.Store.Sandboxes.{
  update_runtime_rows, update_sandbox_state, update_runtime_state, get_sandbox,
}
use or3_sandbox.Service.Transitions.{
  in_transition, settled, record_failure, record_success, settle, enter,
}
use or3_sandbox.Service.Tunnels.{revoke_active_tunnels}
use or3_sandbox.Respects.{sandboxes-Aside}
use or3_sandbox.Respects.Transitions.{refresh_storage-Keeps, revoke_active_tunnels-Keeps}
use or3_sandbox.Revocation.{NoTunnels, revoke_active_tunnels-NoTunnels}
use or3_sandbox.Outcome.Marks.{
  Marked, Is, lookup-key, lookup-Marked, lookup-stored_status, stored_status, Marked-update,
  Marked-runtime,
}

module _ (s : Service) (t k : Text) where
  pub write_state-Marked :
      (st : SandboxStatus) (x : Sandbox)
      → Is t k st x
      → Yields (λ _. Unit {0}) (λ _ db. Marked t k st db.sandboxes) (update_sandbox_state s x)
  unfolding update_sandbox_state
  write_state-Marked st x is = Yields-transact s _ (λ db db' _ e.
      subst (λ d. Marked t k st d.sandboxes) (some-injective e)
        (Marked-update t k st x db.sandboxes is))

  pub write_runtime-Marked :
      (st : SandboxStatus) (j : Text) (state : RuntimeState)
      → Keeps (λ db. Marked t k st db.sandboxes) (update_runtime_state s j state)
  unfolding update_runtime_state update_runtime_rows
  write_runtime-Marked st j state =
      Keeps-transact_always s _ (λ db h. Marked-runtime t k j st state db.sandboxes h)

  pub settle-Marked :
      (x : Sandbox) (before st : SandboxStatus) (action : Text) (answer : Result RuntimeState)
      → Is t k before x
      → Yields
          (λ _. Unit {0})
          (λ y db. Marked t k st db.sandboxes × Is t k st y)
          (settle s t x st action answer)
  unfolding settle record_success record_failure
  settle-Marked x before st action (err e) is =
      Yields-bind Yields-any
        (λ now. Yields-bind Yields-any (λ _. Yields-bind Yields-any (λ _. Yields-fail e)))
  settle-Marked x before st action (ok state) is =
      let aside = sandboxes-Aside s t (Marked t k st) in
      Yields-bind Yields-any (λ now.
        let after : Is t k st (settled st state now x) = record {
          tenant = is.tenant;
          id = is.id;
          status = refl;
        } in
        Yields-bind (write_state-Marked st (settled st state now x) after) (λ _.
          Yields-bind (Yields-Keeps (write_runtime-Marked st x.id state)) (λ _.
            Yields-bind (Yields-Keeps (refresh_storage-Keeps aside _)) (λ _.
              Yields-bind (Yields-Keeps (aside.audit _ _ _ _ _))
                (λ _. Yields-pure (settled st state now x) (λ db h. (h, after)))))))

  pub enter-Is : (st : SandboxStatus) → Yields (λ _. Unit {0}) (λ x _. Is t k st x) (enter s t k st)
  unfolding enter get_sandbox
  enter-Is st = Yields-bind (Yields-query s _ (λ db x _ e. lookup-key t k db x e)) (λ x.
      Yields-given (λ is. Yields-bind Yields-any (λ now. Yields-bind Yields-any (λ _.
        Yields-pure (in_transition st now x)
          (λ db _. record { tenant = is.tenant; id = is.id; status = refl })))))

  pub reread-Is :
      (st : SandboxStatus) (j : Text) {Q : Db → Type 0}
      → eq_text j k ≡ true
      → Yields
          (λ db. Marked t k st db.sandboxes × Q db)
          (λ x db. Is t k st x × (stored_status t k db ≡ some st) × Q db)
          (get_sandbox s t j)
  unfolding get_sandbox
  reread-Is st j e = Yields-query s _ (λ db x h found_x.
      let hit = rw (eq_text→eq j k e) at found_x in
      (lookup-Marked t k st db x h.0 hit, lookup-stored_status t k st db x h.0 hit, h.1))

  pub revoke-Marked :
      (st : SandboxStatus) (x : Sandbox)
      → Is t k st x
      → Yields
          (λ db. Marked t k st db.sandboxes)
          (λ _ db. Marked t k st db.sandboxes × NoTunnels t k db)
          (revoke_active_tunnels s t x)
  revoke-Marked st x is =
      Yields-with
        (Yields-mono (revoke_active_tunnels-NoTunnels s t x)
          (λ _ db h. subst (λ i. NoTunnels t i db) (eq_text→eq x.id k is.id) h))
        (revoke_active_tunnels-Keeps (sandboxes-Aside s t (Marked t k st)) x)
