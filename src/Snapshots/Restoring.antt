-- ===== src/Snapshots/Restoring.antt =====
-- RestoreSnapshot: what a success leaves.
use mathlib.Core.Path.{subst}
use or3_sandbox.Base.{true, false, ◌≡◌, refl, sym, ◌⊎◌, inl, inr, Text, is_empty, eq_text→eq}
use or3_sandbox.Errors.{Result, ok, err}
use or3_sandbox.Tables.{Db}
use or3_sandbox.Model.Status.{SandboxStatus, is_live}
use or3_sandbox.Model.Records.{Sandbox, Snapshot, RuntimeState}
use or3_sandbox.Effect.{Service, World}
use or3_sandbox.Effect.Yields.{
  Yields, Yields-bind, Yields-query, Yields-any, Yields-given, Yields-mono, Yields-Keeps, Yields-if,
  Yields-pure, Yields-from, Yields-Ensures, Yields-skip,
}
use or3_sandbox.Effect.Keeps.{Ensures-bind, Ensures-attempt, Ensures-query, Ensures-pure}
use or3_sandbox.Store.Sandboxes.{get_sandbox}
use or3_sandbox.Service.Delete.{or_zero, reread}
use or3_sandbox.Service.Snapshots.Restore.{restored, stop_target, finish_restore, restore_snapshot}
use or3_sandbox.Respects.{sandboxes-Aside}
use or3_sandbox.Respects.Transitions.{refresh_storage-Keeps}
use or3_sandbox.Outcome.Marks.{Marked, Is, lookup-key}
use or3_sandbox.Outcome.Steps.{write_state-Marked, write_runtime-Marked}
use or3_sandbox.Outcome.Calls.{AtRest, rest}

-- The sandbox that a restore goes on with: the tenant's, or the zero sandbox.
Target : Text → Text → Sandbox → Type 0
Target t k x = Is t k x.status x ⊎ (is_empty x.id ≡ true)

module _ (s : Service) (t k : Text) where
  or_zero-Target :
      (r : Result Sandbox) → ((x : Sandbox) → r ≡ ok x → Is t k x.status x) → Target t k (or_zero r)
  unfolding Target
  or_zero-Target (ok x) h = inl (h x refl)
  or_zero-Target (err e) h = inr refl

  reread-Target : {P : Db → Type 0} → Yields P (λ x _. Target t k x) (reread s t k)
  unfolding reread get_sandbox
  reread-Target = Yields-Ensures (
      Ensures-bind
        (Ensures-attempt
          (Ensures-query s (λ x. Is t k x.status x) _ (λ db x _ e. lookup-key t k db x e)))
        (λ r h. Ensures-pure (Target t k) (or_zero r) (or_zero-Target r h)))

  stop_target-Target :
      (x : Sandbox) (snapshot_id : Text)
      → Is t k x.status x
      → Yields (λ _. Unit {0}) (λ y _. Target t k y) (stop_target s t x snapshot_id)
  unfolding stop_target Target
  stop_target-Target x snapshot_id is =
      Yields-if (is_live x.status)
        (Yields-skip _ (λ r. Yields-skip _ (λ _.
          subst (λ i. Yields (λ _. Unit {0}) (λ y _. Target t k y) (reread s t i))
            (sym (eq_text→eq x.id k is.id)) reread-Target)))
        (Yields-pure x (λ db p. inl is))

  finish-AtRest :
      (snapshot : Snapshot) (x : Sandbox) (state : RuntimeState)
      → Is t k x.status x
      → Yields
          (λ _. Unit {0})
          (AtRest t k SandboxStatus.stopped)
          (finish_restore s t snapshot x state)
  unfolding finish_restore
  finish-AtRest snapshot x state is =
      let aside = sandboxes-Aside s t (Marked t k SandboxStatus.stopped) in
      Yields-bind Yields-any (λ now.
        let after : Is t k SandboxStatus.stopped (restored snapshot state now x) = record {
          tenant = is.tenant;
          id = is.id;
          status = refl;
        } in
        Yields-bind (write_state-Marked s t k SandboxStatus.stopped _ after) (λ _.
          Yields-bind (Yields-Keeps (write_runtime-Marked s t k SandboxStatus.stopped x.id state))
            (λ _. Yields-bind (Yields-Keeps (refresh_storage-Keeps aside _)) (λ _.
              Yields-bind (Yields-Keeps (aside.audit _ _ _ _ _)) (λ _.
                Yields-from (λ db h. (h, after))
                  (rest s t k SandboxStatus.stopped (restored snapshot state now x)))))))

  -- Of the zero sandbox, or of a row without an id, nothing more is said.
  abbrev Restored : Sandbox → Db → Type 0
  Restored y db = AtRest t k SandboxStatus.stopped y db ⊎ (is_empty y.id ≡ true)

  get-unnamed :
      (i : Text) {P : Db → Type 0} → is_empty i ≡ true → Yields P Restored (get_sandbox s t i)
  unfolding get_sandbox
  get-unnamed i h =
      Yields-query s _
        (λ db y p e. let is = lookup-key t i db y e in inr (rw (eq_text→eq y.id i is.id) h))

  finish-Restored :
      (snapshot : Snapshot) (x : Sandbox) (state : RuntimeState)
      → Target t k x
      → Yields (λ _. Unit {0}) Restored (finish_restore s t snapshot x state)
  unfolding Target finish_restore
  finish-Restored snapshot x state (inl is) =
      Yields-mono (finish-AtRest snapshot x state is) (λ y db h. inl h)
  finish-Restored snapshot x state (inr h) = Yields-skip _ (λ now. Yields-skip _ (λ _.
      Yields-skip _
        (λ _. Yields-skip _ (λ _. Yields-skip _ (λ _. Yields-skip _ (λ _. get-unnamed x.id h))))))

  restore-Restored :
      (snapshot_id : Text) → Yields (λ _. Unit {0}) Restored (restore_snapshot s t snapshot_id k)
  unfolding restore_snapshot get_sandbox
  restore-Restored snapshot_id = Yields-skip _ (λ stored.
      Yields-bind (Yields-query s _ (λ db x _ e. lookup-key t k db x e)) (λ x. Yields-given (λ is.
        Yields-skip _ (λ _. Yields-skip _ (λ fits. Yields-skip _ (λ _. Yields-skip _ (λ fetched.
          Yields-skip _ (λ snapshot. Yields-bind (stop_target-Target x snapshot.id is) (λ target.
            Yields-given (λ held. Yields-skip _ (λ answer.
              Yields-skip _ (λ state. finish-Restored snapshot target state held))))))))))))

-- Where RestoreSnapshot succeeds and returns a sandbox that has an id, that is the tenant's sandbox of
-- the id that was asked for, stopped; its row is stopped in the database, and no tunnel of it is live.
pub restore_snapshot-AtRest :
    (s : Service) (t snapshot_id k : Text) (w : World) (y : Sandbox)
    → (restore_snapshot s t snapshot_id k w).0 ≡ ok y
    → is_empty y.id ≡ false
    → AtRest t k SandboxStatus.stopped y (restore_snapshot s t snapshot_id k w).1.db
restore_snapshot-AtRest s t snapshot_id k w y e named =
    elim ((restore-Restored s t k snapshot_id).at w tt y e) [ inl rest ↦ rest | inr unnamed ↦ cc ]
