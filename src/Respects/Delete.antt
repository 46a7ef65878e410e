-- ===== src/Respects/Delete.antt =====
-- DeleteSandbox keeps what the store's statements keep, if the zero sandbox that it goes on with where
-- its second read fails may be written.
use or3_sandbox.Base.{Bool, true, ◌≡◌, refl, not, Text, []}
use or3_sandbox.Errors.{Result, ok, err}
use or3_sandbox.Tables.{Db}
use or3_sandbox.Model.Status.{SandboxStatus, is_live}
use or3_sandbox.Model.Records.{Sandbox}
use or3_sandbox.Effect.{Service}
use or3_sandbox.Effect.Keeps.{
  Ensures, Keeps, Ensures-bind, Keeps-bind, Keeps-weaken, Ensures-pure, Ensures-if, Keeps-ask,
  Keeps-attempt, Keeps-ignore, Keeps-when, Keeps-remove_all, Ensures-attempt,
}
use or3_sandbox.Service.Transitions.{in_transition}
use or3_sandbox.Service.Delete.{
  reread, or_zero, stop_if_live, finish_delete, settle_delete, delete_sandbox, deleted,
}
use or3_sandbox.Respects.{Respects}
use or3_sandbox.Respects.Transitions.{
  Held, revoke_active_tunnels-Keeps, record_failure-Keeps, stop_sandbox-Ensures,
}

module _ {s : Service} {t : Text} {P : Db → Type 0} {R : Text → Type 0} (i : Respects s t P R)
    (zero : R []) where
  or_zero-Held : (r : Result Sandbox) → ((x : Sandbox) → r ≡ ok x → R x.id) → R (or_zero r).id
  or_zero-Held (ok x) h = h x refl
  or_zero-Held (err e) h = zero

  pub reread-Ensures : (k : Text) → Ensures P (Held i) (reread s t k)
  unfolding reread
  reread-Ensures k =
      Ensures-bind (Ensures-attempt (i.read k))
        (λ r h. Ensures-pure _ (or_zero r) (or_zero-Held r h))

  stop_if_live-Ensures :
      (x : Sandbox) (k : Text) → R x.id → Ensures P (Held i) (stop_if_live s t x k)
  unfolding stop_if_live
  stop_if_live-Ensures x k r =
      Ensures-if (is_live x.status)
        (Keeps-bind (Keeps-weaken (stop_sandbox-Ensures i k true)) (λ _. reread-Ensures k))
        (Ensures-pure _ x r)

  settle_delete-Keeps :
      (x : Sandbox) (preserve : Bool) (answer : Result (Unit {0}))
      → R x.id
      → Keeps P (settle_delete s t x preserve answer)
  unfolding settle_delete finish_delete
  settle_delete-Keeps x preserve (err e) r = record_failure-Keeps i x _ e r
  settle_delete-Keeps x preserve (ok tt) r = Keeps-bind (Keeps-remove_all s _) (λ _.
      Keeps-bind (Keeps-when (not preserve) (Keeps-ignore (Keeps-remove_all s _))) (λ _.
        Keeps-bind (Keeps-ask _)
          (λ now. Keeps-bind (i.write_state (deleted now x) r) (λ _. i.aside.audit _ _ _ _ _))))

  pub delete_sandbox-Keeps : (k : Text) (preserve : Bool) → Keeps P (delete_sandbox s t k preserve)
  unfolding delete_sandbox
  delete_sandbox-Keeps k preserve = Ensures-bind (i.read k) (λ x r.
      Keeps-bind (revoke_active_tunnels-Keeps i.aside x) (λ _.
        Ensures-bind (stop_if_live-Ensures x k r) (λ y held. Keeps-bind (Keeps-ask _) (λ now.
          Keeps-bind (i.write_state (in_transition SandboxStatus.deleting now y) held) (λ _.
            Keeps-bind (Keeps-attempt (Keeps-ask _)) (λ answer.
              settle_delete-Keeps (in_transition SandboxStatus.deleting now y) preserve answer
                held))))))
