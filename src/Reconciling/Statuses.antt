-- ===== src/Reconciling/Statuses.antt =====
-- What Reconcile makes of a sandbox.
use or3_sandbox.Base.{◌≡◌, refl, eq_text_refl}
use or3_sandbox.Errors.{Result, ok, err}
use or3_sandbox.Tables.{Db}
use or3_sandbox.Model.Status.{SandboxStatus}
use or3_sandbox.Model.Records.{Sandbox, RuntimeState}
use or3_sandbox.Effect.{Service, World}
use or3_sandbox.Effect.Keeps.{keeps_rules}
use or3_sandbox.Effect.Ends.{Ends, Reliable, Ends-then, Ends-get, Ends-write, Ends-attempt}
use or3_sandbox.Store.Sandboxes.{update_sandbox_state}
use or3_sandbox.Service.Reconcile.{settle_reconcile, collect}
use or3_sandbox.Respects.{sandboxes-Aside}
use or3_sandbox.Respects.Transitions.{refresh_storage_if_stale-Keeps}
use or3_sandbox.Outcome.Marks.{Marked, Is, Marked-update}
use or3_sandbox.Outcome.Steps.{write_runtime-Marked}

-- The status that the control plane shows for the runtime's answer.
abbrev pub status_of : Result RuntimeState → SandboxStatus
status_of (ok state) = state.status
status_of (err e) = SandboxStatus.degraded

module _ (s : Service) (x : Sandbox) where
  abbrev Shown : SandboxStatus → Db → Type 0
  Shown st db = Marked x.tenant_id x.id st db.sandboxes

  write-Shown :
      (sound : Reliable s) (st : SandboxStatus) (y : Sandbox)
      → Is x.tenant_id x.id st y
      → Ends (λ _. Unit {0}) (Shown st) (update_sandbox_state s y)
  unfolding update_sandbox_state
  write-Shown sound st y is =
      Ends-write s _ sound (λ db p. Marked-update x.tenant_id x.id st y db.sandboxes is)

  itself :
      (st : SandboxStatus) (y : Sandbox)
      → y.tenant_id ≡ x.tenant_id
      → y.id ≡ x.id
      → y.status ≡ st
      → Is x.tenant_id x.id st y
  itself st y et ei es = record {
    tenant = rw et (eq_text_refl x.tenant_id);
    id = rw ei (eq_text_refl x.id);
    status = es;
  }

-- The loop's body of Reconcile leaves every row of the sandbox's key with the status that the runtime has
-- reported, and degraded where the runtime did not answer, where statements do not fail.
pub settle_reconcile-status :
    (s : Service) (x : Sandbox) (answer : Result RuntimeState) (w : World)
    → Reliable s
    → Marked x.tenant_id x.id (status_of answer) (settle_reconcile s x answer w).1.db.sandboxes
unfolding settle_reconcile collect
settle_reconcile-status s x (err e) w sound =
    (Ends-get {P = λ _. Unit {0}} {Q = Shown s x SandboxStatus.degraded} _ _ (λ n.
        Ends-then
          (Ends-then (Ends-attempt (write-Shown s x sound _ _ (itself s x _ _ refl refl refl)))
            (λ _. search keeps_rules))
          (λ r. search (
            (sandboxes-Aside s x.tenant_id (Marked x.tenant_id x.id SandboxStatus.degraded)).audit,
            keeps_rules,
          )))).at
      w tt
settle_reconcile-status s x (ok state) w sound =
    (Ends-get {P = λ _. Unit {0}} {Q = Shown s x state.status} _ _ (λ n.
        Ends-then
          (Ends-then (Ends-attempt (write-Shown s x sound _ _ (itself s x _ _ refl refl refl)))
            (λ _. search keeps_rules))
          (λ r.
            let aside = sandboxes-Aside s x.tenant_id (Marked x.tenant_id x.id state.status) in
            search
              (
                aside.audit,
                write_runtime-Marked s x.tenant_id x.id state.status,
                refresh_storage_if_stale-Keeps aside,
                keeps_rules,
              )
              depth 20))).at
      w tt
