-- ===== src/Respects/Exec.antt =====
-- Executing commands and opening terminals keep what the store's statements keep.
use or3_sandbox.Base.{not, ◌≡◌, refl, Text, ℤ}
use or3_sandbox.Errors.{Result, ok, err}
use or3_sandbox.Tables.{Db}
use or3_sandbox.Model.Status.{is_running}
use or3_sandbox.Model.Records.{Sandbox, TenantQuota, Execution, ExecRequest, TtyRequest}
use or3_sandbox.Effect.{Service}
use or3_sandbox.Effect.Keeps.{
  Ensures, Keeps, keeps_rules, Ensures-bind, Keeps-bind, Ensures-pure, Ensures-if, Keeps-ask,
  Keeps-attempt, Keeps-ignore, Keeps-guard, Keeps-query,
}
use or3_sandbox.Store.Usage.{tenant_usage}
use or3_sandbox.Service.Storage.{touch_sandbox_activity}
use or3_sandbox.Service.Exec.{
  StartedExec, new_execution, failed_execution, detached_execution, completed_execution,
  reserve_execution_slot, begin_exec, fail_exec, detach_exec, complete_exec, await_exec,
  finish_exec, exec_sandbox,
}
use or3_sandbox.Service.Terminals.{
  new_session, create_tty_session, close_tty_session, update_tty_resize,
}
use or3_sandbox.Checks.{enforce_lifecycle_policy-Keeps}
use or3_sandbox.Respects.{Respects}
use or3_sandbox.Respects.Own.{Owns}

module _ {s : Service} {t : Text} {P : Db → Type 0} {R : Text → Type 0} (i : Respects s t P R)
    (o : Owns s t P) where
  pub touch-Keeps : (x : Sandbox) → R x.id → Keeps P (touch_sandbox_activity s x)
  unfolding touch_sandbox_activity
  touch-Keeps x r = Keeps-bind (Keeps-ask _) (λ now. i.write_state _ r)

  -- A sandbox that may be written, and an execution of the tenant.
  Begun : StartedExec → Type 0
  Begun b = R b.sandbox.id × (b.execution.tenant_id ≡ t)

  reserve-Keeps :
      (q : TenantQuota) (e : Execution) → e.tenant_id ≡ t → Keeps P (reserve_execution_slot s t q e)
  unfolding reserve_execution_slot tenant_usage
  reserve-Keeps q e own =
      Keeps-bind (Keeps-query s _)
        (λ usage. Keeps-bind (Keeps-guard _ _) (λ _. o.insert_execution e own))

  begin-Ensures :
      (q : TenantQuota) (k : Text) (req : ExecRequest) → Ensures P Begun (begin_exec s t q k req)
  unfolding begin_exec Begun
  begin-Ensures q k req = Ensures-bind (i.read k) (λ x r.
      Keeps-bind (Keeps-guard (not (is_running x.status)) _) (λ _.
        Keeps-bind (enforce_lifecycle_policy-Keeps s i.aside.audit x _) (λ _.
          Keeps-bind (Keeps-ask _) (λ id. Keeps-bind (Keeps-ask _) (λ started.
            Keeps-bind (reserve-Keeps q (new_execution t x req id started) refl)
              (λ _. Ensures-pure _ _ (r, refl)))))))

  finish-Keeps :
      (b : StartedExec) (req : ExecRequest) (answer : Result (Unit {0}))
      → Begun b
      → Keeps P (finish_exec s t b req answer)
  unfolding finish_exec fail_exec detach_exec await_exec complete_exec completed_execution Begun
  finish-Keeps b req (err e) h = Keeps-bind (Keeps-ask _) (λ now.
      Keeps-bind (Keeps-ignore (o.write_execution (failed_execution _ now b.execution) h.1))
        (λ _. search (i.aside.audit, keeps_rules)))
  finish-Keeps b req (ok tt) h =
      Ensures-if req.detached
        (Keeps-bind (Keeps-ask _) (λ now.
          Keeps-bind (o.write_execution (detached_execution now b.execution) h.1)
            (λ _. search (i.aside.audit, keeps_rules))))
        (Keeps-bind (Keeps-ask _) (λ out.
          Keeps-bind (o.write_execution (completed_execution out b.execution) h.1) (λ _.
            Keeps-bind (Keeps-ignore (touch-Keeps b.sandbox h.0))
              (λ _. search (i.aside.audit, keeps_rules)))))

  pub exec_sandbox-Keeps :
      (q : TenantQuota) (k : Text) (req : ExecRequest) → Keeps P (exec_sandbox s t q k req)
  unfolding exec_sandbox
  exec_sandbox-Keeps q k req =
      Ensures-bind (begin-Ensures q k req)
        (λ b h. Keeps-bind (Keeps-attempt (Keeps-ask _)) (λ answer. finish-Keeps b req answer h))

  pub create_tty_session-Keeps :
      (k : Text) (req : TtyRequest) → Keeps P (create_tty_session s t k req)
  unfolding create_tty_session
  create_tty_session-Keeps k req = Ensures-bind (i.read k) (λ x r.
      Keeps-bind (Keeps-guard (not (is_running x.status)) _) (λ _.
        Keeps-bind (enforce_lifecycle_policy-Keeps s i.aside.audit x _) (λ _.
          Keeps-bind (Keeps-ask _) (λ _. Keeps-bind (Keeps-ask _) (λ id.
            Keeps-bind (Keeps-ask _) (λ now.
              Keeps-bind (o.insert_session (new_session t x req id now) refl) (λ _.
                Keeps-bind (Keeps-ignore (touch-Keeps x r))
                  (λ _. search (i.aside.audit, keeps_rules)))))))))

  pub close_tty_session-Keeps : (k : Text) → Keeps P (close_tty_session s t k)
  unfolding close_tty_session
  close_tty_session-Keeps k = Keeps-bind (o.close_session k) (λ _. i.aside.audit _ _ _ _ _)

  pub update_tty_resize-Keeps :
      (k : Text) (rows cols : ℤ) → Keeps P (update_tty_resize s t k rows cols)
  unfolding update_tty_resize
  update_tty_resize-Keeps k rows cols = o.resize_session k _
