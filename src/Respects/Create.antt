-- ===== src/Respects/Create.antt =====
-- CreateSandbox keeps what the store's statements keep: before the insertion it writes only events, and
-- after it the new id is the tenant's.
use or3_sandbox.Base.{ℕ, Bool, true, false, ◌≡◌, refl, Text, is_empty}
use or3_sandbox.Errors.{Result, ok, err, Error}
use or3_sandbox.Tables.{Db}
use or3_sandbox.Model.Selection.{Backend}
use or3_sandbox.Model.Records.{Sandbox, CreateSandboxRequest, TenantQuota, RuntimeState}
use or3_sandbox.Effect.{Service, M}
use or3_sandbox.Effect.Keeps.{
  Ensures, Keeps, keeps_rules, Ensures-get, Ensures-bind, Keeps-bind, Keeps-pure, Keeps-if,
  Ensures-pure, Ensures-fail, Keeps-fail, Keeps-lift, Keeps-ask, Keeps-attempt, Keeps-ignore,
  Keeps-when, Ensures-attempt, Keeps-remove_all,
}
use or3_sandbox.Service.Create.Validate.{
  validate_runtime_create, validate_docker, validate_qemu, validate_backend,
  resolve_qemu_base_image_ref,
}
use or3_sandbox.Service.Create.Reserve.{reserve_sandbox_create}
use or3_sandbox.Service.Create.Run.{
  new_sandbox, rolled_back, succeeded, rollback_failed_create, or_cause, or_rollback, or_remove,
  launch, complete_create, reserve_or_remove, create_sandbox_call,
}
use or3_sandbox.Checks.{
  deny-Keeps, check_quota-Keeps, check_running_quota-Keeps, enforce_admission-Keeps,
  enforce_create_policy-Keeps,
}
use or3_sandbox.Respects.{Respects}
use or3_sandbox.Respects.Transitions.{Held, refresh_storage-Keeps}

module _ {s : Service} {t : Text} {P : Db → Type 0} {R : Text → Type 0} (i : Respects s t P R) where
  rolled_back-id :
      (clean : Bool) (message : Text) (now : ℕ) (x : Sandbox)
      → R x.id
      → R (rolled_back clean message now x).id
  rolled_back-id true message now x r = r
  rolled_back-id false message now x r = r

  rollback-Keeps :
      {A : Type 0} (x : Sandbox) (cause : Error)
      → R x.id
      → Keeps P (rollback_failed_create s {A = A} t x cause)
  unfolding rollback_failed_create
  rollback-Keeps x cause r =
      Keeps-bind (Keeps-attempt (Keeps-bind (Keeps-ask _) (λ _. Keeps-remove_all s _))) (λ cleaned.
        Keeps-bind (Keeps-ask _) (λ now.
          Keeps-bind
            (Keeps-ignore (
              i.write_state (rolled_back (succeeded cleaned) (s.env.error_text cause) now x)
                (rolled_back-id _ _ now x r)))
            (λ _. Keeps-bind (i.aside.audit _ _ _ _ _) (λ _. Keeps-fail cause))))

  or_cause-Keeps :
      {A : Type 0} (x : Sandbox) (answer : Result A) → R x.id → Keeps P (or_cause s t x answer)
  unfolding or_cause
  or_cause-Keeps x (ok a) r = Keeps-pure a
  or_cause-Keeps x (err e) r = rollback-Keeps x e r

  or_rollback-Keeps :
      {A : Type 0} (x : Sandbox) {m : M A} → R x.id → Keeps P m → Keeps P (or_rollback s t x m)
  unfolding or_rollback
  or_rollback-Keeps x r km = Keeps-bind (Keeps-attempt km) (λ answer. or_cause-Keeps x answer r)

  launch-Keeps : (x : Sandbox) (start : Bool) → R x.id → Keeps P (launch s t x start)
  unfolding launch
  launch-Keeps x start r =
      Keeps-bind (or_rollback-Keeps x r (Keeps-ask _))
        (λ created. Keeps-if start (or_rollback-Keeps x r (Keeps-ask _)) (Keeps-pure created))

  complete_create-Ensures :
      (x : Sandbox) (start : Bool) (state : RuntimeState)
      → R x.id
      → Ensures P (Held i) (complete_create s t x start state)
  unfolding complete_create
  complete_create-Ensures x start state r = Keeps-bind (Keeps-ask _) (λ now.
      Keeps-bind (or_rollback-Keeps _ r (i.write_state _ r)) (λ _.
        Keeps-bind (or_rollback-Keeps _ r (i.write_runtime x.id state r)) (λ _.
          Keeps-bind (refresh_storage-Keeps i.aside _)
            (λ _. Keeps-bind (i.aside.audit _ _ _ _ _) (λ _. i.read x.id)))))

  reserve-Ensures :
      (q : TenantQuota) (x : Sandbox) (req : CreateSandboxRequest)
      → x.tenant_id ≡ t
      → is_empty x.id ≡ false
      → Ensures P (λ _. R x.id) (reserve_sandbox_create s t q x req)
  unfolding reserve_sandbox_create
  reserve-Ensures q x req own named = Keeps-bind (check_quota-Keeps s i.aside.audit t q req) (λ _.
      Keeps-bind (Keeps-when req.start (check_running_quota-Keeps s i.aside.audit t q)) (λ _.
        Keeps-bind (enforce_admission-Keeps s i.aside.audit _ _ _ _) (λ _. i.insert x own named)))

  or_remove-Ensures :
      (x : Sandbox) (answer : Result (Unit {0}))
      → ((done : Unit {0}) → answer ≡ ok done → R x.id)
      → Ensures P (λ _. R x.id) (or_remove s x answer)
  unfolding or_remove
  or_remove-Ensures x (ok done) h = Ensures-pure _ done (h done refl)
  or_remove-Ensures x (err e) h =
      Keeps-bind (Keeps-ignore (Keeps-remove_all s _)) (λ _. Ensures-fail _ e)

  reserve_or_remove-Ensures :
      (q : TenantQuota) (x : Sandbox) (req : CreateSandboxRequest)
      → x.tenant_id ≡ t
      → is_empty x.id ≡ false
      → Ensures P (λ _. R x.id) (reserve_or_remove s t q x req)
  unfolding reserve_or_remove
  reserve_or_remove-Ensures q x req own named =
      Ensures-bind (Ensures-attempt (reserve-Ensures q x req own named))
        (λ answer h. or_remove-Ensures x answer h)

  resolve_image-Keeps : (value : Text) → Keeps P (resolve_qemu_base_image_ref s value)
  unfolding resolve_qemu_base_image_ref
  resolve_image-Keeps value = search keeps_rules depth 15

  validate_backend-Keeps :
      (b : Backend) (req : CreateSandboxRequest) → Keeps P (validate_backend s b req)
  unfolding validate_docker validate_qemu
  validate_backend-Keeps Backend.docker req = search keeps_rules depth 15
  validate_backend-Keeps Backend.qemu req = search (resolve_image-Keeps, keeps_rules) depth 15
  validate_backend-Keeps _ req = search keeps_rules depth 15

  validate_runtime_create-Keeps :
      (req : CreateSandboxRequest) → Keeps P (validate_runtime_create s req)
  unfolding validate_runtime_create
  validate_runtime_create-Keeps req = search (validate_backend-Keeps, keeps_rules) depth 15

  pub create_sandbox_call-Ensures :
      (q : TenantQuota) (req : CreateSandboxRequest)
      → Ensures P (Held i) (create_sandbox_call s t q req)
  unfolding create_sandbox_call new_sandbox
  create_sandbox_call-Ensures q req =
      Keeps-bind (Keeps-when _ (deny-Keeps s i.aside.audit _ _ _ _ _)) (λ _.
        Keeps-bind (Keeps-lift _) (λ _. Keeps-bind (validate_runtime_create-Keeps _) (λ checked.
          Keeps-bind (enforce_create_policy-Keeps s i.aside.audit _ _ _) (λ _.
            Ensures-bind (Ensures-get (λ id. is_empty id ≡ false) _ (λ n. refl)) (λ id named.
              Keeps-bind (Keeps-ask _) (λ _. Keeps-bind (Keeps-ask _) (λ _.
                Keeps-bind (Keeps-ask _) (λ _. Keeps-bind (Keeps-ask _) (λ _.
                  Keeps-bind (Keeps-ask _) (λ _. Keeps-bind (Keeps-ask _) (λ now.
                    Ensures-bind (reserve_or_remove-Ensures q _ checked.0 refl named) (λ _ r.
                      Keeps-bind (launch-Keeps _ checked.0.start r)
                        (λ state. complete_create-Ensures _ checked.0.start state r)))))))))))))
