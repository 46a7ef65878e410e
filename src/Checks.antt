-- ===== src/Checks.antt =====
-- The service's checks (internal/service/policy.go, admission.go and the quotas of service.go) write
-- audit events and nothing else: an invariant of the database that events keep is kept by them all.
use mathlib.Core.Path.{subst}
use or3_sandbox.Base.{
  ℕ, Bool, Text, List, Option, none, some, String, ◌≡◌, any, eq_text, Bool-cases, inl, inr,
  some-injective,
}
use or3_sandbox.Errors.{Result, ok, err, Denial, not_found}
use or3_sandbox.Tables.{Db, AuditCount}
use or3_sandbox.Model.Selection.{Backend, RuntimeSelection}
use or3_sandbox.Model.Guest.{GuestProfile}
use or3_sandbox.Model.Records.{
  Sandbox, StorageUsage, TenantQuota, Contract, CreateSandboxRequest, PromotedGuestImage,
  AuditEvent,
}
use or3_sandbox.Effect.{Service}
use or3_sandbox.Effect.Keeps.{
  Keeps, keeps_rules, Keeps-bind, Keeps-ask, Keeps-ignore, Keeps-transact,
}
use or3_sandbox.Effect.Ends.{Returns, returns_rules}
use or3_sandbox.Store.Sandboxes.{list_non_deleted_sandboxes}
use or3_sandbox.Store.Snapshots.{count_creating_snapshots, get_promoted_guest_image}
use or3_sandbox.Store.Usage.{tenant_usage}
use or3_sandbox.Store.Audit.{insert_event, add_audit_event, record_audit}
use or3_sandbox.Service.Policy.Images.{
  PolicyAction, deny, promoted_record, contract_or_load, check_contract, judge_promoted,
  check_promoted, enforce_promoted_image_policy,
}
use or3_sandbox.Service.Policy.Docker.{settle_capabilities, enforce_docker_create_policy}
use or3_sandbox.Service.Policy.Profiles.{enforce_guest_profile_policy}
use or3_sandbox.Service.Policy.Lifecycle.{
  enforce_create_policy, enforce_sandbox_policy, enforce_lifecycle_policy,
}
use or3_sandbox.Service.Quota.{check_quota, check_running_quota}
use or3_sandbox.Service.Admission.{
  AdmissionDelta, measure_free_storage, admission_snapshot, admit, enforce_admission,
}
use or3_sandbox.Service.Storage.{audit_storage_pressure}

-- Events keep `P`.
abbrev pub KeepsAudit : Service → (Db → Type 0) → Type 0
KeepsAudit s P =
    (tenant_id sandbox_id action resource_id : Text) (outcome : String)
    → Keeps P (record_audit s tenant_id sandbox_id action resource_id outcome)

-- What depends on other tables alone is kept by events.
pub audit-Keeps :
    (s : Service) (P : Db → Type 0)
    → ((db : Db) (events : List AuditEvent) (counts : List AuditCount)
        → P db
        → P (record db { audit_events = events; audit_counts = counts }))
    → KeepsAudit s P
unfolding record_audit add_audit_event insert_event
audit-Keeps s P closed tenant_id sandbox_id action resource_id outcome =
    Keeps-bind (Keeps-ask _)
      (λ id. Keeps-bind (Keeps-ask _) (λ now. Keeps-ignore (Keeps-transact s _ (written _))))
  where
    written : (e : AuditEvent) (db db' : Db) → P db → insert_event e db ≡ some db' → P db'
    written e db db' h eq = elim (Bool-cases (any (λ row. eq_text row.id e.id) db.audit_events)) [
      | inl taken ↦ cc
      | inr fresh ↦ subst P (some-injective (rw fresh at eq)) (closed db _ _ h)
    ]

-- recordAudit drops its error.
pub record_audit-Returns :
    (s : Service) (tenant_id sandbox_id action resource_id : Text) (outcome : String)
    → Returns (record_audit s tenant_id sandbox_id action resource_id outcome)
unfolding record_audit
record_audit-Returns s tenant_id sandbox_id action resource_id outcome =
    search returns_rules depth 15

module _ {P : Db → Type 0} (s : Service) (audit : KeepsAudit s P) where
  pub deny-Keeps :
      {A : Type 0} (tenant_id sandbox_id action resource_id : Text) (d : Denial)
      → Keeps P (deny s {A = A} tenant_id sandbox_id action resource_id d)
  unfolding deny
  deny-Keeps tenant_id sandbox_id action resource_id d = search (audit, keeps_rules)

  pub check_running_quota-Keeps :
      (tenant_id : Text) (q : TenantQuota) → Keeps P (check_running_quota s tenant_id q)
  unfolding check_running_quota tenant_usage
  check_running_quota-Keeps tenant_id q = search keeps_rules

  pub check_quota-Keeps :
      (tenant_id : Text) (q : TenantQuota) (req : CreateSandboxRequest)
      → Keeps P (check_quota s tenant_id q req)
  unfolding check_quota tenant_usage
  check_quota-Keeps tenant_id q req = search keeps_rules depth 15

  admission_snapshot-Keeps : (tenant_id : Text) → Keeps P (admission_snapshot s tenant_id)
  unfolding admission_snapshot measure_free_storage list_non_deleted_sandboxes
      count_creating_snapshots
  admission_snapshot-Keeps tenant_id = search keeps_rules depth 15

  admit-Keeps :
      (tenant_id sandbox_id action : Text) (r : Result (Unit {0}))
      → Keeps P (admit s tenant_id sandbox_id action r)
  unfolding admit
  admit-Keeps tenant_id sandbox_id action (ok tt) = search keeps_rules
  admit-Keeps tenant_id sandbox_id action (err e) = search (audit, keeps_rules)

  pub enforce_admission-Keeps :
      (tenant_id sandbox_id action : Text) (d : AdmissionDelta)
      → Keeps P (enforce_admission s tenant_id sandbox_id action d)
  unfolding enforce_admission
  enforce_admission-Keeps tenant_id sandbox_id action d =
      search (admission_snapshot-Keeps, admit-Keeps, keeps_rules) depth 15

  pub audit_storage_pressure-Keeps :
      (x : Sandbox) (usage : StorageUsage) → Keeps P (audit_storage_pressure s x usage)
  unfolding audit_storage_pressure
  audit_storage_pressure-Keeps x usage = search (audit, keeps_rules)

  settle_capabilities-Keeps :
      (tenant_id sandbox_id : Text) (action : PolicyAction) (o : Option Bool)
      → Keeps P (settle_capabilities s tenant_id sandbox_id action o)
  unfolding settle_capabilities
  settle_capabilities-Keeps tenant_id sandbox_id action none = search (deny-Keeps, keeps_rules)
  settle_capabilities-Keeps tenant_id sandbox_id action (some d) =
      search (audit, deny-Keeps, keeps_rules) depth 15

  enforce_docker_create_policy-Keeps :
      (tenant_id sandbox_id : Text) (p : GuestProfile) (features capabilities : List Text)
      (action : PolicyAction)
      → Keeps P (enforce_docker_create_policy s tenant_id sandbox_id p features capabilities action)
  unfolding enforce_docker_create_policy
  enforce_docker_create_policy-Keeps tenant_id sandbox_id p features capabilities action =
      search (settle_capabilities-Keeps, deny-Keeps, keeps_rules) depth 15

  enforce_guest_profile_policy-Keeps :
      (tenant_id sandbox_id : Text) (b : Backend) (p : GuestProfile) (reason : Text)
      (action : PolicyAction)
      → Keeps P (enforce_guest_profile_policy s tenant_id sandbox_id b p reason action)
  unfolding enforce_guest_profile_policy
  enforce_guest_profile_policy-Keeps tenant_id sandbox_id b p reason action =
      search (audit, deny-Keeps, keeps_rules) depth 15

  promoted_record-Keeps :
      (tenant_id sandbox_id action image_ref : Text) (r : Result PromotedGuestImage)
      → Keeps P (promoted_record s tenant_id sandbox_id action image_ref r)
  unfolding promoted_record
  promoted_record-Keeps tenant_id sandbox_id action image_ref (ok r) = search keeps_rules
  promoted_record-Keeps tenant_id sandbox_id action image_ref (err not_found) =
      search (deny-Keeps, keeps_rules)
  promoted_record-Keeps tenant_id sandbox_id action image_ref (err _) = search keeps_rules

  check_contract-Keeps :
      (tenant_id sandbox_id : Text) (action : PolicyAction) (image_ref : Text) (c : Contract)
      (r : PromotedGuestImage)
      → Keeps P (check_contract s tenant_id sandbox_id action image_ref c r)
  unfolding check_contract contract_or_load
  check_contract-Keeps tenant_id sandbox_id action image_ref c r =
      search (deny-Keeps, keeps_rules) depth 15

  judge_promoted-Keeps :
      (tenant_id sandbox_id : Text) (action : PolicyAction) (image_ref : Text) (c : Contract)
      (r : PromotedGuestImage)
      → Keeps P (judge_promoted s tenant_id sandbox_id action image_ref c r)
  unfolding judge_promoted
  judge_promoted-Keeps tenant_id sandbox_id action image_ref c r =
      search (check_contract-Keeps, deny-Keeps, keeps_rules) depth 15

  pub enforce_promoted_image_policy-Keeps :
      (tenant_id sandbox_id : Text) (selection : RuntimeSelection) (image_ref : Text)
      (action : PolicyAction) (c : Contract)
      → Keeps P (enforce_promoted_image_policy s tenant_id sandbox_id selection image_ref action c)
  unfolding enforce_promoted_image_policy check_promoted get_promoted_guest_image
  enforce_promoted_image_policy-Keeps tenant_id sandbox_id selection image_ref action c =
      search (promoted_record-Keeps, judge_promoted-Keeps, keeps_rules) depth 15

  pub enforce_create_policy-Keeps :
      (tenant_id : Text) (req : CreateSandboxRequest) (c : Contract)
      → Keeps P (enforce_create_policy s tenant_id req c)
  unfolding enforce_create_policy
  enforce_create_policy-Keeps tenant_id req c =
      search
        (
          deny-Keeps, enforce_guest_profile_policy-Keeps, enforce_promoted_image_policy-Keeps,
          enforce_docker_create_policy-Keeps, keeps_rules,
        )
        depth 15

  enforce_sandbox_policy-Keeps :
      (x : Sandbox) (action : PolicyAction) (selection : RuntimeSelection) (now : ℕ)
      → Keeps P (enforce_sandbox_policy s x action selection now)
  unfolding enforce_sandbox_policy
  enforce_sandbox_policy-Keeps x action selection now =
      search
        (
          deny-Keeps, enforce_guest_profile_policy-Keeps, enforce_promoted_image_policy-Keeps,
          enforce_docker_create_policy-Keeps, keeps_rules,
        )
        depth 15

  pub enforce_lifecycle_policy-Keeps :
      (x : Sandbox) (action : PolicyAction) → Keeps P (enforce_lifecycle_policy s x action)
  unfolding enforce_lifecycle_policy
  enforce_lifecycle_policy-Keeps x action =
      search (deny-Keeps, enforce_sandbox_policy-Keeps, keeps_rules) depth 15
