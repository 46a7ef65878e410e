-- ===== src/Respects/Transitions.antt =====
-- Stopping, starting, suspending and resuming keep what the store's statements keep.
use or3_sandbox.Base.{ℕ, Bool, Text, List, [], ◌∷◌, is_null}
use or3_sandbox.Errors.{Result, ok, err, Error, not_found}
use or3_sandbox.Tables.{Db}
use or3_sandbox.Model.Status.{SandboxStatus}
use or3_sandbox.Model.Records.{Sandbox, Tunnel, TenantQuota, RuntimeState}
use or3_sandbox.Effect.{Service}
use or3_sandbox.Effect.Keeps.{
  Ensures, Keeps, keeps_rules, Ensures-bind, Keeps-bind, Ensures-pure, Ensures-fail, Keeps-ask,
  Keeps-attempt, Keeps-ignore, Keeps-fail, Keeps-when,
}
use or3_sandbox.Store.Tunnels.{list_tunnels, get_tunnel}
use or3_sandbox.Service.Policy.Images.{PolicyAction}
use or3_sandbox.Service.Admission.{AdmissionDelta}
use or3_sandbox.Store.Sandboxes.{storage_usage_updated_at}
use or3_sandbox.Service.Storage.{refresh_storage, refresh_unless_fresh, refresh_storage_if_stale}
use or3_sandbox.Service.Tunnels.{revoke_one, revoke_each, revoke_active_tunnels, revoke_tunnel}
use or3_sandbox.Service.Transitions.{
  record_failure, record_success, settle, enter, stop_sandbox, suspend_sandbox,
  reserve_lifecycle_transition, execute_reserved_transition, start_sandbox, resume_sandbox,
  in_transition, failed, settled,
}
use or3_sandbox.Checks.{
  audit_storage_pressure-Keeps, enforce_lifecycle_policy-Keeps, check_running_quota-Keeps,
  enforce_admission-Keeps,
}
use or3_sandbox.Respects.{Aside, Respects}

module _ {s : Service} {t : Text} {P : Db → Type 0} (a : Aside s t P) where
  pub refresh_storage-Keeps : (x : Sandbox) → Keeps P (refresh_storage s x)
  unfolding refresh_storage
  refresh_storage-Keeps x =
      search (audit_storage_pressure-Keeps s a.audit, a.write_usage, keeps_rules)

  unless_fresh-Keeps : (x : Sandbox) (r : Result ℕ) → Keeps P (refresh_unless_fresh s x r)
  unfolding refresh_unless_fresh
  unless_fresh-Keeps x (ok at) = search (refresh_storage-Keeps, keeps_rules) depth 15
  unless_fresh-Keeps x (err not_found) = refresh_storage-Keeps x
  unless_fresh-Keeps x (err _) = search keeps_rules

  pub refresh_storage_if_stale-Keeps :
      (x : Sandbox) (force : Bool) → Keeps P (refresh_storage_if_stale s x force)
  unfolding refresh_storage_if_stale storage_usage_updated_at
  refresh_storage_if_stale-Keeps x force =
      search (refresh_storage-Keeps, unless_fresh-Keeps, keeps_rules) depth 15

  revoke_one-Keeps : (x : Sandbox) (u : Tunnel) → Keeps P (revoke_one s t x u)
  unfolding revoke_one
  revoke_one-Keeps x u = search (a.revoke, a.revoke_capabilities, a.audit, keeps_rules)

  revoke_each-Keeps : (x : Sandbox) (us : List Tunnel) → Keeps P (revoke_each s t x us)
  unfolding revoke_each
  revoke_each-Keeps x [] = search keeps_rules
  revoke_each-Keeps x (u ∷ us) =
      Keeps-bind (Keeps-when (is_null u.revoked_at) (revoke_one-Keeps x u))
        (λ _. revoke_each-Keeps x us)

  pub revoke_active_tunnels-Keeps : (x : Sandbox) → Keeps P (revoke_active_tunnels s t x)
  unfolding revoke_active_tunnels list_tunnels
  revoke_active_tunnels-Keeps x = search (revoke_each-Keeps, keeps_rules)

  pub revoke_tunnel-Keeps : (k : Text) → Keeps P (revoke_tunnel s t k)
  unfolding revoke_tunnel get_tunnel
  revoke_tunnel-Keeps k = search (a.revoke, a.revoke_capabilities, a.audit, keeps_rules) depth 15

module _ {s : Service} {t : Text} {P : Db → Type 0} {R : Text → Type 0} (i : Respects s t P R) where
  -- The sandbox that a call goes on with.
  abbrev pub Held : Sandbox → Type 0
  Held x = R x.id

  pub record_failure-Keeps :
      {A : Type 0} (x : Sandbox) (action : Text) (e : Error)
      → Held x
      → Keeps P (record_failure s {A = A} t x action e)
  unfolding record_failure
  record_failure-Keeps x action e r = Keeps-bind (Keeps-ask _) (λ now.
      Keeps-bind (Keeps-ignore (i.write_state (failed (s.env.error_text e) now x) r))
        (λ _. Keeps-bind (i.aside.audit _ _ _ _ _) (λ _. Keeps-fail e)))

  settle-Ensures :
      (x : Sandbox) (status : SandboxStatus) (action : Text) (answer : Result RuntimeState)
      → Held x
      → Ensures P Held (settle s t x status action answer)
  unfolding settle record_success record_failure
  settle-Ensures x status action (err e) r = Keeps-bind (Keeps-ask _) (λ now.
      Keeps-bind (Keeps-ignore (i.write_state (failed (s.env.error_text e) now x) r))
        (λ _. Keeps-bind (i.aside.audit _ _ _ _ _) (λ _. Ensures-fail Held e)))
  settle-Ensures x status action (ok state) r = Keeps-bind (Keeps-ask _) (λ now.
      Keeps-bind (i.write_state (settled status state now x) r) (λ _.
        Keeps-bind (i.write_runtime x.id state r) (λ _.
          Keeps-bind (refresh_storage-Keeps i.aside _) (λ _.
            Keeps-bind (i.aside.audit _ _ _ _ _)
              (λ _. Ensures-pure Held (settled status state now x) r)))))

  enter-Ensures :
      (k : Text) (transitional : SandboxStatus) → Ensures P Held (enter s t k transitional)
  unfolding enter
  enter-Ensures k transitional = Ensures-bind (i.read k) (λ x r. Keeps-bind (Keeps-ask _) (λ now.
      Keeps-bind (i.write_state (in_transition transitional now x) r)
        (λ _. Ensures-pure Held (in_transition transitional now x) r)))

  pub stop_sandbox-Ensures : (k : Text) (force : Bool) → Ensures P Held (stop_sandbox s t k force)
  unfolding stop_sandbox
  stop_sandbox-Ensures k force = Ensures-bind (enter-Ensures k SandboxStatus.stopping) (λ x r.
      Keeps-bind (Keeps-attempt (Keeps-ask _)) (λ answer.
        Ensures-bind (settle-Ensures x SandboxStatus.stopped _ answer r)
          (λ y _. Keeps-bind (revoke_active_tunnels-Keeps i.aside y) (λ _. i.read y.id))))

  pub suspend_sandbox-Ensures : (k : Text) → Ensures P Held (suspend_sandbox s t k)
  unfolding suspend_sandbox
  suspend_sandbox-Ensures k = Ensures-bind (enter-Ensures k SandboxStatus.suspending) (λ x r.
      Keeps-bind (Keeps-attempt (Keeps-ask _)) (λ answer.
        Ensures-bind (settle-Ensures x SandboxStatus.suspended _ answer r)
          (λ y _. Keeps-bind (revoke_active_tunnels-Keeps i.aside y) (λ _. i.read y.id))))

  reserve-Ensures :
      (k : Text) (action : PolicyAction) (q : TenantQuota) (transitional : SandboxStatus)
      (d : AdmissionDelta)
      → Ensures P Held (reserve_lifecycle_transition s t k action q transitional d)
  unfolding reserve_lifecycle_transition
  reserve-Ensures k action q transitional d = Ensures-bind (i.read k) (λ x r.
      Keeps-bind (enforce_lifecycle_policy-Keeps s i.aside.audit x action) (λ _.
        Keeps-bind (check_running_quota-Keeps s i.aside.audit t q) (λ _.
          Keeps-bind (enforce_admission-Keeps s i.aside.audit _ _ _ _) (λ _.
            Keeps-bind (Keeps-ask _) (λ now.
              Keeps-bind (i.write_state (in_transition transitional now x) r)
                (λ _. Ensures-pure Held (in_transition transitional now x) r))))))

  execute-Ensures :
      (x : Sandbox) (action : Text) (status : SandboxStatus)
      (run : ℕ → Sandbox → Result RuntimeState)
      → Held x
      → Ensures P Held (execute_reserved_transition s t x action status run)
  unfolding execute_reserved_transition
  execute-Ensures x action status run r =
      Keeps-bind (Keeps-attempt (Keeps-ask _))
        (λ answer. Ensures-bind (settle-Ensures x status action answer r) (λ y _. i.read y.id))

  pub start_sandbox-Ensures : (k : Text) (q : TenantQuota) → Ensures P Held (start_sandbox s t k q)
  unfolding start_sandbox
  start_sandbox-Ensures k q =
      Ensures-bind (reserve-Ensures k _ q _ _) (λ x r. execute-Ensures x _ _ _ r)

  pub resume_sandbox-Ensures :
      (k : Text) (q : TenantQuota) → Ensures P Held (resume_sandbox s t k q)
  unfolding resume_sandbox
  resume_sandbox-Ensures k q =
      Ensures-bind (reserve-Ensures k _ q _ _) (λ x r. execute-Ensures x _ _ _ r)
