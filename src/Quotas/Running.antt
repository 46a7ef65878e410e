-- ===== src/Quotas/Running.antt =====
-- The quota of running sandboxes: what a start or a resumption that succeeds was reserved under.
use or3_sandbox.Base.{
  ℕ, ◌<◌, false, ◌≡◌, refl, sym, ap, ◌∙◌, Text, length, select, leb, arith, ◌⊎◌, inl, inr,
}
use or3_sandbox.Errors.{ok}
use or3_sandbox.Tables.{Db}
use or3_sandbox.Model.Status.{SandboxStatus, is_running}
use or3_sandbox.Model.Records.{Sandbox, TenantQuota}
use or3_sandbox.Effect.{Service, World}
use or3_sandbox.Effect.Keeps.{Keeps-query}
use or3_sandbox.Effect.Yields.{
  Yields, Yields-query, Yields-bind, Yields-guard, Yields-mono, Yields-Keeps, Yields-const,
}
use or3_sandbox.Store.Sandboxes.{get_sandbox}
use or3_sandbox.Store.Usage.{TenantUsage, usage_of, checked_usage, tenant_usage}
use or3_sandbox.Service.Policy.Images.{PolicyAction}
use or3_sandbox.Service.Admission.{AdmissionDelta}
use or3_sandbox.Service.Quota.{check_running_quota}
use or3_sandbox.Service.Transitions.{reserve_lifecycle_transition, start_sandbox, resume_sandbox}
use or3_sandbox.Checks.{audit-Keeps, enforce_lifecycle_policy-Keeps}
use or3_sandbox.Quotas.Check.{Same, rows_of, checked_usage-ok}

-- The tenant's sandboxes of status running.
abbrev pub running_count : Text → Db → ℕ
running_count t db = length (select (λ row. is_running row.status) (rows_of t db))

module _ (s : Service) (t : Text) (base : Db) (q : TenantQuota) where
  abbrev Roomy : Type 0
  Roomy = leb q.max_running_sandboxes (running_count t base) ≡ false

  read-running :
      (db : Db) (u : TenantUsage)
      → Same base db
      → checked_usage (usage_of t db) ≡ ok u
      → u.running_sandboxes ≡ running_count t base
  unfolding usage_of
  read-running db u same e =
      sym (ap (λ v. v.running_sandboxes) (checked_usage-ok (usage_of t db) u e))
      ∙ ap (λ xs. running_count t (record base { sandboxes = xs })) same

  check_running_quota-Roomy : Yields (Same base) (λ _ _. Roomy) (check_running_quota s t q)
  unfolding check_running_quota tenant_usage
  check_running_quota-Roomy =
      Yields-bind (Yields-query s _ read-running)
        (λ u. Yields-mono (Yields-guard _ _) (λ _ db h. rw (sym h.0) h.1))

  reserve-Roomy :
      (k : Text) (action : PolicyAction) (st : SandboxStatus) (d : AdmissionDelta)
      → Yields (Same base) (λ _ _. Roomy) (reserve_lifecycle_transition s t k action q st d)
  unfolding reserve_lifecycle_transition get_sandbox
  reserve-Roomy k action st d =
      let audit = audit-Keeps s (Same base) (λ db events counts h. h) in
      Yields-bind (Yields-Keeps (Keeps-query s _)) (λ x.
        Yields-bind (Yields-Keeps (enforce_lifecycle_policy-Keeps s audit x action))
          (λ _. Yields-bind check_running_quota-Roomy (λ _. Yields-const)))

not_leb→lt : (a b : ℕ) → leb a b ≡ false → b < a
not_leb→lt a b h = ground arith

-- StartSandbox and ResumeSandbox, where they succeed, found fewer running sandboxes of the tenant than
-- its quota allows.
pub start_sandbox-running_count :
    (s : Service) (t k : Text) (q : TenantQuota) (w : World) (x y : Sandbox)
    → ((start_sandbox s t k q w).0 ≡ ok x) ⊎ ((resume_sandbox s t k q w).0 ≡ ok y)
    → running_count t w.db < q.max_running_sandboxes
unfolding start_sandbox resume_sandbox
start_sandbox-running_count s t k q w x y (inl e) = not_leb→lt _ _ (
    (Yields-bind {S = λ _ _. Roomy s t w.db q} (reserve-Roomy s t w.db q k _ _ _)
        (λ _. Yields-const)).at
      w refl x e)
start_sandbox-running_count s t k q w x y (inr e) = not_leb→lt _ _ (
    (Yields-bind {S = λ _ _. Roomy s t w.db q} (reserve-Roomy s t w.db q k _ _ _)
        (λ _. Yields-const)).at
      w refl y e)
