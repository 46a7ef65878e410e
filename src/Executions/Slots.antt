-- ===== src/Executions/Slots.antt =====
-- reserveExecutionSlot: the executions that a tenant has under way once one is begun.
use mathlib.Core.Path.{subst}
use or3_sandbox.Base.{
  ℕ, ◌+◌, ◌≤◌, Bool, true, not, ◌&&◌, ◌≡◌, refl, sym, ap, ◌∙◌, Text, List, [], ◌∷◌, ◌++◌, some,
  length, select, any, eq_text, eq_text_refl, arith, Bool-cases, inl, inr, some-injective,
  length-append,
}
use or3_sandbox.Errors.{ok}
use or3_sandbox.Tables.{Db}
use or3_sandbox.Model.Status.{is_running, is_execution_running}
use or3_sandbox.Model.Records.{TenantQuota, Execution, ExecRequest}
use or3_sandbox.Effect.{Service, World}
use or3_sandbox.Effect.Yields.{
  Yields, Yields-query, Yields-bind, Yields-guard, Yields-pure, Yields-any, Yields-given,
  Yields-from, Yields-transact,
}
use or3_sandbox.Store.Executions.{insert_execution, create_execution}
use or3_sandbox.Store.Usage.{usage_of, tenant_usage}
use or3_sandbox.Service.Exec.{
  StartedExec, new_execution, reserve_execution_slot, begin_exec, started_exec,
}
use or3_sandbox.Quotas.Check.{checked_usage-ok}

-- The tenant's executions of status running.
abbrev pub counts_running : Text → Execution → Bool
counts_running t e = eq_text e.tenant_id t && is_execution_running e.status

abbrev pub running_execs : Text → Db → ℕ
running_execs t db = length (select (counts_running t) db.executions)

pub select-append {ℓ} :
    {A : Type ℓ} (p : A → Bool) (xs ys : List A) → select p (xs ++ ys) ≡ select p xs ++ select p ys
select-append p [] ys = refl
select-append p (x ∷ xs) ys = ground (arith, select-append p xs ys)

insert-counts :
    (t : Text) (e : Execution) (db db' : Db)
    → counts_running t e ≡ true
    → insert_execution e db ≡ some db'
    → running_execs t db' ≡ running_execs t db + 1
unfolding insert_execution
insert-counts t e db db' own h =
    elim (Bool-cases (any (λ row. eq_text row.id e.id) db.executions)) [
      | inl taken ↦ cc
      | inr fresh ↦
          subst (λ d. running_execs t d ≡ running_execs t db + 1) (some-injective (rw fresh at h))
            (ap length (select-append (counts_running t) db.executions _)
              ∙ rw own (length-append (select (counts_running t) db.executions) _))
    ]

module _ (s : Service) (t : Text) (q : TenantQuota) where
  reserve-running_execs :
      {P : Db → Type 0} (e : Execution)
      → counts_running t e ≡ true
      → Yields P
          (λ _ db. running_execs t db ≤ q.max_concurrent_execs)
          (reserve_execution_slot s t q e)
  unfolding reserve_execution_slot tenant_usage create_execution usage_of
  reserve-running_execs e own =
      Yields-bind {Q = λ u db. u.concurrent_execs ≡ running_execs t db}
        (Yields-query s _ (λ db u _ read.
          sym (ap (λ v. v.concurrent_execs) (checked_usage-ok (usage_of t db) u read))))
        (λ u. Yields-bind (Yields-guard _ _) (λ _.
          Yields-transact s _
            (λ db db' h ins. let one_more = insert-counts t e db db' own ins in ground arith)))

  begin-running_execs :
      (k : Text) (req : ExecRequest)
      → Yields
          (λ _. Unit {0})
          (λ b db.
            (is_running b.sandbox.status ≡ true) × (running_execs t db ≤ q.max_concurrent_execs))
          (begin_exec s t q k req)
  unfolding begin_exec
  begin-running_execs k req = Yields-bind Yields-any (λ x.
      Yields-bind (Yields-guard (not (is_running x.status)) _) (λ _.
        Yields-from (λ db h. h.1)
          (Yields-given (λ up. Yields-bind Yields-any (λ _. Yields-bind Yields-any (λ id.
            Yields-bind Yields-any (λ started.
              Yields-bind
                (reserve-running_execs (new_execution t x req id started)
                  (ground (arith, eq_text_refl t)))
                (λ _.
                  Yields-pure (started_exec x (new_execution t x req id started))
                    (λ db h. (ground arith, h))))))))))

-- ExecSandbox asks the runtime to run a command only in a sandbox that it read as running, and then the
-- tenant has at most as many executions under way as its quota allows, the new one included.
pub begin_exec-running_execs :
    (s : Service) (t k : Text) (q : TenantQuota) (req : ExecRequest) (w : World) (b : StartedExec)
    → (begin_exec s t q k req w).0 ≡ ok b
    → (is_running b.sandbox.status ≡ true)
      × (running_execs t (begin_exec s t q k req w).1.db ≤ q.max_concurrent_execs)
begin_exec-running_execs s t k q req w b e = (begin-running_execs s t q k req).at w tt b e
