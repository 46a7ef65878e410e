-- ===== src/Quotas/Reserve.antt =====
-- reserveSandboxCreate: what a tenant's sandboxes add up to once a creation is reserved.
use mathlib.Core.Path.{subst}
use or3_sandbox.Base.{
  ◌+◌, ◌^◌, ◌≤◌, ◌<◌, true, false, ◌≡◌, refl, sym, ap, ◌∙◌, Text, List, [], ◌∷◌, ◌++◌, none, some,
  select, sum_by, pos_part, any, eq_text_refl, arith, Bool-cases, some-injective, inl, inr, codes,
  exceeds64-exact, length-append, sum_by-append,
}
use or3_sandbox.Errors.{ok}
use or3_sandbox.Tables.{Db}
use or3_sandbox.Model.Status.{is_deleted}
use or3_sandbox.Model.Records.{Sandbox, CreateSandboxRequest, TenantQuota}
use or3_sandbox.Effect.{Service, World}
use or3_sandbox.Effect.Keeps.{Keeps-when}
use or3_sandbox.Effect.Yields.{Yields, Yields-bind, Yields-transact, Yields-Keeps}
use or3_sandbox.Store.Sandboxes.{has_id, insert_sandbox, create_sandbox}
use or3_sandbox.Store.Usage.{counts_for, usage_of}
use or3_sandbox.Service.Create.Reserve.{reserve_sandbox_create}
use or3_sandbox.Checks.{audit-Keeps, check_running_quota-Keeps, enforce_admission-Keeps}
use or3_sandbox.Isolation.Rows.{select-append}
use or3_sandbox.Quotas.Check.{rows_of, Same, Room, check_quota-Room}

-- A tenant's sandboxes within a quota.
pub record Within (t : Text) (db : Db) (q : TenantQuota) : Type 0 where
  pub count : (usage_of t db).sandboxes ≤ q.max_sandboxes
  pub cpu : (usage_of t db).requested_cpu ≤ q.max_cpu_cores
  pub memory : (usage_of t db).requested_memory ≤ q.max_memory_mb
  pub storage : (usage_of t db).requested_storage ≤ q.max_storage_mb

-- The rows after an insertion of a sandbox that counts.
module _ (t : Text) (x : Sandbox) (own : x.tenant_id ≡ t)
    (counted : is_deleted x.status ≡ false) where
  inserted-rows :
      (db db' : Db)
      → insert_sandbox x db ≡ some db'
      → rows_of t db' ≡ rows_of t db ++ record x { last_runtime_error = []; deleted_at = none } ∷ []
  unfolding insert_sandbox
  inserted-rows db db' e = elim (Bool-cases (any (has_id x.id) db.sandboxes)) [
    | inl taken ↦ cc
    | inr fresh ↦
        let counts : counts_for t x ≡ true = ground (arith, own, eq_text_refl t) in
        subst
          (λ d.
            rows_of t d
            ≡ rows_of t db ++ record x { last_runtime_error = []; deleted_at = none } ∷ [])
          (some-injective (rw fresh at e))
          (select-append (counts_for t) db.sandboxes _ ∙ rw counts refl)
  ]

-- The database is that of an insertion of `x` beside the sandboxes of `base`.
Inserted : Sandbox → Db → Db → Type 0
Inserted x base db =
    (db0 : Db) × (db0.sandboxes ≡ base.sandboxes) × (insert_sandbox x db0 ≡ some db)

module _ (s : Service) (t : Text) (base : Db) (q : TenantQuota) (x : Sandbox)
    (req : CreateSandboxRequest) where
  abbrev pub Roomy : List Sandbox → Type 0
  Roomy rows = (rows ≡ base.sandboxes) × Room t base q req

  reserve-Room :
      Yields
        (Same base)
        (λ _ db. Room t base q req × Inserted x base db)
        (reserve_sandbox_create s t q x req)
  unfolding reserve_sandbox_create create_sandbox Inserted
  reserve-Room =
      let audit = audit-Keeps s (λ db. Roomy db.sandboxes) (λ db events counts h. h) in
      Yields-bind (check_quota-Room s t base q req) (λ _.
        Yields-bind (Yields-Keeps (Keeps-when req.start (check_running_quota-Keeps s audit t q)))
          (λ _.
            Yields-bind (Yields-Keeps (enforce_admission-Keeps s audit t x.id (codes "create") _))
              (λ _. Yields-transact s (insert_sandbox x) (λ db db' h e. (h.1, (db, h.0, e))))))

-- A creation that is reserved leaves the tenant within its quota: the count of its sandboxes and the
-- sums of their CPU, memory and storage limits, those of the new sandbox included. The new sandbox is
-- the tenant's, not deleted, with the limits of the request, and the sums stay below 2 ^ 63.
pub reserve_sandbox_create-Within :
    (s : Service) (t : Text) (q : TenantQuota) (x : Sandbox) (req : CreateSandboxRequest)
    (w : World)
    → x.tenant_id ≡ t
    → is_deleted x.status ≡ false
    → x.cpu_limit ≡ pos_part req.cpu_limit
    → x.memory_limit_mb ≡ pos_part req.memory_limit_mb
    → x.disk_limit_mb ≡ pos_part req.disk_limit_mb
    → (usage_of t w.db).requested_cpu + x.cpu_limit < 2 ^ 63
    → (usage_of t w.db).requested_memory + x.memory_limit_mb < 2 ^ 63
    → (usage_of t w.db).requested_storage + x.disk_limit_mb < 2 ^ 63
    → (reserve_sandbox_create s t q x req w).0 ≡ ok tt
    → Within t (reserve_sandbox_create s t q x req w).1.db q
unfolding usage_of Inserted
reserve_sandbox_create-Within s t q x req w own live ec em es hc hm hs done =
    let (room, (db0, same, ins)) = (reserve-Room s t w.db q x req).at w refl tt done in
    let db = (reserve_sandbox_create s t q x req w).1.db in
    let row : Sandbox = record x { last_runtime_error = []; deleted_at = none } in
    let rows : rows_of t db ≡ rows_of t w.db ++ row ∷ [] =
      inserted-rows t x own live db0 db ins
      ∙ ap (λ xs. select (counts_for t) xs ++ row ∷ []) same in
    let cpu =
      exceeds64-exact (sum_by (λ y. y.cpu_limit) (rows_of t w.db)) (pos_part req.cpu_limit)
        q.max_cpu_cores (rw (sym ec) hc) room.cpu in
    let memory =
      exceeds64-exact (sum_by (λ y. y.memory_limit_mb) (rows_of t w.db))
        (pos_part req.memory_limit_mb) q.max_memory_mb (rw (sym em) hm) room.memory in
    let storage =
      exceeds64-exact (sum_by (λ y. y.disk_limit_mb) (rows_of t w.db)) (pos_part req.disk_limit_mb)
        q.max_storage_mb (rw (sym es) hs) room.storage in
    record {
      count = rw rows (rw (length-append (rows_of t w.db) (row ∷ [])) (ground (arith, room.count)));
      cpu =
          rw rows (rw (sum_by-append (λ y. y.cpu_limit) (rows_of t w.db) (row ∷ [])) (omega arith));
      memory =
          rw rows
            (rw (sum_by-append (λ y. y.memory_limit_mb) (rows_of t w.db) (row ∷ [])) (omega arith));
      storage =
          rw rows
            (rw (sum_by-append (λ y. y.disk_limit_mb) (rows_of t w.db) (row ∷ [])) (omega arith));
    }
