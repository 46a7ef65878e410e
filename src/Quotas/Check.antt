-- ===== src/Quotas/Check.antt =====
-- checkQuota: what it has compared where it lets a request through.
use mathlib.Core.Path.{subst}
use or3_sandbox.Base.{
  false, not, ◌&&◌, ◌≡◌, sym, ap, Text, List, length, select, sum_by, leb, pos_part, exceeds64,
  Bool-cases, inl, inr,
}
use or3_sandbox.Errors.{ok}
use or3_sandbox.Tables.{Db}
use or3_sandbox.Model.Records.{Sandbox, CreateSandboxRequest, TenantQuota}
use or3_sandbox.Effect.{Service}
use or3_sandbox.Effect.Yields.{Yields, Yields-query, Yields-bind, Yields-guard, Yields-mono}
use or3_sandbox.Store.Usage.{
  TenantUsage, counts_for, usage_of, checked_usage, tenant_usage, overflows,
}
use or3_sandbox.Service.Quota.{check_quota, asks_tunnels}

-- The tenant's sandboxes that count.
abbrev pub rows_of : Text → Db → List Sandbox
rows_of t db = select (counts_for t) db.sandboxes

-- The database has the sandboxes of `base`.
abbrev pub Same : Db → Db → Type 0
Same base db = db.sandboxes ≡ base.sandboxes

-- The comparisons of checkQuota, over 64-bit sums.
pub record Room (t : Text) (base : Db) (q : TenantQuota) (req : CreateSandboxRequest) : Type 0 where
  pub count : leb q.max_sandboxes (length (rows_of t base)) ≡ false
  pub cpu :
      exceeds64
        (sum_by (λ x. x.cpu_limit) (rows_of t base))
        (pos_part req.cpu_limit)
        q.max_cpu_cores
      ≡ false
  pub memory :
      exceeds64
        (sum_by (λ x. x.memory_limit_mb) (rows_of t base))
        (pos_part req.memory_limit_mb)
        q.max_memory_mb
      ≡ false
  pub storage :
      exceeds64
        (sum_by (λ x. x.disk_limit_mb) (rows_of t base))
        (pos_part req.disk_limit_mb)
        q.max_storage_mb
      ≡ false
  pub tunnels : (asks_tunnels req.allow_tunnels && not q.allow_tunnels) ≡ false

-- The usage that was read is that of `base`, as far as sandboxes go.
record Reads (t : Text) (base : Db) (u : TenantUsage) : Type 0 where
  pub count : u.sandboxes ≡ length (rows_of t base)
  pub cpu : u.requested_cpu ≡ sum_by (λ x. x.cpu_limit) (rows_of t base)
  pub memory : u.requested_memory ≡ sum_by (λ x. x.memory_limit_mb) (rows_of t base)
  pub storage : u.requested_storage ≡ sum_by (λ x. x.disk_limit_mb) (rows_of t base)

pub checked_usage-ok : (u v : TenantUsage) → checked_usage u ≡ ok v → u ≡ v
unfolding checked_usage
checked_usage-ok u v e = elim (Bool-cases (overflows u)) [ inl bad ↦ cc | inr good ↦ cc ]

module _ (s : Service) (t : Text) (base : Db) (q : TenantQuota) (req : CreateSandboxRequest) where
  usage-Reads :
      (db : Db) (u : TenantUsage)
      → Same base db
      → checked_usage (usage_of t db) ≡ ok u
      → Same base db × Reads t base u
  unfolding usage_of
  usage-Reads db u same e =
      let v : usage_of t db ≡ u = checked_usage-ok (usage_of t db) u e in
      (
        same,
        subst (Reads t base) v (record {
          count = ap (λ xs. length (select (counts_for t) xs)) same;
          cpu = ap (λ xs. sum_by (λ x. x.cpu_limit) (select (counts_for t) xs)) same;
          memory = ap (λ xs. sum_by (λ x. x.memory_limit_mb) (select (counts_for t) xs)) same;
          storage = ap (λ xs. sum_by (λ x. x.disk_limit_mb) (select (counts_for t) xs)) same;
        }),
      )

  pub check_quota-Room :
      Yields (Same base) (λ _ db. Same base db × Room t base q req) (check_quota s t q req)
  unfolding check_quota tenant_usage
  check_quota-Room = Yields-bind (Yields-query s _ usage-Reads) (λ u.
      Yields-bind (Yields-guard _ _) (λ _. Yields-bind (Yields-guard _ _) (λ _.
        Yields-bind (Yields-guard _ _) (λ _.
          Yields-bind (Yields-guard _ _)
            (λ _. Yields-mono (Yields-guard _ _) (λ _ db h. settle u db h))))))
    where
      settle :
          (u : TenantUsage) (db : Db)
          → ((((((Same base db × Reads t base u) × (leb q.max_sandboxes u.sandboxes ≡ false))
                    × (exceeds64 u.requested_cpu (pos_part req.cpu_limit) q.max_cpu_cores ≡ false))
                  × (exceeds64 u.requested_memory (pos_part req.memory_limit_mb) q.max_memory_mb
                      ≡ false))
                × (exceeds64 u.requested_storage (pos_part req.disk_limit_mb) q.max_storage_mb
                    ≡ false))
              × ((asks_tunnels req.allow_tunnels && not q.allow_tunnels) ≡ false))
          → Same base db × Room t base q req
      settle u db ((((((same, r), c), cpu), m), st), tu) = (
        same,
        record {
          count = rw (sym r.count) c;
          cpu = rw (sym r.cpu) cpu;
          memory = rw (sym r.memory) m;
          storage = rw (sym r.storage) st;
          tunnels = tu;
        },
      )
