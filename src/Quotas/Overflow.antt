-- ===== src/Quotas/Overflow.antt =====
-- checkQuota decides by 64-bit sums: exactly where these do not wrap around, and not otherwise.
use or3_sandbox.Base.{
  ◌+◌, ◌^◌, ◌≤◌, ◌<◌, Bool, true, false, not, ◌&&◌, ◌≡◌, refl, ◌∙◌, Text, leb, ltb, pos_part,
  exceeds64, exceeds64-ltb, exceeds64-wraps, if◌then◌else◌,
}
use or3_sandbox.Errors.{Result, ok, err, quota, sandboxes, cpu, memory, storage, tunnel_policy}
use or3_sandbox.Model.Records.{CreateSandboxRequest, TenantQuota}
use or3_sandbox.Effect.{Service, World, ◌>>=◌, ◌>>◌, guard, fail, pure, query}
use or3_sandbox.Store.Usage.{TenantUsage, usage_of, checked_usage, tenant_usage, overflows}
use or3_sandbox.Service.Quota.{check_quota, asks_tunnels}

-- The first limit that the request breaks, by exact sums.
abbrev pub first_broken : TenantUsage → TenantQuota → CreateSandboxRequest → Result (Unit {0})
first_broken u q req =
    if leb q.max_sandboxes u.sandboxes
    then err (quota sandboxes)
    else if ltb q.max_cpu_cores (u.requested_cpu + pos_part req.cpu_limit)
    then err (quota cpu)
    else if ltb q.max_memory_mb (u.requested_memory + pos_part req.memory_limit_mb)
    then err (quota memory)
    else if ltb q.max_storage_mb (u.requested_storage + pos_part req.disk_limit_mb)
    then err (quota storage)
    else if asks_tunnels req.allow_tunnels && not q.allow_tunnels
    then err (quota tunnel_policy)
    else ok tt

-- The same by the sums of the code.
abbrev verdict : TenantUsage → TenantQuota → CreateSandboxRequest → Result (Unit {0})
verdict u q req =
    if leb q.max_sandboxes u.sandboxes
    then err (quota sandboxes)
    else if exceeds64 u.requested_cpu (pos_part req.cpu_limit) q.max_cpu_cores
    then err (quota cpu)
    else if exceeds64 u.requested_memory (pos_part req.memory_limit_mb) q.max_memory_mb
    then err (quota memory)
    else if exceeds64 u.requested_storage (pos_part req.disk_limit_mb) q.max_storage_mb
    then err (quota storage)
    else if asks_tunnels req.allow_tunnels && not q.allow_tunnels
    then err (quota tunnel_policy)
    else ok tt

-- Five guards in a row, and the tests they make.
five_guards :
    (a b c d e : Bool) (v : World)
    → ((do
      guard a (quota sandboxes)
      guard b (quota cpu)
      guard c (quota memory)
      guard d (quota storage)
      guard e (quota tunnel_policy))
        v).0
      ≡ (if a
          then err (quota sandboxes)
          else if b
          then err (quota cpu)
          else if c
          then err (quota memory)
          else if d
          then err (quota storage)
          else if e
          then err (quota tunnel_policy)
          else ok tt)
unfolding ◌>>=◌ fail pure
five_guards true b c d e v = refl
five_guards false true c d e v = refl
five_guards false false true d e v = refl
five_guards false false false true e v = refl
five_guards false false false false true v = refl
five_guards false false false false false v = refl

check_quota-verdict :
    (s : Service) (t : Text) (q : TenantQuota) (req : CreateSandboxRequest) (w : World)
    → s.env.statement_fails w.step ≡ false
    → overflows (usage_of t w.db) ≡ false
    → (check_quota s t q req w).0 ≡ verdict (usage_of t w.db) q req
unfolding check_quota tenant_usage query checked_usage ◌>>=◌
check_quota-verdict s t q req w up sums = rw up (rw sums (five_guards _ _ _ _ _ _))

-- checkQuota on every branch: where the usage can be read and the sums of usage and request stay below
-- 2 ^ 63, its answer is the first limit that the request breaks, in the order count, CPU, memory,
-- storage, tunnels, or success if it breaks none.
pub check_quota-first_broken :
    (s : Service) (t : Text) (q : TenantQuota) (req : CreateSandboxRequest) (w : World)
    → s.env.statement_fails w.step ≡ false
    → overflows (usage_of t w.db) ≡ false
    → (usage_of t w.db).requested_cpu + pos_part req.cpu_limit < 2 ^ 63
    → (usage_of t w.db).requested_memory + pos_part req.memory_limit_mb < 2 ^ 63
    → (usage_of t w.db).requested_storage + pos_part req.disk_limit_mb < 2 ^ 63
    → (check_quota s t q req w).0 ≡ first_broken (usage_of t w.db) q req
check_quota-first_broken s t q req w up sums hc hm hs =
    check_quota-verdict s t q req w up sums
    ∙ rw (exceeds64-ltb (usage_of t w.db).requested_cpu (pos_part req.cpu_limit) q.max_cpu_cores hc)
        (rw
          (exceeds64-ltb (usage_of t w.db).requested_memory (pos_part req.memory_limit_mb)
            q.max_memory_mb hm)
          (rw
            (exceeds64-ltb (usage_of t w.db).requested_storage (pos_part req.disk_limit_mb)
              q.max_storage_mb hs)
            refl))

-- checkQuota does not bound memory in 64 bits: where the usage can be read and the sum of the memory in
-- use and of the request's, each below 2 ^ 63, reaches it, a request that breaks no other limit passes
-- under any memory quota.
pub check_quota-memory_wraps :
    (s : Service) (t : Text) (q : TenantQuota) (req : CreateSandboxRequest) (w : World)
    → s.env.statement_fails w.step ≡ false
    → overflows (usage_of t w.db) ≡ false
    → (usage_of t w.db).requested_memory < 2 ^ 63
    → pos_part req.memory_limit_mb < 2 ^ 63
    → 2 ^ 63 ≤ (usage_of t w.db).requested_memory + pos_part req.memory_limit_mb
    → leb q.max_sandboxes (usage_of t w.db).sandboxes ≡ false
    → exceeds64 (usage_of t w.db).requested_cpu (pos_part req.cpu_limit) q.max_cpu_cores ≡ false
    → exceeds64 (usage_of t w.db).requested_storage (pos_part req.disk_limit_mb) q.max_storage_mb
      ≡ false
    → (asks_tunnels req.allow_tunnels && not q.allow_tunnels) ≡ false
    → (check_quota s t q req w).0 ≡ ok tt
check_quota-memory_wraps s t q req w up sums hu hr over hn hc hs ht =
    check_quota-verdict s t q req w up sums
    ∙ rw hn (
        rw hc (
          rw
            (exceeds64-wraps (usage_of t w.db).requested_memory (pos_part req.memory_limit_mb)
              q.max_memory_mb hu hr over)
            (rw hs (rw ht refl))))
