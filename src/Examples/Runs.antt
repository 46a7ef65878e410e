-- ===== src/Examples/Runs.antt =====
-- Isolation and quotas at concrete calls.
use or3_sandbox.Base.{true, ◌≡◌, refl, [], ◌∷◌, codes, arith, eq_text}
use or3_sandbox.Errors.{ok}
use or3_sandbox.Model.Status.{SandboxStatus}
use or3_sandbox.Effect.{query, transact, ◌>>=◌, pure, fail}
use or3_sandbox.Store.Sandboxes.{create_sandbox, insert_sandbox}
use or3_sandbox.Service.Admission.{enforce_admission}
use or3_sandbox.Store.Usage.{usage_of, tenant_usage, checked_usage}
use or3_sandbox.Service.Quota.{check_quota}
use or3_sandbox.Service.Create.Reserve.{reserve_sandbox_create}
use or3_sandbox.Isolation.Calls.{Call}
use or3_sandbox.Isolation.Sequences.{Intact, run_all, run_all-Intact}
use or3_sandbox.Quotas.Reserve.{Within, reserve_sandbox_create-Within}
use or3_sandbox.Quotas.Overflow.{first_broken, check_quota-first_broken, check_quota-memory_wraps}
use or3_sandbox.Examples.Fixtures.{
  service, alice, bob, box_a, box_b, world, database, sandbox_of, quota_of, request_of,
}

run_all-Intact_example :
    Intact bob database
      (run_all service
        ((alice, Call.stop box_b true)
          ∷ (alice, Call.revoke (codes "t2"))
          ∷ (alice, Call.snapshot box_a (codes "copy"))
          ∷ [])
        world).db
unfolding eq_text
run_all-Intact_example =
    run_all-Intact service bob
      ((alice, Call.stop box_b true)
        ∷ (alice, Call.revoke (codes "t2"))
        ∷ (alice, Call.snapshot box_a (codes "copy"))
        ∷ [])
      world (refl, (refl, (refl, tt))) (record { distinct = (refl, (refl, tt)); named = refl })

-- 512 MB and 512 MB of 4096, one sandbox and another of three.
reserve_sandbox_create-Within_example :
    Within bob
      (reserve_sandbox_create service bob
        (quota_of bob)
        (sandbox_of bob (codes "sbx-c") SandboxStatus.creating)
        (request_of 512)
        world).1.db
      (quota_of bob)
unfolding eq_text usage_of reserve_sandbox_create check_quota tenant_usage checked_usage query
    enforce_admission create_sandbox insert_sandbox transact ◌>>=◌ pure fail
reserve_sandbox_create-Within_example =
    reserve_sandbox_create-Within service bob (quota_of bob)
      (sandbox_of bob (codes "sbx-c") SandboxStatus.creating) (request_of 512) world refl refl refl
      refl refl (omega arith) (omega arith) (omega arith) refl

-- 512 MB and 4000 MB are more than 4096.
check_quota-first_broken_example :
    (check_quota service bob (quota_of bob) (request_of 4000) world).0
    ≡ first_broken (usage_of bob database) (quota_of bob) (request_of 4000)
unfolding eq_text usage_of
check_quota-first_broken_example =
    check_quota-first_broken service bob (quota_of bob) (request_of 4000) world refl refl
      (omega arith) (omega arith) (omega arith)

-- 512 MB and the largest 64-bit number of MB pass a quota of 4096.
check_quota-memory_wraps_example :
    (check_quota service bob (quota_of bob) (request_of 9223372036854775807) world).0 ≡ ok tt
unfolding eq_text usage_of
check_quota-memory_wraps_example =
    check_quota-memory_wraps service bob (quota_of bob) (request_of 9223372036854775807) world refl
      refl (omega arith) (omega arith) (omega arith) refl refl refl refl
