-- ===== src/Admissions.antt =====
-- Admission control of internal/service/admission.go against a description by counts and exact sums.
use or3_sandbox.Base.{
  ℕ, ◌+◌, ◌*◌, ◌%◌, ◌^◌, ◌<◌, Bool, false, ◌&&◌, ◌≡◌, refl, Text, List, [], ◌∷◌, Option, none, some,
  eq_text, length, select, sum_by, ltb, exceeds64-ltb, arith, if◌then◌else◌,
}
use or3_sandbox.Errors.{
  Result, ok, err, admission, node_sandboxes, node_running, node_cpu, node_memory, free_storage,
  tenant_starts, tenant_heavy,
}
use or3_sandbox.Model.Records.{Sandbox}
use or3_sandbox.Config.{Config}
use or3_sandbox.Service.Admission.{
  AdmissionDelta, AdmissionSnapshot, consumes_node_runtime_capacity, is_concurrent_start_status,
  is_heavy_operation_status, empty_snapshot, count_sandbox, count_sandboxes, over, below_floor,
  evaluate_admission,
}

-- The sandboxes that hold capacity of the node, and the tenant's that are starting or in a heavy
-- operation.
abbrev pub holders : List Sandbox → List Sandbox
holders xs = select (λ x. consumes_node_runtime_capacity x.status) xs

abbrev pub starts : Text → List Sandbox → List Sandbox
starts t xs = select (λ x. eq_text x.tenant_id t && is_concurrent_start_status x.status) xs

abbrev pub heavy : Text → List Sandbox → List Sandbox
heavy t xs = select (λ x. eq_text x.tenant_id t && is_heavy_operation_status x.status) xs

-- `a` with the counts of `xs` added.
pub record Added (t : Text) (xs : List Sandbox) (a b : AdmissionSnapshot) : Type 0 where
  pub sandboxes : b.node_sandboxes ≡ a.node_sandboxes + length xs
  pub running : b.node_running ≡ a.node_running + length (holders xs)
  pub cpu : b.running_cpu ≡ a.running_cpu + sum_by (λ x. x.cpu_limit) (holders xs)
  pub memory : b.running_memory ≡ a.running_memory + sum_by (λ x. x.memory_limit_mb) (holders xs)
  pub starting : b.tenant_starts ≡ a.tenant_starts + length (starts t xs)
  pub working : b.tenant_heavy ≡ a.tenant_heavy + length (heavy t xs)
  pub free : b.free_storage ≡ a.free_storage

count-Added :
    (t : Text) (xs : List Sandbox) (a : AdmissionSnapshot) → Added t xs a (count_sandboxes t a xs)
unfolding count_sandboxes count_sandbox
count-Added t [] a = record {
  sandboxes = omega arith;
  running = omega arith;
  cpu = omega arith;
  memory = omega arith;
  starting = omega arith;
  working = omega arith;
  free = refl;
}
count-Added t (x ∷ xs) a =
    let h = count-Added t xs (count_sandbox t a x) in
    record {
      sandboxes = ground (arith, h.sandboxes);
      running = ground (arith, h.running);
      cpu = ground (arith, h.cpu);
      memory = ground (arith, h.memory);
      starting = ground (arith, h.starting);
      working = ground (arith, h.working);
      free = h.free;
    }

-- The loop of admissionSnapshot counts what it says: all sandboxes, those that hold capacity with the
-- sums of their CPU and memory, and the tenant's that are starting or in a heavy operation.
pub count_sandboxes-Added :
    (t : Text) (xs : List Sandbox) → Added t xs empty_snapshot (count_sandboxes t empty_snapshot xs)
count_sandboxes-Added t xs = count-Added t xs empty_snapshot

-- A limit of 0 is off; else it bounds the exact sum.
abbrev pub breaks : ℕ → ℕ → ℕ → Bool
breaks limit current delta = ltb 0 limit && ltb limit (current + delta)

abbrev pub too_little : ℕ → Option ℕ → Bool
too_little mb none = false
too_little mb (some free) = ltb 0 mb && ltb free (mb * 1024 * 1024)

-- The first limit that the operation breaks.
abbrev pub first_refusal : Config → AdmissionSnapshot → AdmissionDelta → Result (Unit {0})
first_refusal c a d =
    if breaks c.admission_max_node_sandboxes a.node_sandboxes d.node_sandboxes
    then err (admission node_sandboxes)
    else if breaks c.admission_max_node_running a.node_running d.node_running
    then err (admission node_running)
    else if breaks c.admission_max_node_cpu a.running_cpu d.running_cpu
    then err (admission node_cpu)
    else if breaks c.admission_max_node_memory_mb a.running_memory d.running_memory
    then err (admission node_memory)
    else if too_little c.admission_min_node_free_storage_mb a.free_storage
    then err (admission free_storage)
    else if breaks c.admission_max_tenant_starts a.tenant_starts d.tenant_starts
    then err (admission tenant_starts)
    else if breaks c.admission_max_tenant_heavy_ops a.tenant_heavy d.tenant_heavy
    then err (admission tenant_heavy)
    else ok tt

over-breaks :
    (limit current delta : ℕ)
    → current + delta < 2 ^ 63
    → over limit current delta ≡ breaks limit current delta
over-breaks limit current delta h = rw (exceeds64-ltb current delta limit h) refl

floor-too_little :
    (mb : ℕ) (free : Option ℕ)
    → mb * 1024 * 1024 < 2 ^ 63
    → below_floor mb free ≡ too_little mb free
floor-too_little mb none h = refl
floor-too_little mb (some free) h =
    let m : (mb * 1024 * 1024) % 2 ^ 64 ≡ mb * 1024 * 1024 = omega arith in ground arith

-- evaluateAdmission on every branch: where the 64-bit sums do not wrap around, its answer is the first
-- limit that the operation breaks, a limit of 0 being off, or success if it breaks none.
pub evaluate_admission-first_refusal :
    (c : Config) (a : AdmissionSnapshot) (d : AdmissionDelta)
    → a.node_sandboxes + d.node_sandboxes < 2 ^ 63
    → a.node_running + d.node_running < 2 ^ 63
    → a.running_cpu + d.running_cpu < 2 ^ 63
    → a.running_memory + d.running_memory < 2 ^ 63
    → a.tenant_starts + d.tenant_starts < 2 ^ 63
    → a.tenant_heavy + d.tenant_heavy < 2 ^ 63
    → c.admission_min_node_free_storage_mb * 1024 * 1024 < 2 ^ 63
    → evaluate_admission c a d ≡ first_refusal c a d
unfolding evaluate_admission
evaluate_admission-first_refusal c a d h1 h2 h3 h4 h5 h6 h7 =
    rw
      (
        over-breaks c.admission_max_node_sandboxes a.node_sandboxes d.node_sandboxes h1,
        over-breaks c.admission_max_node_running a.node_running d.node_running h2,
        over-breaks c.admission_max_node_cpu a.running_cpu d.running_cpu h3,
        over-breaks c.admission_max_node_memory_mb a.running_memory d.running_memory h4,
        floor-too_little c.admission_min_node_free_storage_mb a.free_storage h7,
        over-breaks c.admission_max_tenant_starts a.tenant_starts d.tenant_starts h5,
        over-breaks c.admission_max_tenant_heavy_ops a.tenant_heavy d.tenant_heavy h6,
      )
      refl
