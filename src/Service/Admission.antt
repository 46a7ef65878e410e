-- ===== src/Service/Admission.antt =====
-- Admission control (internal/service/admission.go): node-wide and per-tenant limits on what is
-- running and what is in progress.
use or3_sandbox.Base.{
  ℕ, suc, ◌+◌, ◌*◌, ◌%◌, ◌^◌, Bool, true, false, ◌&&◌, ◌||◌, Text, List, [], ◌∷◌, Option, none,
  some, pos, ltb, ltb_ℤ, signed64, exceeds64, eq_text, codes, ◌++◌, if◌then◌else◌,
}
use or3_sandbox.Errors.{
  Result, ok, err, admission, node_sandboxes, node_running, node_cpu, node_memory, free_storage,
  tenant_starts, tenant_heavy,
}
use or3_sandbox.Model.Status.{SandboxStatus}
use or3_sandbox.Model.Records.{Sandbox}
use or3_sandbox.Config.{Config}
use or3_sandbox.Effect.{M, Service, ask, fail, pure, ◌>>=◌, ◌>>◌}
use or3_sandbox.Store.Sandboxes.{list_non_deleted_sandboxes}
use or3_sandbox.Store.Snapshots.{count_creating_snapshots}
use or3_sandbox.Store.Audit.{record_audit}

pub record AdmissionDelta : Type 0 where
  pub node_sandboxes : ℕ
  pub node_running : ℕ
  pub running_cpu : ℕ
  pub running_memory : ℕ
  pub tenant_starts : ℕ
  pub tenant_heavy : ℕ

-- Sums are kept exact here and wrapped to 64 bits where they are compared. `free_storage` is `none`
-- where the source has -1.
pub record AdmissionSnapshot : Type 0 where
  pub node_sandboxes : ℕ
  pub node_running : ℕ
  pub running_cpu : ℕ
  pub running_memory : ℕ
  pub free_storage : Option ℕ
  pub tenant_starts : ℕ
  pub tenant_heavy : ℕ

-- func consumesNodeRuntimeCapacity
abbrev pub consumes_node_runtime_capacity : SandboxStatus → Bool
consumes_node_runtime_capacity SandboxStatus.booting = true
consumes_node_runtime_capacity SandboxStatus.starting = true
consumes_node_runtime_capacity SandboxStatus.running = true
consumes_node_runtime_capacity SandboxStatus.suspending = true
consumes_node_runtime_capacity SandboxStatus.suspended = true
consumes_node_runtime_capacity _ = false

-- func isConcurrentStartStatus
abbrev pub is_concurrent_start_status : SandboxStatus → Bool
is_concurrent_start_status SandboxStatus.creating = true
is_concurrent_start_status SandboxStatus.booting = true
is_concurrent_start_status SandboxStatus.starting = true
is_concurrent_start_status _ = false

-- func isHeavyOperationStatus
abbrev pub is_heavy_operation_status : SandboxStatus → Bool
is_heavy_operation_status SandboxStatus.creating = true
is_heavy_operation_status SandboxStatus.starting = true
is_heavy_operation_status SandboxStatus.stopping = true
is_heavy_operation_status SandboxStatus.deleting = true
is_heavy_operation_status SandboxStatus.suspending = true
is_heavy_operation_status _ = false

abbrev pub add_if : Bool → ℕ → ℕ → ℕ
add_if test n m = if test then n + m else n

abbrev pub empty_snapshot : AdmissionSnapshot
empty_snapshot = record {
  node_sandboxes = 0;
  node_running = 0;
  running_cpu = 0;
  running_memory = 0;
  free_storage = none;
  tenant_starts = 0;
  tenant_heavy = 0;
}

-- One round of the loop of admissionSnapshot.
unfoldable pub count_sandbox : Text → AdmissionSnapshot → Sandbox → AdmissionSnapshot
count_sandbox tenant_id a sandbox =
    let capacity = consumes_node_runtime_capacity sandbox.status in
    let own = eq_text sandbox.tenant_id tenant_id in
    record a {
      node_sandboxes = suc a.node_sandboxes;
      node_running = add_if capacity a.node_running 1;
      running_cpu = add_if capacity a.running_cpu sandbox.cpu_limit;
      running_memory = add_if capacity a.running_memory sandbox.memory_limit_mb;
      tenant_starts = add_if (own && is_concurrent_start_status sandbox.status) a.tenant_starts 1;
      tenant_heavy = add_if (own && is_heavy_operation_status sandbox.status) a.tenant_heavy 1;
    }

unfoldable pub count_sandboxes : Text → AdmissionSnapshot → List Sandbox → AdmissionSnapshot
unfolding count_sandbox
count_sandboxes tenant_id a [] = a
count_sandboxes tenant_id a (x ∷ xs) = count_sandboxes tenant_id (count_sandbox tenant_id a x) xs

-- A limit of 0 is off.
abbrev pub over : ℕ → ℕ → ℕ → Bool
over limit current delta = ltb 0 limit && exceeds64 current delta limit

-- `snapshot.freeStorage >= 0 && snapshot.freeStorage < minFreeBytes`
abbrev pub below_floor : ℕ → Option ℕ → Bool
below_floor mb none = false
below_floor mb (some free) = ltb 0 mb && ltb_ℤ (pos free) (signed64 ((mb * 1024 * 1024) % 2 ^ 64))

-- func (Service) evaluateAdmission: the limit that refuses, if any.
unfoldable pub evaluate_admission : Config → AdmissionSnapshot → AdmissionDelta → Result (Unit {0})
evaluate_admission c a d =
    if over c.admission_max_node_sandboxes a.node_sandboxes d.node_sandboxes
    then err (admission node_sandboxes)
    else if over c.admission_max_node_running a.node_running d.node_running
    then err (admission node_running)
    else if over c.admission_max_node_cpu a.running_cpu d.running_cpu
    then err (admission node_cpu)
    else if over c.admission_max_node_memory_mb a.running_memory d.running_memory
    then err (admission node_memory)
    else if below_floor c.admission_min_node_free_storage_mb a.free_storage
    then err (admission free_storage)
    else if over c.admission_max_tenant_starts a.tenant_starts d.tenant_starts
    then err (admission tenant_starts)
    else if over c.admission_max_tenant_heavy_ops a.tenant_heavy d.tenant_heavy
    then err (admission tenant_heavy)
    else ok tt

-- func (Service) admissionEnabled
abbrev pub admission_enabled : Config → Bool
admission_enabled c =
    ltb 0 c.admission_max_node_sandboxes
    || ltb 0 c.admission_max_node_running
    || ltb 0 c.admission_max_node_cpu
    || ltb 0 c.admission_max_node_memory_mb
    || ltb 0 c.admission_min_node_free_storage_mb
    || ltb 0 c.admission_max_tenant_starts
    || ltb 0 c.admission_max_tenant_heavy_ops

module _ (s : Service) where
  unfoldable pub measure_free_storage : AdmissionSnapshot → M AdmissionSnapshot
  measure_free_storage a =
      if ltb 0 s.cfg.admission_min_node_free_storage_mb
      then (do free ← ask s.env.free_storage; pure (record a { free_storage = some free }))
      else pure a

  -- func (Service) admissionSnapshot
  unfoldable pub admission_snapshot : Text → M AdmissionSnapshot
  admission_snapshot tenant_id = do
    sandboxes ← list_non_deleted_sandboxes s
    let counted = count_sandboxes tenant_id empty_snapshot sandboxes
    creating ← count_creating_snapshots s tenant_id
    measure_free_storage (record counted { tenant_heavy = counted.tenant_heavy + creating })

  unfoldable pub admit : Text → Text → Text → Result (Unit {0}) → M (Unit {0})
  admit tenant_id sandbox_id action (ok tt) = pure tt
  admit tenant_id sandbox_id action (err e) = do
    record_audit s tenant_id sandbox_id (codes "admission." ++ action) sandbox_id "denied"
    fail e

  -- func (Service) enforceAdmission
  unfoldable pub enforce_admission : Text → Text → Text → AdmissionDelta → M (Unit {0})
  enforce_admission tenant_id sandbox_id action delta =
      if admission_enabled s.cfg
      then (do
        snapshot ← admission_snapshot tenant_id
        admit tenant_id sandbox_id action (evaluate_admission s.cfg snapshot delta))
      else pure tt
