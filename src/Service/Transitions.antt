-- ===== src/Service/Transitions.antt =====
-- Starting, stopping, suspending and resuming a sandbox (internal/service/service.go). A call under
-- `admissionMu` is one action here: no other call comes between its steps.
use or3_sandbox.Base.{ℕ, Bool, Text, codes, ◌==◌, if◌then◌else◌}
use or3_sandbox.Errors.{Result, ok, err, Error}
use or3_sandbox.Model.Status.{SandboxStatus}
use or3_sandbox.Model.Records.{Sandbox, RuntimeState, TenantQuota}
use or3_sandbox.Effect.{M, Service, ask, get, attempt, ignore, fail, pure, ◌>>=◌, ◌>>◌}
use or3_sandbox.Store.Sandboxes.{get_sandbox, update_sandbox_state, update_runtime_state}
use or3_sandbox.Store.Audit.{record_audit}
use or3_sandbox.Service.Quota.{check_running_quota}
use or3_sandbox.Service.Admission.{AdmissionDelta, enforce_admission}
use or3_sandbox.Service.Policy.Images.{PolicyAction, start, resume}
use or3_sandbox.Service.Policy.Lifecycle.{enforce_lifecycle_policy}
use or3_sandbox.Service.Storage.{refresh_storage}
use or3_sandbox.Service.Tunnels.{revoke_active_tunnels}

-- `if delta.runningCPU == 0 { delta.runningCPU = … }`
abbrev or_default : ℕ → ℕ → ℕ
or_default n d = if n == 0 then d else n

abbrev pub fill_delta : AdmissionDelta → Sandbox → AdmissionDelta
fill_delta d x = record d {
  running_cpu = or_default d.running_cpu x.cpu_limit;
  running_memory = or_default d.running_memory x.memory_limit_mb;
}

-- The delta that StartSandbox and ResumeSandbox pass.
abbrev pub start_delta : AdmissionDelta
start_delta = record {
  node_sandboxes = 0;
  node_running = 1;
  running_cpu = 0;
  running_memory = 0;
  tenant_starts = 1;
  tenant_heavy = 1;
}

-- A sandbox on its way: the status that is persisted before the runtime is asked.
abbrev pub in_transition : SandboxStatus → ℕ → Sandbox → Sandbox
in_transition status now x = record x { status = status; runtime_status = status; updated_at = now }

abbrev pub failed : Text → ℕ → Sandbox → Sandbox
failed message now x = record x {
  status = SandboxStatus.error;
  runtime_status = SandboxStatus.error;
  last_runtime_error = message;
  updated_at = now;
}

abbrev pub settled : SandboxStatus → RuntimeState → ℕ → Sandbox → Sandbox
settled status state now x = record x {
  status = status;
  runtime_status = state.status;
  updated_at = now;
  last_active_at = now;
}

abbrev action_text : PolicyAction → Text
action_text resume = codes "resume"
action_text _ = codes "start"

module _ (s : Service) where
  -- The branch of a runtime's error, the same in StopSandbox, transitionSandbox and
  -- executeReservedTransition.
  unfoldable pub record_failure : {A : Type 0} → Text → Sandbox → Text → Error → M A
  record_failure tenant_id x action e = do
    now ← get s.env.now
    ignore (update_sandbox_state s (failed (s.env.error_text e) now x))
    record_audit s tenant_id x.id action x.id "error"
    fail e

  -- The branch of success, the same in the three of them.
  unfoldable pub record_success : Text → Sandbox → SandboxStatus → Text → RuntimeState → M Sandbox
  record_success tenant_id x status action state = do
    now ← get s.env.now
    update_sandbox_state s (settled status state now x)
    update_runtime_state s x.id state
    refresh_storage s (settled status state now x)
    record_audit s tenant_id x.id action x.id "ok"
    pure (settled status state now x)

  unfoldable pub settle : Text → Sandbox → SandboxStatus → Text → Result RuntimeState → M Sandbox
  settle tenant_id x status action (err e) = record_failure tenant_id x action e
  settle tenant_id x status action (ok state) = record_success tenant_id x status action state

  -- GetSandbox, then the transitional status: the head of StopSandbox and transitionSandbox.
  unfoldable pub enter : Text → Text → SandboxStatus → M Sandbox
  enter tenant_id sandbox_id transitional = do
    x ← get_sandbox s tenant_id sandbox_id
    now ← get s.env.now
    update_sandbox_state s (in_transition transitional now x)
    pure (in_transition transitional now x)

  -- func (Service) StopSandbox
  unfoldable pub stop_sandbox : Text → Text → Bool → M Sandbox
  stop_sandbox tenant_id sandbox_id force = do
    x ← enter tenant_id sandbox_id SandboxStatus.stopping
    answer ← attempt (ask (λ n. s.env.runtime.stop n x force))
    y ← settle tenant_id x SandboxStatus.stopped (codes "sandbox.stop") answer
    revoke_active_tunnels s tenant_id y
    get_sandbox s tenant_id y.id

  -- func (Service) SuspendSandbox, with transitionSandbox at the arguments that it passes
  unfoldable pub suspend_sandbox : Text → Text → M Sandbox
  suspend_sandbox tenant_id sandbox_id = do
    x ← enter tenant_id sandbox_id SandboxStatus.suspending
    answer ← attempt (ask (λ n. s.env.runtime.suspend n x))
    y ← settle tenant_id x SandboxStatus.suspended (codes "sandbox.suspend") answer
    revoke_active_tunnels s tenant_id y
    get_sandbox s tenant_id y.id

  -- func (Service) reserveLifecycleTransition, at the arguments that its two callers pass
  unfoldable pub reserve_lifecycle_transition :
      Text → Text → PolicyAction → TenantQuota → SandboxStatus → AdmissionDelta → M Sandbox
  reserve_lifecycle_transition tenant_id sandbox_id action q transitional delta = do
    x ← get_sandbox s tenant_id sandbox_id
    enforce_lifecycle_policy s x action
    check_running_quota s tenant_id q
    enforce_admission s tenant_id x.id (action_text action) (fill_delta delta x)
    now ← get s.env.now
    update_sandbox_state s (in_transition transitional now x)
    pure (in_transition transitional now x)

  -- func (Service) executeReservedTransition
  unfoldable pub execute_reserved_transition :
      Text → Sandbox → Text → SandboxStatus → (ℕ → Sandbox → Result RuntimeState) → M Sandbox
  execute_reserved_transition tenant_id x action status run = do
    answer ← attempt (ask (λ n. run n x))
    y ← settle tenant_id x status action answer
    get_sandbox s tenant_id y.id

  -- func (Service) StartSandbox
  unfoldable pub start_sandbox : Text → Text → TenantQuota → M Sandbox
  start_sandbox tenant_id sandbox_id q = do
    x ← reserve_lifecycle_transition tenant_id sandbox_id start q SandboxStatus.starting start_delta
    execute_reserved_transition tenant_id x (codes "sandbox.start") SandboxStatus.running
        s.env.runtime.start

  -- func (Service) ResumeSandbox
  unfoldable pub resume_sandbox : Text → Text → TenantQuota → M Sandbox
  resume_sandbox tenant_id sandbox_id q = do
    x ←
        reserve_lifecycle_transition tenant_id sandbox_id resume q SandboxStatus.starting
          start_delta
    execute_reserved_transition tenant_id x (codes "sandbox.resume") SandboxStatus.running
        s.env.runtime.resume
