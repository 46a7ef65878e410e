-- ===== src/Service/Create/Run.antt =====
-- CreateSandbox and rollbackFailedCreate.
use or3_sandbox.Base.{
  ℕ, Bool, true, false, not, Text, [], Option, none, some, codes, pos_part, if◌then◌else◌,
}
use or3_sandbox.Errors.{Result, ok, err, Error, selection_not_enabled}
use or3_sandbox.Paths.{join}
use or3_sandbox.Model.Status.{SandboxStatus}
use or3_sandbox.Model.Selection.{
  RuntimeSelection, backend, backend_name, runtime_class, selection_name,
}
use or3_sandbox.Model.Guest.{normalize_features}
use or3_sandbox.Model.Records.{
  Sandbox, CreateSandboxRequest, TenantQuota, Contract, SandboxSpec, RuntimeState,
  resolve_network_policy,
}
use or3_sandbox.Config.{is_runtime_selection_enabled}
use or3_sandbox.Effect.{
  M, Service, ask, lift, get, call, attempt, ignore, fail, pure, when, remove_all, ◌>>=◌, ◌>>◌,
}
use or3_sandbox.Store.Sandboxes.{get_sandbox, update_sandbox_state, update_runtime_state}
use or3_sandbox.Store.Audit.{record_audit, new_id}
use or3_sandbox.Service.Policy.Images.{create, action_name, deny}
use or3_sandbox.Service.Policy.Lifecycle.{requested_selection, enforce_create_policy}
use or3_sandbox.Service.Storage.{refresh_storage}
use or3_sandbox.Service.Create.Validate.{
  apply_create_defaults, validate_create, validate_runtime_create, resolved_capabilities,
}
use or3_sandbox.Service.Create.Reserve.{reserve_sandbox_create}

abbrev initial_status : Bool → SandboxStatus
initial_status true = SandboxStatus.starting
initial_status false = SandboxStatus.creating

abbrev final_status : Bool → SandboxStatus
final_status true = SandboxStatus.running
final_status false = SandboxStatus.stopped

abbrev given : Option Bool → Bool
given none = false
given (some b) = b

-- The struct literal of CreateSandbox. `*req.AllowTunnels` is not nil: the defaults have set it.
unfoldable pub new_sandbox :
    Service → Text → Text → ℕ → RuntimeSelection → CreateSandboxRequest → Contract → Sandbox
unfolding join normalize_features resolved_capabilities
new_sandbox s tenant_id id now selection req contract =
    let base = join s.cfg.storage_root id in
    record {
      id = id;
      tenant_id = tenant_id;
      status = initial_status req.start;
      runtime_selection = selection;
      runtime_backend = backend_name (backend selection);
      runtime_class = runtime_class selection;
      base_image_ref = req.base_image_ref;
      profile = req.profile;
      features = normalize_features req.features;
      capabilities = resolved_capabilities s.cfg req contract;
      control_mode = contract.control_mode;
      control_protocol_version = contract.control_protocol_version;
      workspace_contract_version = contract.workspace_contract_version;
      image_contract_version = contract.contract_version;
      cpu_limit = pos_part req.cpu_limit;
      memory_limit_mb = pos_part req.memory_limit_mb;
      pids_limit = pos_part req.pids_limit;
      disk_limit_mb = pos_part req.disk_limit_mb;
      network_mode = req.network_mode;
      allow_tunnels = given req.allow_tunnels;
      storage_root = join base (codes "rootfs");
      workspace_root = join base (codes "workspace");
      cache_root = join base (codes "cache");
      runtime_id = id;
      runtime_status = initial_status req.start;
      last_runtime_error = [];
      created_at = now;
      updated_at = now;
      last_active_at = now;
      deleted_at = none;
    }

unfoldable pub spec_of : Service → Sandbox → SandboxSpec
unfolding join
spec_of s x = record {
  sandbox = x;
  scratch_root = join (join s.cfg.storage_root x.id) (codes "scratch");
  secrets_root = join (join s.cfg.storage_root x.id) (codes "secrets");
  network_policy = resolve_network_policy x.network_mode x.allow_tunnels;
}

-- The sandbox that rollbackFailedCreate persists: deleted if the cleanup went through.
abbrev pub rolled_back : Bool → Text → ℕ → Sandbox → Sandbox
rolled_back true message now x = record x {
  status = SandboxStatus.deleted;
  runtime_status = SandboxStatus.deleted;
  last_runtime_error = message;
  updated_at = now;
  last_active_at = now;
  deleted_at = some now;
}
rolled_back false message now x = record x {
  status = SandboxStatus.error;
  runtime_status = SandboxStatus.error;
  last_runtime_error = message;
  updated_at = now;
  last_active_at = now;
}

abbrev pub succeeded {ℓ} : {A : Type ℓ} → Result A → Bool
succeeded (ok a) = true
succeeded (err e) = false

module _ (s : Service) where
  -- func (Service) rollbackFailedCreate
  unfoldable pub rollback_failed_create : {A : Type 0} → Text → Sandbox → Error → M A
  rollback_failed_create tenant_id x cause = do
    cleaned ←
        attempt
          (ask (λ n. s.env.runtime.destroy n x) >> remove_all s (join s.cfg.storage_root x.id))
    now ← get s.env.now
    ignore (update_sandbox_state s (rolled_back (succeeded cleaned) (s.env.error_text cause) now x))
    record_audit s tenant_id x.id (codes "sandbox.create") x.id "error"
    fail cause

  unfoldable pub or_cause : {A : Type 0} → Text → Sandbox → Result A → M A
  or_cause tenant_id x (ok a) = pure a
  or_cause tenant_id x (err e) = rollback_failed_create tenant_id x e

  -- A step of CreateSandbox whose error rolls the creation back.
  unfoldable pub or_rollback : {A : Type 0} → Text → Sandbox → M A → M A
  or_rollback tenant_id x m = attempt m >>= or_cause tenant_id x

  -- The runtime's part: `runtime.Create`, and `runtime.Start` if the request asks for it.
  unfoldable pub launch : Text → Sandbox → Bool → M RuntimeState
  launch tenant_id x start = do
    created ← or_rollback tenant_id x (ask (λ n. s.env.runtime.create n (spec_of s x)))
    if start then or_rollback tenant_id x (ask (λ n. s.env.runtime.start n x)) else pure created

  -- From the launched runtime to the answer.
  unfoldable pub complete_create : Text → Sandbox → Bool → RuntimeState → M Sandbox
  complete_create tenant_id x start state = do
    now ← get s.env.now
    let y = record x {
      status = final_status start;
      runtime_status = state.status;
      updated_at = now;
      last_active_at = now;
    }
    or_rollback tenant_id y (update_sandbox_state s y)
    or_rollback tenant_id y (update_runtime_state s y.id state)
    refresh_storage s y
    record_audit s tenant_id y.id (codes "sandbox.create") y.id "ok"
    get_sandbox s tenant_id y.id

  unfoldable pub or_remove : Sandbox → Result (Unit {0}) → M (Unit {0})
  or_remove x (ok done) = pure done
  or_remove x (err e) = ignore (remove_all s (join s.cfg.storage_root x.id)) >> fail e

  -- reserveSandboxCreate, whose error removes the sandbox's directory
  unfoldable pub reserve_or_remove :
      Text → TenantQuota → Sandbox → CreateSandboxRequest → M (Unit {0})
  reserve_or_remove tenant_id q x req =
      attempt (reserve_sandbox_create s tenant_id q x req) >>= or_remove x

  -- func (Service) CreateSandbox. Each os.MkdirAll of the five directories is one call of the host.
  unfoldable pub create_sandbox_call : Text → TenantQuota → CreateSandboxRequest → M Sandbox
  create_sandbox_call tenant_id q raw =
      let req = apply_create_defaults s.cfg raw in
      let selection = requested_selection s.cfg req in
      do
        when (not (is_runtime_selection_enabled s.cfg selection)) (
            deny s tenant_id [] (action_name create) (selection_name selection)
              selection_not_enabled)
        lift (validate_create req)
        checked ← validate_runtime_create s req
        enforce_create_policy s tenant_id checked.0 checked.1
        id ← new_id s "sbx-"
        call s.env.host_fails
        call s.env.host_fails
        call s.env.host_fails
        call s.env.host_fails
        call s.env.host_fails
        now ← get s.env.now
        let x = new_sandbox s tenant_id id now selection checked.0 checked.1
        reserve_or_remove tenant_id q x checked.0
        state ← launch tenant_id x checked.0.start
        complete_create tenant_id x checked.0.start state
