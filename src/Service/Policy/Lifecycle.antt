-- ===== src/Service/Policy/Lifecycle.antt =====
-- enforceCreatePolicy and enforceLifecyclePolicy.
use or3_sandbox.Base.{ℕ, ◌-◌, Bool, not, ◌&&◌, Text, [], ltb, if◌then◌else◌}
use or3_sandbox.Errors.{selection_not_enabled, lifetime_exceeded, idle_exceeded, image_not_allowed}
use or3_sandbox.Model.Selection.{
  RuntimeSelection, backend, is_docker, is_valid, selection_name, resolve_runtime_selection,
}
use or3_sandbox.Model.Records.{Sandbox, CreateSandboxRequest, Contract}
use or3_sandbox.Config.{Config, is_runtime_selection_enabled}
use or3_sandbox.Effect.{M, Service, get, when, ◌>>=◌, ◌>>◌}
use or3_sandbox.Service.Policy.Images.{
  PolicyAction, create, action_name, deny, no_contract, runtime_image_allowed,
  enforce_promoted_image_policy,
}
use or3_sandbox.Service.Policy.Docker.{enforce_docker_create_policy}
use or3_sandbox.Service.Policy.Profiles.{enforce_guest_profile_policy}

-- func (Service) resolveRuntimeSelection
unfoldable pub requested_selection : Config → CreateSandboxRequest → RuntimeSelection
unfolding resolve_runtime_selection
requested_selection c req =
    let selection = resolve_runtime_selection req.runtime_selection c.runtime_backend in
    if is_valid selection then selection else c.default_runtime_selection

-- func resolvedSandboxRuntimeSelection
unfoldable pub sandbox_selection : Sandbox → RuntimeSelection
unfolding resolve_runtime_selection
sandbox_selection x = resolve_runtime_selection x.runtime_selection x.runtime_backend

-- `now.Sub(then) > limit` where a limit of 0 is off
abbrev pub longer_than : ℕ → ℕ → ℕ → Bool
longer_than limit now before = ltb 0 limit && ltb limit (now - before)

module _ (s : Service) where
  -- func (Service) enforceCreatePolicy
  unfoldable pub enforce_create_policy : Text → CreateSandboxRequest → Contract → M (Unit {0})
  enforce_create_policy tenant_id req contract =
      let selection = requested_selection s.cfg req in
      if not (is_runtime_selection_enabled s.cfg selection)
      then deny s tenant_id [] (action_name create) (selection_name selection) selection_not_enabled
      else if not (runtime_image_allowed s.cfg (backend selection) req.base_image_ref)
      then deny s tenant_id [] (action_name create) req.base_image_ref image_not_allowed
      else (do
        enforce_guest_profile_policy s tenant_id [] (backend selection) req.profile
            req.dangerous_profile_reason create
        enforce_promoted_image_policy s tenant_id [] selection req.base_image_ref create contract
        when (is_docker (backend selection)) (
            enforce_docker_create_policy s tenant_id [] req.profile req.features req.capabilities
              create))

  unfoldable pub enforce_sandbox_policy :
      Sandbox → PolicyAction → RuntimeSelection → ℕ → M (Unit {0})
  enforce_sandbox_policy x action selection now =
      if longer_than s.cfg.policy_max_sandbox_lifetime now x.created_at
      then deny s x.tenant_id x.id (action_name action) x.id lifetime_exceeded
      else if ltb 0 x.last_active_at
          && longer_than s.cfg.policy_max_idle_timeout now x.last_active_at
      then deny s x.tenant_id x.id (action_name action) x.id idle_exceeded
      else if not (runtime_image_allowed s.cfg (backend selection) x.base_image_ref)
      then deny s x.tenant_id x.id (action_name action) x.base_image_ref image_not_allowed
      else (do
        when (is_docker (backend selection)) (
            enforce_docker_create_policy s x.tenant_id x.id x.profile x.features x.capabilities
              action)
        enforce_guest_profile_policy s x.tenant_id x.id (backend selection) x.profile [] action
        enforce_promoted_image_policy s x.tenant_id x.id selection x.base_image_ref action
            no_contract)

  -- func (Service) enforceLifecyclePolicy
  unfoldable pub enforce_lifecycle_policy : Sandbox → PolicyAction → M (Unit {0})
  enforce_lifecycle_policy x action =
      let selection = sandbox_selection x in
      if not (is_runtime_selection_enabled s.cfg selection)
      then deny s x.tenant_id x.id (action_name action) x.id selection_not_enabled
      else (do now ← get s.env.now; enforce_sandbox_policy x action selection now)
