-- ===== src/Service/Policy/Docker.antt =====
-- enforceDockerCreatePolicy: Docker features and capability overrides.
use or3_sandbox.Base.{
  Bool, true, false, not, ◌&&◌, ◌||◌, Text, List, [], ◌∷◌, Option, none, some, codes, eq_text,
  has_prefix, any, if◌then◌else◌,
}
use or3_sandbox.Errors.{docker_profile, docker_feature, docker_capability, docker_override}
use or3_sandbox.Model.Selection.{docker}
use or3_sandbox.Model.Guest.{GuestProfile, is_named, normalize_features, normalize_capabilities}
use or3_sandbox.Config.{is_dangerous_guest_profile, allows_dangerous_guest_profiles}
use or3_sandbox.Effect.{M, Service, when}
use or3_sandbox.Store.Audit.{record_audit}
use or3_sandbox.Service.Policy.Images.{PolicyAction, create, action_name, deny}

-- The keys of deniedDockerFeatures.
abbrev pub denied_docker_features : List Text
denied_docker_features =
    codes "docker.host-ipc"
    ∷ codes "docker.host-network"
    ∷ codes "docker.host-pid"
    ∷ codes "docker.mount-docker-socket"
    ∷ codes "docker.privileged"
    ∷ []

unfoldable pub is_denied_feature : Text → Bool
unfolding eq_text
is_denied_feature feature = any (eq_text feature) denied_docker_features

unfoldable pub is_dangerous_capability : Text → Bool
unfolding eq_text has_prefix
is_dangerous_capability capability =
    eq_text capability (codes "docker.elevated-user")
    || has_prefix capability (codes "docker.extra-cap:")

-- The loop over the capabilities: `none` at one that is not supported, else `dangerous`.
unfoldable pub scan_capabilities : Bool → List Text → Option Bool
unfolding is_dangerous_capability
scan_capabilities dangerous [] = some dangerous
scan_capabilities dangerous (c ∷ cs) =
    let rest = scan_capabilities true cs in if is_dangerous_capability c then rest else none

abbrev pub is_create : PolicyAction → Bool
is_create create = true
is_create _ = false

module _ (s : Service) where
  unfoldable pub settle_capabilities : Text → Text → PolicyAction → Option Bool → M (Unit {0})
  settle_capabilities tenant_id sandbox_id action none =
      deny s tenant_id sandbox_id (action_name action) sandbox_id docker_capability
  settle_capabilities tenant_id sandbox_id action (some dangerous) =
      if dangerous && not s.cfg.docker_allow_dangerous_overrides
      then deny s tenant_id sandbox_id (action_name action) sandbox_id docker_override
      else when (dangerous && is_create action)
          (record_audit s tenant_id sandbox_id (codes "policy.create.override") sandbox_id "ok")

  -- func (Service) enforceDockerCreatePolicy
  unfoldable pub enforce_docker_create_policy :
      Text → Text → GuestProfile → List Text → List Text → PolicyAction → M (Unit {0})
  enforce_docker_create_policy tenant_id sandbox_id profile features capabilities action =
      if is_named profile
        && is_dangerous_guest_profile s.cfg docker profile
        && not (allows_dangerous_guest_profiles s.cfg docker)
      then deny s tenant_id sandbox_id (action_name action) sandbox_id docker_profile
      else if any is_denied_feature (normalize_features features)
      then deny s tenant_id sandbox_id (action_name action) sandbox_id docker_feature
      else settle_capabilities tenant_id sandbox_id action
          (scan_capabilities false (normalize_capabilities capabilities))
