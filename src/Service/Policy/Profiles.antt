-- ===== src/Service/Policy/Profiles.antt =====
-- enforceGuestProfilePolicy, enforceTunnelPolicy and enforceAdminInspectionPolicy.
use or3_sandbox.Base.{
  not, ◌&&◌, Text, [], codes, ◌++◌, equal_fold, trim_space, is_empty, if◌then◌else◌,
}
use or3_sandbox.Errors.{
  profile_not_allowed, dangerous_profile, reason_required, public_tunnels, admin_inspection,
}
use or3_sandbox.Model.Selection.{Backend, is_vm_backed}
use or3_sandbox.Model.Guest.{GuestProfile, is_named}
use or3_sandbox.Model.Records.{Sandbox, CreateTunnelRequest}
use or3_sandbox.Config.{
  is_allowed_guest_profile, is_dangerous_guest_profile, allows_dangerous_guest_profiles,
}
use or3_sandbox.Effect.{M, Service, when, pure}
use or3_sandbox.Store.Audit.{record_audit}
use or3_sandbox.Service.Policy.Images.{PolicyAction, action_name, deny}
use or3_sandbox.Service.Policy.Docker.{is_create}

module _ (s : Service) where
  -- func (Service) enforceGuestProfilePolicy
  unfoldable pub enforce_guest_profile_policy :
      Text → Text → Backend → GuestProfile → Text → PolicyAction → M (Unit {0})
  enforce_guest_profile_policy tenant_id sandbox_id b profile reason action =
      let dangerous = is_dangerous_guest_profile s.cfg b profile in
      let allowed = allows_dangerous_guest_profiles s.cfg b in
      if not (is_named profile)
      then pure tt
      else if not (is_allowed_guest_profile s.cfg b profile)
      then deny s tenant_id sandbox_id (action_name action) sandbox_id profile_not_allowed
      else if dangerous && not allowed
      then deny s tenant_id sandbox_id (action_name action) sandbox_id dangerous_profile
      else if s.cfg.production && dangerous && is_empty (trim_space reason) && is_create action
      then deny s tenant_id sandbox_id (action_name action) sandbox_id reason_required
      else when (dangerous && allowed && is_create action)
          (record_audit s tenant_id sandbox_id (codes "policy.profile.override") sandbox_id "ok")

  -- func (Service) enforceTunnelPolicy
  unfoldable pub enforce_tunnel_policy : Sandbox → CreateTunnelRequest → M (Unit {0})
  enforce_tunnel_policy sandbox req =
      if equal_fold req.visibility (codes "public") && not s.cfg.policy_allow_public_tunnels
      then deny s sandbox.tenant_id sandbox.id (codes "policy.tunnel") sandbox.id public_tunnels
      else pure tt

  -- func (Service) enforceAdminInspectionPolicy
  unfoldable pub enforce_admin_inspection_policy : Text → Text → M (Unit {0})
  enforce_admin_inspection_policy tenant_id action =
      if s.cfg.production && not (is_vm_backed s.cfg.default_runtime_selection)
      then deny s tenant_id [] (codes "policy." ++ action) action admin_inspection
      else pure tt
