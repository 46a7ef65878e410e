-- ===== src/Service/Policy/Images.antt =====
-- Which images may be used: imageAllowed, runtimeImageAllowed and enforcePromotedImagePolicy.
use or3_sandbox.Base.{
  Bool, true, false, not, ◌&&◌, ◌||◌, Text, List, [], ◌∷◌, Option, none, some, codes, eq_text,
  trim_space, has_prefix, equal_fold, is_empty, any, ◌==◌, if◌then◌else◌, ℕ,
}
use or3_sandbox.Errors.{
  Result, ok, err, not_found, forbidden, Denial, image_not_promoted, image_not_ready, image_changed,
}
use or3_sandbox.Model.Selection.{RuntimeSelection, Backend, backend, is_qemu}
use or3_sandbox.Model.Guest.{GuestProfile, GuestControlMode, eq_profile, eq_control_mode}
use or3_sandbox.Model.Records.{PromotedGuestImage, Contract}
use or3_sandbox.Config.{
  Config, normalize_qemu_base_image_path, effective_qemu_allowed_base_image_paths,
}
use or3_sandbox.Effect.{M, Service, ask, attempt, fail, pure, ◌>>=◌, ◌>>◌}
use or3_sandbox.Store.Snapshots.{get_promoted_guest_image}
use or3_sandbox.Store.Audit.{record_audit}

-- The `action` of the policy checks, "policy." and a name.
pub data PolicyAction : Type 0 where
  create start resume exec tty snapshot_restore : PolicyAction

abbrev pub action_name : PolicyAction → Text
action_name create = codes "policy.create"
action_name start = codes "policy.start"
action_name resume = codes "policy.resume"
action_name exec = codes "policy.exec"
action_name tty = codes "policy.tty"
action_name snapshot_restore = codes "policy.snapshot.restore"

-- func requiresPromotedImageContractValidation
abbrev pub requires_contract_validation : PolicyAction → Bool
requires_contract_validation exec = false
requires_contract_validation tty = false
requires_contract_validation _ = true

-- `strings.HasSuffix(allowed, "*")` with `strings.TrimSuffix(allowed, "*")`
abbrev extend : ℕ → Option Text → Option Text
extend c none = none
extend c (some s) = some (c ∷ s)

unfoldable pub strip_star : Text → Option Text
strip_star [] = none
strip_star (c ∷ []) = if c == b'*' then some [] else none
strip_star (c ∷ d ∷ s) = extend c (strip_star (d ∷ s))

abbrev matches : Text → Text → Option Text → Bool
matches image_ref allowed (some prefix) = has_prefix image_ref prefix
matches image_ref allowed none = eq_text image_ref allowed

-- One entry of PolicyAllowedImages.
unfoldable pub entry_allows : Text → Text → Bool
unfolding trim_space strip_star has_prefix eq_text
entry_allows image_ref raw =
    let allowed = trim_space raw in
    not (is_empty allowed) && matches image_ref allowed (strip_star allowed)

abbrev nothing_configured : List Text → Bool
nothing_configured [] = true
nothing_configured (_ ∷ _) = false

-- func (Service) imageAllowed
unfoldable pub image_allowed : Config → Text → Bool
unfolding entry_allows
image_allowed c image_ref =
    nothing_configured c.policy_allowed_images
    || any (entry_allows image_ref) c.policy_allowed_images

-- func (Service) normalizeQEMUBaseImageRef
unfoldable pub normalize_qemu_base_image_ref : Config → Text → Text
unfolding normalize_qemu_base_image_path eq_text
normalize_qemu_base_image_ref c value =
    let normalized = normalize_qemu_base_image_path value in
    if is_empty normalized
    then []
    else if eq_text normalized (normalize_qemu_base_image_path c.base_image_ref)
    then normalize_qemu_base_image_path c.qemu_base_image_path
    else normalized

-- func (Service) runtimeImageAllowed
unfoldable pub runtime_image_allowed : Config → Backend → Text → Bool
unfolding normalize_qemu_base_image_ref effective_qemu_allowed_base_image_paths image_allowed
    eq_text
runtime_image_allowed c b image_ref =
    if is_qemu b
    then any (eq_text (normalize_qemu_base_image_ref c image_ref))
        (effective_qemu_allowed_base_image_paths c)
    else image_allowed c image_ref

-- func promotedImageContractMatchesRecord
unfoldable pub contract_matches_record : Contract → PromotedGuestImage → Bool
unfolding equal_fold trim_space eq_profile eq_control_mode eq_text
contract_matches_record c r =
    equal_fold (trim_space c.image_sha256) (trim_space r.image_sha256)
    && eq_profile c.profile r.profile
    && eq_control_mode c.control_mode r.control_mode
    && eq_text c.control_protocol_version r.control_protocol_version
    && eq_text c.contract_version r.contract_version

abbrev pub no_contract : Contract
no_contract = record {
  image_sha256 = [];
  profile = GuestProfile.unknown [];
  capabilities = [];
  allowed_features = [];
  control_mode = GuestControlMode.unknown [];
  control_protocol_version = [];
  workspace_contract_version = [];
  contract_version = [];
}

module _ (s : Service) where
  -- `recordAudit(… "denied" …)`, then `fmt.Errorf("%w: …", auth.ErrForbidden, …)`
  unfoldable pub deny : {A : Type 0} → Text → Text → Text → Text → Denial → M A
  deny tenant_id sandbox_id action resource_id denial = do
    record_audit s tenant_id sandbox_id action resource_id "denied"
    fail (forbidden denial)

  unfoldable pub promoted_record :
      Text → Text → Text → Text → Result PromotedGuestImage → M PromotedGuestImage
  promoted_record tenant_id sandbox_id action image_ref (ok r) = pure r
  promoted_record tenant_id sandbox_id action image_ref (err not_found) =
      deny tenant_id sandbox_id action image_ref image_not_promoted
  promoted_record tenant_id sandbox_id action image_ref (err e) = fail e

  unfoldable pub contract_or_load : Text → Contract → M Contract
  contract_or_load image_ref c =
      if is_empty c.image_sha256 then ask (λ n. s.env.load_contract n image_ref) else pure c

  unfoldable pub check_contract :
      Text → Text → PolicyAction → Text → Contract → PromotedGuestImage → M (Unit {0})
  check_contract tenant_id sandbox_id action image_ref contract r = do
    c ← contract_or_load image_ref contract
    if contract_matches_record c r
        then pure tt
        else deny tenant_id sandbox_id (action_name action) image_ref image_changed

  unfoldable pub judge_promoted :
      Text → Text → PolicyAction → Text → Contract → PromotedGuestImage → M (Unit {0})
  judge_promoted tenant_id sandbox_id action image_ref contract r =
      if not (equal_fold r.verification_status (codes "verified"))
        || not (equal_fold r.promotion_status (codes "promoted"))
      then deny tenant_id sandbox_id (action_name action) image_ref image_not_ready
      else if not (requires_contract_validation action)
      then pure tt
      else check_contract tenant_id sandbox_id action image_ref contract r

  unfoldable pub check_promoted : Text → Text → PolicyAction → Text → Contract → M (Unit {0})
  check_promoted tenant_id sandbox_id action image_ref contract = do
    looked_up ← attempt (get_promoted_guest_image s image_ref)
    r ← promoted_record tenant_id sandbox_id (action_name action) image_ref looked_up
    judge_promoted tenant_id sandbox_id action image_ref contract r

  -- func (Service) enforcePromotedImagePolicy
  unfoldable pub enforce_promoted_image_policy :
      Text → Text → RuntimeSelection → Text → PolicyAction → Contract → M (Unit {0})
  enforce_promoted_image_policy tenant_id sandbox_id selection image_ref action contract =
      if not s.cfg.production || not (is_qemu (backend selection))
      then pure tt
      else check_promoted tenant_id sandbox_id action image_ref contract
