-- ===== src/Service/Create/Validate.antt =====
-- applyCreateDefaults, validateCreate, validateRuntimeCreate and resolvedCapabilities.
use or3_sandbox.Base.{
  ℕ, ◌%◌, Bool, true, false, not, ◌&&◌, Text, List, [], ◌∷◌, Option, none, some, eq_text, is_empty,
  any, ℤ, pos, ltb_ℤ, pos_part, ◌==◌, if◌then◌else◌,
}
use or3_sandbox.Errors.{
  Result, ok, err, invalid, base_image_ref, guest_profile, limits, network_mode, whole_cores,
  profile_mismatch, image_metadata, capability_overrides, image_path, ssh_compat, feature,
}
use or3_sandbox.Model.Status.{NetworkMode}
use or3_sandbox.Model.Selection.{Backend, backend, is_qemu}
use or3_sandbox.Model.Guest.{
  GuestProfile, GuestControlMode, core, is_valid, is_named, eq_profile, normalize_features,
  normalize_capabilities,
}
use or3_sandbox.Model.Records.{CreateSandboxRequest, Contract}
use or3_sandbox.Config.{Config, effective_qemu_allowed_base_image_paths}
use or3_sandbox.Effect.{M, Service, ask, lift, attempt, get, guard, fail, pure, ◌>>=◌, ◌>>◌}
use or3_sandbox.Service.Policy.Images.{normalize_qemu_base_image_ref, no_contract}
use or3_sandbox.Service.Policy.Lifecycle.{requested_selection}

abbrev text_or : Text → Text → Text
text_or [] d = d
text_or (c ∷ s) d = c ∷ s

abbrev int_or : ℤ → ℕ → ℤ
int_or (pos n) d = if n == 0 then pos d else pos n
int_or i d = i

abbrev mode_or : NetworkMode → NetworkMode → NetworkMode
mode_or NetworkMode.unset d = d
mode_or m d = m

abbrev tunnels_or : Option Bool → Bool → Option Bool
tunnels_or none d = some d
tunnels_or (some b) d = some b

-- func (Service) applyCreateDefaults
unfoldable pub apply_create_defaults : Config → CreateSandboxRequest → CreateSandboxRequest
unfolding requested_selection normalize_features normalize_capabilities
apply_create_defaults c req =
    let qemu = is_qemu (backend (requested_selection c req)) in
    record req {
      base_image_ref =
          text_or req.base_image_ref (if qemu then c.qemu_base_image_path else c.base_image_ref);
      profile = if not (is_named req.profile) && qemu then core else req.profile;
      features = normalize_features req.features;
      capabilities = normalize_capabilities req.capabilities;
      cpu_limit = int_or req.cpu_limit c.default_cpu_limit;
      memory_limit_mb = int_or req.memory_limit_mb c.default_memory_limit_mb;
      pids_limit = int_or req.pids_limit c.default_pids_limit;
      disk_limit_mb = int_or req.disk_limit_mb c.default_disk_limit_mb;
      network_mode = mode_or req.network_mode c.default_network_mode;
      allow_tunnels = tunnels_or req.allow_tunnels c.default_allow_tunnels;
    }

abbrev is_positive : ℤ → Bool
is_positive i = ltb_ℤ (pos 0) i

abbrev is_mode : NetworkMode → Bool
is_mode NetworkMode.unset = false
is_mode _ = true

-- func validateCreate
unfoldable pub validate_create : CreateSandboxRequest → Result (Unit {0})
validate_create req =
    if is_empty req.base_image_ref
    then err (invalid base_image_ref)
    else if is_named req.profile && not (is_valid req.profile)
    then err (invalid guest_profile)
    else if not (
        is_positive req.cpu_limit
        && is_positive req.memory_limit_mb
        && is_positive req.pids_limit
        && is_positive req.disk_limit_mb)
    then err (invalid limits)
    else if not (is_mode req.network_mode)
    then err (invalid network_mode)
    else ok tt

abbrev all_in : List Text → List Text → Bool
all_in allowed [] = true
all_in allowed (x ∷ xs) = any (eq_text x) allowed && all_in allowed xs

-- func RequestedFeaturesAllowed (internal/guestimage/contract.go)
unfoldable pub requested_features_allowed : Contract → List Text → Bool
unfolding eq_text normalize_features
requested_features_allowed contract features =
    all_in contract.allowed_features (normalize_features features)

-- The profile that a Docker image's labels leave: its own where none was asked for.
unfoldable pub docker_profile_of : GuestProfile → Result (Option GuestProfile) → Result GuestProfile
unfolding eq_profile
docker_profile_of requested (err e) = err e
docker_profile_of requested (ok none) =
    if is_named requested then ok requested else err (invalid image_metadata)
docker_profile_of requested (ok (some labelled)) =
    if not (is_named requested)
    then ok labelled
    else if eq_profile requested labelled
    then ok requested
    else err (invalid profile_mismatch)

abbrev profile_or : GuestProfile → GuestProfile → GuestProfile
profile_or p d = if is_named p then p else d

abbrev is_ssh_compat : GuestControlMode → Bool
is_ssh_compat GuestControlMode.ssh_compat = true
is_ssh_compat _ = false

abbrev is_nil {ℓ} : {A : Type ℓ} → List A → Bool
is_nil [] = true
is_nil (x ∷ xs) = false

-- The checks of a request against the contract of the image that it resolved to.
unfoldable pub accept_contract :
    Config → CreateSandboxRequest → Text → Contract → Result (CreateSandboxRequest × Contract)
unfolding eq_profile requested_features_allowed normalize_features
accept_contract c req resolved contract =
    let profile = profile_or req.profile contract.profile in
    if not (is_valid profile)
    then err (invalid guest_profile)
    else if not (eq_profile profile contract.profile)
    then err (invalid profile_mismatch)
    else if is_ssh_compat contract.control_mode && not c.qemu_allow_ssh_compat
    then err (invalid ssh_compat)
    else if not (requested_features_allowed contract req.features)
    then err (invalid feature)
    else ok (
      record req {
        base_image_ref = resolved;
        profile = profile;
        features = normalize_features req.features;
      },
      contract,
    )

module _ (s : Service) where
  -- func (Service) resolveQEMUBaseImageRef
  unfoldable pub resolve_qemu_base_image_ref : Text → M Text
  resolve_qemu_base_image_ref value =
      let normalized = normalize_qemu_base_image_ref s.cfg value in
      if is_empty normalized then fail (invalid image_path) else do
        readable ← get (λ n. s.env.is_readable_file n normalized)
        guard (not readable) (invalid image_path)
        guard (not (any (eq_text normalized) (effective_qemu_allowed_base_image_paths s.cfg)))
            (invalid image_path)
        pure normalized

  unfoldable pub validate_docker : CreateSandboxRequest → M (CreateSandboxRequest × Contract)
  validate_docker req = do
    labelled ← attempt (ask (λ n. s.env.docker_profile n req.base_image_ref))
    profile ← lift (docker_profile_of req.profile labelled)
    guard (not (is_valid profile)) (invalid guest_profile)
    pure (record req { profile = profile; features = normalize_features req.features }, no_contract)

  unfoldable pub validate_qemu : CreateSandboxRequest → M (CreateSandboxRequest × Contract)
  validate_qemu req = do
    guard (not (is_nil req.capabilities)) (invalid capability_overrides)
    resolved ← resolve_qemu_base_image_ref req.base_image_ref
    contract ← ask (λ n. s.env.load_contract n resolved)
    lift (accept_contract s.cfg req resolved contract)

  abbrev pub validate_backend : Backend → CreateSandboxRequest → M (CreateSandboxRequest × Contract)
  validate_backend Backend.docker req = validate_docker req
  validate_backend Backend.qemu req = validate_qemu req
  validate_backend _ req = pure (req, no_contract)

  -- func (Service) validateRuntimeCreate
  unfoldable pub validate_runtime_create :
      CreateSandboxRequest → M (CreateSandboxRequest × Contract)
  validate_runtime_create raw =
      let req = record raw { capabilities = normalize_capabilities raw.capabilities } in
      let b = backend (requested_selection s.cfg req) in
      do
        guard (is_qemu b && not (pos_part req.cpu_limit % 1000 == 0)) (invalid whole_cores)
        validate_backend b req

-- func (Service) resolvedCapabilities
unfoldable pub resolved_capabilities : Config → CreateSandboxRequest → Contract → List Text
unfolding requested_selection normalize_capabilities
resolved_capabilities c req contract =
    if is_qemu (backend (requested_selection c req))
    then contract.capabilities
    else normalize_capabilities req.capabilities
