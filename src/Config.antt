-- ===== src/Config.antt =====
-- internal/config/config.go: the settings that the service reads, and the questions that it asks of
-- them. Limits and durations are not negative; 0 turns a limit off.
use or3_sandbox.Base.{
  ℕ, Bool, ◌||◌, ◌&&◌, Text, List, [], ◌∷◌, ◌++◌, any, eq_text, is_empty, trim_space, if◌then◌else◌,
}
use or3_sandbox.Model.Status.{NetworkMode}
use or3_sandbox.Model.Selection.{RuntimeSelection, Backend, eq_selection, is_qemu}
use or3_sandbox.Model.Guest.{GuestProfile, core, runtime, browser, container, debug, eq_profile}
use or3_sandbox.Paths.{clean}

pub record Config : Type 0 where
  -- DeploymentMode == "production"
  pub production : Bool
  pub runtime_backend : Text
  pub default_runtime_selection : RuntimeSelection
  pub enabled_runtime_selections : List RuntimeSelection
  pub base_image_ref : Text
  pub qemu_base_image_path : Text
  pub qemu_allowed_base_image_paths : List Text
  pub qemu_allow_ssh_compat : Bool
  pub default_cpu_limit : ℕ
  pub default_memory_limit_mb : ℕ
  pub default_pids_limit : ℕ
  pub default_disk_limit_mb : ℕ
  pub default_network_mode : NetworkMode
  pub default_allow_tunnels : Bool
  pub allowed_guest_profiles : List GuestProfile
  pub dangerous_guest_profiles : List GuestProfile
  pub qemu_allowed_profiles : List GuestProfile
  pub qemu_dangerous_profiles : List GuestProfile
  pub allow_dangerous_profiles : Bool
  pub qemu_allow_dangerous_profiles : Bool
  pub docker_allow_dangerous_overrides : Bool
  pub policy_allowed_images : List Text
  pub policy_allow_public_tunnels : Bool
  pub policy_max_sandbox_lifetime : ℕ
  pub policy_max_idle_timeout : ℕ
  pub admission_max_node_sandboxes : ℕ
  pub admission_max_node_running : ℕ
  pub admission_max_node_cpu : ℕ
  pub admission_max_node_memory_mb : ℕ
  pub admission_min_node_free_storage_mb : ℕ
  pub admission_max_tenant_starts : ℕ
  pub admission_max_tenant_heavy_ops : ℕ
  pub storage_warning_file_count : ℕ
  pub storage_root : Text
  pub snapshot_root : Text
  pub optional_snapshot_export : Text
  pub operator_host : Text
  -- in nanoseconds
  pub cleanup_interval : ℕ

-- func (Config) IsRuntimeSelectionEnabled
abbrev pub is_runtime_selection_enabled : Config → RuntimeSelection → Bool
is_runtime_selection_enabled c selection =
    any (λ enabled. eq_selection enabled selection) c.enabled_runtime_selections

abbrev or_else {ℓ} : {A : Type ℓ} → List A → List A → List A
or_else [] other = other
or_else (x ∷ xs) other = x ∷ xs

-- func (Config) effectiveAllowedGuestProfiles
unfoldable pub effective_allowed_guest_profiles : Config → Backend → List GuestProfile
effective_allowed_guest_profiles c b = or_else c.allowed_guest_profiles (
    or_else (if is_qemu b then c.qemu_allowed_profiles else [])
      (core ∷ runtime ∷ browser ∷ container ∷ debug ∷ []))

-- func (Config) effectiveDangerousGuestProfiles
unfoldable pub effective_dangerous_guest_profiles : Config → Backend → List GuestProfile
effective_dangerous_guest_profiles c b =
    or_else c.dangerous_guest_profiles
      (or_else (if is_qemu b then c.qemu_dangerous_profiles else []) (container ∷ debug ∷ []))

-- func (Config) IsAllowedGuestProfile
unfoldable pub is_allowed_guest_profile : Config → Backend → GuestProfile → Bool
unfolding effective_allowed_guest_profiles eq_profile
is_allowed_guest_profile c b p =
    any (λ allowed. eq_profile allowed p) (effective_allowed_guest_profiles c b)

-- func (Config) IsDangerousGuestProfile
unfoldable pub is_dangerous_guest_profile : Config → Backend → GuestProfile → Bool
unfolding effective_dangerous_guest_profiles eq_profile
is_dangerous_guest_profile c b p =
    any (λ dangerous. eq_profile dangerous p) (effective_dangerous_guest_profiles c b)

-- func (Config) AllowsDangerousGuestProfiles
abbrev pub allows_dangerous_guest_profiles : Config → Backend → Bool
allows_dangerous_guest_profiles c b =
    c.allow_dangerous_profiles || (is_qemu b && c.qemu_allow_dangerous_profiles)

-- func NormalizeQEMUBaseImagePath
unfoldable pub normalize_qemu_base_image_path : Text → Text
unfolding trim_space clean
normalize_qemu_base_image_path path =
    let trimmed = trim_space path in if is_empty trimmed then [] else clean trimmed

-- The loop of appendDefaultQEMUBaseImagePath over the paths left, with the map `seen`.
unfoldable pub distinct_paths : List Text → List Text → List Text
unfolding normalize_qemu_base_image_path eq_text
distinct_paths seen [] = []
distinct_paths seen (raw ∷ paths) =
    let normalized = normalize_qemu_base_image_path raw in
    let skip = distinct_paths seen paths in
    let keep = normalized ∷ distinct_paths (normalized ∷ seen) paths in
    if is_empty normalized then skip else if any (eq_text normalized) seen then skip else keep

-- func (Config) EffectiveQEMUAllowedBaseImagePaths
unfoldable pub effective_qemu_allowed_base_image_paths : Config → List Text
unfolding distinct_paths
effective_qemu_allowed_base_image_paths c =
    distinct_paths [] (c.qemu_allowed_base_image_paths ++ (c.qemu_base_image_path ∷ []))
