-- ===== src/Errors.antt =====
-- The errors that the service returns. A message is reduced to the case that it reports; the texts
-- and the values that they print are not modelled.
use or3_sandbox.Base.{ℕ}

-- Wrapped by auth.ErrForbidden (internal/service/policy.go).
pub data Denial : Type 0 where
  selection_not_enabled lifetime_exceeded idle_exceeded : Denial
  image_not_allowed profile_not_allowed dangerous_profile reason_required : Denial
  image_not_promoted image_not_ready image_changed : Denial
  docker_profile docker_feature docker_capability docker_override : Denial
  public_tunnels admin_inspection : Denial

-- The limits of checkQuota, checkRunningQuota, reserveExecutionSlot and reserveTunnelCreate.
pub data Quota : Type 0 where
  sandboxes cpu memory storage tunnel_policy running execs tunnels : Quota

-- AdmissionError, each with Retryable set (internal/service/admission.go).
pub data Admission : Type 0 where
  node_sandboxes node_running node_cpu node_memory free_storage : Admission
  tenant_starts tenant_heavy : Admission

-- Requests that validation refuses.
pub data Invalid : Type 0 where
  base_image_ref guest_profile limits network_mode whole_cores : Invalid
  profile_mismatch image_metadata capability_overrides image_path ssh_compat feature : Invalid
  not_running target_port tunnel_protocol auth_mode visibility : Invalid
  sandbox_tunnels snapshot_stopped snapshot_mismatch snapshot_artifact checksum_mismatch
        path_escapes :
      Invalid

-- `constraint` and `integer_overflow` are SQLite's: a key that is taken, a SUM past 63 bits.
-- `external n` is the failure of the database, the host or a runtime at step n.
pub data Error : Type 0 where
  not_found constraint integer_overflow : Error
  forbidden : Denial → Error
  quota : Quota → Error
  admission : Admission → Error
  invalid : Invalid → Error
  external : ℕ → Error

pub data Result {ℓ} (A : Type ℓ) : Type ℓ where
  ok : A → Result A
  err : Error → Result A
