-- ===== src/Model/Records.antt =====
-- The structs of internal/model that the store keeps and the service passes on. Times are
-- nanoseconds, 0 being the zero time. A limit of a stored sandbox is positive: `validateCreate` has
-- refused the others.
use or3_sandbox.Base.{ℕ, Bool, true, false, Text, Option, List, ℤ}
use or3_sandbox.Model.Status.{
  SandboxStatus, ExecutionStatus, SnapshotStatus, NetworkMode, TunnelProtocol,
}
use or3_sandbox.Model.Selection.{RuntimeSelection, RuntimeClass}
use or3_sandbox.Model.Guest.{GuestProfile, GuestControlMode}

pub record Sandbox : Type 0 where
  pub id : Text
  pub tenant_id : Text
  pub status : SandboxStatus
  pub runtime_selection : RuntimeSelection
  pub runtime_backend : Text
  pub runtime_class : RuntimeClass
  pub base_image_ref : Text
  pub profile : GuestProfile
  pub features : List Text
  pub capabilities : List Text
  pub control_mode : GuestControlMode
  pub control_protocol_version : Text
  pub workspace_contract_version : Text
  pub image_contract_version : Text
  pub cpu_limit : ℕ
  pub memory_limit_mb : ℕ
  pub pids_limit : ℕ
  pub disk_limit_mb : ℕ
  pub network_mode : NetworkMode
  pub allow_tunnels : Bool
  pub storage_root : Text
  pub workspace_root : Text
  pub cache_root : Text
  pub runtime_id : Text
  pub runtime_status : SandboxStatus
  pub last_runtime_error : Text
  pub created_at : ℕ
  pub updated_at : ℕ
  pub last_active_at : ℕ
  pub deleted_at : Option ℕ

pub record CreateSandboxRequest : Type 0 where
  pub runtime_selection : RuntimeSelection
  pub base_image_ref : Text
  pub profile : GuestProfile
  pub features : List Text
  pub capabilities : List Text
  pub dangerous_profile_reason : Text
  pub cpu_limit : ℤ
  pub memory_limit_mb : ℤ
  pub pids_limit : ℤ
  pub disk_limit_mb : ℤ
  pub network_mode : NetworkMode
  pub allow_tunnels : Option Bool
  pub start : Bool

pub record TenantQuota : Type 0 where
  pub tenant_id : Text
  pub max_sandboxes : ℕ
  pub max_running_sandboxes : ℕ
  pub max_concurrent_execs : ℕ
  pub max_tunnels : ℕ
  pub max_cpu_cores : ℕ
  pub max_memory_mb : ℕ
  pub max_storage_mb : ℕ
  pub allow_tunnels : Bool
  pub default_tunnel_auth_mode : Text
  pub default_tunnel_visibility : Text

pub record Execution : Type 0 where
  pub id : Text
  pub sandbox_id : Text
  pub tenant_id : Text
  pub command : Text
  pub cwd : Text
  pub timeout_seconds : ℕ
  pub status : ExecutionStatus
  pub exit_code : Option ℤ
  pub stdout_preview : Text
  pub stderr_preview : Text
  pub stdout_truncated : Bool
  pub stderr_truncated : Bool
  pub started_at : ℕ
  pub completed_at : Option ℕ
  pub duration_ms : Option ℤ

-- ExecRequest, with `timeout` in nanoseconds; the environment variables are the runtime's alone.
pub record ExecRequest : Type 0 where
  pub command : List Text
  pub cwd : Text
  pub timeout : ℕ
  pub detached : Bool

-- ExecResult: what an ExecHandle reports at the end, in the parts that the service reads, and what the
-- runtime has written to the two streams until then.
pub record ExecOutcome : Type 0 where
  pub status : ExecutionStatus
  pub exit_code : ℤ
  pub stdout_truncated : Bool
  pub stderr_truncated : Bool
  pub completed_at : ℕ
  -- Duration.Milliseconds()
  pub duration_ms : ℤ
  pub stdout_writes : List Text
  pub stderr_writes : List Text

pub record TtySession : Type 0 where
  pub id : Text
  pub sandbox_id : Text
  pub tenant_id : Text
  pub command : Text
  pub connected : Bool
  pub created_at : ℕ
  pub closed_at : Option ℕ
  pub last_resize : Text

pub record TtyRequest : Type 0 where
  pub command : List Text
  pub cols : ℤ
  pub rows : ℤ

pub record CreateTunnelRequest : Type 0 where
  pub target_port : ℤ
  pub protocol : TunnelProtocol
  pub auth_mode : Text
  pub visibility : Text

pub record TunnelAccess : Type 0 where
  pub requires_tenant_token : Bool
  pub tunnel_token_header : Text
  pub tunnel_token_query : Text
  pub example_curl : Text

pub record Tunnel : Type 0 where
  pub id : Text
  pub sandbox_id : Text
  pub tenant_id : Text
  pub target_port : ℤ
  pub protocol : TunnelProtocol
  pub auth_mode : Text
  pub auth_secret_hash : Text
  pub visibility : Text
  pub endpoint : Text
  pub access_token : Text
  pub access : TunnelAccess
  pub created_at : ℕ
  pub revoked_at : Option ℕ

pub record TunnelCapability : Type 0 where
  pub id : Text
  pub tunnel_id : Text
  pub nonce_hash : Text
  pub path : Text
  pub expires_at : ℕ
  pub consumed_at : Option ℕ
  pub revoked_at : Option ℕ
  pub created_at : ℕ

pub record Snapshot : Type 0 where
  pub id : Text
  pub sandbox_id : Text
  pub tenant_id : Text
  pub name : Text
  pub status : SnapshotStatus
  pub image_ref : Text
  pub runtime_selection : RuntimeSelection
  pub runtime_backend : Text
  pub profile : GuestProfile
  pub image_contract_version : Text
  pub control_protocol_version : Text
  pub workspace_contract_version : Text
  pub workspace_tar : Text
  pub bundle_sha256 : Text
  pub export_location : Text
  pub created_at : ℕ
  pub completed_at : Option ℕ

pub record SnapshotInfo : Type 0 where
  pub image_ref : Text
  pub workspace_tar : Text

pub record PromotedGuestImage : Type 0 where
  pub image_ref : Text
  pub image_sha256 : Text
  pub profile : GuestProfile
  pub control_mode : GuestControlMode
  pub control_protocol_version : Text
  pub contract_version : Text
  pub verification_status : Text
  pub promotion_status : Text

pub record AuditEvent : Type 0 where
  pub id : Text
  pub tenant_id : Text
  pub sandbox_id : Text
  pub action : Text
  pub resource_id : Text
  pub outcome : Text
  pub created_at : ℕ

-- What a backend reports of a sandbox.
pub record RuntimeState : Type 0 where
  pub runtime_id : Text
  pub status : SandboxStatus
  pub error : Text

pub record StorageUsage : Type 0 where
  pub rootfs_bytes : ℕ
  pub workspace_bytes : ℕ
  pub cache_bytes : ℕ
  pub snapshot_bytes : ℕ
  pub rootfs_entries : ℕ
  pub workspace_entries : ℕ
  pub cache_entries : ℕ
  pub snapshot_entries : ℕ

-- func ResolveNetworkPolicy builds it (internal/model/runtime.go).
pub record NetworkPolicy : Type 0 where
  pub internet : Bool
  pub loopback_only : Bool
  pub allow_tunnels : Bool

abbrev pub resolve_network_policy : NetworkMode → Bool → NetworkPolicy
resolve_network_policy NetworkMode.internet_enabled allow = record {
  internet = true;
  loopback_only = true;
  allow_tunnels = allow;
}
resolve_network_policy _ allow = record {
  internet = false;
  loopback_only = true;
  allow_tunnels = allow;
}

-- The struct repeats the fields of the sandbox that it is made from.
pub record SandboxSpec : Type 0 where
  pub sandbox : Sandbox
  pub scratch_root : Text
  pub secrets_root : Text
  pub network_policy : NetworkPolicy

-- The parts of a guest image's sidecar contract (internal/guestimage) that the service reads.
pub record Contract : Type 0 where
  pub image_sha256 : Text
  pub profile : GuestProfile
  pub capabilities : List Text
  pub allowed_features : List Text
  pub control_mode : GuestControlMode
  pub control_protocol_version : Text
  pub workspace_contract_version : Text
  pub contract_version : Text
