-- ===== src/Model/Status.antt =====
-- The string enumerations of internal/model/model.go. `unset` is the empty string, Go's zero value.
use or3_sandbox.Base.{Bool, true, false, String, Text, [], codes, eq_text}

pub data SandboxStatus : Type 0 where
  creating booting degraded stopped starting running : SandboxStatus
  suspending suspended stopping deleting deleted error unset : SandboxStatus

-- string(status)
abbrev pub status_name : SandboxStatus → Text
status_name SandboxStatus.creating = codes "creating"
status_name SandboxStatus.booting = codes "booting"
status_name SandboxStatus.degraded = codes "degraded"
status_name SandboxStatus.stopped = codes "stopped"
status_name SandboxStatus.starting = codes "starting"
status_name SandboxStatus.running = codes "running"
status_name SandboxStatus.suspending = codes "suspending"
status_name SandboxStatus.suspended = codes "suspended"
status_name SandboxStatus.stopping = codes "stopping"
status_name SandboxStatus.deleting = codes "deleting"
status_name SandboxStatus.deleted = codes "deleted"
status_name SandboxStatus.error = codes "error"
status_name SandboxStatus.unset = []

unfoldable pub eq_status : SandboxStatus → SandboxStatus → Bool
unfolding eq_text
eq_status a b = eq_text (status_name a) (status_name b)

pub data ExecutionStatus : Type 0 where
  running detached succeeded failed timed_out canceled : ExecutionStatus

-- string(execution.Status)
abbrev pub execution_status_name : ExecutionStatus → String
execution_status_name ExecutionStatus.running = "running"
execution_status_name ExecutionStatus.detached = "detached"
execution_status_name ExecutionStatus.succeeded = "succeeded"
execution_status_name ExecutionStatus.failed = "failed"
execution_status_name ExecutionStatus.timed_out = "timed_out"
execution_status_name ExecutionStatus.canceled = "canceled"

pub data SnapshotStatus : Type 0 where
  creating ready error : SnapshotStatus

pub data NetworkMode : Type 0 where
  internet_enabled internet_disabled : NetworkMode
  unset : NetworkMode

pub data TunnelProtocol : Type 0 where
  http tcp : TunnelProtocol
  unset : TunnelProtocol

abbrev pub is_running : SandboxStatus → Bool
is_running SandboxStatus.running = true
is_running _ = false

abbrev pub is_deleted : SandboxStatus → Bool
is_deleted SandboxStatus.deleted = true
is_deleted _ = false

abbrev pub is_stopped : SandboxStatus → Bool
is_stopped SandboxStatus.stopped = true
is_stopped _ = false

-- running or suspended: what a delete and a restore stop first
abbrev pub is_live : SandboxStatus → Bool
is_live SandboxStatus.running = true
is_live SandboxStatus.suspended = true
is_live _ = false

abbrev pub is_execution_running : ExecutionStatus → Bool
is_execution_running ExecutionStatus.running = true
is_execution_running _ = false

abbrev pub is_snapshot_creating : SnapshotStatus → Bool
is_snapshot_creating SnapshotStatus.creating = true
is_snapshot_creating _ = false
