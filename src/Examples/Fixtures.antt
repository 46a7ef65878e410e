-- ===== src/Examples/Fixtures.antt =====
-- A service on Docker with two tenants, each of them with one sandbox and one tunnel.
use or3_sandbox.Store.Tunnels.{no_access}
use or3_sandbox.Base.{ℕ, true, false, Text, [], ◌∷◌, none, pos, codes}
use or3_sandbox.Errors.{Result, ok}
use or3_sandbox.Model.Status.{SandboxStatus, ExecutionStatus, NetworkMode, TunnelProtocol}
use or3_sandbox.Model.Selection.{docker_dev, trusted_docker}
use or3_sandbox.Model.Guest.{GuestProfile}
use or3_sandbox.Model.Records.{
  Sandbox, CreateSandboxRequest, TenantQuota, Tunnel, TunnelCapability, RuntimeState, ExecOutcome,
}
use or3_sandbox.Config.{Config}
use or3_sandbox.Tables.{Db}
use or3_sandbox.Effect.{Runtime, Environment, Service, World}
use or3_sandbox.Store.Sandboxes.{no_usage}
use or3_sandbox.Service.Policy.Images.{no_contract}
use or3_sandbox.Service.Delete.{zero_sandbox}

abbrev pub docker_config : Config
docker_config = record {
  production = false;
  runtime_backend = codes "docker";
  default_runtime_selection = docker_dev;
  enabled_runtime_selections = docker_dev ∷ [];
  base_image_ref = codes "alpine";
  qemu_base_image_path = [];
  qemu_allowed_base_image_paths = [];
  qemu_allow_ssh_compat = false;
  default_cpu_limit = 1000;
  default_memory_limit_mb = 512;
  default_pids_limit = 128;
  default_disk_limit_mb = 1024;
  default_network_mode = NetworkMode.internet_disabled;
  default_allow_tunnels = false;
  allowed_guest_profiles = [];
  dangerous_guest_profiles = [];
  qemu_allowed_profiles = [];
  qemu_dangerous_profiles = [];
  allow_dangerous_profiles = false;
  qemu_allow_dangerous_profiles = false;
  docker_allow_dangerous_overrides = false;
  policy_allowed_images = [];
  policy_allow_public_tunnels = false;
  policy_max_sandbox_lifetime = 0;
  policy_max_idle_timeout = 0;
  admission_max_node_sandboxes = 0;
  admission_max_node_running = 0;
  admission_max_node_cpu = 0;
  admission_max_node_memory_mb = 0;
  admission_min_node_free_storage_mb = 0;
  admission_max_tenant_starts = 0;
  admission_max_tenant_heavy_ops = 0;
  storage_warning_file_count = 0;
  storage_root = codes "/srv";
  snapshot_root = codes "/snap";
  optional_snapshot_export = [];
  operator_host = codes "host";
  cleanup_interval = 0;
}

abbrev reports : SandboxStatus → Result RuntimeState
reports status = ok (record { runtime_id = codes "r"; status = status; error = [] })

abbrev pub printed : ExecOutcome
printed = record {
  status = ExecutionStatus.succeeded;
  exit_code = pos 0;
  stdout_truncated = false;
  stderr_truncated = false;
  completed_at = 9;
  duration_ms = pos 1;
  stdout_writes = codes "hel" ∷ codes "lo" ∷ [];
  stderr_writes = [];
}

abbrev pub good_runtime : Runtime
good_runtime = record {
  create = λ n spec. reports SandboxStatus.stopped;
  start = λ n x. reports SandboxStatus.running;
  stop = λ n x force. reports SandboxStatus.stopped;
  suspend = λ n x. reports SandboxStatus.suspended;
  resume = λ n x. reports SandboxStatus.running;
  destroy = λ n x. ok tt;
  inspect = λ n x. reports SandboxStatus.running;
  exec = λ n x req. ok tt;
  wait = λ n x req. printed;
  attach_tty = λ n x req. ok tt;
  create_snapshot = λ n x id. ok (record { image_ref = codes "image"; workspace_tar = [] });
  restore_snapshot = λ n x snapshot. reports SandboxStatus.stopped;
  measure_storage = λ n x. ok no_usage;
}

abbrev pub good_environment : Environment
good_environment = record {
  statement_fails = λ n. false;
  now = λ n. n;
  random_id = λ n. n ∷ [];
  host_fails = λ n. false;
  error_text = λ e. codes "error";
  is_readable_file = λ n path. true;
  load_contract = λ n path. ok no_contract;
  docker_profile = λ n image. ok none;
  file_exists = λ n path. true;
  file_sha256 = λ n path. ok (codes "sum");
  hash_token = λ token. 1 ∷ token;
  free_storage = λ n. ok 0;
  runtime = good_runtime;
}

abbrev pub service : Service
service = record { cfg = docker_config; env = good_environment }

abbrev pub alice : Text
alice = codes "alice"

abbrev pub bob : Text
bob = codes "bob"

abbrev pub box_a : Text
box_a = codes "sbx-a"

abbrev pub box_b : Text
box_b = codes "sbx-b"

abbrev pub sandbox_of : Text → Text → SandboxStatus → Sandbox
sandbox_of tenant id status = record zero_sandbox {
  id = id;
  tenant_id = tenant;
  status = status;
  runtime_status = status;
  runtime_selection = docker_dev;
  runtime_backend = codes "docker";
  runtime_class = trusted_docker;
  base_image_ref = codes "alpine";
  cpu_limit = 1000;
  memory_limit_mb = 512;
  pids_limit = 128;
  disk_limit_mb = 1024;
}

abbrev pub tunnel_of_sandbox : Text → Text → Text → Tunnel
tunnel_of_sandbox tenant sandbox id = record {
  id = id;
  sandbox_id = sandbox;
  tenant_id = tenant;
  target_port = pos 80;
  protocol = TunnelProtocol.http;
  auth_mode = codes "token";
  auth_secret_hash = [];
  visibility = codes "private";
  endpoint = [];
  access_token = [];
  access = no_access;
  created_at = 1;
  revoked_at = none;
}

abbrev pub database : Db
database = record {
  quotas = [];
  sandboxes =
      sandbox_of alice box_a SandboxStatus.running
      ∷ sandbox_of bob box_b SandboxStatus.stopped
      ∷ [];
  storage = [];
  executions = [];
  tty_sessions = [];
  tunnels =
      tunnel_of_sandbox alice box_a (codes "t1") ∷ tunnel_of_sandbox bob box_b (codes "t2") ∷ [];
  tunnel_capabilities = [];
  snapshots = [];
  promoted_images = [];
  audit_events = [];
  audit_counts = [];
}

abbrev pub world : World
world = record { db = database; step = 0; removed = [] }

abbrev pub quota_of : Text → TenantQuota
quota_of tenant = record {
  tenant_id = tenant;
  max_sandboxes = 3;
  max_running_sandboxes = 2;
  max_concurrent_execs = 2;
  max_tunnels = 2;
  max_cpu_cores = 4000;
  max_memory_mb = 4096;
  max_storage_mb = 8192;
  allow_tunnels = true;
  default_tunnel_auth_mode = [];
  default_tunnel_visibility = [];
}

abbrev pub request_of : ℕ → CreateSandboxRequest
request_of memory = record {
  runtime_selection = docker_dev;
  base_image_ref = codes "alpine";
  profile = GuestProfile.unknown [];
  features = [];
  capabilities = [];
  dangerous_profile_reason = [];
  cpu_limit = pos 1000;
  memory_limit_mb = pos memory;
  pids_limit = pos 128;
  disk_limit_mb = pos 1024;
  network_mode = NetworkMode.internet_disabled;
  allow_tunnels = none;
  start = false;
}

abbrev pub capability : TunnelCapability
capability = record {
  id = codes "c";
  tunnel_id = codes "t1";
  nonce_hash = [];
  path = codes "/";
  expires_at = 100;
  consumed_at = none;
  revoked_at = none;
  created_at = 1;
}

abbrev pub deleted_world : World
deleted_world = record world {
  db = record database { sandboxes = sandbox_of alice box_a SandboxStatus.deleted ∷ [] };
}
