-- ===== src/Isolation/Calls.antt =====
-- The calls of one tenant, at every outcome, leave the rows of the other tenants as they are.
use or3_sandbox.Base.{Bool, false, ℤ, ◌≡◌, refl, Text, [], any}
use or3_sandbox.Tables.{Db}
use or3_sandbox.Model.Records.{
  TenantQuota, CreateSandboxRequest, ExecRequest, TtyRequest, CreateTunnelRequest,
}
use or3_sandbox.Effect.{Service, World, M, ◌>>◌, pure}
use or3_sandbox.Effect.Keeps.{Keeps, Keeps-bind, Keeps-pure, Keeps-weaken}
use or3_sandbox.Store.Sandboxes.{has_id}
use or3_sandbox.Service.Tunnels.{revoke_tunnel}
use or3_sandbox.Service.Transitions.{stop_sandbox, suspend_sandbox, start_sandbox, resume_sandbox}
use or3_sandbox.Service.Create.Run.{create_sandbox_call}
use or3_sandbox.Service.Delete.{delete_sandbox}
use or3_sandbox.Respects.{Respects}
use or3_sandbox.Respects.Transitions.{
  stop_sandbox-Ensures, suspend_sandbox-Ensures, start_sandbox-Ensures, resume_sandbox-Ensures,
  revoke_tunnel-Keeps,
}
use or3_sandbox.Respects.Own.{Owns}
use or3_sandbox.Respects.Exec.{
  exec_sandbox-Keeps, create_tty_session-Keeps, close_tty_session-Keeps, update_tty_resize-Keeps,
}
use or3_sandbox.Respects.Tunnels.{create_tunnel-Keeps}
use or3_sandbox.Respects.Snapshots.{create_snapshot-Keeps, restore_snapshot-Keeps}
use or3_sandbox.Service.Exec.{exec_sandbox}
use or3_sandbox.Service.Terminals.{create_tty_session, close_tty_session, update_tty_resize}
use or3_sandbox.Service.Tunnels.Create.{create_tunnel}
use or3_sandbox.Service.Snapshots.Create.{create_snapshot}
use or3_sandbox.Service.Snapshots.Restore.{restore_snapshot}
use or3_sandbox.Isolation.Own.{Scoped-Owns}
use or3_sandbox.Respects.Create.{create_sandbox_call-Ensures}
use or3_sandbox.Respects.Delete.{delete_sandbox-Keeps}
use or3_sandbox.Isolation.Rows.{is_foreign, Distinct, any-select}
use or3_sandbox.Isolation.Store.{
  Scoped, Free, get_sandbox-Scoped, create_sandbox-Scoped, update_sandbox_state-Scoped,
  update_runtime_state-Scoped,
}
use or3_sandbox.Isolation.Others.{
  record_audit-Scoped, update_storage_usage-Scoped, revoke_tunnel_row-Scoped,
  revoke_tunnel_capabilities-Scoped,
}

-- A call of the service, as the API makes it for the tenant of the request.
pub data Call : Type 0 where
  create : TenantQuota → CreateSandboxRequest → Call
  start resume : Text → TenantQuota → Call
  stop delete : Text → Bool → Call
  suspend : Text → Call
  revoke : Text → Call
  exec : Text → TenantQuota → ExecRequest → Call
  open_terminal : Text → TtyRequest → Call
  close_terminal : Text → Call
  resize_terminal : Text → ℤ → ℤ → Call
  open_tunnel : Text → CreateTunnelRequest → Call
  snapshot restore : Text → Text → Call

unfoldable pub run : Service → Text → Call → M (Unit {0})
run s t (Call.create q req) = create_sandbox_call s t q req >> pure tt
run s t (Call.start k q) = start_sandbox s t k q >> pure tt
run s t (Call.resume k q) = resume_sandbox s t k q >> pure tt
run s t (Call.stop k force) = stop_sandbox s t k force >> pure tt
run s t (Call.delete k preserve) = delete_sandbox s t k preserve
run s t (Call.suspend k) = suspend_sandbox s t k >> pure tt
run s t (Call.revoke k) = revoke_tunnel s t k
run s t (Call.exec k q req) = exec_sandbox s t q k req >> pure tt
run s t (Call.open_terminal k req) = create_tty_session s t k req >> pure tt
run s t (Call.close_terminal k) = close_tty_session s t k
run s t (Call.resize_terminal k rows cols) = update_tty_resize s t k rows cols
run s t (Call.open_tunnel k req) = create_tunnel s t k req >> pure tt
run s t (Call.snapshot k name) = create_snapshot s t k name >> pure tt
run s t (Call.restore k target) = restore_snapshot s t k target >> pure tt

module _ {s : Service} {t : Text} {P : Db → Type 0} {R : Text → Type 0} (i : Respects s t P R)
    (o : Owns s t P) where
  pub run-Keeps : R [] → (c : Call) → Keeps P (run s t c)
  unfolding run
  run-Keeps zero (Call.create q req) =
      Keeps-bind (Keeps-weaken (create_sandbox_call-Ensures i q req)) (λ _. Keeps-pure tt)
  run-Keeps zero (Call.start k q) =
      Keeps-bind (Keeps-weaken (start_sandbox-Ensures i k q)) (λ _. Keeps-pure tt)
  run-Keeps zero (Call.resume k q) =
      Keeps-bind (Keeps-weaken (resume_sandbox-Ensures i k q)) (λ _. Keeps-pure tt)
  run-Keeps zero (Call.stop k force) =
      Keeps-bind (Keeps-weaken (stop_sandbox-Ensures i k force)) (λ _. Keeps-pure tt)
  run-Keeps zero (Call.delete k preserve) = delete_sandbox-Keeps i zero k preserve
  run-Keeps zero (Call.suspend k) =
      Keeps-bind (Keeps-weaken (suspend_sandbox-Ensures i k)) (λ _. Keeps-pure tt)
  run-Keeps zero (Call.revoke k) = revoke_tunnel-Keeps i.aside k
  run-Keeps zero (Call.exec k q req) =
      Keeps-bind (exec_sandbox-Keeps i o q k req) (λ _. Keeps-pure tt)
  run-Keeps zero (Call.open_terminal k req) =
      Keeps-bind (create_tty_session-Keeps i o k req) (λ _. Keeps-pure tt)
  run-Keeps zero (Call.close_terminal k) = close_tty_session-Keeps i o k
  run-Keeps zero (Call.resize_terminal k rows cols) = update_tty_resize-Keeps i o k rows cols
  run-Keeps zero (Call.open_tunnel k req) =
      Keeps-bind (create_tunnel-Keeps i o k req) (λ _. Keeps-pure tt)
  run-Keeps zero (Call.snapshot k name) =
      Keeps-bind (create_snapshot-Keeps i o k name) (λ _. Keeps-pure tt)
  run-Keeps zero (Call.restore k target) =
      Keeps-bind (restore_snapshot-Keeps i o zero k target) (λ _. Keeps-pure tt)

Scoped-Respects : (s : Service) (t : Text) (base : Db) → Respects s t (Scoped t base) (Free t base)
Scoped-Respects s t base = record {
  aside = record {
    audit = record_audit-Scoped t base s;
    write_usage = update_storage_usage-Scoped t base s;
    revoke = revoke_tunnel_row-Scoped t base s;
    revoke_capabilities = revoke_tunnel_capabilities-Scoped t base s;
  };
  read = get_sandbox-Scoped t base s;
  insert = λ x own _. create_sandbox-Scoped t base s x own;
  write_state = update_sandbox_state-Scoped t base s;
  write_runtime = update_runtime_state-Scoped t base s;
}

start-Scoped : (t : Text) (db : Db) → Distinct db.sandboxes → Scoped t db db
start-Scoped t db d = record {
  distinct = d;
  sandboxes = refl;
  tunnels = refl;
  executions = refl;
  snapshots = refl;
  terminals = refl;
}

-- A call of tenant `t`, whatever it returns and wherever it fails, leaves every sandbox, tunnel,
-- execution, snapshot and terminal of the other tenants as it is, and sandbox ids stay a key, where they are
-- one and no sandbox has the empty id.
pub run-Scoped :
    (s : Service) (t : Text) (c : Call) (w : World)
    → Distinct w.db.sandboxes
    → any (has_id []) w.db.sandboxes ≡ false
    → Scoped t w.db (run s t c w).1.db
run-Scoped s t c w d named =
    ((run-Keeps (Scoped-Respects s t w.db) (Scoped-Owns t w.db s)
        (any-select [] (is_foreign t) w.db.sandboxes named) c).at
      w (start-Scoped t w.db d)).0
