-- ===== src/Respects/Own.antt =====
-- The statements on a tenant's own executions, terminals, tunnels and snapshots, and the calls that
-- issue them beside those on sandboxes.
use or3_sandbox.Base.{Text, ◌≡◌}
use or3_sandbox.Tables.{Db}
use or3_sandbox.Model.Records.{Execution, TtySession, Tunnel, Snapshot}
use or3_sandbox.Effect.{Service}
use or3_sandbox.Effect.Keeps.{Keeps}
use or3_sandbox.Store.Executions.{create_execution, update_execution}
use or3_sandbox.Store.Terminals.{
  create_tty_session_row, close_tty_session_row, update_tty_resize_row,
}
use or3_sandbox.Store.Tunnels.{create_tunnel_row}
use or3_sandbox.Store.Snapshots.{create_snapshot_row, update_snapshot}

pub record Owns (s : Service) (t : Text) (P : Db → Type 0) : Type 0 where
  pub insert_execution : (e : Execution) → e.tenant_id ≡ t → Keeps P (create_execution s e)
  pub write_execution : (e : Execution) → e.tenant_id ≡ t → Keeps P (update_execution s e)
  pub insert_session : (x : TtySession) → x.tenant_id ≡ t → Keeps P (create_tty_session_row s x)
  pub close_session : (k : Text) → Keeps P (close_tty_session_row s t k)
  pub resize_session : (k size : Text) → Keeps P (update_tty_resize_row s t k size)
  pub insert_tunnel : (u : Tunnel) → u.tenant_id ≡ t → Keeps P (create_tunnel_row s u)
  pub insert_snapshot : (x : Snapshot) → x.tenant_id ≡ t → Keeps P (create_snapshot_row s x)
  pub write_snapshot : (x : Snapshot) → x.tenant_id ≡ t → Keeps P (update_snapshot s x)
