-- ===== src/Service/Terminals.antt =====
-- Interactive terminals (internal/service/service.go): CreateTTYSession, CloseTTYSession and
-- UpdateTTYResize. The handle that the runtime returns is passed to the caller, unseen here.
use or3_sandbox.Base.{ℕ, not, true, Text, [], ◌∷◌, ◌++◌, none, ℤ, codes, decimal_int}
use or3_sandbox.Errors.{invalid, not_running}
use or3_sandbox.Model.Status.{is_running}
use or3_sandbox.Model.Records.{Sandbox, TtySession, TtyRequest}
use or3_sandbox.Effect.{M, Service, ask, get, ignore, guard, pure, ◌>>=◌, ◌>>◌}
use or3_sandbox.Store.Sandboxes.{get_sandbox}
use or3_sandbox.Store.Terminals.{
  create_tty_session_row, close_tty_session_row, update_tty_resize_row,
}
use or3_sandbox.Store.Audit.{new_id, record_audit}
use or3_sandbox.Service.Policy.Images.{tty}
use or3_sandbox.Service.Policy.Lifecycle.{enforce_lifecycle_policy}
use or3_sandbox.Service.Storage.{touch_sandbox_activity}
use or3_sandbox.Service.Exec.{join_words}

-- fmt.Sprintf("%dx%d", cols, rows)
unfoldable pub terminal_size : ℤ → ℤ → Text
unfolding decimal_int
terminal_size cols rows = decimal_int cols ++ (b'x' ∷ decimal_int rows)

abbrev pub new_session : Text → Sandbox → TtyRequest → Text → ℕ → TtySession
new_session tenant_id x req id now = record {
  id = id;
  sandbox_id = x.id;
  tenant_id = tenant_id;
  command = join_words req.command;
  connected = true;
  created_at = now;
  closed_at = none;
  last_resize = terminal_size req.cols req.rows;
}

module _ (s : Service) where
  -- func (Service) CreateTTYSession
  unfoldable pub create_tty_session : Text → Text → TtyRequest → M TtySession
  create_tty_session tenant_id sandbox_id req = do
    x ← get_sandbox s tenant_id sandbox_id
    guard (not (is_running x.status)) (invalid not_running)
    enforce_lifecycle_policy s x tty
    ask (λ n. s.env.runtime.attach_tty n x req)
    id ← new_id s "tty-"
    now ← get s.env.now
    create_tty_session_row s (new_session tenant_id x req id now)
    ignore (touch_sandbox_activity s x)
    record_audit s tenant_id x.id (codes "sandbox.tty.attach") id "ok"
    pure (new_session tenant_id x req id now)

  -- func (Service) CloseTTYSession
  unfoldable pub close_tty_session : Text → Text → M (Unit {0})
  close_tty_session tenant_id session_id = do
    close_tty_session_row s tenant_id session_id
    record_audit s tenant_id [] (codes "sandbox.tty.detach") session_id "ok"

  -- func (Service) UpdateTTYResize
  unfoldable pub update_tty_resize : Text → Text → ℤ → ℤ → M (Unit {0})
  update_tty_resize tenant_id session_id rows cols =
      update_tty_resize_row s tenant_id session_id (terminal_size cols rows)
