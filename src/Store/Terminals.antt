-- ===== src/Store/Terminals.antt =====
-- Terminal sessions.
use or3_sandbox.Base.{
  Bool, false, ◌&&◌, Text, [], ◌∷◌, ◌++◌, Option, none, some, eq_text, update, any, if◌then◌else◌,
}
use or3_sandbox.Model.Records.{TtySession}
use or3_sandbox.Tables.{Db}
use or3_sandbox.Effect.{M, Service, transact, transact_always, get, ◌>>=◌}

abbrev pub session_key : Text → Text → TtySession → Bool
session_key tenant_id session_id row = eq_text row.id session_id && eq_text row.tenant_id tenant_id

unfoldable pub insert_session : TtySession → Db → Option Db
insert_session x db =
    if any (λ row. eq_text row.id x.id) db.tty_sessions
    then none
    else some (record db { tty_sessions = db.tty_sessions ++ (record x { closed_at = none } ∷ []) })

module _ (s : Service) where
  -- func (Store) CreateTTYSession
  unfoldable pub create_tty_session_row : TtySession → M (Unit {0})
  create_tty_session_row x = transact s (insert_session x)

  -- func (Store) CloseTTYSession
  unfoldable pub close_tty_session_row : Text → Text → M (Unit {0})
  close_tty_session_row tenant_id session_id = do
    now ← get s.env.now
    transact_always s (λ db. record db {
      tty_sessions =
          update (session_key tenant_id session_id)
            (λ row. record row { connected = false; closed_at = some now }) db.tty_sessions;
    })

  -- func (Store) UpdateTTYResize
  unfoldable pub update_tty_resize_row : Text → Text → Text → M (Unit {0})
  update_tty_resize_row tenant_id session_id resize = transact_always s (λ db. record db {
    tty_sessions =
        update (session_key tenant_id session_id) (λ row. record row { last_resize = resize })
          db.tty_sessions;
  })
