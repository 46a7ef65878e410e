-- ===== src/Isolation/Own.antt =====
-- The statements on a tenant's own executions, terminals, tunnels and snapshots leave the rows of the
-- other tenants as they are.
use mathlib.Core.Path.{subst}
use or3_sandbox.Base.{
  false, not, ◌≡◌, refl, Text, update, eq_text, eq_text_refl, some-else, select-append_other, arith,
  ◌∙◌,
}
use or3_sandbox.Tables.{Db}
use or3_sandbox.Model.Records.{Execution, TtySession, Tunnel, Snapshot}
use or3_sandbox.Effect.{Service}
use or3_sandbox.Effect.Keeps.{Keeps, Keeps-ask, Keeps-bind, Keeps-transact, Keeps-transact_always}
use or3_sandbox.Store.Executions.{
  unfinished, set_outcome, execution_key, insert_execution, create_execution, update_execution_rows,
  update_execution,
}
use or3_sandbox.Store.Terminals.{
  session_key, insert_session, create_tty_session_row, close_tty_session_row, update_tty_resize_row,
}
use or3_sandbox.Store.Tunnels.{insert_tunnel, create_tunnel_row}
use or3_sandbox.Store.Snapshots.{
  snapshot_key, set_snapshot, insert_snapshot, create_snapshot_row, update_snapshot_rows,
  update_snapshot,
}
use or3_sandbox.Respects.Own.{Owns}
use or3_sandbox.Isolation.Store.{
  Scoped, is_foreign_tunnel, is_foreign_execution, is_foreign_snapshot, is_foreign_session,
  select-update_other,
}

-- What is the tenant's is not foreign.
own-false : (t u : Text) → u ≡ t → not (eq_text u t) ≡ false
own-false t u e = rw e (rw (eq_text_refl t) refl)

module _ (t : Text) (base : Db) (s : Service) where
  insert_execution-Scoped :
      (e : Execution) → e.tenant_id ≡ t → Keeps (Scoped t base) (create_execution s e)
  unfolding create_execution insert_execution
  insert_execution-Scoped e own = Keeps-transact s _ (λ db db' h eq.
      subst (Scoped t base) (some-else _ eq) (record {
        distinct = h.distinct;
        sandboxes = h.sandboxes;
        tunnels = h.tunnels;
        executions =
            select-append_other (is_foreign_execution t) db.executions (unfinished e)
              (own-false t e.tenant_id own)
            ∙ h.executions;
        snapshots = h.snapshots;
        terminals = h.terminals;
      }))

  write_execution-Scoped :
      (e : Execution) → e.tenant_id ≡ t → Keeps (Scoped t base) (update_execution s e)
  unfolding update_execution update_execution_rows
  write_execution-Scoped e own = Keeps-transact_always s _ (λ db h. record {
    distinct = h.distinct;
    sandboxes = h.sandboxes;
    tunnels = h.tunnels;
    executions =
        select-update_other (is_foreign_execution t) (execution_key e.tenant_id e.id)
          (set_outcome e) (λ row k. ground (arith, own)) (λ row. refl) db.executions
        ∙ h.executions;
    snapshots = h.snapshots;
    terminals = h.terminals;
  })

  insert_session-Scoped :
      (x : TtySession) → x.tenant_id ≡ t → Keeps (Scoped t base) (create_tty_session_row s x)
  unfolding create_tty_session_row insert_session
  insert_session-Scoped x own = Keeps-transact s _ (λ db db' h eq.
      subst (Scoped t base) (some-else _ eq) (record {
        distinct = h.distinct;
        sandboxes = h.sandboxes;
        tunnels = h.tunnels;
        executions = h.executions;
        snapshots = h.snapshots;
        terminals =
            select-append_other (is_foreign_session t) db.tty_sessions _
              (own-false t x.tenant_id own)
            ∙ h.terminals;
      }))

  -- An update of the tenant's terminal that leaves its owner.
  session-Scoped :
      (k : Text) (f : TtySession → TtySession)
      → ((x : TtySession) → (f x).tenant_id ≡ x.tenant_id)
      → {db : Db} → Scoped t base db
      → Scoped t base (record db { tty_sessions = update (session_key t k) f db.tty_sessions })
  session-Scoped k f same {db = db} h = record {
    distinct = h.distinct;
    sandboxes = h.sandboxes;
    tunnels = h.tunnels;
    executions = h.executions;
    snapshots = h.snapshots;
    terminals =
        select-update_other (is_foreign_session t) (session_key t k) f (λ row e. ground arith)
          (λ row. rw (same row) refl) db.tty_sessions
        ∙ h.terminals;
  }

  insert_tunnel-Scoped :
      (u : Tunnel) → u.tenant_id ≡ t → Keeps (Scoped t base) (create_tunnel_row s u)
  unfolding create_tunnel_row insert_tunnel
  insert_tunnel-Scoped u own = Keeps-transact s _ (λ db db' h eq.
      subst (Scoped t base) (some-else _ eq) (record {
        distinct = h.distinct;
        sandboxes = h.sandboxes;
        tunnels =
            select-append_other (is_foreign_tunnel t) db.tunnels _ (own-false t u.tenant_id own)
            ∙ h.tunnels;
        executions = h.executions;
        snapshots = h.snapshots;
        terminals = h.terminals;
      }))

  insert_snapshot-Scoped :
      (x : Snapshot) → x.tenant_id ≡ t → Keeps (Scoped t base) (create_snapshot_row s x)
  unfolding create_snapshot_row insert_snapshot
  insert_snapshot-Scoped x own = Keeps-transact s _ (λ db db' h eq.
      subst (Scoped t base) (some-else _ eq) (record {
        distinct = h.distinct;
        sandboxes = h.sandboxes;
        tunnels = h.tunnels;
        executions = h.executions;
        snapshots =
            select-append_other (is_foreign_snapshot t) db.snapshots x (own-false t x.tenant_id own)
            ∙ h.snapshots;
        terminals = h.terminals;
      }))

  write_snapshot-Scoped :
      (x : Snapshot) → x.tenant_id ≡ t → Keeps (Scoped t base) (update_snapshot s x)
  unfolding update_snapshot update_snapshot_rows
  write_snapshot-Scoped x own = Keeps-transact_always s _ (λ db h. record {
    distinct = h.distinct;
    sandboxes = h.sandboxes;
    tunnels = h.tunnels;
    executions = h.executions;
    snapshots =
        select-update_other (is_foreign_snapshot t) (snapshot_key x.tenant_id x.id) (set_snapshot x)
          (λ row k. ground (arith, own)) (λ row. refl) db.snapshots
        ∙ h.snapshots;
    terminals = h.terminals;
  })

  pub Scoped-Owns : Owns s t (Scoped t base)
  unfolding close_tty_session_row update_tty_resize_row
  Scoped-Owns = record {
    insert_execution = insert_execution-Scoped;
    write_execution = write_execution-Scoped;
    insert_session = insert_session-Scoped;
    close_session = λ k.
        Keeps-bind (Keeps-ask _)
          (λ now. Keeps-transact_always s _ (λ db h. session-Scoped k _ (λ x. refl) h));
    resize_session = λ k size. Keeps-transact_always s _ (λ db h. session-Scoped k _ (λ x. refl) h);
    insert_tunnel = insert_tunnel-Scoped;
    insert_snapshot = insert_snapshot-Scoped;
    write_snapshot = write_snapshot-Scoped;
  }
