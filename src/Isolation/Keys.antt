-- ===== src/Isolation/Keys.antt =====
-- Sandbox ids are a primary key that is never empty: every statement and every call keeps it so.
use mathlib.Core.Path.{subst}
use or3_sandbox.Base.{
  Bool, false, ◌≡◌, ◌||◌, refl, Text, List, [], ◌∷◌, ◌∙◌, eq_text, is_empty, any, update,
  Bool-cases, some-injective, some-else, inl, inr, some,
}
use or3_sandbox.Tables.{Db}
use or3_sandbox.Model.Records.{Sandbox, RuntimeState}
use or3_sandbox.Effect.{Service, World}
use or3_sandbox.Effect.Keeps.{
  Keeps, Keeps-query, Keeps-ask, Keeps-bind, Keeps-transact, Keeps-transact_always,
  Ensures-transact,
}
use or3_sandbox.Store.Sandboxes.{
  has_id, has_key, insert_sandbox, update_state_rows, update_runtime_rows, set_state, set_runtime,
  create_sandbox, update_sandbox_state, update_runtime_state, get_sandbox,
}
use or3_sandbox.Store.Executions.{create_execution, insert_execution, update_execution}
use or3_sandbox.Store.Terminals.{
  create_tty_session_row, insert_session, close_tty_session_row, update_tty_resize_row,
}
use or3_sandbox.Store.Tunnels.{create_tunnel_row, insert_tunnel}
use or3_sandbox.Store.Snapshots.{create_snapshot_row, insert_snapshot, update_snapshot}
use or3_sandbox.Respects.{Respects, sandboxes-Aside}
use or3_sandbox.Respects.Own.{Owns}
use or3_sandbox.Isolation.Rows.{
  Distinct, KeepsKey, Distinct-update, any-update, any-append, Distinct-append,
}
use or3_sandbox.Isolation.Store.{set_state-KeepsKey, set_runtime-KeepsKey}
use or3_sandbox.Isolation.Calls.{Call, run, run-Keeps}

pub record KeyedRows (rows : List Sandbox) : Type 0 where
  pub distinct : Distinct rows
  pub named : any (has_id []) rows ≡ false

abbrev pub Keyed : Db → Type 0
Keyed db = KeyedRows db.sandboxes

-- Every id may be written: the updates leave ids alone.
abbrev Any : Text → Type 0
Any k = Unit {0}

update-Keyed :
    (p : Sandbox → Bool) (f : Sandbox → Sandbox)
    → KeepsKey f
    → {rows : List Sandbox} → KeyedRows rows
    → KeyedRows (update p f rows)
update-Keyed p f kf {rows = rows} h = record {
  distinct = Distinct-update p f kf rows h.distinct;
  named = any-update p f kf [] rows ∙ h.named;
}

names : (k : Text) → is_empty k ≡ false → (eq_text k [] || false) ≡ false
unfolding eq_text
names [] n = n
names (c ∷ k) n = refl

insert-Keyed :
    (x : Sandbox)
    → is_empty x.id ≡ false
    → (db db' : Db) → Keyed db
    → insert_sandbox x db ≡ some db'
    → Keyed db' × Unit {0}
unfolding insert_sandbox
insert-Keyed x named db db' h e = elim (Bool-cases (any (has_id x.id) db.sandboxes)) [
  | inl taken ↦ cc
  | inr fresh ↦ (
    subst Keyed (some-injective (rw fresh at e)) (record {
      distinct = Distinct-append db.sandboxes _ h.distinct fresh;
      named = any-append (has_id []) db.sandboxes _ ∙ rw h.named (names x.id named);
    }),
    tt,
  )
]

module _ (s : Service) (t : Text) where
  state-Keyed : (x : Sandbox) → Keeps Keyed (update_sandbox_state s x)
  unfolding update_sandbox_state update_state_rows
  state-Keyed x = Keeps-transact_always s _ (λ db h.
      update-Keyed (has_id x.id) (set_runtime _) (set_runtime-KeepsKey _)
        (update-Keyed (has_key x.tenant_id x.id) (set_state x) (set_state-KeepsKey x) h))

  runtime-Keyed : (k : Text) (state : RuntimeState) → Keeps Keyed (update_runtime_state s k state)
  unfolding update_runtime_state update_runtime_rows
  runtime-Keyed k state =
      Keeps-transact_always s _
        (λ db h. update-Keyed (has_id k) (set_runtime state) (set_runtime-KeepsKey state) h)

  pub Keyed-Respects : Respects s t Keyed Any
  unfolding get_sandbox create_sandbox
  Keyed-Respects = record {
    aside = sandboxes-Aside s t KeyedRows;
    read = λ k. Keeps-query s _;
    insert = λ x own named. Ensures-transact s _ (insert-Keyed x named);
    write_state = λ x _. state-Keyed x;
    write_runtime = λ k state _. runtime-Keyed k state;
  }

  Keyed-Owns : Owns s t Keyed
  unfolding create_execution insert_execution update_execution create_tty_session_row insert_session
      close_tty_session_row update_tty_resize_row create_tunnel_row insert_tunnel
      create_snapshot_row insert_snapshot update_snapshot
  Keyed-Owns = record {
    insert_execution = λ e own. Keeps-transact s _ (λ db db' h eq. subst Keyed (some-else _ eq) h);
    write_execution = λ e own. Keeps-transact_always s _ (λ db h. h);
    insert_session = λ x own. Keeps-transact s _ (λ db db' h eq. subst Keyed (some-else _ eq) h);
    close_session = λ k. Keeps-bind (Keeps-ask _) (λ now. Keeps-transact_always s _ (λ db h. h));
    resize_session = λ k size. Keeps-transact_always s _ (λ db h. h);
    insert_tunnel = λ u own. Keeps-transact s _ (λ db db' h eq. subst Keyed (some-else _ eq) h);
    insert_snapshot = λ x own. Keeps-transact s _ (λ db db' h eq. subst Keyed (some-else _ eq) h);
    write_snapshot = λ x own. Keeps-transact_always s _ (λ db h. h);
  }

  -- A call keeps sandbox ids a primary key with none of them empty, where they are that before it,
  -- whatever it returns.
  pub run-Keyed : (c : Call) (w : World) → Keyed w.db → Keyed (run s t c w).1.db
  run-Keyed c w h = ((run-Keeps Keyed-Respects Keyed-Owns tt c).at w h).0
