-- ===== src/Isolation/Store.antt =====
-- Each statement of the repository, as the service calls it for a tenant, leaves the rows of the
-- other tenants as they are.
use mathlib.Core.Option
use mathlib.Core.List.{append-nil}
use mathlib.Core.Path.{subst}
use or3_sandbox.Base.{
  Bool, true, false, not, ◌≡◌, refl, Text, List, [], ◌∷◌, ◌++◌, Option, none, some, eq_text,
  eq_text_refl, eq_text→eq, update, Bool-cases, some-injective, inl, inr, ap, select, find, any,
  arith, ◌∙◌, sym,
}
use or3_sandbox.Errors.{ok}
use or3_sandbox.Model.Records.{Sandbox, Tunnel, Execution, TtySession, Snapshot, RuntimeState}
use or3_sandbox.Tables.{Db}
use or3_sandbox.Effect.{Service}
use or3_sandbox.Effect.Keeps.{
  Ensures, Keeps, Keeps-transact_always, Ensures-query, Ensures-transact,
}
use or3_sandbox.Store.Sandboxes.{
  has_id, has_key, scan_sandbox, insert_sandbox, update_state_rows, update_runtime_rows,
  lookup_sandbox, found, set_state, set_runtime, create_sandbox, update_sandbox_state,
  update_runtime_state, get_sandbox,
}
use or3_sandbox.Isolation.Rows.{
  is_foreign, Distinct, KeepsKey, Distinct-update, find-free, any-select, find-key,
  select-update_own, select-append, Distinct-append,
}

abbrev pub is_foreign_tunnel : Text → Tunnel → Bool
is_foreign_tunnel t row = not (eq_text row.tenant_id t)

abbrev pub is_foreign_execution : Text → Execution → Bool
is_foreign_execution t row = not (eq_text row.tenant_id t)

abbrev pub is_foreign_snapshot : Text → Snapshot → Bool
is_foreign_snapshot t row = not (eq_text row.tenant_id t)

abbrev pub is_foreign_session : Text → TtySession → Bool
is_foreign_session t row = not (eq_text row.tenant_id t)

-- `db` has the rows of `base` for every tenant but `t`, and sandbox ids are still a key.
pub record Scoped (t : Text) (base : Db) (db : Db) : Type 0 where
  pub distinct : Distinct db.sandboxes
  pub sandboxes : select (is_foreign t) db.sandboxes ≡ select (is_foreign t) base.sandboxes
  pub tunnels : select (is_foreign_tunnel t) db.tunnels ≡ select (is_foreign_tunnel t) base.tunnels
  pub executions :
      select (is_foreign_execution t) db.executions
      ≡ select (is_foreign_execution t) base.executions
  pub snapshots :
      select (is_foreign_snapshot t) db.snapshots ≡ select (is_foreign_snapshot t) base.snapshots
  pub terminals :
      select (is_foreign_session t) db.tty_sessions
      ≡ select (is_foreign_session t) base.tty_sessions

-- No other tenant has a sandbox of this id.
abbrev pub Free : Text → Db → Text → Type 0
Free t base k = any (has_id k) (select (is_foreign t) base.sandboxes) ≡ false

pub select-update_other {ℓ} :
    {A : Type ℓ} (q p : A → Bool) (f : A → A)
    → ((x : A) → p x ≡ true → q x ≡ false)
    → ((x : A) → q (f x) ≡ q x)
    → (xs : List A) → select q (update p f xs) ≡ select q xs
select-update_other q p f hp hf [] = refl
select-update_other q p f hp hf (x ∷ xs) =
    ground (arith, select-update_other q p f hp hf xs, hp x, hf x)

pub set_state-KeepsKey : (x : Sandbox) → KeepsKey (set_state x)
set_state-KeepsKey x = record { id = λ y. refl; tenant = λ y. refl }

pub set_runtime-KeepsKey : (state : RuntimeState) → KeepsKey (set_runtime state)
set_runtime-KeepsKey state = record { id = λ y. refl; tenant = λ y. refl }

module _ (t : Text) (base : Db) where
  -- Replacing the sandboxes of a scoped database by an update of one id that is free.
  set-Scoped :
      {db : Db} (rows : List Sandbox)
      → Scoped t base db
      → Distinct rows
      → select (is_foreign t) rows ≡ select (is_foreign t) db.sandboxes
      → Scoped t base (record db { sandboxes = rows })
  set-Scoped rows h d e = record {
    distinct = d;
    sandboxes = e ∙ h.sandboxes;
    tunnels = h.tunnels;
    executions = h.executions;
    snapshots = h.snapshots;
    terminals = h.terminals;
  }

  runtime_rows-Scoped :
      (k : Text) (state : RuntimeState) {db : Db}
      → Free t base k
      → Scoped t base db
      → Scoped t base (record db { sandboxes = update_runtime_rows k state db.sandboxes })
  unfolding update_runtime_rows
  runtime_rows-Scoped k state {db = db} free h =
      set-Scoped (update (has_id k) (set_runtime state) db.sandboxes) h
        (Distinct-update (has_id k) (set_runtime state) (set_runtime-KeepsKey state) db.sandboxes
          h.distinct)
        (select-update_own t k (has_id k) (set_runtime state) (λ x e. e)
          (set_runtime-KeepsKey state) db.sandboxes (rw h.sandboxes free))

  state_rows-Scoped :
      (x : Sandbox) {db : Db}
      → Free t base x.id
      → Scoped t base db
      → Scoped t base (record db { sandboxes = update_state_rows x db.sandboxes })
  unfolding update_state_rows
  state_rows-Scoped x {db = db} free h =
      unfold update_runtime_rows in
      runtime_rows-Scoped x.id
        (record {
          runtime_id = x.runtime_id;
          status = x.runtime_status;
          error = x.last_runtime_error;
        })
        {db = record db {
          sandboxes = update (has_key x.tenant_id x.id) (set_state x) db.sandboxes;
        }}
        free
        (set-Scoped (update (has_key x.tenant_id x.id) (set_state x) db.sandboxes) h
          (Distinct-update (has_key x.tenant_id x.id) (set_state x) (set_state-KeepsKey x)
            db.sandboxes h.distinct)
          (select-update_own t x.id (has_key x.tenant_id x.id) (set_state x) (λ y e. ground arith)
            (set_state-KeepsKey x) db.sandboxes (rw h.sandboxes free)))

  module _ (s : Service) where
    pub update_sandbox_state-Scoped :
        (x : Sandbox) → Free t base x.id → Keeps (Scoped t base) (update_sandbox_state s x)
    unfolding update_sandbox_state
    update_sandbox_state-Scoped x free =
        Keeps-transact_always s _ (λ db h. state_rows-Scoped x free h)

    pub update_runtime_state-Scoped :
        (k : Text) (state : RuntimeState)
        → Free t base k
        → Keeps (Scoped t base) (update_runtime_state s k state)
    unfolding update_runtime_state
    update_runtime_state-Scoped k state free =
        Keeps-transact_always s _ (λ db h. runtime_rows-Scoped k state free h)

    lookup-Free :
        (k : Text) (db : Db) (x : Sandbox)
        → Scoped t base db
        → lookup_sandbox t k db ≡ ok x
        → Free t base x.id
    unfolding lookup_sandbox scan_sandbox
    lookup-Free k db x h e = found-Free (find (has_key t k) db.sandboxes) refl e
      where
        found-Free :
            (o : Option Sandbox)
            → find (has_key t k) db.sandboxes ≡ o
            → found (Option.map scan_sandbox o) ≡ ok x
            → Free t base x.id
        found-Free none eq e = cc
        found-Free (some y) eq e =
            let scanned : scan_sandbox y ≡ x = cc in
            let named : y.id ≡ k =
              eq_text→eq y.id k (ground (arith, find-key t k db.sandboxes eq)) in
            let free : any (has_id k) (select (is_foreign t) db.sandboxes) ≡ false =
              find-free t k db.sandboxes h.distinct eq in
            subst (Free t base) (sym named ∙ ap (λ z. z.id) scanned) (rw (sym h.sandboxes) free)

    -- What GetSandbox returns to a tenant is a sandbox that no other tenant shares.
    pub get_sandbox-Scoped :
        (k : Text) → Ensures (Scoped t base) (λ x. Free t base x.id) (get_sandbox s t k)
    unfolding get_sandbox
    get_sandbox-Scoped k = Ensures-query s _ (lookup_sandbox t k) (lookup-Free k)

    create-Scoped :
        (x : Sandbox)
        → x.tenant_id ≡ t
        → (db db' : Db) → Scoped t base db
        → insert_sandbox x db ≡ some db'
        → Scoped t base db'
    unfolding insert_sandbox
    create-Scoped x own db db' h e = elim (Bool-cases (any (has_id x.id) db.sandboxes)) [
      | inl taken ↦ cc
      | inr fresh ↦
          let row : Sandbox = record x { last_runtime_error = []; deleted_at = none } in
          let foreign : is_foreign t x ≡ false = ground (arith, own, eq_text_refl t) in
          let kept : select (is_foreign t) (db.sandboxes ++ row ∷ [])
              ≡ select (is_foreign t) db.sandboxes =
            select-append (is_foreign t) db.sandboxes (row ∷ [])
            ∙ rw foreign (append-nil (select (is_foreign t) db.sandboxes)) in
          subst (Scoped t base) (some-injective (rw fresh at e)) (record {
            distinct = Distinct-append db.sandboxes row h.distinct fresh;
            sandboxes = kept ∙ h.sandboxes;
            tunnels = h.tunnels;
            executions = h.executions;
            snapshots = h.snapshots;
            terminals = h.terminals;
          })
    ]

    pub create_sandbox-Scoped :
        (x : Sandbox)
        → x.tenant_id ≡ t
        → Ensures (Scoped t base) (λ _. Free t base x.id) (create_sandbox s x)
    unfolding create_sandbox insert_sandbox
    create_sandbox-Scoped x own = Ensures-transact s _ created
      where
        created :
            (db db' : Db)
            → Scoped t base db
            → insert_sandbox x db ≡ some db'
            → Scoped t base db' × Free t base x.id
        created db db' h e =
            let fresh : any (has_id x.id) db.sandboxes ≡ false = ground arith in
            (
              create-Scoped x own db db' h e,
              rw (sym h.sandboxes) (any-select x.id (is_foreign t) db.sandboxes fresh),
            )
