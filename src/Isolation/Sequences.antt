-- ===== src/Isolation/Sequences.antt =====
-- Calls of many tenants, one after the other: none of them reaches the rows of a tenant who makes none.
use or3_sandbox.Base.{
  Bool, true, false, ◌≡◌, refl, not, Text, List, [], ◌∷◌, ◌∙◌, sym, ap, eq_text, eq_text_sym,
  eq_text→eq, select, arith, All,
}
use or3_sandbox.Tables.{Db}
use or3_sandbox.Effect.{Service, World}
use or3_sandbox.Isolation.Rows.{is_foreign}
use or3_sandbox.Isolation.Store.{
  Scoped, is_foreign_tunnel, is_foreign_execution, is_foreign_snapshot, is_foreign_session,
}
use or3_sandbox.Isolation.Calls.{Call, run, run-Scoped}
use or3_sandbox.Isolation.Keys.{Keyed, run-Keyed}

-- What a tenant has in `db` is what it has in `base`.
pub record Intact (u : Text) (base db : Db) : Type 0 where
  pub sandboxes :
      select (λ row. eq_text row.tenant_id u) db.sandboxes
      ≡ select (λ row. eq_text row.tenant_id u) base.sandboxes
  pub tunnels :
      select (λ row. eq_text row.tenant_id u) db.tunnels
      ≡ select (λ row. eq_text row.tenant_id u) base.tunnels
  pub executions :
      select (λ row. eq_text row.tenant_id u) db.executions
      ≡ select (λ row. eq_text row.tenant_id u) base.executions
  pub snapshots :
      select (λ row. eq_text row.tenant_id u) db.snapshots
      ≡ select (λ row. eq_text row.tenant_id u) base.snapshots
  pub terminals :
      select (λ row. eq_text row.tenant_id u) db.tty_sessions
      ≡ select (λ row. eq_text row.tenant_id u) base.tty_sessions

-- The calls in order; what each returns goes to its caller.
unfoldable pub run_all : Service → List (Text × Call) → World → World
unfolding run
run_all s [] w = w
run_all s (c ∷ cs) w = run_all s cs (run s c.0 c.1 w).1

select-select {ℓ} :
    {A : Type ℓ} (p q : A → Bool)
    → ((x : A) → q x ≡ true → p x ≡ true)
    → (xs : List A) → select q (select p xs) ≡ select q xs
select-select p q h [] = refl
select-select p q h (x ∷ xs) = ground (arith, select-select p q h xs, h x)

select-coarser {ℓ} :
    {A : Type ℓ} (p q : A → Bool)
    → ((x : A) → q x ≡ true → p x ≡ true)
    → (xs ys : List A) → select p xs ≡ select p ys
    → select q xs ≡ select q ys
select-coarser p q h xs ys e =
    sym (select-select p q h xs) ∙ ap (select q) e ∙ select-select p q h ys

-- Who is `u` is not `t`.
other : (t u k : Text) → eq_text t u ≡ false → eq_text k u ≡ true → not (eq_text k t) ≡ true
other t u k h e = rw (eq_text→eq k u e) (ap not (eq_text_sym u t ∙ h))

Scoped→Intact :
    (t u : Text) (base db : Db) → eq_text t u ≡ false → Scoped t base db → Intact u base db
Scoped→Intact t u base db h sc = record {
  sandboxes =
      select-coarser (is_foreign t) (λ row. eq_text row.tenant_id u)
        (λ row. other t u row.tenant_id h) db.sandboxes base.sandboxes sc.sandboxes;
  tunnels =
      select-coarser (is_foreign_tunnel t) (λ row. eq_text row.tenant_id u)
        (λ row. other t u row.tenant_id h) db.tunnels base.tunnels sc.tunnels;
  executions =
      select-coarser (is_foreign_execution t) (λ row. eq_text row.tenant_id u)
        (λ row. other t u row.tenant_id h) db.executions base.executions sc.executions;
  snapshots =
      select-coarser (is_foreign_snapshot t) (λ row. eq_text row.tenant_id u)
        (λ row. other t u row.tenant_id h) db.snapshots base.snapshots sc.snapshots;
  terminals =
      select-coarser (is_foreign_session t) (λ row. eq_text row.tenant_id u)
        (λ row. other t u row.tenant_id h) db.tty_sessions base.tty_sessions sc.terminals;
}

Intact-trans : (u : Text) (a b c : Db) → Intact u a b → Intact u b c → Intact u a c
Intact-trans u a b c ab bc = record {
  sandboxes = bc.sandboxes ∙ ab.sandboxes;
  tunnels = bc.tunnels ∙ ab.tunnels;
  executions = bc.executions ∙ ab.executions;
  snapshots = bc.snapshots ∙ ab.snapshots;
  terminals = bc.terminals ∙ ab.terminals;
}

-- Any sequence of calls by tenants other than `u`, with whatever errors, leaves the sandboxes, tunnels,
-- executions, snapshots and terminals of `u` as they are, where sandbox ids are a key and none is empty.
pub run_all-Intact :
    (s : Service) (u : Text) (cs : List (Text × Call)) (w : World)
    → All (λ c. eq_text c.0 u ≡ false) cs
    → Keyed w.db
    → Intact u w.db (run_all s cs w).db
unfolding run_all
run_all-Intact s u [] w others h = record {
  sandboxes = refl;
  tunnels = refl;
  executions = refl;
  snapshots = refl;
  terminals = refl;
}
run_all-Intact s u (c ∷ cs) w others h =
    Intact-trans u w.db (run s c.0 c.1 w).1.db (run_all s cs (run s c.0 c.1 w).1).db
      (Scoped→Intact c.0 u w.db (run s c.0 c.1 w).1.db others.0
        (run-Scoped s c.0 c.1 w h.distinct h.named))
      (run_all-Intact s u cs (run s c.0 c.1 w).1 others.1 (run-Keyed s c.0 c.1 w h))
