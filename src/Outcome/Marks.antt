-- ===== src/Outcome/Marks.antt =====
-- The status of the row that a tenant's key finds.
use mathlib.Core.Option
use mathlib.Core.Path.{subst}
use or3_sandbox.Base.{
  Bool, true, false, ◌≡◌, refl, ap, Text, List, [], ◌∷◌, Option, none, some, find, find-any, any,
  update, eq_text, eq_text→eq, All, arith, Bool-cases, inl, inr, some-injective, if◌then◌else◌,
}
use or3_sandbox.Errors.{ok}
use or3_sandbox.Tables.{Db}
use or3_sandbox.Model.Status.{SandboxStatus}
use or3_sandbox.Model.Records.{Sandbox, RuntimeState}
use or3_sandbox.Store.Sandboxes.{
  has_id, has_key, scan_sandbox, found, lookup_sandbox, set_state, set_runtime, update_state_rows,
}
use or3_sandbox.Isolation.Rows.{find-key}

-- Whatever row has the key has the status.
abbrev pub Marked : Text → Text → SandboxStatus → List Sandbox → Type 0
Marked t k status rows = All (λ row. has_key t k row ≡ true → row.status ≡ status) rows

-- A sandbox of the key, with the status.
pub record Is (t k : Text) (st : SandboxStatus) (x : Sandbox) : Type 0 where
  pub tenant : eq_text x.tenant_id t ≡ true
  pub id : eq_text x.id k ≡ true
  pub status : x.status ≡ st

Marked-state :
    (x : Sandbox) (rows : List Sandbox)
    → Marked x.tenant_id x.id x.status (update (has_key x.tenant_id x.id) (set_state x) rows)
Marked-state x [] = tt
Marked-state x (y ∷ rows) = (head-status (has_key x.tenant_id x.id y) refl, Marked-state x rows)
  where
    head-status :
        (b : Bool)
        → has_key x.tenant_id x.id y ≡ b
        → has_key x.tenant_id x.id (if b then set_state x y else y) ≡ true
        → (if b then set_state x y else y).status ≡ x.status
    head-status true e h = refl
    head-status false e h = cc

pub Marked-runtime :
    (t k j : Text) (status : SandboxStatus) (state : RuntimeState) (rows : List Sandbox)
    → Marked t k status rows
    → Marked t k status (update (has_id j) (set_runtime state) rows)
Marked-runtime t k j status state [] h = tt
Marked-runtime t k j status state (y ∷ rows) h =
    (head-status (has_id j y), Marked-runtime t k j status state rows h.1)
  where
    head-status :
        (b : Bool)
        → has_key t k (if b then set_runtime state y else y) ≡ true
        → (if b then set_runtime state y else y).status ≡ status
    head-status true e = h.0 e
    head-status false e = h.0 e

Marked-find :
    (t k : Text) (status : SandboxStatus) (rows : List Sandbox) {x : Sandbox}
    → Marked t k status rows
    → find (has_key t k) rows ≡ some x
    → x.status ≡ status
Marked-find t k status [] h e = cc
Marked-find t k status (y ∷ rows) {x = x} h e = elim (Bool-cases (has_key t k y)) [
  | inl hit ↦
      let first : some y ≡ some x = ground arith in
      subst (λ z. z.status ≡ status) (some-injective first) (h.0 hit)
  | inr miss ↦ Marked-find t k status rows {x = x} h.1 (ground arith)
]

lookup-found :
    (t k : Text) (db : Db) (x : Sandbox)
    → lookup_sandbox t k db ≡ ok x
    → (y : Sandbox) × (find (has_key t k) db.sandboxes ≡ some y) × (scan_sandbox y ≡ x)
unfolding lookup_sandbox
lookup-found t k db x e = go (find (has_key t k) db.sandboxes) refl e
  where
    go :
        (o : Option Sandbox)
        → find (has_key t k) db.sandboxes ≡ o
        → found (Option.map scan_sandbox o) ≡ ok x
        → (y : Sandbox) × (find (has_key t k) db.sandboxes ≡ some y) × (scan_sandbox y ≡ x)
    go none eq e = cc
    go (some y) eq e = (y, eq, cc)

-- GetSandbox returns a sandbox of the key that was asked for.
pub lookup-key :
    (t k : Text) (db : Db) (x : Sandbox) → lookup_sandbox t k db ≡ ok x → Is t k x.status x
unfolding scan_sandbox
lookup-key t k db x e =
    let (y, hit, scanned) = lookup-found t k db x e in
    let key = find-key t k db.sandboxes hit in
    subst (λ z. Is t k z.status z) scanned
      (record { tenant = ground arith; id = ground arith; status = refl })

-- What GetSandbox returns has a row.
pub lookup-any :
    (t k : Text) (db : Db) (x : Sandbox)
    → lookup_sandbox t k db ≡ ok x
    → any (has_key t k) db.sandboxes ≡ true
lookup-any t k db x e =
    let (y, hit, scanned) = lookup-found t k db x e in find-any (has_key t k) db.sandboxes hit

pub lookup-Marked :
    (t k : Text) (status : SandboxStatus) (db : Db) (x : Sandbox)
    → Marked t k status db.sandboxes
    → lookup_sandbox t k db ≡ ok x
    → Is t k status x
unfolding scan_sandbox
lookup-Marked t k status db x h e =
    let (y, hit, scanned) = lookup-found t k db x e in
    let key = find-key t k db.sandboxes hit in
    subst (Is t k status) scanned (record {
      tenant = ground arith;
      id = ground arith;
      status = Marked-find t k status db.sandboxes h hit;
    })

-- The status that the tenant's row of the id has in the database.
abbrev pub stored_status : Text → Text → Db → Option SandboxStatus
stored_status t k db = Option.map (λ row. row.status) (find (has_key t k) db.sandboxes)

pub lookup-stored_status :
    (t k : Text) (st : SandboxStatus) (db : Db) (x : Sandbox)
    → Marked t k st db.sandboxes
    → lookup_sandbox t k db ≡ ok x
    → stored_status t k db ≡ some st
lookup-stored_status t k st db x h e =
    let (y, hit, scanned) = lookup-found t k db x e in
    rw hit (ap some (Marked-find t k st db.sandboxes h hit))

pub Marked-update :
    (t k : Text) (st : SandboxStatus) (x : Sandbox) (rows : List Sandbox)
    → Is t k st x
    → Marked t k st (update_state_rows x rows)
unfolding update_state_rows
Marked-update t k st x rows is =
    Marked-runtime t k x.id st _ (update (has_key x.tenant_id x.id) (set_state x) rows) (
      subst (λ i. Marked t i st (update (has_key x.tenant_id x.id) (set_state x) rows))
        (eq_text→eq x.id k is.id)
        (subst (λ i. Marked i x.id st (update (has_key x.tenant_id x.id) (set_state x) rows))
          (eq_text→eq x.tenant_id t is.tenant)
          (subst
            (λ i. Marked x.tenant_id x.id i (update (has_key x.tenant_id x.id) (set_state x) rows))
            is.status (Marked-state x rows))))
