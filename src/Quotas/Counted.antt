-- ===== src/Quotas/Counted.antt =====
-- StopSandbox and the quota: a sandbox counts again, whatever its status was.
use mathlib.Core.Path.{subst}
use or3_sandbox.Base.{
  Bool, true, false, ◌&&◌, ◌≡◌, ◌∙◌, refl, sym, Bool-cases, inl, inr, Text, List, [], ◌∷◌, any,
  update, arith,
}
use or3_sandbox.Errors.{Result, ok, err}
use or3_sandbox.Tables.{Db}
use or3_sandbox.Model.Status.{SandboxStatus, is_deleted}
use or3_sandbox.Model.Records.{Sandbox, RuntimeState}
use or3_sandbox.Effect.{Service, World}
use or3_sandbox.Effect.Keeps.{
  Keeps, Keeps-bind, Keeps-ask, Keeps-ignore, Keeps-fail, Keeps-pure, Keeps-attempt, Keeps-query,
  Keeps-transact_always,
}
use or3_sandbox.Effect.Ends.{Ends, Reliable, is_ok, Ends-then, Ends-get, Ends-write, Ends-read}
use or3_sandbox.Store.Sandboxes.{
  has_key, set_state, set_runtime, update_state_rows, update_runtime_rows, update_sandbox_state,
  update_runtime_state, lookup_sandbox, get_sandbox,
}
use or3_sandbox.Store.Usage.{counts_for}
use or3_sandbox.Service.Transitions.{
  in_transition, record_failure, record_success, settle, enter, stop_sandbox,
}
use or3_sandbox.Respects.{sandboxes-Aside}
use or3_sandbox.Respects.Transitions.{refresh_storage-Keeps, revoke_active_tunnels-Keeps}
use or3_sandbox.Outcome.Marks.{Marked, Is, Marked-update, lookup-key, lookup-any}

-- A sandbox of the key counts against the tenant's quota.
abbrev pub is_counted : Text → Text → List Sandbox → Bool
is_counted t k rows = any (λ row. has_key t k row && counts_for t row) rows

counted-state :
    (t k : Text) (p : Sandbox → Bool) (x : Sandbox) (rows : List Sandbox)
    → is_deleted x.status ≡ false
    → is_counted t k rows ≡ true
    → is_counted t k (update p (set_state x) rows) ≡ true
counted-state t k p x [] live h = h
counted-state t k p x (y ∷ rows) live h = ground (arith, counted-state t k p x rows live)

counted-runtime :
    (t k : Text) (p : Sandbox → Bool) (state : RuntimeState) (rows : List Sandbox)
    → is_counted t k (update p (set_runtime state) rows) ≡ is_counted t k rows
counted-runtime t k p state [] = refl
counted-runtime t k p state (y ∷ rows) = ground (arith, counted-runtime t k p state rows)

key-state :
    (t k : Text) (p : Sandbox → Bool) (x : Sandbox) (rows : List Sandbox)
    → any (has_key t k) (update p (set_state x) rows) ≡ any (has_key t k) rows
key-state t k p x [] = refl
key-state t k p x (y ∷ rows) = ground (arith, key-state t k p x rows)

key-runtime :
    (t k : Text) (p : Sandbox → Bool) (state : RuntimeState) (rows : List Sandbox)
    → any (has_key t k) (update p (set_runtime state) rows) ≡ any (has_key t k) rows
key-runtime t k p state [] = refl
key-runtime t k p state (y ∷ rows) = ground (arith, key-runtime t k p state rows)

Marked-counted :
    (t k : Text) (st : SandboxStatus) (rows : List Sandbox)
    → is_deleted st ≡ false
    → Marked t k st rows
    → any (has_key t k) rows ≡ true
    → is_counted t k rows ≡ true
Marked-counted t k st [] live m h = h
Marked-counted t k st (y ∷ rows) live m h = elim (Bool-cases (has_key t k y)) [
  | inl hit ↦
      let stays : is_deleted y.status ≡ false =
        subst (λ z. is_deleted z ≡ false) (sym (m.0 hit)) live in
      ground arith
  | inr miss ↦ let rest = Marked-counted t k st rows live m.1 (ground arith) in ground arith
]

-- The row that is written.
written-counted :
    (t k : Text) (x : Sandbox) (rows : List Sandbox)
    → is_deleted x.status ≡ false
    → Is t k x.status x
    → any (has_key t k) rows ≡ true
    → is_counted t k (update_state_rows x rows) ≡ true
unfolding update_state_rows
written-counted t k x rows live is h =
    Marked-counted t k x.status (update_state_rows x rows) live
      (Marked-update t k x.status x rows is) (key-runtime t k _ _ _ ∙ (key-state t k _ x rows ∙ h))

module _ (s : Service) (t k : Text) where
  abbrev Counted : Db → Type 0
  Counted db = is_counted t k db.sandboxes ≡ true

  write_state-Counted :
      (x : Sandbox) → is_deleted x.status ≡ false → Keeps Counted (update_sandbox_state s x)
  unfolding update_sandbox_state update_state_rows
  write_state-Counted x live =
      Keeps-transact_always s _
        (λ db h. counted-runtime t k _ _ _ ∙ counted-state t k _ x db.sandboxes live h)

  write_runtime-Counted :
      (j : Text) (state : RuntimeState) → Keeps Counted (update_runtime_state s j state)
  unfolding update_runtime_state update_runtime_rows
  write_runtime-Counted j state =
      Keeps-transact_always s _ (λ db h. counted-runtime t k _ state db.sandboxes ∙ h)

  settle-Counted :
      (x : Sandbox) (st : SandboxStatus) (action : Text) (answer : Result RuntimeState)
      → is_deleted st ≡ false
      → Keeps Counted (settle s t x st action answer)
  unfolding settle record_success record_failure
  settle-Counted x st action (err e) live =
      let aside = sandboxes-Aside s t (λ rows. is_counted t k rows ≡ true) in
      Keeps-bind (Keeps-ask _) (λ now.
        Keeps-bind (Keeps-ignore (write_state-Counted _ refl))
          (λ _. Keeps-bind (aside.audit _ _ _ _ _) (λ _. Keeps-fail e)))
  settle-Counted x st action (ok state) live =
      let aside = sandboxes-Aside s t (λ rows. is_counted t k rows ≡ true) in
      Keeps-bind (Keeps-ask _) (λ now. Keeps-bind (write_state-Counted _ live) (λ _.
        Keeps-bind (write_runtime-Counted x.id state) (λ _.
          Keeps-bind (refresh_storage-Keeps aside _)
            (λ _. Keeps-bind (aside.audit _ _ _ _ _) (λ _. Keeps-pure _)))))

  enter-Counted :
      (st : SandboxStatus)
      → Reliable s
      → is_deleted st ≡ false
      → Ends (λ db. is_ok (lookup_sandbox t k db) ≡ true) Counted (enter s t k st)
  unfolding enter get_sandbox update_sandbox_state
  enter-Counted st sound live =
      Ends-read s _ sound (λ db h. h)
        (λ x. Ends-get _ _ (λ n.
          Ends-then
            (Ends-write s _ sound (λ db h.
              let is = lookup-key t k db x h.1 in
              written-counted t k (in_transition st (s.env.now n) x) db.sandboxes live
                (record { tenant = is.tenant; id = is.id; status = refl })
                (lookup-any t k db x h.1)))
            (λ _. Keeps-pure _)))

-- Where statements do not fail, StopSandbox of any sandbox that the tenant has, whatever its status,
-- deleted included, and whatever the runtime answers, leaves a row of the sandbox that counts against
-- the tenant's quota.
pub stop_sandbox-counts_for :
    (s : Service) (t k : Text) (force : Bool) (w : World)
    → Reliable s
    → is_ok (lookup_sandbox t k w.db) ≡ true
    → is_counted t k (stop_sandbox s t k force w).1.db.sandboxes ≡ true
unfolding stop_sandbox get_sandbox
stop_sandbox-counts_for s t k force w sound exists =
    (Ends-then (enter-Counted s t k SandboxStatus.stopping sound refl) (λ x.
        Keeps-bind (Keeps-attempt (Keeps-ask _)) (λ answer.
          Keeps-bind (settle-Counted s t k x SandboxStatus.stopped _ answer refl) (λ y.
            Keeps-bind
              (revoke_active_tunnels-Keeps
                (sandboxes-Aside s t (λ rows. is_counted t k rows ≡ true)) y)
              (λ _. Keeps-query s _))))).at
      w exists
