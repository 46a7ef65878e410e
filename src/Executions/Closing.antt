-- ===== src/Executions/Closing.antt =====
-- The end of ExecSandbox: the execution's row, and the sandbox's.
use mathlib.Core.Path.{subst}
use or3_sandbox.Base.{
  ℕ, suc, Bool, true, false, ◌≡◌, ◌∙◌, refl, All-update, Text, List, [], ◌∷◌, All, any, update,
  some-injective, arith, if◌then◌else◌,
}
use or3_sandbox.Errors.{Result, ok, err, Error}
use or3_sandbox.Tables.{Db}
use or3_sandbox.Model.Status.{ExecutionStatus}
use or3_sandbox.Model.Records.{Sandbox, Execution, ExecRequest, ExecOutcome}
use or3_sandbox.Effect.{Service, World, ◌>>=◌, ask, attempt, pure, fail}
use or3_sandbox.Effect.Keeps.{
  Keeps, keeps_rules, Keeps-transact_always, Keeps-ask, Keeps-bind, Keeps-ignore,
}
use or3_sandbox.Effect.Yields.{Yields, Yields-bind, Yields-transact, Yields-Keeps, Yields-pure}
use or3_sandbox.Effect.Ends.{
  Ends, Reliable, Returns, is_ok, Ends-then, Ends-get, Ends-ignore, Ends-write, Returns-write,
  Returns-bind, Returns-pure, Returns-ignore, Returns-get,
}
use or3_sandbox.Effect.Splits.{Outcome, Splits, Splits-Returns, Splits-Ends}
use or3_sandbox.Store.Audit.{record_audit}
use or3_sandbox.Store.Executions.{
  execution_key, set_outcome, update_execution_rows, update_execution,
}
use or3_sandbox.Store.Sandboxes.{update_sandbox_state}
use or3_sandbox.Service.Storage.{touch_sandbox_activity}
use or3_sandbox.Service.Exec.{
  StartedExec, detached_execution, completed_execution, fail_exec, detach_exec, complete_exec,
  await_exec, finish_exec,
}
use or3_sandbox.Checks.{KeepsAudit, audit-Keeps, record_audit-Returns}

-- There is a row of the key, and whatever row has the key satisfies `R`.
abbrev pub Rows : (Execution → Type 0) → Text → Text → List Execution → Type 0
Rows R t k rows =
    (any (execution_key t k) rows ≡ true) × All (λ row. execution_key t k row ≡ true → R row) rows

any-set_outcome :
    (e : Execution) (t k : Text) (p : Execution → Bool) (rows : List Execution)
    → any (execution_key t k) (update p (set_outcome e) rows) ≡ any (execution_key t k) rows
any-set_outcome e t k p [] = refl
any-set_outcome e t k p (y ∷ rows) = ground (arith, any-set_outcome e t k p rows)

-- The execution that was begun has a row.
abbrev pub HasRow : StartedExec → Db → Type 0
HasRow b db = any (execution_key b.execution.tenant_id b.execution.id) db.executions ≡ true

-- The rows of an execution that was begun.
abbrev pub Ended : (Execution → Type 0) → StartedExec → Db → Type 0
Ended R b db = Rows R b.execution.tenant_id b.execution.id db.executions

-- What `e` says of its outcome is what is stored.
abbrev pub Stored : Execution → StartedExec → Db → Type 0
Stored e b db = Ended (λ row. row ≡ set_outcome e row) b db

abbrev pub Failed : StartedExec → Db → Type 0
Failed b db = Ended (λ row. row.status ≡ ExecutionStatus.failed) b db

-- The status that an execution ends with, where the runtime has taken it, by its answer at step `n`.
abbrev pub last_status : Service → StartedExec → ExecRequest → ℕ → ExecutionStatus
last_status s b req n =
    if req.detached then ExecutionStatus.detached else (s.env.runtime.wait n b.sandbox req).status

-- The execution that is returned: stored, with the status.
abbrev pub Reported : ExecutionStatus → StartedExec → Execution → Db → Type 0
Reported st b e db = Stored e b db × (e.status ≡ st)

module _ (s : Service) (t : Text) (b : StartedExec) where
  set-Ended :
      (R : Execution → Type 0) (e : Execution)
      → e.id ≡ b.execution.id
      → e.tenant_id ≡ b.execution.tenant_id
      → ((row : Execution) → R (set_outcome e row))
      → (db : Db) → HasRow b db
      → Ended R b (record db { executions = update_execution_rows e db.executions })
  unfolding update_execution_rows
  set-Ended R e same_id same_tenant r db has =
      rw (same_id, same_tenant)
        (
          any-set_outcome e b.execution.tenant_id b.execution.id _ db.executions ∙ has,
          All-update (execution_key b.execution.tenant_id b.execution.id) (set_outcome e) R r
              db.executions,
        )

  audit-Ended : (R : Execution → Type 0) → KeepsAudit s (Ended R b)
  audit-Ended R = audit-Keeps s (Ended R b) (λ db events counts h. h)

  touch-Ended :
      (R : Execution → Type 0) (x : Sandbox) → Keeps (Ended R b) (touch_sandbox_activity s x)
  unfolding touch_sandbox_activity update_sandbox_state
  touch-Ended R x = Keeps-bind (Keeps-ask _) (λ now. Keeps-transact_always s _ (λ db h. h))

  write-Stored :
      (e : Execution)
      → e.id ≡ b.execution.id
      → e.tenant_id ≡ b.execution.tenant_id
      → Yields (HasRow b) (λ _. Stored e b) (update_execution s e)
  unfolding update_execution
  write-Stored e same_id same_tenant = Yields-transact s _ (λ db db' has eq.
      subst (Stored e b) (some-injective eq)
        (set-Ended (λ row. row ≡ set_outcome e row) e same_id same_tenant (λ row. refl) db has))

  module _ (sound : Reliable s) where
    fail-Failed : {A : Type 0} (e : Error) → Ends (HasRow b) (Failed b) (fail_exec s {A = A} t b e)
    unfolding fail_exec update_execution
    fail-Failed e = Ends-get _ _ (λ n.
        Ends-then
          (Ends-ignore (
            Ends-write s _ sound
              (set-Ended (λ row. row.status ≡ ExecutionStatus.failed) _ refl refl (λ row. refl))))
          (λ _. search (audit-Ended, keeps_rules)))

    fail-Splits :
        (R : Execution → Db → Type 0) (e : Error)
        → Splits (HasRow b) R (Failed b) (fail_exec s t b e)
    unfolding fail_exec ◌>>=◌ ask attempt pure fail record_audit
    fail-Splits R e = Splits-Ends e (λ w. refl) (fail-Failed e)

    execution-Returns : (e : Execution) → Returns (update_execution s e)
    unfolding update_execution
    execution-Returns e = Returns-write s _ sound

    detach-Returns : Returns (detach_exec s t b)
    unfolding detach_exec
    detach-Returns = Returns-bind (Returns-get _) (λ now.
        Returns-bind (execution-Returns _)
          (λ _. Returns-bind (record_audit-Returns s _ _ _ _ _) (λ _. Returns-pure _)))

    complete-Returns : (o : ExecOutcome) → Returns (complete_exec s t b o)
    unfolding complete_exec completed_execution
    complete-Returns o = Returns-bind (execution-Returns _) (λ _.
        Returns-bind (Returns-ignore _)
          (λ _. Returns-bind (record_audit-Returns s _ _ _ _ _) (λ _. Returns-pure _)))

    detach-Splits :
        Splits (HasRow b) (Reported ExecutionStatus.detached b) (Failed b) (detach_exec s t b)
    unfolding detach_exec
    detach-Splits = Splits-Returns detach-Returns (
        Yields-bind (Yields-Keeps (Keeps-ask _)) (λ now.
          Yields-bind (write-Stored (detached_execution now b.execution) refl refl) (λ _.
            Yields-bind (Yields-Keeps (audit-Ended _ _ _ _ _ _))
              (λ _. Yields-pure (detached_execution now b.execution) (λ db h. (h, refl))))))

    complete-Splits :
        (o : ExecOutcome)
        → Splits (HasRow b) (Reported o.status b) (Failed b) (complete_exec s t b o)
    unfolding complete_exec completed_execution
    complete-Splits o = Splits-Returns (complete-Returns o) (
        Yields-bind (write-Stored (completed_execution o b.execution) refl refl) (λ _.
          Yields-bind (Yields-Keeps (Keeps-ignore (touch-Ended _ b.sandbox))) (λ _.
            Yields-bind (Yields-Keeps (audit-Ended _ _ _ _ _ _))
              (λ _. Yields-pure (completed_execution o b.execution) (λ db h. (h, refl))))))

    -- What follows where the runtime has taken the command.
    taken-Outcome :
        (req : ExecRequest) (detached : Bool) (w : World)
        → HasRow b w.db
        → Outcome
            (Reported
              (if detached
                then ExecutionStatus.detached
                else (s.env.runtime.wait w.step b.sandbox req).status)
              b)
            (Failed b)
            ((if detached then detach_exec s t b else await_exec s t b req) w).0
            ((if detached then detach_exec s t b else await_exec s t b req) w).1.db
          × (is_ok ((if detached then detach_exec s t b else await_exec s t b req) w).0 ≡ true)
    unfolding await_exec ◌>>=◌ ask
    taken-Outcome req true w has = (detach-Splits.at w has, detach-Returns.at w)
    taken-Outcome req false w has =
        let o = s.env.runtime.wait w.step b.sandbox req in
        let later = record w { step = suc w.step } in
        ((complete-Splits o).at later has, (complete-Returns o).at later)

-- Where statements do not fail and the execution has a row: an execution that ExecSandbox returns is
-- the one stored, with the outcome that it is returned with, and its status is detached, or else the
-- one that the runtime's Wait has answered; where ExecSandbox returns an error, the row is failed.
-- It returns an error where the runtime has refused the command, and nowhere else.
pub finish_exec-Outcome :
    (s : Service) (t : Text) (b : StartedExec) (req : ExecRequest) (answer : Result (Unit {0}))
    (w : World)
    → Reliable s
    → HasRow b w.db
    → Outcome
        (Reported (last_status s b req w.step) b)
        (Failed b)
        (finish_exec s t b req answer w).0
        (finish_exec s t b req answer w).1.db
      × (is_ok (finish_exec s t b req answer w).0 ≡ is_ok answer)
unfolding finish_exec fail_exec ◌>>=◌ ask attempt pure fail record_audit
finish_exec-Outcome s t b req (err e) w sound has =
    ((fail-Splits s t b sound (Reported (last_status s b req w.step) b) e).at w has, refl)
finish_exec-Outcome s t b req (ok tt) w sound has = taken-Outcome s t b sound req req.detached w has
