-- ===== src/Service/Exec.antt =====
-- Executions (internal/service/service.go): ExecSandbox and reserveExecutionSlot. The call is three
-- actions, because `admissionMu` is held for the reservation alone and the runtime may take long:
-- what comes before the runtime is asked, the runtime's answer, and what follows the answer.
use or3_sandbox.Base.{
  ℕ, ◌/◌, ◌*◌, ◌&&◌, ◌||◌, not, false, Text, List, [], ◌∷◌, ◌++◌, none, some, pos, codes, ltb, leb,
  ◌==◌, milliseconds, if◌then◌else◌,
}
use or3_sandbox.Errors.{Result, ok, err, Error, quota, invalid, execs, not_running}
use or3_sandbox.Model.Status.{ExecutionStatus, is_running, execution_status_name}
use or3_sandbox.Model.Records.{Sandbox, TenantQuota, Execution, ExecRequest, ExecOutcome}
use or3_sandbox.Effect.{M, Service, ask, get, attempt, ignore, fail, guard, pure, ◌>>=◌, ◌>>◌}
use or3_sandbox.Store.Sandboxes.{get_sandbox}
use or3_sandbox.Store.Executions.{create_execution, update_execution}
use or3_sandbox.Store.Usage.{tenant_usage}
use or3_sandbox.Store.Audit.{new_id, record_audit}
use or3_sandbox.Service.Policy.Images.{exec}
use or3_sandbox.Service.Policy.Lifecycle.{enforce_lifecycle_policy}
use or3_sandbox.Service.Storage.{touch_sandbox_activity}
use or3_sandbox.Service.Preview.{BoundedBuffer, write_all, empty_buffer}

-- previewLimit
abbrev pub preview_limit : ℕ
preview_limit = 64 * 1024

-- strings.Join(words, " ")
unfoldable pub join_words : List Text → Text
join_words [] = []
join_words (w ∷ []) = w
join_words (w ∷ v ∷ ws) = w ++ (b' ' ∷ join_words (v ∷ ws))

-- `int(req.Timeout.Seconds())`, and 1 for a timeout below a second; a timeout is not negative.
unfoldable pub timeout_seconds : ℕ → ℕ
timeout_seconds timeout =
    let whole = timeout / 1_000_000_000 in if whole == 0 && ltb 0 timeout then 1 else whole

abbrev pub new_execution : Text → Sandbox → ExecRequest → Text → ℕ → Execution
new_execution tenant_id x req id started = record {
  id = id;
  sandbox_id = x.id;
  tenant_id = tenant_id;
  command = join_words req.command;
  cwd = req.cwd;
  timeout_seconds = timeout_seconds req.timeout;
  status = ExecutionStatus.running;
  exit_code = none;
  stdout_preview = [];
  stderr_preview = [];
  stdout_truncated = false;
  stderr_truncated = false;
  started_at = started;
  completed_at = none;
  duration_ms = none;
}

-- The branch of an error of runtime.Exec.
abbrev pub failed_execution : Text → ℕ → Execution → Execution
failed_execution message now e = record e {
  status = ExecutionStatus.failed;
  exit_code = some (pos 1);
  stderr_preview = message;
  completed_at = some now;
  duration_ms = some (milliseconds e.started_at now);
}

abbrev pub detached_execution : ℕ → Execution → Execution
detached_execution now e = record e {
  status = ExecutionStatus.detached;
  completed_at = some now;
  duration_ms = some (milliseconds e.started_at now);
}

-- What a stream leaves in its boundedBuffer.
unfoldable pub capture : List Text → BoundedBuffer
unfolding write_all
capture writes = write_all (empty_buffer preview_limit) writes

unfoldable pub completed_execution : ExecOutcome → Execution → Execution
unfolding capture
completed_execution o e = record e {
  status = o.status;
  exit_code = some o.exit_code;
  stdout_preview = (capture o.stdout_writes).buf;
  stderr_preview = (capture o.stderr_writes).buf;
  stdout_truncated = (capture o.stdout_writes).truncated || o.stdout_truncated;
  stderr_truncated = (capture o.stderr_writes).truncated || o.stderr_truncated;
  completed_at = some o.completed_at;
  duration_ms = some o.duration_ms;
}

-- An execution that the runtime is asked to run, with the sandbox as it was read.
pub record StartedExec : Type 0 where
  pub sandbox : Sandbox
  pub execution : Execution

abbrev pub started_exec : Sandbox → Execution → StartedExec
started_exec x e = record { sandbox = x; execution = e }

module _ (s : Service) where
  -- func (Service) reserveExecutionSlot
  unfoldable pub reserve_execution_slot : Text → TenantQuota → Execution → M (Unit {0})
  reserve_execution_slot tenant_id q e = do
    usage ← tenant_usage s tenant_id
    guard (leb q.max_concurrent_execs usage.concurrent_execs) (quota execs)
    create_execution s e

  -- func (Service) ExecSandbox, up to the runtime
  unfoldable pub begin_exec : Text → TenantQuota → Text → ExecRequest → M StartedExec
  begin_exec tenant_id q sandbox_id req = do
    x ← get_sandbox s tenant_id sandbox_id
    guard (not (is_running x.status)) (invalid not_running)
    enforce_lifecycle_policy s x exec
    id ← new_id s "exec-"
    started ← get s.env.now
    reserve_execution_slot tenant_id q (new_execution tenant_id x req id started)
    pure (started_exec x (new_execution tenant_id x req id started))

  unfoldable pub fail_exec : {A : Type 0} → Text → StartedExec → Error → M A
  fail_exec tenant_id b e = do
    now ← get s.env.now
    ignore (update_execution s (failed_execution (s.env.error_text e) now b.execution))
    record_audit s tenant_id b.sandbox.id (codes "sandbox.exec") b.execution.id "error"
    fail e

  unfoldable pub detach_exec : Text → StartedExec → M Execution
  detach_exec tenant_id b = do
    now ← get s.env.now
    update_execution s (detached_execution now b.execution)
    record_audit s tenant_id b.sandbox.id (codes "sandbox.exec.detached") b.execution.id "ok"
    pure (detached_execution now b.execution)

  unfoldable pub complete_exec : Text → StartedExec → ExecOutcome → M Execution
  complete_exec tenant_id b o = do
    update_execution s (completed_execution o b.execution)
    ignore (touch_sandbox_activity s b.sandbox)
    record_audit s tenant_id b.sandbox.id (codes "sandbox.exec") b.execution.id
        (execution_status_name o.status)
    pure (completed_execution o b.execution)

  unfoldable pub await_exec : Text → StartedExec → ExecRequest → M Execution
  await_exec tenant_id b req = do
    o ← get (λ n. s.env.runtime.wait n b.sandbox req)
    complete_exec tenant_id b o

  -- func (Service) ExecSandbox, after the runtime's answer
  unfoldable pub finish_exec : Text → StartedExec → ExecRequest → Result (Unit {0}) → M Execution
  finish_exec tenant_id b req (err e) = fail_exec tenant_id b e
  finish_exec tenant_id b req (ok tt) =
      if req.detached then detach_exec tenant_id b else await_exec tenant_id b req

  -- func (Service) ExecSandbox
  unfoldable pub exec_sandbox : Text → TenantQuota → Text → ExecRequest → M Execution
  exec_sandbox tenant_id q sandbox_id req = do
    b ← begin_exec tenant_id q sandbox_id req
    answer ← attempt (ask (λ n. s.env.runtime.exec n b.sandbox req))
    finish_exec tenant_id b req answer
