-- ===== src/Store/Executions.antt =====
-- Executions.
use or3_sandbox.Base.{
  Bool, ◌&&◌, false, Text, List, [], ◌∷◌, ◌++◌, Option, none, some, eq_text, select, update, any,
  map, if◌then◌else◌,
}
use or3_sandbox.Errors.{ok}
use or3_sandbox.Model.Status.{is_execution_running}
use or3_sandbox.Model.Records.{Execution}
use or3_sandbox.Tables.{Db}
use or3_sandbox.Effect.{M, Service, query, transact, transact_always}

-- The columns of an outcome at their first values: what `CreateExecution` inserts, and what
-- `ListRunningExecutions` leaves at Go's zero values.
abbrev pub unfinished : Execution → Execution
unfinished e = record e {
  exit_code = none;
  stdout_preview = [];
  stderr_preview = [];
  stdout_truncated = false;
  stderr_truncated = false;
  completed_at = none;
  duration_ms = none;
}

unfoldable pub insert_execution : Execution → Db → Option Db
insert_execution e db =
    if any (λ row. eq_text row.id e.id) db.executions
    then none
    else some (record db { executions = db.executions ++ (unfinished e ∷ []) })

-- The columns that `UpdateExecution` sets.
abbrev pub set_outcome : Execution → Execution → Execution
set_outcome e row = record row {
  status = e.status;
  exit_code = e.exit_code;
  stdout_preview = e.stdout_preview;
  stderr_preview = e.stderr_preview;
  stdout_truncated = e.stdout_truncated;
  stderr_truncated = e.stderr_truncated;
  completed_at = e.completed_at;
  duration_ms = e.duration_ms;
}

abbrev pub execution_key : Text → Text → Execution → Bool
execution_key tenant_id execution_id row =
    eq_text row.id execution_id && eq_text row.tenant_id tenant_id

unfoldable pub update_execution_rows : Execution → List Execution → List Execution
update_execution_rows e rows = update (execution_key e.tenant_id e.id) (set_outcome e) rows

module _ (s : Service) where
  -- func (Store) CreateExecution
  unfoldable pub create_execution : Execution → M (Unit {0})
  create_execution e = transact s (insert_execution e)

  -- func (Store) UpdateExecution
  unfoldable pub update_execution : Execution → M (Unit {0})
  update_execution e =
      transact_always s (λ db. record db { executions = update_execution_rows e db.executions })

  -- func (Store) ListRunningExecutions
  unfoldable pub list_running_executions : M (List Execution)
  list_running_executions =
      query s
        (λ db. ok (map unfinished (select (λ e. is_execution_running e.status) db.executions)))
