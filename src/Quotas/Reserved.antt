-- ===== src/Quotas/Reserved.antt =====
-- What a reserved start adds to the running sandboxes that the next reservation counts.
use or3_sandbox.Base.{ℕ, Text, List, length, select}
use or3_sandbox.Model.Status.{is_running}
use or3_sandbox.Model.Records.{Sandbox}
use or3_sandbox.Effect.{Service}
use or3_sandbox.Effect.Yields.{Yields}
use or3_sandbox.Store.Usage.{counts_for}

running_rows : Text → List Sandbox → ℕ
running_rows t rows = length (select (λ row. is_running row.status) (select (counts_for t) rows))
