-- ===== src/Store/Audit.antt =====
-- Audit events and their totals, and `recordAudit` of internal/service/audit.go, which writes one
-- and drops its error. The event's message and the log line are not modelled.
use or3_sandbox.Base.{
  suc, Bool, ◌&&◌, Text, List, [], ◌∷◌, ◌++◌, Option, none, some, String, codes, eq_text, any,
  if◌then◌else◌,
}
use or3_sandbox.Model.Records.{AuditEvent}
use or3_sandbox.Tables.{Db, AuditCount}
use or3_sandbox.Effect.{M, Service, transact, get, ignore, ◌>>=◌}

-- `ON CONFLICT(tenant_id, action, outcome) DO UPDATE SET total = total + 1`
abbrev pub same_count : AuditEvent → AuditCount → Bool
same_count e row =
    eq_text row.tenant_id e.tenant_id
    && eq_text row.action e.action
    && eq_text row.outcome e.outcome

unfoldable pub count_event : AuditEvent → List AuditCount → List AuditCount
count_event e [] =
    record { tenant_id = e.tenant_id; action = e.action; outcome = e.outcome; total = 1 } ∷ []
count_event e (row ∷ rows) =
    let rest = count_event e rows in
    if same_count e row then record row { total = suc row.total } ∷ rows else row ∷ rest

unfoldable pub insert_event : AuditEvent → Db → Option Db
unfolding count_event
insert_event e db =
    if any (λ row. eq_text row.id e.id) db.audit_events
    then none
    else some (record db {
      audit_events = db.audit_events ++ (e ∷ []);
      audit_counts = count_event e db.audit_counts;
    })

module _ (s : Service) where
  -- func (Store) AddAuditEvent
  unfoldable pub add_audit_event : AuditEvent → M (Unit {0})
  add_audit_event e = transact s (insert_event e)

  -- func newID
  abbrev pub new_id : String → M Text
  new_id prefix = get (λ n. codes prefix ++ s.env.random_id n)

  -- func (Service) recordAudit
  unfoldable pub record_audit : Text → Text → Text → Text → String → M (Unit {0})
  record_audit tenant_id sandbox_id action resource_id outcome = do
    id ← new_id "audit-"
    now ← get s.env.now
    ignore (
        add_audit_event (record {
          id = id;
          tenant_id = tenant_id;
          sandbox_id = sandbox_id;
          action = action;
          resource_id = resource_id;
          outcome = codes outcome;
          created_at = now;
        }))
