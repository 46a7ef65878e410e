-- ===== src/Lib.antt =====
-- The control plane of or3-sandbox: a service that gives tenants sandboxes, keeps them in a database
-- and drives them on a runtime backend.
--
-- The program's parts and the files that model them, with paths from the repository's root:
--   Model/*, Tables: the structs and enumerations of internal/model, its CPU quantities with their
--     texts, and the tables of internal/db.
--   Config: the settings of internal/config/config.go that the service reads.
--   Paths: path.Clean, path.Join and cleanWorkspaceRelativePath of internal/service/util.go.
--   Effect: what a method of Service does. A method takes a `World`, the database with the number of
--     the next step and the directories removed so far, and returns a result or an error with the
--     world that it leaves. Every statement of the database, call of the runtime, of the clock, of the
--     random source and of the host takes one step, and may fail or answer differently at each.
--   Store/*: internal/repository/store.go, one function per query, in a transaction where it uses one.
--   Service/Quota: checkQuota and checkRunningQuota of internal/service/service.go.
--   Service/Admission: internal/service/admission.go.
--   Service/Policy/*: internal/service/policy.go.
--   Service/Storage, Service/Transitions, Service/Delete, Service/Create/*: refreshStorage, StartSandbox,
--     StopSandbox, SuspendSandbox, ResumeSandbox, DeleteSandbox and CreateSandbox of
--     internal/service/service.go. Each is a do block in the order of the source, with its early
--     returns, dropped errors and audit events.
--   Service/Tunnels, Service/Tunnels/*: CreateTunnel, ListTunnels, GetTunnel, RevokeTunnel and
--     revokeActiveTunnels of the same file.
--   Service/Preview, Service/Exec, Service/Terminals: boundedBuffer of internal/service/util.go,
--     ExecSandbox and the terminal sessions.
--   Service/Snapshots/*: CreateSnapshot, RestoreSnapshot and what finds a snapshot's files.
--   Auth/Identity: internal/auth/identity.go. Agent/Protocol: the framing and validation of messages in
--     internal/runtime/qemu/agentproto/protocol.go, with encoding/json as a parameter.
--   Service/Reconcile: Reconcile, which runs at the start of the control plane and then regularly.
-- How they interact: the service's methods call policy, quota and admission, then the store, then the
-- runtime, then the store again. Reservations run under `admissionMu`; a method is one sequence of
-- steps here, and calls of several tenants follow one another. ExecSandbox and CreateTunnel are divided
-- where the mutex is released, and the theorems on their later parts hold of any database in between.
--
-- The proofs: Effect/Keeps, Effect/Yields, Effect/Ends and Effect/Splits have one rule for each way to
-- build a method: for what is kept at every outcome, for what holds after a success, after any end, and
-- after a success or else after an error. Checks shows that the checks write events only. Respects is
-- the interface between the store's statements and the calls: an invariant that satisfies it is kept by
-- each call. Isolation, Quotas, Outcome, Revocation, Executions, Snapshots, Reconciling, Admissions,
-- Auth/Permissions, Agent/Frames and Values have the properties, Examples the concrete runs.
--
-- Numbers: limits, counts and times are natural numbers; the comparisons of quotas and admission wrap
-- their sums to 64 bits as int64 does (Base/Int). Strings are lists of character codes, and blanks and
-- letters are those of ASCII. Every loop is over a list; only the decimal notation has fuel, one more
-- than the number, which has no more digits than that.
--
-- Not modelled: the runtime backends, the image readers, the clock, the random source, SQLite and the
-- host's files, which are parameters (Effect.Environment); messages of audit events, logging and
-- metrics; workspace files and archives, the HTTP interface with its signed tunnel URLs,
-- token verification, the guest agent, presets and the command line tools.
pub mod Base
pub mod Errors
pub mod Paths
pub mod Model
pub mod Tables
pub mod Config
pub mod Effect
pub mod Store
pub mod Service
pub mod Checks
pub mod Respects
pub mod Isolation
pub mod Quotas
pub mod Admissions
pub mod Values
pub mod Examples
pub mod Auth
pub mod Agent
pub mod Executions
pub mod Snapshots
pub mod Reconciling
pub mod Revocation
pub mod Outcome
