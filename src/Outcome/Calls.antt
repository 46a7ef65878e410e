-- ===== src/Outcome/Calls.antt =====
-- Stopping, suspending, starting and resuming: the sandbox that a success returns, and the rows.
use or3_sandbox.Base.{ℕ, Bool, true, false, ◌≡◌, refl, Text, some}
use or3_sandbox.Errors.{Result, ok, err, Error}
use or3_sandbox.Tables.{Db}
use or3_sandbox.Model.Status.{SandboxStatus}
use or3_sandbox.Model.Records.{Sandbox, RuntimeState, TenantQuota}
use or3_sandbox.Effect.{Service, World, M, ◌>>=◌, ◌>>◌, attempt, ask}
use or3_sandbox.Effect.Yields.{
  Yields, Yields-bind, Yields-query, Yields-pure, Yields-fail, Yields-any, Yields-given,
  Yields-mono,
}
use or3_sandbox.Store.Sandboxes.{get_sandbox}
use or3_sandbox.Service.Transitions.{
  in_transition, settle, record_failure, stop_sandbox, suspend_sandbox,
  reserve_lifecycle_transition, execute_reserved_transition, start_sandbox,
}
use or3_sandbox.Service.Tunnels.{revoke_active_tunnels}
use or3_sandbox.Revocation.{NoTunnels}
use or3_sandbox.Service.Policy.Images.{PolicyAction}
use or3_sandbox.Service.Admission.{AdmissionDelta}
use or3_sandbox.Outcome.Marks.{stored_status, Marked, Is, lookup-key}
use or3_sandbox.Outcome.Steps.{settle-Marked, enter-Is, reread-Is, revoke-Marked}

-- A sandbox that is at rest: returned, stored and without live tunnels.
pub record AtRest (t k : Text) (st : SandboxStatus) (x : Sandbox) (db : Db) : Type 0 where
  pub returned : Is t k st x
  pub stored : stored_status t k db ≡ some st
  pub tunnels : NoTunnels t k db

-- A sandbox that is up: returned and stored.
pub record Up (t k : Text) (x : Sandbox) (db : Db) : Type 0 where
  pub returned : Is t k SandboxStatus.running x
  pub stored : stored_status t k db ≡ some SandboxStatus.running

-- The runtime has been asked about a sandbox of the key with the status, and has answered it.
pub record Taken (run : ℕ → Sandbox → Result RuntimeState) (t k : Text) (st : SandboxStatus)
    : Type 0 where
  pub step : ℕ
  pub asked : Sandbox
  pub state : RuntimeState
  pub sandbox : Is t k st asked
  pub answered : run step asked ≡ ok state

asked-Yields :
    (run : ℕ → Sandbox → Result RuntimeState) (x : Sandbox)
    → Yields
        (λ _. Unit {0})
        (λ answer _. (n : ℕ) × (run n x ≡ answer))
        (attempt (ask (λ n. run n x)))
unfolding attempt ask
asked-Yields run x = record { at = λ w p answer e. (w.step, cc) }

-- What follows where nothing is returned.
Yields-never : {A : Type 0} {Q : A → Db → Type 0} {m : M A} → Yields (λ _. true ≡ false) Q m
Yields-never = record { at = λ w p a e. cc }

module _ (s : Service) (t k : Text) where
  -- The end of StopSandbox and of transitionSandbox.
  pub rest :
      (st : SandboxStatus) (y : Sandbox)
      → Yields
          (λ db. Marked t k st db.sandboxes × Is t k st y)
          (AtRest t k st)
          (do revoke_active_tunnels s t y; get_sandbox s t y.id)
  rest st y = record {
    at = λ w h x e.
        (Yields-bind {S = AtRest t k st} (revoke-Marked s t k st y h.1) (λ _.
            Yields-mono (reread-Is s t k st y.id h.1.id)
              (λ x db r. record { returned = r.0; stored = r.1; tunnels = r.2 }))).at
          w h.0 x e;
  }

  stop-AtRest :
      (force : Bool)
      → Yields (λ _. Unit {0}) (AtRest t k SandboxStatus.stopped) (stop_sandbox s t k force)
  unfolding stop_sandbox
  stop-AtRest force = Yields-bind (enter-Is s t k SandboxStatus.stopping) (λ x. Yields-given (λ is.
      Yields-bind Yields-any (λ answer.
        Yields-bind (settle-Marked s t k x SandboxStatus.stopping SandboxStatus.stopped _ answer is)
          (λ y. rest SandboxStatus.stopped y))))

  suspend-AtRest :
      Yields (λ _. Unit {0}) (AtRest t k SandboxStatus.suspended) (suspend_sandbox s t k)
  unfolding suspend_sandbox
  suspend-AtRest = Yields-bind (enter-Is s t k SandboxStatus.suspending) (λ x. Yields-given (λ is.
      Yields-bind Yields-any (λ answer.
        Yields-bind
          (settle-Marked s t k x SandboxStatus.suspending SandboxStatus.suspended _ answer is)
          (λ y. rest SandboxStatus.suspended y))))

  reserve-Is :
      (action : PolicyAction) (q : TenantQuota) (st : SandboxStatus) (d : AdmissionDelta)
      → Yields
          (λ _. Unit {0})
          (λ x _. Is t k st x)
          (reserve_lifecycle_transition s t k action q st d)
  unfolding reserve_lifecycle_transition get_sandbox
  reserve-Is action q st d =
      Yields-bind (Yields-query s _ (λ db x _ e. lookup-key t k db x e)) (λ x. Yields-given (λ is.
        Yields-bind Yields-any (λ _. Yields-bind Yields-any (λ _. Yields-bind Yields-any (λ _.
          Yields-bind Yields-any (λ now. Yields-bind Yields-any (λ _.
            Yields-pure (in_transition st now x)
              (λ db _. record { tenant = is.tenant; id = is.id; status = refl }))))))))

  reread-Up :
      (y : Sandbox)
      → Yields
          (λ db. Marked t k SandboxStatus.running db.sandboxes × Is t k SandboxStatus.running y)
          (Up t k)
          (get_sandbox s t y.id)
  reread-Up y = record {
    at = λ w h x e.
        let r =
          (reread-Is s t k SandboxStatus.running y.id {Q = λ _. Unit {0}} h.1.id).at w (h.0, tt) x
            e in
        record { returned = r.0; stored = r.1 };
  }

  failure-never :
      (x : Sandbox) (st : SandboxStatus) (action : Text) (e : Error)
      → Yields (λ _. Unit {0}) (λ _ _. true ≡ false) (settle s t x st action (err e))
  unfolding settle record_failure
  failure-never x st action e =
      Yields-bind Yields-any
        (λ now. Yields-bind Yields-any (λ _. Yields-bind Yields-any (λ _. Yields-fail e)))

  answered-Up :
      (x : Sandbox) (before : SandboxStatus) (action : Text)
      (run : ℕ → Sandbox → Result RuntimeState) (answer : Result RuntimeState) (n : ℕ)
      → Is t k before x
      → run n x ≡ answer
      → Yields
          (λ _. Unit {0})
          (λ y db. Up t k y db × Taken run t k before)
          (do y ← settle s t x SandboxStatus.running action answer; get_sandbox s t y.id)
  answered-Up x before action run (err e) n is h =
      Yields-bind (failure-never x SandboxStatus.running action e) (λ y. Yields-never)
  answered-Up x before action run (ok state) n is h =
      Yields-mono
        (Yields-bind (settle-Marked s t k x before SandboxStatus.running action (ok state) is)
          reread-Up)
        (λ y db up. (up, record { step = n; asked = x; state = state; sandbox = is; answered = h }))

  execute-Taken :
      (x : Sandbox) (before : SandboxStatus) (action : Text)
      (run : ℕ → Sandbox → Result RuntimeState)
      → Is t k before x
      → Yields
          (λ _. Unit {0})
          (λ y db. Up t k y db × Taken run t k before)
          (execute_reserved_transition s t x action SandboxStatus.running run)
  unfolding execute_reserved_transition
  execute-Taken x before action run is =
      Yields-bind (asked-Yields run x)
        (λ answer. Yields-given (λ a. answered-Up x before action run answer a.0 is a.1))

  execute-Up :
      (x : Sandbox) (before : SandboxStatus) (action : Text)
      (run : ℕ → Sandbox → Result RuntimeState)
      → Is t k before x
      → Yields
          (λ _. Unit {0})
          (Up t k)
          (execute_reserved_transition s t x action SandboxStatus.running run)
  execute-Up x before action run is =
      Yields-mono (execute-Taken x before action run is) (λ y db h. h.0)

  start-Up : (q : TenantQuota) → Yields (λ _. Unit {0}) (Up t k) (start_sandbox s t k q)
  unfolding start_sandbox
  start-Up q =
      Yields-bind (reserve-Is _ q SandboxStatus.starting _)
        (λ x. Yields-given (λ is. execute-Up x SandboxStatus.starting _ _ is))

  -- Where StopSandbox succeeds, it returns the tenant's sandbox of the id that it was asked to stop,
  -- stopped; that row is stopped in the database, and no tunnel of the sandbox is live.
  pub stop_sandbox-AtRest :
      (force : Bool) (w : World) (x : Sandbox)
      → (stop_sandbox s t k force w).0 ≡ ok x
      → AtRest t k SandboxStatus.stopped x (stop_sandbox s t k force w).1.db
  stop_sandbox-AtRest force w x e = (stop-AtRest force).at w tt x e

  -- Where SuspendSandbox succeeds, it returns the tenant's sandbox of the id that it was asked to
  -- suspend, suspended; that row is suspended in the database, and no tunnel of the sandbox is live.
  pub suspend_sandbox-AtRest :
      (w : World) (x : Sandbox)
      → (suspend_sandbox s t k w).0 ≡ ok x
      → AtRest t k SandboxStatus.suspended x (suspend_sandbox s t k w).1.db
  suspend_sandbox-AtRest w x e = suspend-AtRest.at w tt x e

  -- Where StartSandbox succeeds, it returns the tenant's sandbox of the id that it was asked to start,
  -- running, and that row is running in the database.
  pub start_sandbox-Up :
      (q : TenantQuota) (w : World) (x : Sandbox)
      → (start_sandbox s t k q w).0 ≡ ok x
      → Up t k x (start_sandbox s t k q w).1.db
  start_sandbox-Up q w x e = (start-Up q).at w tt x e
