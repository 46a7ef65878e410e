-- ===== src/Effect.antt =====
-- What a method of Service does: it reads and writes the database, asks its environment, and
-- returns a result or an error. What was written before an error stays written.
--
-- The environment (SQLite, the clock, the random source, the host's file system, the runtime
-- backends and the readers of image files) answers by the number of the step that asks it, so that
-- it may answer differently each time; every call takes one step.
pub mod Keeps
pub mod Yields
pub mod Ends
pub mod Splits
use or3_sandbox.Base.{ℕ, suc, Bool, true, false, Text, List, ◌∷◌, if◌then◌else◌, Option, none, some}
use or3_sandbox.Errors.{Result, ok, err, Error, external, constraint}
use or3_sandbox.Model.Records.{
  Sandbox, SandboxSpec, Snapshot, RuntimeState, Contract, StorageUsage, ExecRequest, ExecOutcome,
  TtyRequest, SnapshotInfo,
}
use or3_sandbox.Model.Guest.{GuestProfile}
use or3_sandbox.Config.{Config}
use or3_sandbox.Tables.{Db}

-- Requests to the runtime backend (model.RuntimeManager) and what they return.
pub record Runtime : Type 0 where
  pub create : ℕ → SandboxSpec → Result RuntimeState
  pub start : ℕ → Sandbox → Result RuntimeState
  pub stop : ℕ → Sandbox → Bool → Result RuntimeState
  pub suspend : ℕ → Sandbox → Result RuntimeState
  pub resume : ℕ → Sandbox → Result RuntimeState
  pub destroy : ℕ → Sandbox → Result (Unit {0})
  pub inspect : ℕ → Sandbox → Result RuntimeState
  -- Exec starts the command; Wait, on the handle that it returns, is its end
  pub exec : ℕ → Sandbox → ExecRequest → Result (Unit {0})
  pub wait : ℕ → Sandbox → ExecRequest → ExecOutcome
  pub attach_tty : ℕ → Sandbox → TtyRequest → Result (Unit {0})
  pub create_snapshot : ℕ → Sandbox → Text → Result SnapshotInfo
  pub restore_snapshot : ℕ → Sandbox → Snapshot → Result RuntimeState
  -- MeasureStorage, or the sizes of the sandbox's directories
  pub measure_storage : ℕ → Sandbox → Result StorageUsage

pub record Environment : Type 0 where
  -- whether a statement of the database fails
  pub statement_fails : ℕ → Bool
  pub now : ℕ → ℕ
  pub random_id : ℕ → Text
  -- whether a call of the host's file system fails
  pub host_fails : ℕ → Bool
  -- Error()
  pub error_text : Error → Text
  pub is_readable_file : ℕ → Text → Bool
  -- guestimage.Load, then guestimage.Validate
  pub load_contract : ℕ → Text → Result Contract
  -- dockerimage.ResolveWithDockerLabels: the profile in the image's labels; none if it has no metadata
  pub docker_profile : ℕ → Text → Result (Option GuestProfile)
  -- os.Stat without error
  pub file_exists : ℕ → Text → Bool
  -- fileSHA256
  pub file_sha256 : ℕ → Text → Result Text
  -- config.HashToken
  pub hash_token : Text → Text
  -- minAvailableBytes
  pub free_storage : ℕ → Result ℕ
  pub runtime : Runtime

-- The struct Service: its configuration, and what it is connected to.
pub record Service : Type 0 where
  pub cfg : Config
  pub env : Environment

-- `removed` lists the directories that os.RemoveAll has removed, the last one first.
pub record World : Type 0 where
  pub db : Db
  pub step : ℕ
  pub removed : List Text

abbrev pub M : Type 0 → Type 0
M A = World → Result A × World

abbrev pub continue : {A B : Type 0} → Result A → (A → M B) → M B
continue (ok a) f w = f a w
continue (err e) f w = (err e, w)

infixl 10 ◌>>=◌ ◌>>◌
unfoldable pub ◌>>=◌ : {A B : Type 0} → M A → (A → M B) → M B
◌>>=◌ m f w = let (r, w') = m w in continue r f w'

abbrev pub ◌>>◌ : {A B : Type 0} → M A → M B → M B
m >> n = m >>= λ _. n

unfoldable pub pure : {A : Type 0} → A → M A
pure a w = (ok a, w)

unfoldable pub fail : {A : Type 0} → Error → M A
fail e w = (err e, w)

-- The result of `m` as a value: `err != nil` is tested by the caller.
unfoldable pub attempt : {A : Type 0} → M A → M (Result A)
attempt m w = let (r, w') = m w in (ok r, w')

-- `_ = m`
abbrev pub ignore : {A : Type 0} → M A → M (Unit {0})
ignore m = attempt m >> pure tt

abbrev pub guard : Bool → Error → M (Unit {0})
guard refused e = if refused then fail e else pure tt

-- `if test { m }`
abbrev pub when : Bool → M (Unit {0}) → M (Unit {0})
when test m = if test then m else pure tt

unfoldable pub lift : {A : Type 0} → Result A → M A
lift r w = (r, w)

-- An answer of the environment, which takes one step.
unfoldable pub ask : {A : Type 0} → (ℕ → Result A) → M A
ask answer w = (answer w.step, record w { step = suc w.step })

abbrev pub get : {A : Type 0} → (ℕ → A) → M A
get value = ask (λ n. ok (value n))

-- A call that reports only failure.
abbrev pub call : (ℕ → Bool) → M (Unit {0})
call fails = ask (λ n. if fails n then err (external n) else ok tt)

module _ (s : Service) where
  -- A statement that reads.
  unfoldable pub query : {A : Type 0} → (Db → Result A) → M A
  query f w = (
    if s.env.statement_fails w.step then err (external w.step) else f w.db,
    record w { step = suc w.step },
  )

  abbrev written : Option Db → World → Result (Unit {0}) × World
  written none w = (err constraint, record w { step = suc w.step })
  written (some db) w = (ok tt, record w { db = db; step = suc w.step })

  -- A statement or a transaction that writes: all of it or, if it fails, nothing. `none` is a
  -- constraint of the schema that refuses the rows.
  unfoldable pub transact : (Db → Option Db) → M (Unit {0})
  transact f w =
      if s.env.statement_fails w.step
      then (err (external w.step), record w { step = suc w.step })
      else written (f w.db) w

  -- os.RemoveAll
  unfoldable pub remove_all : Text → M (Unit {0})
  remove_all path w =
      if s.env.host_fails w.step
      then (err (external w.step), record w { step = suc w.step })
      else (ok tt, record w { step = suc w.step; removed = path ∷ w.removed })

abbrev pub transact_always : Service → (Db → Db) → M (Unit {0})
transact_always s f = transact s (λ db. some (f db))
