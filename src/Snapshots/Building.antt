-- ===== src/Snapshots/Building.antt =====
-- CreateSnapshot, from the runtime's call on: a snapshot that is ready, or one that has failed.
use mathlib.Core.Path.{subst}
use or3_sandbox.Base.{
  true, not, ◌&&◌, ◌≡◌, refl, Text, All, All-update, some-injective, is_empty, eq_text, codes,
}
use or3_sandbox.Errors.{Result, ok, err, Error}
use or3_sandbox.Tables.{Db}
use or3_sandbox.Model.Status.{SnapshotStatus}
use or3_sandbox.Model.Records.{Sandbox, Snapshot}
use or3_sandbox.Effect.{Service, World, M, ◌>>=◌, ◌>>◌, attempt, ask, pure, fail, remove_all}
use or3_sandbox.Effect.Keeps.{keeps_rules}
use or3_sandbox.Effect.Yields.{Yields, Yields-any, Yields-Keeps, Yields-transact}
use or3_sandbox.Effect.Ends.{
  Ends, Returns-ignore, Ends-bind, Reliable, Ends-Keeps, Ends-then, Ends-ignore, Ends-write,
}
use or3_sandbox.Effect.Splits.{
  Splits-Ends, Splits, Outcome, Splits-pure, Splits-if, Splits-Returns, Splits-bind, Splits-get,
  Splits-given,
}
use or3_sandbox.Store.Audit.{record_audit}
use or3_sandbox.Store.Snapshots.{snapshot_key, set_snapshot, update_snapshot_rows, update_snapshot}
use or3_sandbox.Service.Snapshots.Artifacts.{looks_like_filesystem_path}
use or3_sandbox.Service.Snapshots.Create.{
  failed_snapshot, completed_snapshot, fail_snapshot, settle_stage, stage, move_artifact,
  place_image, place_workspace, add_checksum, export_bundle, build_snapshot,
}
use or3_sandbox.Service.Storage.{refresh_storage}
use or3_sandbox.Checks.{KeepsAudit, record_audit-Returns}
use or3_sandbox.Respects.{Aside, snapshots-Aside}
use or3_sandbox.Respects.Transitions.{refresh_storage-Keeps}

-- Whatever row has the key has the status.
abbrev pub Stored : Text → Text → SnapshotStatus → Db → Type 0
Stored t k st db = All (λ row. snapshot_key t k row ≡ true → row.status ≡ st) db.snapshots

-- A snapshot of the key.
pub record Has (t k : Text) (x : Snapshot) : Type 0 where
  pub tenant : x.tenant_id ≡ t
  pub id : x.id ≡ k

module _ (s : Service) (sound : Reliable s) (t k : Text) where
  write-Stored :
      (y : Snapshot) (st : SnapshotStatus)
      → Has t k y
      → y.status ≡ st
      → Ends (λ _. Unit {0}) (Stored t k st) (update_snapshot s y)
  unfolding update_snapshot update_snapshot_rows
  write-Stored y st has is = Ends-write s _ sound (λ db p.
      rw (has.tenant, has.id)
        (All-update (snapshot_key t k) (set_snapshot y) (λ row. row.status ≡ st) (λ z. is)
          db.snapshots))

  Stored-Aside : (st : SnapshotStatus) → Aside s t (Stored t k st)
  Stored-Aside st = snapshots-Aside s t (All (λ row. snapshot_key t k row ≡ true → row.status ≡ st))

  audit-Stored : (st : SnapshotStatus) → KeepsAudit s (Stored t k st)
  audit-Stored st = (Stored-Aside st).audit

  abbrev Failed : Db → Type 0
  Failed = Stored t k SnapshotStatus.error

  module _ (sandbox_id : Text) (x : Sandbox) where
    fail-Ends :
        {A : Type 0} (y : Snapshot) (e : Error)
        → Has t k y
        → Ends (λ _. Unit {0}) Failed (fail_snapshot s t sandbox_id x {A = A} y e)
    unfolding fail_snapshot
    fail-Ends y e has =
        Ends-bind {Q = λ _. Unit {0}} (Returns-ignore _)
          (Ends-Keeps (search keeps_rules) (λ db p. tt))
          (λ _.
            Ends-then
              (Ends-ignore (
                write-Stored (failed_snapshot y) SnapshotStatus.error
                  (record { tenant = has.tenant; id = has.id }) refl))
              (λ _. search (audit-Stored, keeps_rules)))

    fail-err :
        {A : Type 0} (y : Snapshot) (e : Error) (w : World)
        → (fail_snapshot s t sandbox_id x {A = A} y e w).0 ≡ err e
    unfolding fail_snapshot remove_all ◌>>=◌ attempt ask pure fail record_audit
    fail-err y e w = refl

    fail-Splits :
        {A : Type 0} {R : A → Db → Type 0} (y : Snapshot) (e : Error)
        → Has t k y
        → Splits (λ _. Unit {0}) R Failed (fail_snapshot s t sandbox_id x {A = A} y e)
    fail-Splits y e has = Splits-Ends e (fail-err y e) (fail-Ends y e has)

    stage-Splits :
        {A : Type 0} {P : Db → Type 0} {R : A → Db → Type 0} {m : M A} (y : Snapshot)
        → Has t k y
        → Yields P R m
        → Splits P R Failed (stage s t sandbox_id x y m)
    unfolding stage settle_stage attempt ◌>>=◌ pure
    stage-Splits {A = A} {R = R} {m = m} y has ym = record {
      at = λ w p. go (m w).0 (m w).1 (ym.at w p);
    }
      where
        go :
            (r : Result A) (w : World)
            → ((a : A) → r ≡ ok a → R a w.db)
            → Outcome R Failed
                (settle_stage s t sandbox_id x y r w).0
                (settle_stage s t sandbox_id x y r w).1.db
        go (ok a) w h = h a refl
        go (err e) w h = (fail-Splits y e has).at w tt

    move-Splits :
        (y : Snapshot) (target path : Text)
        → Has t k y
        → Splits
            (λ _. Unit {0})
            (λ _ _. Unit {0})
            Failed
            (move_artifact s t sandbox_id x y target path)
    unfolding move_artifact
    move-Splits y target path has =
        Splits-if (not (eq_text path target))
          (Splits-bind (stage-Splits y has Yields-any)
            (λ _. Splits-Returns (Returns-ignore _) Yields-any))
          (Splits-pure tt (λ db p. tt))

    -- A snapshot on its way, with nothing said of the database.
    abbrev Kept : Snapshot → Db → Type 0
    Kept y db = Has t k y

    place_image-Splits :
        (y : Snapshot) (path : Text)
        → Has t k y
        → Splits (λ _. Unit {0}) Kept Failed (place_image s t sandbox_id x y path)
    unfolding place_image
    place_image-Splits y path has =
        let same : (ref : Text) → Has t k (record y { image_ref = ref }) =
          λ ref. record { tenant = has.tenant; id = has.id } in
        Splits-if (not (looks_like_filesystem_path path)) (Splits-pure _ (λ db p. same _)) (
          Splits-get _ _ (λ readable.
            Splits-bind (stage-Splits y has Yields-any)
              (λ _. Splits-bind (move-Splits y _ path has) (λ _. Splits-pure _ (λ db p. same _)))))

    place_workspace-Splits :
        (y : Snapshot) (path : Text)
        → Has t k y
        → Splits (λ _. Unit {0}) Kept Failed (place_workspace s t sandbox_id x y path)
    unfolding place_workspace
    place_workspace-Splits y path has =
        let same : (tar : Text) → Has t k (record y { workspace_tar = tar }) =
          λ tar. record { tenant = has.tenant; id = has.id } in
        Splits-if (is_empty path) (Splits-pure _ (λ db p. same _))
          (Splits-bind (move-Splits y _ path has) (λ _. Splits-pure _ (λ db p. same _)))

    -- A snapshot that is complete.
    record Complete (y : Snapshot) : Type 0 where
      has : Has t k y
      ready : y.status ≡ SnapshotStatus.ready

    add_checksum-Splits :
        (y : Snapshot)
        → Complete y
        → Splits (λ _. Unit {0}) (λ z _. Complete z) Failed (add_checksum s t sandbox_id x y)
    unfolding add_checksum
    add_checksum-Splits y c =
        Splits-if (not (is_empty y.workspace_tar) && looks_like_filesystem_path y.workspace_tar)
          (Splits-bind (stage-Splits {R = λ _ _. Unit {0}} y c.has Yields-any) (λ sum.
            Splits-pure _ (λ db p. record {
              has = record { tenant = c.has.tenant; id = c.has.id };
              ready = c.ready;
            })))
          (Splits-pure y (λ db p. c))

    export_bundle-Splits :
        (y : Snapshot)
        → Complete y
        → Splits (λ _. Unit {0}) (λ z _. Complete z) Failed (export_bundle s t sandbox_id x y)
    unfolding export_bundle
    export_bundle-Splits y c =
        Splits-if (is_empty s.cfg.optional_snapshot_export) (Splits-pure y (λ db p. c)) (
          Splits-bind (stage-Splits {R = λ _ _. Unit {0}} y c.has Yields-any) (λ location.
            Splits-pure _ (λ db p. record {
              has = record { tenant = c.has.tenant; id = c.has.id };
              ready = c.ready;
            })))

    save-Splits :
        (y : Snapshot)
        → Complete y
        → Splits
            (λ _. Unit {0})
            (λ _. Stored t k SnapshotStatus.ready)
            Failed
            (stage s t sandbox_id x y (update_snapshot s y))
    unfolding update_snapshot update_snapshot_rows
    save-Splits y c = stage-Splits y c.has (
        Yields-transact s _ (λ db db' h e.
          subst (Stored t k SnapshotStatus.ready) (some-injective e) (
            rw (c.has.tenant, c.has.id)
              (All-update (snapshot_key t k) (set_snapshot y)
                (λ row. row.status ≡ SnapshotStatus.ready) (λ z. c.ready) db.snapshots))))

    -- What is returned is ready, and so is the row.
    abbrev Built : Snapshot → Db → Type 0
    Built y db = (y.status ≡ SnapshotStatus.ready) × Stored t k SnapshotStatus.ready db

    finish-Splits :
        (y : Snapshot)
        → Complete y
        → Splits
            (λ _. Unit {0})
            Built
            Failed
            (do
              stage s t sandbox_id x y (update_snapshot s y)
              stage s t sandbox_id x y (refresh_storage s x)
              record_audit s t sandbox_id (codes "snapshot.create") y.id "ok"
              pure y)
    finish-Splits y c = Splits-bind (save-Splits y c) (λ _.
        Splits-bind
          (stage-Splits y c.has
            (Yields-Keeps (refresh_storage-Keeps (Stored-Aside SnapshotStatus.ready) x)))
          (λ _.
            Splits-bind
              (Splits-Returns (record_audit-Returns s _ _ _ _ _)
                (Yields-Keeps (audit-Stored SnapshotStatus.ready _ _ _ _ _)))
              (λ _. Splits-pure y (λ db h. (c.ready, h)))))

    build-Splits :
        (new : Snapshot)
        → Has t k new
        → Splits (λ _. Unit {0}) Built Failed (build_snapshot s t sandbox_id x new)
    unfolding build_snapshot
    build-Splits new has =
        Splits-bind {R = λ _ _. Unit {0}} (stage-Splits new has Yields-any) (λ info.
          Splits-bind {R = λ _ _. Unit {0}} (stage-Splits new has Yields-any) (λ _.
            Splits-bind (place_image-Splits new info.image_ref has) (λ imaged. Splits-given (λ has1.
              Splits-bind (place_workspace-Splits imaged info.workspace_tar has1) (λ placed.
                Splits-given (λ has2. Splits-get _ _ (λ now.
                  Splits-bind
                    (add_checksum-Splits (completed_snapshot now placed) (record {
                      has = record { tenant = has2.tenant; id = has2.id };
                      ready = refl;
                    }))
                    (λ summed. Splits-given (λ c1.
                      Splits-bind (export_bundle-Splits summed c1)
                        (λ exported. Splits-given (λ c2. finish-Splits exported c2)))))))))))

-- CreateSnapshot, from the runtime's call on and where statements do not fail, either returns a ready
-- snapshot whose row is ready, or returns an error and has left the row of its key with the status
-- error: at every failure of the runtime, the host, the export or the measurement.
pub build_snapshot-Outcome :
    (s : Service) (t sandbox_id : Text) (x : Sandbox) (new : Snapshot) (w : World)
    → Reliable s
    → new.tenant_id ≡ t
    → Outcome
        (λ y db. (y.status ≡ SnapshotStatus.ready) × Stored t new.id SnapshotStatus.ready db)
        (Stored t new.id SnapshotStatus.error)
        (build_snapshot s t sandbox_id x new w).0
        (build_snapshot s t sandbox_id x new w).1.db
build_snapshot-Outcome s t sandbox_id x new w sound own =
    (build-Splits s sound t new.id sandbox_id x new (record { tenant = own; id = refl })).at w tt
