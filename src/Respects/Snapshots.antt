-- ===== src/Respects/Snapshots.antt =====
-- Creating and restoring a snapshot keep what the store's statements keep.
use or3_sandbox.Base.{true, not, ◌&&◌, ◌≡◌, refl, Text, List, [], ◌∷◌, is_empty, eq_text, ◌||◌}
use or3_sandbox.Errors.{Result, ok, err, Error}
use or3_sandbox.Tables.{Db}
use or3_sandbox.Model.Status.{is_live, is_stopped}
use or3_sandbox.Model.Selection.{backend, is_qemu}
use or3_sandbox.Model.Records.{Sandbox, Snapshot, RuntimeState}
use or3_sandbox.Effect.{Service, M}
use or3_sandbox.Effect.Keeps.{
  Ensures, Keeps, keeps_rules, Ensures-bind, Keeps-bind, Keeps-weaken, Ensures-pure, Ensures-if,
  Keeps-ask, Keeps-attempt, Keeps-ignore, Keeps-when, Keeps-guard, Keeps-query, Keeps-pure,
  Keeps-if, Keeps-remove_all,
}
use or3_sandbox.Store.Snapshots.{get_snapshot}
use or3_sandbox.Service.Policy.Lifecycle.{sandbox_selection}
use or3_sandbox.Service.Snapshots.Artifacts.{
  looks_like_filesystem_path, put_snapshot_bundle, export_snapshot_bundle, have_local,
  verify_checksum, verified, fetch_artifacts, ensure_snapshot_artifacts,
}
use or3_sandbox.Service.Snapshots.Create.{
  new_snapshot, failed_snapshot, completed_snapshot, fail_snapshot, settle_stage, stage,
  move_artifact, place_image, place_workspace, add_checksum, export_bundle, build_snapshot,
  create_snapshot,
}
use or3_sandbox.Service.Snapshots.Restore.{
  restored, validate_snapshot_compatibility, or_audit, or_deny, stop_target, finish_restore,
  restore_snapshot,
}
use or3_sandbox.Checks.{enforce_admission-Keeps, enforce_promoted_image_policy-Keeps}
use or3_sandbox.Respects.{Respects}
use or3_sandbox.Respects.Own.{Owns}
use or3_sandbox.Respects.Transitions.{
  Held, refresh_storage-Keeps, revoke_active_tunnels-Keeps, stop_sandbox-Ensures,
}
use or3_sandbox.Respects.Delete.{reread-Ensures}

module _ {s : Service} {t : Text} {P : Db → Type 0} {R : Text → Type 0} (i : Respects s t P R)
    (o : Owns s t P) where
  Mine : Snapshot → Type 0
  Mine y = y.tenant_id ≡ t

  module _ (k : Text) (x : Sandbox) where
    fail-Keeps :
        {A : Type 0} (y : Snapshot) (e : Error)
        → y.tenant_id ≡ t
        → Keeps P (fail_snapshot s t k x {A = A} y e)
    unfolding fail_snapshot
    fail-Keeps y e own = Keeps-bind (Keeps-ignore (Keeps-remove_all s _)) (λ _.
        Keeps-bind (Keeps-ignore (o.write_snapshot (failed_snapshot y) own))
          (λ _. search (i.aside.audit, keeps_rules)))

    settle-Keeps :
        {A : Type 0} (y : Snapshot) (r : Result A)
        → y.tenant_id ≡ t
        → Keeps P (settle_stage s t k x y r)
    unfolding settle_stage
    settle-Keeps y (ok a) own = Keeps-pure a
    settle-Keeps y (err e) own = fail-Keeps y e own

    stage-Keeps :
        {A : Type 0} {m : M A} (y : Snapshot)
        → y.tenant_id ≡ t
        → Keeps P m
        → Keeps P (stage s t k x y m)
    unfolding stage
    stage-Keeps y own km = Keeps-bind (Keeps-attempt km) (λ r. settle-Keeps y r own)

    move-Keeps :
        (y : Snapshot) (target path : Text)
        → y.tenant_id ≡ t
        → Keeps P (move_artifact s t k x y target path)
    unfolding move_artifact
    move-Keeps y target path own =
        Keeps-when (not (eq_text path target))
          (Keeps-bind (stage-Keeps y own (Keeps-ask _)) (λ _. Keeps-ignore (Keeps-ask _)))

    place_image-Ensures :
        (y : Snapshot) (path : Text) → y.tenant_id ≡ t → Ensures P Mine (place_image s t k x y path)
    unfolding place_image Mine
    place_image-Ensures y path own =
        Ensures-if (not (looks_like_filesystem_path path)) (Ensures-pure _ _ own) (
          Keeps-bind (Keeps-ask _) (λ readable.
            Keeps-bind (stage-Keeps y own (Keeps-guard _ _))
              (λ _. Keeps-bind (move-Keeps y _ path own) (λ _. Ensures-pure _ _ own))))

    place_workspace-Ensures :
        (y : Snapshot) (path : Text)
        → y.tenant_id ≡ t
        → Ensures P Mine (place_workspace s t k x y path)
    unfolding place_workspace Mine
    place_workspace-Ensures y path own =
        Ensures-if (is_empty path) (Ensures-pure _ _ own)
          (Keeps-bind (move-Keeps y _ path own) (λ _. Ensures-pure _ _ own))

    add_checksum-Ensures :
        (y : Snapshot) → y.tenant_id ≡ t → Ensures P Mine (add_checksum s t k x y)
    unfolding add_checksum Mine
    add_checksum-Ensures y own =
        Ensures-if (not (is_empty y.workspace_tar) && looks_like_filesystem_path y.workspace_tar)
          (Keeps-bind (stage-Keeps y own (Keeps-ask _)) (λ sum. Ensures-pure _ _ own))
          (Ensures-pure _ y own)

    export-Keeps : (y : Snapshot) → Keeps P (export_snapshot_bundle s x y)
    unfolding export_snapshot_bundle put_snapshot_bundle
    export-Keeps y = search keeps_rules depth 15

    export_bundle-Ensures :
        (y : Snapshot) → y.tenant_id ≡ t → Ensures P Mine (export_bundle s t k x y)
    unfolding export_bundle Mine
    export_bundle-Ensures y own =
        Ensures-if (is_empty s.cfg.optional_snapshot_export) (Ensures-pure _ y own)
          (Keeps-bind (stage-Keeps y own (export-Keeps y)) (λ location. Ensures-pure _ _ own))

    build-Keeps : (new : Snapshot) → new.tenant_id ≡ t → Keeps P (build_snapshot s t k x new)
    unfolding build_snapshot Mine
    build-Keeps new own = Keeps-bind (stage-Keeps new own (Keeps-ask _)) (λ info.
        Keeps-bind (stage-Keeps new own (Keeps-ask _)) (λ _.
          Ensures-bind (place_image-Ensures new info.image_ref own) (λ imaged own1.
            Ensures-bind (place_workspace-Ensures imaged info.workspace_tar own1) (λ placed own2.
              Keeps-bind (Keeps-ask _) (λ now.
                Ensures-bind (add_checksum-Ensures (completed_snapshot now placed) own2)
                  (λ summed own3. Ensures-bind (export_bundle-Ensures summed own3) (λ exported own4.
                    Keeps-bind (stage-Keeps exported own4 (o.write_snapshot exported own4)) (λ _.
                      Keeps-bind (stage-Keeps exported own4 (refresh_storage-Keeps i.aside x))
                        (λ _. search (i.aside.audit, keeps_rules))))))))))

  pub create_snapshot-Keeps : (k name : Text) → Keeps P (create_snapshot s t k name)
  unfolding create_snapshot
  create_snapshot-Keeps k name = Ensures-bind (i.read k) (λ x r.
      Keeps-bind (enforce_admission-Keeps s i.aside.audit t x.id _ _) (λ _.
        Keeps-bind
          (Keeps-guard (is_qemu (backend (sandbox_selection x)) && not (is_stopped x.status)) _)
          (λ _. Keeps-bind (Keeps-ask _) (λ id. Keeps-bind (Keeps-ask _) (λ now.
            Keeps-bind (o.insert_snapshot (new_snapshot t x name id now) refl)
              (λ _. build-Keeps k x (new_snapshot t x name id now) refl))))))

  local-Keeps : (paths : List Text) → Keeps P (have_local s paths)
  unfolding have_local
  local-Keeps [] = Keeps-pure true
  local-Keeps (path ∷ paths) =
      Keeps-if (is_empty path || not (looks_like_filesystem_path path)) (local-Keeps paths)
        (Keeps-bind (Keeps-ask _) (λ there. Keeps-if there (local-Keeps paths) (Keeps-pure _)))

  ensure_artifacts-Keeps : (x : Sandbox) (y : Snapshot) → Keeps P (ensure_snapshot_artifacts s x y)
  unfolding ensure_snapshot_artifacts fetch_artifacts verified verify_checksum
  ensure_artifacts-Keeps x y = Keeps-bind (local-Keeps _) (λ there. search keeps_rules depth 25)

  or_audit-Keeps :
      {A : Type 0} (k snapshot_id : Text) (r : Result A) → Keeps P (or_audit s t k snapshot_id r)
  unfolding or_audit
  or_audit-Keeps k snapshot_id (ok a) = Keeps-pure a
  or_audit-Keeps k snapshot_id (err e) = search (i.aside.audit, keeps_rules)

  or_deny-Keeps :
      (k snapshot_id : Text) (r : Result (Unit {0})) → Keeps P (or_deny s t k snapshot_id r)
  unfolding or_deny
  or_deny-Keeps k snapshot_id (ok a) = Keeps-pure tt
  or_deny-Keeps k snapshot_id (err e) = search (i.aside.audit, keeps_rules)

  fits-Keeps : (y : Snapshot) (x : Sandbox) → Keeps P (validate_snapshot_compatibility s y x)
  unfolding validate_snapshot_compatibility
  fits-Keeps y x =
      Keeps-bind (Keeps-guard _ _)
        (λ _. enforce_promoted_image_policy-Keeps s i.aside.audit _ _ _ _ _ _)

  finish_restore-Keeps :
      (y : Snapshot) (x : Sandbox) (state : RuntimeState)
      → R x.id
      → Keeps P (finish_restore s t y x state)
  unfolding finish_restore
  finish_restore-Keeps y x state r = Keeps-bind (Keeps-ask _) (λ now.
      Keeps-bind (i.write_state (restored y state now x) r) (λ _.
        Keeps-bind (i.write_runtime x.id state r) (λ _.
          Keeps-bind (refresh_storage-Keeps i.aside _) (λ _.
            Keeps-bind (i.aside.audit _ _ _ _ _) (λ _.
              Keeps-bind (revoke_active_tunnels-Keeps i.aside _)
                (λ _. Keeps-weaken (i.read x.id)))))))

  module _ (zero : R []) where
    target-Ensures :
        (x : Sandbox) (snapshot_id : Text)
        → R x.id
        → Ensures P (Held i) (stop_target s t x snapshot_id)
    unfolding stop_target
    target-Ensures x snapshot_id r =
        Ensures-if (is_live x.status)
          (Keeps-bind (Keeps-attempt (Keeps-weaken (stop_sandbox-Ensures i x.id true))) (λ stopped.
            Keeps-bind (or_audit-Keeps x.id snapshot_id stopped) (λ _. reread-Ensures i zero x.id)))
          (Ensures-pure _ x r)

    pub restore_snapshot-Keeps :
        (snapshot_id k : Text) → Keeps P (restore_snapshot s t snapshot_id k)
    unfolding restore_snapshot get_snapshot
    restore_snapshot-Keeps snapshot_id k = Keeps-bind (Keeps-query s _) (λ y.
        Ensures-bind (i.read k) (λ x r.
          Keeps-bind (enforce_admission-Keeps s i.aside.audit t x.id _ _) (λ _.
            Keeps-bind (Keeps-attempt (fits-Keeps y x)) (λ fits.
              Keeps-bind (or_deny-Keeps x.id y.id fits) (λ _.
                Keeps-bind (Keeps-attempt (ensure_artifacts-Keeps x y)) (λ fetched.
                  Keeps-bind (or_audit-Keeps x.id [] fetched) (λ z.
                    Ensures-bind (target-Ensures x z.id r) (λ target held.
                      Keeps-bind (Keeps-attempt (Keeps-ask _)) (λ answer.
                        Keeps-bind (or_audit-Keeps target.id z.id answer)
                          (λ state. finish_restore-Keeps z target state held))))))))))
