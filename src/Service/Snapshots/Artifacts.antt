-- ===== src/Service/Snapshots/Artifacts.antt =====
-- A snapshot's files: their paths, looksLikeFilesystemPath (internal/service/util.go), and from
-- internal/service/service.go exportSnapshotBundle, putSnapshotBundle, ensureSnapshotArtifacts and
-- fetchSnapshotBundle. Copying, packing and unpacking are calls of the host that may fail.
use or3_sandbox.Base.{
  ◌==◌, Bool, true, false, not, ◌&&◌, ◌||◌, Text, List, [], ◌∷◌, ◌++◌, codes, equal_fold, is_empty,
  has_prefix, trim_space, any, if◌then◌else◌,
}
use or3_sandbox.Errors.{invalid, checksum_mismatch}
use or3_sandbox.Paths.{join, is_rooted, dot, slash, split_path, trim_right_slashes}
use or3_sandbox.Config.{Config}
use or3_sandbox.Model.Records.{Sandbox, Snapshot}
use or3_sandbox.Effect.{M, Service, ask, get, call, guard, pure, when, ◌>>=◌, ◌>>◌}

-- func looksLikeFilesystemPath
unfoldable pub looks_like_filesystem_path : Text → Bool
unfolding trim_space has_prefix
looks_like_filesystem_path path =
    let trimmed = trim_space path in
    if is_empty trimmed
    then false
    else is_rooted trimmed || any (λ c. c == b'/') trimmed || has_prefix trimmed dot

abbrev pub snapshot_dir : Config → Sandbox → Text → Text
snapshot_dir c x id = join (join c.snapshot_root x.id) id

abbrev last_or : Text → List Text → Text
last_or w [] = w
last_or w (v ∷ vs) = last_or v vs

-- filepath.Base
unfoldable pub base : Text → Text
unfolding trim_right_slashes split_path
base [] = dot
base (c ∷ s) =
    let stripped = trim_right_slashes (c ∷ s) in
    if is_empty stripped then slash else last_or [] (split_path stripped)

-- func rebindSnapshotArtifactPath
unfoldable pub rebind_snapshot_artifact_path : Text → Text → Text
unfolding looks_like_filesystem_path base join
rebind_snapshot_artifact_path target_dir original =
    if not (looks_like_filesystem_path original) then original else join target_dir (base original)

-- strings.TrimPrefix(s, prefix), where the prefix is known to be there
abbrev drop : Text → Text → Text
drop [] s = s
drop (c ∷ p) [] = []
drop (c ∷ p) (d ∷ s) = drop p s

abbrev without_scheme : Text → Text
without_scheme root =
    if has_prefix root (codes "file://") then drop (codes "file://") root else root

abbrev pub bundle_name : Text → Text
bundle_name snapshot_id = snapshot_id ++ codes ".tar.gz"

-- The target that putSnapshotBundle writes to.
unfoldable pub bundle_target : Text → Text → Text → Text
unfolding has_prefix join trim_right_slashes
bundle_target root sandbox_id snapshot_id =
    if has_prefix root (codes "s3://")
    then trim_right_slashes root ++ (slash ++ (sandbox_id ++ (slash ++ bundle_name snapshot_id)))
    else join (join (without_scheme root) sandbox_id) (bundle_name snapshot_id)

-- `snapshot.BundleSHA256 != "" && snapshot.WorkspaceTar != "" && looksLikeFilesystemPath(…)`
abbrev pub has_checksum : Snapshot → Bool
has_checksum x =
    not (is_empty x.bundle_sha256)
    && not (is_empty x.workspace_tar)
    && looks_like_filesystem_path x.workspace_tar

module _ (s : Service) where
  -- `aws s3 cp`, or MkdirAll and copyFile
  unfoldable pub put_snapshot_bundle : Text → Text → Text → M Text
  put_snapshot_bundle root sandbox_id snapshot_id = do
    when (not (has_prefix root (codes "s3://"))) (call s.env.host_fails)
    call s.env.host_fails
    pure (bundle_target root sandbox_id snapshot_id)

  -- func (Service) exportSnapshotBundle: CreateTemp, writeTarGz, putSnapshotBundle
  unfoldable pub export_snapshot_bundle : Sandbox → Snapshot → M Text
  export_snapshot_bundle x snapshot = do
    call s.env.host_fails
    call s.env.host_fails
    put_snapshot_bundle s.cfg.optional_snapshot_export x.id snapshot.id

  -- The loop of ensureSnapshotArtifacts over the paths left.
  unfoldable pub have_local : List Text → M Bool
  have_local [] = pure true
  have_local (path ∷ paths) =
      if is_empty path || not (looks_like_filesystem_path path) then have_local paths else (do
        there ← get (λ n. s.env.file_exists n path)
        if there then have_local paths else pure false)

  unfoldable pub verify_checksum : Snapshot → M (Unit {0})
  verify_checksum x = when (has_checksum x) (do
    sum ← ask (λ n. s.env.file_sha256 n x.workspace_tar)
    guard (not (equal_fold sum x.bundle_sha256)) (invalid checksum_mismatch))

  unfoldable pub verified : Snapshot → M Snapshot
  verified x = do verify_checksum x; pure x

  -- MkdirAll, fetchSnapshotBundle, ExtractTarGz
  unfoldable pub fetch_artifacts : Sandbox → Snapshot → M Snapshot
  fetch_artifacts x snapshot = do
    call s.env.host_fails
    call s.env.host_fails
    call s.env.host_fails
    verified (
        let target_dir = snapshot_dir s.cfg x snapshot.id in
        record snapshot {
          image_ref = rebind_snapshot_artifact_path target_dir snapshot.image_ref;
          workspace_tar = rebind_snapshot_artifact_path target_dir snapshot.workspace_tar;
        })

  -- func (Service) ensureSnapshotArtifacts
  unfoldable pub ensure_snapshot_artifacts : Sandbox → Snapshot → M Snapshot
  ensure_snapshot_artifacts x snapshot = do
    there ← have_local (snapshot.image_ref ∷ snapshot.workspace_tar ∷ [])
    if there
        then verified snapshot
        else if is_empty snapshot.export_location
        then pure snapshot
        else fetch_artifacts x snapshot
