-- ===== src/Reconcile.antt =====
-- internal/reconcile/reconcile.go, All: revisions on disk that the state database has no row for are
-- adopted.
--
-- The walk over the Parquet tree is the list of what it visits, in its order. A manifest is known by
-- the directory that it stands in, relative to the storage root, and by its value, if it can be read
-- and is valid JSON. The captures that rawstore.Reconcile registers before come in with the database.
pub mod Snapshot
pub mod Gate
pub mod Adoption
pub mod Destinations
pub mod Startup
pub mod Tests
use gtfs_rt_archiver.Base.{
  ℕ, suc, ◌+◌, List, [], ◌∷◌, map, Bool, true, false, not, ◌&&◌, ◌||◌, Option, none, some, String,
  str_eq, Result, ok, err, ◌==◌, ltb, length, codes,
}
use gtfs_rt_archiver.Clock.{Time}
use gtfs_rt_archiver.Config.{Config}
use gtfs_rt_archiver.Model.{
  Manifest, ManifestDestination, Artifact, Compaction, ready, parquet_format_version,
}
use gtfs_rt_archiver.State.Tables.{Store, StateError, is_empty}
use gtfs_rt_archiver.State.Compactions.{has_compaction, compaction_for_revision, adopt_compaction}
use gtfs_rt_archiver.Upload.Publish.{base_name, same_bytes}
use gtfs_rt_archiver.Compact.Library.{Directory}
use gtfs_rt_archiver.Compact.Accounts.{put}
use gtfs_rt_archiver.Compact.Verify.{VerifyError, join_path, verify_directory}
use gtfs_rt_archiver.Compact.Run.{revision_directory, publish_locally}

-- A symbolic link, a manifest, or anything else: a directory, another file, an entry that is gone.
pub data Visited : Type 0 where
  link elsewhere : Visited
  manifest_in : String → Option Manifest → Visited

-- Result, and the database. `error` ends the walk.
pub record Reconciled : Type 0 where
  pub store : Store
  pub adopted : ℕ
  pub corrupt : ℕ
  pub error : Option StateError

unfoldable pub is_complete : Manifest → Bool
is_complete m =
    m.format_version == parquet_format_version
    && not (ltb m.revision 1)
    && not (is_empty m.source_id || is_empty m.stream_id || is_empty m.archive_date)

unfoldable pub is_in_place : String → Manifest → Bool
is_in_place directory m =
    str_eq directory (revision_directory m.source_id m.stream_id m.archive_date m.revision)
    && length m.input_captures == m.captured_responses

-- The row of a manifest, before its artifact.
unfoldable pub row_of_manifest : String → Manifest → Compaction
row_of_manifest directory m = record {
  id = 0;
  source_id = m.source_id;
  stream_id = m.stream_id;
  archive_date = m.archive_date;
  revision = m.revision;
  status = ready;
  directory = directory;
  data_path = "";
  manifest_path = join_path directory "manifest.json";
  data_sha256 = "";
  data_bytes = 0;
  rows = m.captured_responses;
  entities = m.entity_total;
  excluded_captures = 0;
  required_destinations = m.required_destinations;
  created_at = m.created_at;
  published_at = none;
}

unfoldable pub with_basename : String → Artifact → Compaction → Bool → Option Compaction
with_basename directory a c false = none
with_basename directory a c true = some (record c {
  data_path = join_path directory a.relative_path;
  data_sha256 = a.sha256;
  data_bytes = a.bytes;
})

-- A second artifact, or one whose path is no basename, is corrupt.
unfoldable pub with_files : String → List Artifact → Compaction → Option Compaction
with_files directory [] c = some c
with_files directory (a ∷ []) c =
    with_basename directory a c
      (same_bytes (base_name (codes a.relative_path)) (codes a.relative_path))
with_files directory (a ∷ b ∷ files) c = none

unfoldable pub snapshot_map : List ManifestDestination → List (String × Bool) → List (String × Bool)
snapshot_map [] acc = acc
snapshot_map (d ∷ ds) acc = snapshot_map ds (put d.id d.required acc)

unfoldable pub required_map : List String → List (String × Bool) → List (String × Bool)
required_map [] acc = acc
required_map (id ∷ ids) acc = required_map ids (put id true acc)

-- Manifests from before the destination snapshot have the required destinations alone.
unfoldable pub destinations_from : List ManifestDestination → List String → List (String × Bool)
destinations_from [] required = required_map required []
destinations_from (d ∷ ds) required = snapshot_map (d ∷ ds) []

unfoldable pub destinations_of : Manifest → List (String × Bool)
destinations_of m = destinations_from m.destinations m.required_destinations

unfoldable pub is_corrupt : Reconciled → Reconciled
is_corrupt r = record r { corrupt = suc r.corrupt }

unfoldable pub adopted_or : Reconciled → Result StateError Store → Reconciled
adopted_or r (err e) = record r { error = some e }
adopted_or r (ok s) = record r { store = s; adopted = suc r.adopted }

module _ (sha256 : List ℕ → String) (disk : String → Option Directory) (cfg : Config)
    (now : Time) where
  unfoldable pub adopt_verified :
      Reconciled → Manifest → Compaction → Result VerifyError (Unit {0}) → Reconciled
  adopt_verified r m c (err e) = is_corrupt r
  adopt_verified r m c (ok _) = adopted_or r (
      adopt_compaction r.store
        (publish_locally cfg.allow_local_only_cleanup m.required_destinations m.created_at c)
        m.input_captures (map (λ e. e.id) m.excluded_captures) (destinations_of m) now)

  unfoldable pub adopt_row : Reconciled → Manifest → Option Compaction → Reconciled
  adopt_row r m none = is_corrupt r
  adopt_row r m (some c) = adopt_verified r m c (verify_directory sha256 disk c)

  -- A revision that is not in the database.
  unfoldable pub adopt_manifest : Reconciled → String → Manifest → Bool → Reconciled
  adopt_manifest r directory m false = is_corrupt r
  adopt_manifest r directory m true =
      adopt_row r m (with_files directory m.files (row_of_manifest directory m))

  unfoldable pub check_verified : Reconciled → Result VerifyError (Unit {0}) → Reconciled
  check_verified r (err e) = is_corrupt r
  check_verified r (ok _) = r

  -- A revision that is there already is verified against its row.
  unfoldable pub check_existing : Reconciled → Option Compaction → Reconciled
  check_existing r none = is_corrupt r
  check_existing r (some c) = check_verified r (verify_directory sha256 disk c)

  unfoldable pub visit_known : Reconciled → String → Manifest → Bool → Reconciled
  visit_known r directory m true =
      check_existing r
        (compaction_for_revision r.store m.source_id m.stream_id m.archive_date m.revision)
  visit_known r directory m false = adopt_manifest r directory m (is_in_place directory m)

  unfoldable pub visit_manifest : Reconciled → String → Manifest → Bool → Reconciled
  visit_manifest r directory m false = is_corrupt r
  visit_manifest r directory m true =
      visit_known r directory m
        (has_compaction r.store m.source_id m.stream_id m.archive_date m.revision)

  unfoldable pub visit : Reconciled → Visited → Reconciled
  visit r link = is_corrupt r
  visit r elsewhere = r
  visit r (manifest_in directory none) = is_corrupt r
  visit r (manifest_in directory (some m)) = visit_manifest r directory m (is_complete m)

  -- An error ends the walk: nothing is visited after it.
  abbrev pub unless_ended : Option StateError → Reconciled → Reconciled → Reconciled
  unless_ended none r next = next
  unless_ended (some e) r next = r

  unfoldable pub walk : List Visited → Reconciled → Reconciled
  walk [] r = r
  walk (v ∷ vs) r = walk vs (unless_ended r.error r (visit r v))

  unfoldable pub adopt_revisions : Store → List Visited → Reconciled
  adopt_revisions s vs = walk vs (record { store = s; adopted = 0; corrupt = 0; error = none })
