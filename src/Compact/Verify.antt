-- ===== src/Compact/Verify.antt =====
-- internal/compact/compact.go, VerifyDirectory: a revision on disk against its row in the state
-- database.
--
-- The disk is known by the paths of the manifests: each leads to the directory that it stands in.
-- safeRootPath, which refuses a path that leaves the storage root, is left out: the paths are those
-- that Compact and reconciliation record.
use gtfs_rt_archiver.Base.{
  ℕ, ◌-◌, List, [], ◌∷◌, ◌++◌, map, Bool, not, ◌&&◌, ◌||◌, Option, none, some, String, str_eq,
  Result, ok, err, ◌>>=◌, ◌>>◌, guard, ◌==◌, leb, length, codes, where_rows, if◌then◌else◌,
}
use Prim.Native.String.{◌++◌ as str_append}
use gtfs_rt_archiver.Base.Sort.{sort}
use gtfs_rt_archiver.Gtfsrt.{text_le}
use gtfs_rt_archiver.Model.{
  Manifest, ManifestDestination, ExcludedCapture, Artifact, Compaction, manifest_format_version,
  parquet_format_version, is_supported_parquet_schema_version,
  parquet_schema_version_trip_updates_flattened, excluded_capture_raw_missing,
  excluded_capture_hash_mismatch, excluded_capture_read_error,
}
use gtfs_rt_archiver.State.Tables.{is_empty, mem_text}
use gtfs_rt_archiver.Upload.Publish.{base_name, same_bytes}
use gtfs_rt_archiver.Compact.Library.{Directory, Entry, regular, other}

pub data VerifyError : Type 0 where
  unreadable_manifest unsupported_format unsupported_schema identity_mismatch : VerifyError
  counts_mismatch invalid_excluded invalid_reason not_one_artifact not_empty : VerifyError
  invalid_status invalid_destination inconsistent_destinations wrong_kind : VerifyError
  missing_total not_a_basename missing_artifact not_regular integrity_mismatch : VerifyError
  metadata_mismatch state_mismatch : VerifyError

-- filepath.Join of a clean directory and the name of a file.
unfoldable pub join_path : String → String → String
join_path directory name = str_append directory (str_append "/" name)

-- The name of an artifact, by its content.
unfoldable pub artifact_name : String → String
artifact_name hash = str_append "data-" (str_append hash ".parquet")

-- A trip-update manifest in the flattened layout counts stop_time_updates; every other one the captures
-- it included.
unfoldable pub expected_artifact_rows : Manifest → Result VerifyError ℕ
expected_artifact_rows m =
    if m.schema_version == parquet_schema_version_trip_updates_flattened
    then (guard (str_eq m.expected_kind "trip_update") wrong_kind
        >> elim m.stop_time_update_total [ none ↦ err missing_total | some n ↦ ok n ])
    else ok (m.captured_responses - length m.excluded_captures)

unfoldable pub is_exclusion_reason : String → Bool
is_exclusion_reason reason =
    str_eq reason excluded_capture_raw_missing
    || str_eq reason excluded_capture_hash_mismatch
    || str_eq reason excluded_capture_read_error

-- `seen` are the excluded captures before.
unfoldable pub check_excluded :
    List String → List String → List ExcludedCapture → Result VerifyError (Unit {0})
check_excluded inputs seen [] = ok tt
check_excluded inputs seen (e ∷ es) = do
  guard
      (not (is_empty e.id || is_empty e.reason || mem_text e.id seen || not (mem_text e.id inputs)))
      invalid_excluded
  guard (is_exclusion_reason e.reason) invalid_reason
  check_excluded inputs (e.id ∷ seen) es

-- `<= 0` of a difference that may be negative is the same test where subtraction stops at 0.
unfoldable pub check_status : Manifest → Result VerifyError (Unit {0})
check_status m =
    if str_eq m.dataset_status "ready"
    then guard
        (not (leb (m.captured_responses - length m.excluded_captures) 0) && length m.files == 1)
        not_one_artifact
    else (if str_eq m.dataset_status "no_captured_responses"
        then guard
            (m.captured_responses == 0 && length m.files == 0 && length m.excluded_captures == 0)
            not_empty
        else err invalid_status)

unfoldable pub check_ids : List String → List ManifestDestination → Result VerifyError (Unit {0})
check_ids seen [] = ok tt
check_ids seen (d ∷ ds) =
    guard (not (is_empty d.id || mem_text d.id seen)) invalid_destination
    >> check_ids (d.id ∷ seen) ds

-- strings.Join with a zero byte between.
unfoldable pub joined : List String → List ℕ
joined [] = []
joined (s ∷ []) = codes s
joined (s ∷ t ∷ ts) = codes s ++ (0 ∷ joined (t ∷ ts))

unfoldable pub required_in : List ManifestDestination → List String
required_in ds = map (λ d. d.id) (where_rows (λ d. d.required) ds)

-- A manifest without a destination snapshot, from before there was one, is not checked.
unfoldable pub check_destinations :
    List ManifestDestination → List String → Result VerifyError (Unit {0})
check_destinations [] required = ok tt
check_destinations (d ∷ ds) required = do
  check_ids [] (d ∷ ds)
  guard (same_bytes (joined (sort text_le (required_in (d ∷ ds)))) (joined (sort text_le required)))
      inconsistent_destinations

unfoldable pub file_at : List (String × Entry) → String → Option Entry
file_at [] name = none
file_at ((n, e) ∷ rest) name = if str_eq n name then some e else file_at rest name

-- os.Lstat, and the content of a regular file.
unfoldable pub regular_file : Option Entry → Result VerifyError (List ℕ)
regular_file none = err missing_artifact
regular_file (some other) = err not_regular
regular_file (some (regular content)) = ok content

module _ (sha256 : List ℕ → String) where
  unfoldable pub check_artifact :
      Directory → Manifest → Compaction → ℕ → Artifact → Result VerifyError (Unit {0})
  check_artifact d m c rows a = do
    guard (same_bytes (base_name (codes a.relative_path)) (codes a.relative_path)) not_a_basename
    content ← regular_file (file_at d.files a.relative_path)
    guard (str_eq (sha256 content) a.sha256 && length content == a.bytes) integrity_mismatch
    guard
        (str_eq a.relative_path (artifact_name a.sha256)
          && a.rows == rows
          && a.entities == m.entity_total)
        metadata_mismatch
    guard
        (str_eq c.data_path (join_path c.directory a.relative_path)
          && str_eq c.data_sha256 a.sha256
          && c.data_bytes == a.bytes)
        state_mismatch

  unfoldable pub check_artifacts :
      Directory → Manifest → Compaction → ℕ → List Artifact → Result VerifyError (Unit {0})
  check_artifacts d m c rows [] = ok tt
  check_artifacts d m c rows (a ∷ rest) =
      check_artifact d m c rows a >> check_artifacts d m c rows rest

  -- What follows once the manifest is read and decoded.
  unfoldable pub verify_manifest : Directory → Manifest → Compaction → Result VerifyError (Unit {0})
  verify_manifest d m c = do
    guard
        (m.manifest_version == manifest_format_version
          && m.format_version == parquet_format_version)
        unsupported_format
    guard (is_supported_parquet_schema_version m.schema_version) unsupported_schema
    guard
        (str_eq m.source_id c.source_id
          && str_eq m.stream_id c.stream_id
          && str_eq m.archive_date c.archive_date
          && m.revision == c.revision)
        identity_mismatch
    guard
        (length m.input_captures == m.captured_responses
          && m.captured_responses == c.rows
          && m.entity_total == c.entities)
        counts_mismatch
    check_excluded (map (λ i. i.id) m.input_captures) [] m.excluded_captures
    check_status m
    check_destinations m.destinations m.required_destinations
    rows ← expected_artifact_rows m
    check_artifacts d m c rows m.files

  unfoldable pub verify_in :
      Directory → Option Manifest → Compaction → Result VerifyError (Unit {0})
  verify_in d none c = err unreadable_manifest
  verify_in d (some m) c = verify_manifest d m c

  unfoldable pub verify_at : Option Directory → Compaction → Result VerifyError (Unit {0})
  verify_at none c = err unreadable_manifest
  verify_at (some d) c = verify_in d d.manifest c

  unfoldable pub verify_directory :
      (String → Option Directory) → Compaction → Result VerifyError (Unit {0})
  verify_directory disk c = verify_at (disk c.manifest_path) c
