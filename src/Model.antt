-- ===== src/Model.antt =====
-- internal/model/model.go: the records that the components hand to one another.
--
-- Counts and sizes (int, int64) are natural numbers where the source never makes them negative;
-- advertised_length is an integer, since -1 stands for an unknown length. A map is a list of
-- pairs, a pointer an Option.
use gtfs_rt_archiver.Base.Int.{ℤ}
use gtfs_rt_archiver.Base.{ℕ, List, Option, Bool, ◌==◌, String, [], ◌∷◌, ◌++◌, any, ◌/◌, ◌%◌, suc}
use gtfs_rt_archiver.Clock.{Time, second}
use gtfs_rt_archiver.Clock.Digits.{digits}
use gtfs_rt_archiver.Clock.Calendar.{year_of, month_of}

abbrev pub sidecar_format_version : ℕ
sidecar_format_version = 1

abbrev pub manifest_format_version : ℕ
manifest_format_version = 1

abbrev pub parquet_format_version : ℕ
parquet_format_version = 1

abbrev pub parquet_schema_version_nested : ℕ
parquet_schema_version_nested = 1

abbrev pub parquet_schema_version_trip_updates_flattened : ℕ
parquet_schema_version_trip_updates_flattened = 2

abbrev pub supported_parquet_schema_versions : List ℕ
supported_parquet_schema_versions =
    parquet_schema_version_nested ∷ parquet_schema_version_trip_updates_flattened ∷ []

unfoldable pub is_supported_parquet_schema_version : ℕ → Bool
unfolding any
is_supported_parquet_schema_version v =
    any (λ version. v == version) supported_parquet_schema_versions

pub record Tick : Type 0 where
  pub id : String
  pub source_id : String
  pub stream_id : String
  pub scheduled_at : Time
  pub started_at : Option Time
  pub finished_at : Option Time
  pub result : String
  pub skip_reason : String
  pub error_category : String
  pub error_detail : String
  pub http_status : ℕ
  pub attempts : ℕ
  pub config_fingerprint : String

pub record Capture : Type 0 where
  pub format_version : ℕ
  pub id : String
  pub tick_id : String
  pub source_id : String
  pub stream_id : String
  pub expected_kind : String
  pub scheduled_at : Time
  pub started_at : Time
  pub completed_at : Time
  pub archive_date : String
  pub timezone : String
  pub sanitized_url : String
  pub http_status : ℕ
  pub response_headers : List (String × String)
  pub duration_ms : ℕ
  pub attempt_count : ℕ
  pub advertised_length : ℤ
  pub encoded_length : ℕ
  pub decoded_length : ℕ
  pub content_encoding : String
  pub body_sha256 : String
  pub raw_path : String
  pub sidecar_path : String
  pub transport_complete : Bool
  pub parse_status : String
  pub parse_error : String
  pub feed_version : String
  pub incrementality : Option ℤ
  pub feed_timestamp : Option ℕ
  pub entity_count : Option ℕ
  pub validation_flags : List String
  pub config_fingerprint : String
  pub application_version : String
  pub protobuf_revision : String

pub record Artifact : Type 0 where
  pub relative_path : String
  pub part : ℕ
  pub bytes : ℕ
  pub sha256 : String
  pub rows : ℕ
  pub entities : ℕ

pub record ManifestDestination : Type 0 where
  pub id : String
  pub required : Bool

pub record InputCapture : Type 0 where
  pub id : String
  pub sha256 : String
  pub bytes : ℕ

pub record ExcludedCapture : Type 0 where
  pub id : String
  pub reason : String

pub record Manifest : Type 0 where
  pub manifest_version : ℕ
  pub dataset_status : String
  pub source_id : String
  pub stream_id : String
  pub registry_id : String
  pub expected_kind : String
  pub archive_date : String
  pub timezone : String
  pub sanitized_url : String
  pub day_start_utc : Time
  pub day_end_utc : Time
  pub format_version : ℕ
  pub schema_version : ℕ
  pub revision : ℕ
  pub predecessor_revision : Option ℕ
  pub application_version : String
  pub protobuf_revision : String
  pub config_fingerprint : String
  pub created_at : Time
  pub scheduled_ticks : ℕ
  pub skipped_ticks : ℕ
  pub captured_responses : ℕ
  pub valid_snapshots : ℕ
  pub invalid_payloads : ℕ
  pub http_failures : ℕ
  pub network_failures : ℕ
  pub failure_category_counts : List (String × ℕ)
  pub entity_total : ℕ
  pub stop_time_update_total : Option ℕ
  pub earliest_capture : Option Time
  pub latest_capture : Option Time
  pub earliest_feed_timestamp : Option ℕ
  pub latest_feed_timestamp : Option ℕ
  pub largest_fetch_gap_ms : ℕ
  pub parse_status_counts : List (String × ℕ)
  pub validation_flag_counts : List (String × ℕ)
  pub files : List Artifact
  pub input_captures : List InputCapture
  pub excluded_captures : List ExcludedCapture
  pub license_url : String
  pub attribution : String
  pub required_destinations : List String
  pub destinations : List ManifestDestination

abbrev pub excluded_capture_raw_missing : String
excluded_capture_raw_missing = "raw_missing"

abbrev pub excluded_capture_hash_mismatch : String
excluded_capture_hash_mismatch = "hash_mismatch"

abbrev pub excluded_capture_read_error : String
excluded_capture_read_error = "read_error"

-- Compaction.Status: the two values that the program writes.
pub data CompactionStatus : Type 0 where
  ready published : CompactionStatus

pub record Compaction : Type 0 where
  pub id : ℕ
  pub source_id : String
  pub stream_id : String
  pub archive_date : String
  pub revision : ℕ
  pub status : CompactionStatus
  pub directory : String
  pub data_path : String
  pub manifest_path : String
  pub data_sha256 : String
  pub data_bytes : ℕ
  pub rows : ℕ
  pub entities : ℕ
  pub excluded_captures : ℕ
  pub required_destinations : List String
  pub created_at : Time
  pub published_at : Option Time

-- Upload.Status: the values that the program writes.
pub data UploadStatus : Type 0 where
  pending uploading retry permanent_failure verified retired expired : UploadStatus

pub record Upload : Type 0 where
  pub id : ℕ
  pub compaction_id : ℕ
  pub destination_id : String
  pub required : Bool
  pub status : UploadStatus
  pub attempt_count : ℕ
  pub next_attempt_at : Time
  pub last_error : String
  pub remote_path : String
  pub completed_at : Option Time

-- Layout 20060102.
unfoldable pub compact_day : ℕ × ℕ → List ℕ
compact_day (y, d) = let (m, k) = month_of y d in digits 4 y ++ (digits 2 m ++ digits 2 (suc k))

-- Layout 150405.
unfoldable pub compact_clock : ℕ → List ℕ
compact_clock s = digits 2 (s / 3600) ++ (digits 2 (s % 3600 / 60) ++ digits 2 (s % 60))

-- NewID, as ASCII codes: the layout 20060102T150405.000000000Z_ of the time in UTC, and 12 random bytes
-- in hexadecimal.
unfoldable pub new_id : Time → List ℕ → List ℕ
new_id now random =
    compact_day (year_of (now / second / 86400))
    ++ (b'T' ∷ compact_clock (now / second % 86400)
        ++ (b'.' ∷ digits 9 (now % second) ++ (b'Z' ∷ b'_' ∷ random)))
