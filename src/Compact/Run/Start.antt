-- ===== src/Compact/Run/Start.antt =====
-- internal/compact/compact.go, Compact: the day that a run is about, and the manifest that it begins with.
use Prim.Native.String.{◌++◌ as str_append}
use gtfs_rt_archiver.Base.{
  ℕ, zero, suc, ◌-◌, List, [], ◌∷◌, Bool, Option, none, some, String, Result, ok, err, ◌==◌, ltb,
  length, if◌then◌else◌,
}
use gtfs_rt_archiver.Base.Decimal.{decimal}
use gtfs_rt_archiver.Base.Sort.{sort}
use gtfs_rt_archiver.Clock.{Time}
use gtfs_rt_archiver.Config.{
  Config, Source, Stream, SelectionError, find_source_stream, effective_location,
}
use gtfs_rt_archiver.Gtfsrt.{text_le}
use gtfs_rt_archiver.Model.{
  Capture, Manifest, ExcludedCapture, manifest_format_version, parquet_format_version,
}
use gtfs_rt_archiver.State.Tables.{Store, StateError, is_empty}
use gtfs_rt_archiver.State.Compactions.{next_revision}
use gtfs_rt_archiver.State.Days.{DayStats, count_up}
use gtfs_rt_archiver.Compact.Library.{RawRead}
use gtfs_rt_archiver.Compact.Accounts.{
  schema_version_for_kind, required_destination_ids, manifest_destinations,
}
use gtfs_rt_archiver.Compact.Validate.{ValidateError}
use gtfs_rt_archiver.Compact.Verify.{join_path}

pub record Request : Type 0 where
  pub source_id : String
  pub stream_id : String
  pub date : String
  pub revision : ℕ

pub record Environment : Type 0 where
  pub load_location : String → Option String
  -- The day of a date in a zone: its midnight and the next one.
  pub parse_date : String → String → Option (Time × Time)
  pub sanitize_url : String → Result String String
  -- The text of a file, trimmed.
  pub read_text : String → Option String
  pub application_version : String
  pub protobuf_revision : String
  pub fingerprint : String
  pub now : Time
  pub saved_at : Time
  pub raw : String → RawRead
  pub is_taken : String → Bool

pub data CompactError : Type 0 where
  selection : SelectionError → CompactError
  no_location bad_date wrong_revision revision_exists no_attribution : CompactError
  urls_differ all_excluded : String → CompactError
  unsupported_compression : CompactError
  invalid : ValidateError → CompactError
  state : StateError → CompactError

-- `<= 0` selects the next revision.
unfoldable pub revision_for : ℕ → ℕ → Option ℕ
revision_for zero next = some next
revision_for (suc r) next = if suc r == next then some (suc r) else none

unfoldable pub revision_directory : String → String → String → ℕ → String
revision_directory source_id stream_id date revision = join_path "parquet" (
    join_path "format=v1" (
      join_path (str_append "source=" source_id) (
        join_path (str_append "stream=" stream_id)
          (join_path (str_append "date=" date) (str_append "revision=" (decimal revision))))))

unfoldable pub predecessor_of : ℕ → Option ℕ
predecessor_of revision = if ltb 1 revision then some (revision - 1) else none

unfoldable pub attribution_of : (String → Option String) → String → Result CompactError String
attribution_of read_text file =
    if is_empty file
    then ok ""
    else elim (read_text file) [ none ↦ err no_attribution | some t ↦ ok t ]

unfoldable pub reason_counts : List ExcludedCapture → List (String × ℕ)
reason_counts [] = []
reason_counts (e ∷ es) = count_up e.reason (reason_counts es)

unfoldable pub summary_parts : List (String × ℕ) → String
summary_parts [] = ""
summary_parts ((reason, n) ∷ []) = str_append reason (str_append "=" (decimal n))
summary_parts ((reason, n) ∷ c ∷ cs) =
    str_append reason
      (str_append "=" (str_append (decimal n) (str_append ", " (summary_parts (c ∷ cs)))))

unfoldable pub exclusion_summary : List ExcludedCapture → String
exclusion_summary es = summary_parts (sort (λ a b. text_le a.0 b.0) (reason_counts es))

-- The day that a run is about.
pub record Day : Type 0 where
  pub source : Source
  pub stream : Stream
  pub location : String
  pub start : Time
  pub end : Time
  pub revision : ℕ

unfoldable pub new_manifest :
    Config → Environment → Request → Day → DayStats → List Capture → String → String → Manifest
new_manifest cfg env req day stats captures url attribution = record {
  manifest_version = manifest_format_version;
  dataset_status = "ready";
  source_id = day.source.id;
  stream_id = day.stream.id;
  registry_id = day.source.registry_id;
  expected_kind = day.stream.expected_kind;
  archive_date = req.date;
  timezone = day.location;
  sanitized_url = url;
  day_start_utc = day.start;
  day_end_utc = day.end;
  format_version = parquet_format_version;
  schema_version = schema_version_for_kind day.stream.expected_kind;
  revision = day.revision;
  predecessor_revision = predecessor_of day.revision;
  application_version = env.application_version;
  protobuf_revision = env.protobuf_revision;
  config_fingerprint = env.fingerprint;
  created_at = env.now;
  scheduled_ticks = stats.scheduled;
  skipped_ticks = stats.skipped;
  captured_responses = length captures;
  valid_snapshots = 0;
  invalid_payloads = 0;
  http_failures = stats.http_failures;
  network_failures = stats.network_failures;
  failure_category_counts = stats.failure_category_counts;
  entity_total = 0;
  stop_time_update_total = none;
  earliest_capture = none;
  latest_capture = none;
  earliest_feed_timestamp = none;
  latest_feed_timestamp = none;
  largest_fetch_gap_ms = 0;
  parse_status_counts = [];
  validation_flag_counts = [];
  files = [];
  input_captures = [];
  excluded_captures = [];
  license_url = day.source.license_url;
  attribution = attribution;
  required_destinations = required_destination_ids cfg.destinations;
  destinations = manifest_destinations cfg.destinations;
}

unfoldable pub select_day : Config → Environment → Store → Request → Result CompactError Day
select_day cfg env s req = elim (find_source_stream cfg req.source_id req.stream_id) [
  | err e ↦ err (selection e)
  | ok (source, stream) ↦ elim (effective_location env.load_location stream source) [
    | none ↦ err no_location
    | some location ↦ elim (env.parse_date location req.date) [
      | none ↦ err bad_date
      | some (start, end) ↦
          elim (revision_for req.revision (next_revision s source.id stream.id req.date)) [
            | none ↦ err wrong_revision
            | some revision ↦ ok (record {
              source = source;
              stream = stream;
              location = location;
              start = start;
              end = end;
              revision = revision;
            })
          ]
    ]
  ]
]
