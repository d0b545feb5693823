-- ===== src/Compact/Inputs/Reading.antt =====
-- internal/compact/compact.go: reading a capture's payload, what a capture is excluded for, and what the two
-- writers share.
use gtfs_rt_archiver.Base.{
  ℕ, ◌+◌, List, [], ◌∷◌, ◌++◌, Option, none, some, String, str_eq, Result, ok, err, leb, codes,
  if◌then◌else◌,
}
use gtfs_rt_archiver.Base.Decimal.{decimal}
use gtfs_rt_archiver.Clock.{encode_time}
use gtfs_rt_archiver.Config.{Config}
use gtfs_rt_archiver.Model.{
  Capture, ExcludedCapture, Manifest, parquet_format_version, excluded_capture_raw_missing,
  excluded_capture_hash_mismatch, excluded_capture_read_error,
}
use gtfs_rt_archiver.Projection.{TripUpdateProvenance}
use gtfs_rt_archiver.State.Tables.{is_empty}
use gtfs_rt_archiver.Compact.Library.{
  Library, Parquet, Row, RawRead, payload, not_exist, read_error,
}

-- Why readVerifiedCapture fails: os.ErrNotExist, errCaptureHashMismatch, or another error.
pub data ReadFailure : Type 0 where
  missing mismatched unreadable : ReadFailure

unfoldable pub exclusion_reason : ReadFailure → String
exclusion_reason missing = excluded_capture_raw_missing
exclusion_reason mismatched = excluded_capture_hash_mismatch
exclusion_reason unreadable = excluded_capture_read_error

abbrev pub max_rows_per_row_group : ℕ
max_rows_per_row_group = 100_000

abbrev pub trip_update_row_group_rows : ℕ
trip_update_row_group_rows = 100_000

-- The codec, by its name in the configuration.
unfoldable pub parquet_writer_options : Config → Option String
parquet_writer_options c =
    let codec = c.parquet.compression in
    if str_eq codec "zstd"
    then some codec
    else (if str_eq codec "snappy"
        then some codec
        else (if str_eq codec "uncompressed" then some codec else none))

unfoldable pub manifest_key_value_metadata : Manifest → List (String × List ℕ)
manifest_key_value_metadata m =
    ("gtfsrt.format_version", codes (decimal parquet_format_version))
    ∷ ("gtfsrt.schema_version", codes (decimal m.schema_version))
    ∷ ("gtfsrt.application_version", codes m.application_version)
    ∷ ("gtfsrt.protobuf_revision", codes m.protobuf_revision)
    ∷ ("gtfsrt.config_fingerprint", codes m.config_fingerprint)
    ∷ ("gtfsrt.source_id", codes m.source_id)
    ∷ ("gtfsrt.stream_id", codes m.stream_id)
    ∷ ("gtfsrt.archive_date", codes m.archive_date)
    ∷ ("gtfsrt.timezone", codes m.timezone)
    ∷ ("gtfsrt.generated_at", encode_time m.created_at)
    ∷ ("gtfsrt.license_url", codes m.license_url)
    ∷ ("gtfsrt.attribution", codes m.attribution)
    ∷ []

unfoldable pub trip_update_provenance_from_capture : Capture → TripUpdateProvenance
trip_update_provenance_from_capture c = record {
  source_file = c.raw_path;
  feed_url = c.sanitized_url;
  fetch_timestamp = c.completed_at;
  scheduled_at = c.scheduled_at;
  source_id = c.source_id;
  stream_id = c.stream_id;
  capture_id = c.id;
  archive_date = c.archive_date;
  archive_timezone = c.timezone;
  parse_status = c.parse_status;
  validation_flags = c.validation_flags;
}

-- `if capture.EntityCount != nil { total += … }`.
unfoldable pub counted : Option ℕ → ℕ
counted none = 0
counted (some n) = n

-- The loop's variables: the writer, the bytes or rows of the open row group, the totals, and the two
-- lists of captures.
pub record Progress (Writer : Type 0) : Type 0 where
  pub writer : Writer
  pub group : ℕ
  pub entity_total : ℕ
  pub stop_time_update_total : ℕ
  pub included : List Capture
  pub excluded : List ExcludedCapture

abbrev pub started : {W : Type 0} → W → Progress W
started w = record {
  writer = w;
  group = 0;
  entity_total = 0;
  stop_time_update_total = 0;
  included = [];
  excluded = [];
}

unfoldable pub exclude : {W : Type 0} → Progress W → Capture → ReadFailure → Progress W
exclude p c failure = record p {
  excluded = p.excluded ++ record { id = c.id; reason = exclusion_reason failure } ∷ [];
}

-- A capture that was read: `included`, and its entities.
unfoldable pub include : {W : Type 0} → Progress W → Capture → Progress W
include p c = record p {
  entity_total = p.entity_total + counted c.entity_count;
  included = p.included ++ c ∷ [];
}

module _ (l : Library) where
  open l use {bindings, Projected}

  unfoldable pub verify_payload : Capture → RawRead → Result ReadFailure (List ℕ)
  verify_payload c (payload body) =
      if str_eq (l.sha256 body) c.body_sha256 then ok body else err mismatched
  verify_payload c not_exist = err missing
  verify_payload c read_error = err unreadable

  unfoldable pub read_verified_capture : (String → RawRead) → Capture → Result ReadFailure (List ℕ)
  read_verified_capture raw c = verify_payload c (raw c.raw_path)

  -- meta.Message of gtfsrt.Decode: nil where the body does not decode.
  unfoldable pub unmarshalled : Result String bindings.FeedMessage → Option bindings.FeedMessage
  unmarshalled (ok m) = some m
  unmarshalled (err e) = none

  unfoldable pub message_of : List ℕ → Option bindings.FeedMessage
  message_of [] = some l.empty_message
  message_of (c ∷ body) = unmarshalled (l.unmarshal (c ∷ body))

  unfoldable pub projected_of : Option bindings.FeedMessage → Option Projected
  projected_of none = none
  projected_of (some m) = some (l.project m)

  unfoldable pub row_of : Capture → List ℕ → Row Projected
  row_of c body = record {
    source_id = c.source_id;
    stream_id = c.stream_id;
    expected_kind = c.expected_kind;
    capture_id = c.id;
    archive_date = c.archive_date;
    archive_timezone = c.timezone;
    sanitized_url = c.sanitized_url;
    raw_path = c.raw_path;
    config_fingerprint = c.config_fingerprint;
    application_version = c.application_version;
    protobuf_revision = c.protobuf_revision;
    scheduled_at = c.scheduled_at;
    started_at = c.started_at;
    observed_at = c.completed_at;
    http_status = c.http_status;
    response_headers = l.headers_json c.response_headers;
    duration_ms = c.duration_ms;
    attempt_count = c.attempt_count;
    advertised_length = c.advertised_length;
    encoded_length = c.encoded_length;
    decoded_length = c.decoded_length;
    content_encoding = c.content_encoding;
    transport_complete = c.transport_complete;
    parse_status = c.parse_status;
    parse_error = if is_empty c.parse_error then none else some c.parse_error;
    body_sha256 = c.body_sha256;
    entity_count = c.entity_count;
    validation_flags = c.validation_flags;
    projected = projected_of (message_of body);
    feed_message_pb = body;
  }

  -- The group is flushed once it has the target's bytes.
  unfoldable pub close_full_group :
      {R : Type 0} (p : Parquet R) → (limit : ℕ) → Progress p.Writer → Progress p.Writer
  close_full_group p limit w =
      if leb limit w.group then record w { writer = p.flush w.writer; group = 0 } else w
