-- ===== src/State/Tests.antt =====
-- A day of one stream, from its tick to its published revision, on concrete values.
use gtfs_rt_archiver.Base.Int.{pos}
use gtfs_rt_archiver.Base.{
  [], ◌∷◌, All, true, false, none, some, ◌≡◌, refl, arith, ◌*◌, ◌+◌, ◌&&◌, leb, ltb, ◌-◌, length,
  find_row, update_rows, count_rows, text_compare, any, where_rows, map, ◌≢◌, Memᴰ, err,
}
use gtfs_rt_archiver.Clock.{Time, second}
use gtfs_rt_archiver.Model.{Tick, Capture, Compaction, ready, published, uploading}
use gtfs_rt_archiver.State.Ticks
use gtfs_rt_archiver.State.Captures
use gtfs_rt_archiver.State.Compactions
use gtfs_rt_archiver.State.Uploads
use gtfs_rt_archiver.State.Uploads.{gates}
use gtfs_rt_archiver.State.Retention.{
  raw_retention_candidates, parquet_retention_candidates, summary_candidates, same_day,
}
use gtfs_rt_archiver.State.Retention.{raw_due, all_published_before, compactions_of}
use gtfs_rt_archiver.State.Tables.{is_retained, max_text_time, text_time_le}
use gtfs_rt_archiver.Clock.{stamp_le, encode_time, fraction, trim_zeros}
use gtfs_rt_archiver.Clock.Calendar.{
  date_text, day_text, year_of, period_of, years_from, year_days, clock_text, is_leap, month_days,
  month_of,
}
use gtfs_rt_archiver.Clock.Digits.{digits}
use gtfs_rt_archiver.State.Release.{
  IsRawReleased, IsReleased, raw_retention_candidates-IsRawReleased,
  parquet_retention_candidates-settled, summary_candidates-IsReleased,
}
use gtfs_rt_archiver.State.Ticks.{tick_of_day, tick_of_stream}
use gtfs_rt_archiver.State.Days.{summarize_day}
use gtfs_rt_archiver.State.Midnight.{tick_of_day_exact, tick_of_day_midnight, summarize_day_blocked}
use gtfs_rt_archiver.State.Invariant.{IsConsistent}
use gtfs_rt_archiver.State.Gate.{Reach-IsConsistent}
use gtfs_rt_archiver.State.Tables.{Store, constraint, schema_v1}
use gtfs_rt_archiver.State.History.{
  step, Reach, initial, after, save_capture, save_compaction, mark_upload_attempt,
  mark_upload_verified, IsUnsettled,
}

abbrev pub noon : Time
noon = 1_700_000_000 * second

abbrev pub tick : Tick
tick = record {
  id = "t1";
  source_id = "agency";
  stream_id = "trips";
  scheduled_at = noon;
  started_at = some noon;
  finished_at = some noon;
  result = "captured";
  skip_reason = "";
  error_category = "";
  error_detail = "";
  http_status = 200;
  attempts = 1;
  config_fingerprint = "f";
}

abbrev pub capture : Capture
capture = record {
  format_version = 1;
  id = "c1";
  tick_id = "t1";
  source_id = "agency";
  stream_id = "trips";
  expected_kind = "trip_update";
  scheduled_at = noon;
  started_at = noon;
  completed_at = noon;
  archive_date = "2023-11-14";
  timezone = "UTC";
  sanitized_url = "https://example.org/trips";
  http_status = 200;
  response_headers = [];
  duration_ms = 5;
  attempt_count = 1;
  advertised_length = pos 10;
  encoded_length = 10;
  decoded_length = 10;
  content_encoding = "";
  body_sha256 = "ab";
  raw_path = "raw/c1.pb.gz";
  sidecar_path = "raw/c1.json";
  transport_complete = true;
  parse_status = "valid";
  parse_error = "";
  feed_version = "2.0";
  incrementality = none;
  feed_timestamp = none;
  entity_count = some 3;
  validation_flags = [];
  config_fingerprint = "f";
  application_version = "dev";
  protobuf_revision = "p";
}

abbrev pub revision : Compaction
revision = record {
  id = 0;
  source_id = "agency";
  stream_id = "trips";
  archive_date = "2023-11-14";
  revision = 1;
  status = ready;
  directory = "compact/r1";
  data_path = "compact/r1/data.parquet";
  manifest_path = "compact/r1/manifest.json";
  data_sha256 = "cd";
  data_bytes = 100;
  rows = 3;
  entities = 3;
  excluded_captures = 0;
  required_destinations = "s3" ∷ [];
  created_at = noon + 86400 * second;
  published_at = none;
}

abbrev pub late : Time
late = 1_800_000_000 * second

abbrev pub captured : Store
captured = step schema_v1 (save_capture tick capture)

abbrev pub compacted : Store
compacted =
    step captured
      (save_compaction revision (capture ∷ []) (("s3", true) ∷ []) (noon + 86401 * second))

abbrev attempted : Store
attempted = step compacted (mark_upload_attempt 1 uploading "" "remote:r1" (noon + 86402 * second))

abbrev pub archived : Store
archived = step attempted (mark_upload_verified 1 "remote:r1" (noon + 86403 * second))

pub captured-Reach : Reach captured
captured-Reach = after (save_capture tick capture) initial tt

pub compacted-Reach : Reach compacted
compacted-Reach = after _ captured-Reach (λ e. absurd (ground arith))

pending_upload : IsUnsettled compacted 1
unfolding step Captures.save_capture Captures.capture_conflicts Ticks.record_tick Ticks.upsert_tick
    Ticks.overwrite_tick Compactions.save_compaction Compactions.insert_compaction
    Compactions.insert_inputs Compactions.insert_input Compactions.insert_uploads
    Compactions.insert_upload Compactions.new_upload Compactions.upload_to
    Compactions.with_compaction Compactions.with_upload Compactions.has_compaction any schema_v1
pending_upload = (λ _. refl, tt)

pub archived-Reach : Reach archived
archived-Reach = after _ (after _ compacted-Reach pending_upload) tt

-- The upload settles the only required destination, so its compaction is published, and once the
-- retention period is over the raw files, the Parquet files and the day may go.
archived_published : map (λ c. c.status) archived.compactions ≡ published ∷ []
unfolding step Captures.save_capture Captures.capture_conflicts Ticks.record_tick Ticks.upsert_tick
    Ticks.overwrite_tick Compactions.save_compaction Compactions.insert_compaction
    Compactions.insert_inputs Compactions.insert_input Compactions.insert_uploads
    Compactions.insert_upload Compactions.new_upload Compactions.upload_to
    Compactions.with_compaction Compactions.with_upload Uploads.mark_upload_attempt
    Uploads.mark_upload_verified Uploads.publish_settled Uploads.gates Uploads.publish_at
    Uploads.set_verified find_row update_rows Compactions.has_compaction any schema_v1 count_rows
archived_published = refl

archived_candidates : length (raw_retention_candidates archived late) ≡ 1
unfolding step Captures.save_capture Captures.capture_conflicts Ticks.record_tick Ticks.upsert_tick
    Ticks.overwrite_tick Compactions.save_compaction Compactions.insert_compaction
    Compactions.insert_inputs Compactions.insert_input Compactions.insert_uploads
    Compactions.insert_upload Compactions.new_upload Compactions.upload_to
    Compactions.with_compaction Compactions.with_upload Uploads.mark_upload_attempt
    Uploads.mark_upload_verified Uploads.publish_settled Uploads.gates Uploads.publish_at
    Uploads.set_verified find_row update_rows Compactions.has_compaction any schema_v1 count_rows
    raw_retention_candidates where_rows raw_due is_retained all_published_before compactions_of
    max_text_time text_time_le stamp_le text_compare encode_time date_text day_text digits year_of
    period_of years_from year_days clock_text is_leap month_days month_of fraction trim_zeros
archived_candidates = refl

raw_retention_candidates_example :
    All (IsRawReleased archived late) (raw_retention_candidates archived late)
raw_retention_candidates_example =
    raw_retention_candidates-IsRawReleased archived late archived-Reach

parquet_retention_candidates_example :
    All
      (λ r. any (gates r.id) archived.uploads ≡ false)
      (parquet_retention_candidates archived late)
parquet_retention_candidates_example =
    parquet_retention_candidates-settled archived late archived-Reach

summary_candidates_example :
    All
      (λ d.
        (where_rows (same_day d) archived.compactions ≢ [])
        × All (IsReleased archived late) (where_rows (same_day d) archived.compactions))
      (summary_candidates archived late)
summary_candidates_example = summary_candidates-IsReleased archived late archived-Reach

Reach_example : IsConsistent archived
Reach_example = Reach-IsConsistent archived-Reach

-- A tick five nanoseconds after a midnight.
abbrev early : Tick
early = record tick { scheduled_at = noon + 5 }

abbrev next_day : Store
next_day = step schema_v1 (save_capture early capture)

tick_of_day_exact_example :
    tick_of_day "agency" "trips"
      (noon + 60 * second)
      (noon + 86460 * second)
      (record tick { scheduled_at = noon + 90 * second + 5 })
    ≡ (tick_of_stream "agency" "trips" (record tick { scheduled_at = noon + 90 * second + 5 })
        && leb (noon + 60 * second) (noon + 90 * second + 5)
        && ltb (noon + 90 * second + 5) (noon + 86460 * second))
tick_of_day_exact_example =
    tick_of_day_exact "agency" "trips" (noon + 60 * second) (noon + 86460 * second)
      (record tick { scheduled_at = noon + 90 * second + 5 }) (omega arith) (omega arith)
      (omega arith) (omega arith) (omega arith)

tick_of_day_midnight_example :
    (tick_of_day "agency" "trips" (1_700_000_000 * second) (noon + 86400 * second) early ≡ false)
    × (tick_of_day "agency" "trips" (noon - 86400 * second) (1_700_000_000 * second) early
        ≡ tick_of_stream "agency" "trips" early)
tick_of_day_midnight_example =
    tick_of_day_midnight "agency" "trips" (noon - 86400 * second) (noon + 86400 * second)
      1_700_000_000 5 early refl (omega arith) (omega arith) (omega arith) (omega arith)

summarize_day_blocked_example :
    summarize_day next_day "agency" "trips" "2023-11-13"
      (noon - 86400 * second)
      (1_700_000_000 * second)
      late
    ≡ err constraint
unfolding step Captures.save_capture Captures.capture_conflicts Ticks.record_tick Ticks.upsert_tick
    Ticks.overwrite_tick schema_v1 any Captures.capture_of_day Ticks.tick_of_stream
summarize_day_blocked_example =
    summarize_day_blocked next_day "agency" "trips" "2023-11-13" (noon - 86400 * second) late
      1_700_000_000 5 capture early refl (Memᴰ.head refl) refl (Memᴰ.head refl) refl refl refl
      (omega arith) (omega arith) (omega arith) (omega arith)
