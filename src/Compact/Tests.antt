-- ===== src/Compact/Tests.antt =====
-- The compaction of a day of one capture, with a Parquet library that keeps its rows in memory.
use gtfs_rt_archiver.Reconcile.{is_complete}
use gtfs_rt_archiver.Compact.Accounts.{
  account, is_valid, with_feed_timestamp, with_snapshot, with_times, with_validity,
}
use gtfs_rt_archiver.Compact.Run.{with_written, without_captures}
use gtfs_rt_archiver.State.Compactions.{
  has_compaction, insert_compaction, insert_input, insert_inputs, insert_upload, insert_uploads,
  save_compaction, with_compaction,
}
use gtfs_rt_archiver.Compact.Accounts.{destination_map, put}
use gtfs_rt_archiver.State.Compactions.{latest_compaction, latest_of, next_revision}
use gtfs_rt_archiver.Compact.Inputs.{
  close_full_group, counted, exclude, include, message_of, parquet_writer_options,
  read_verified_capture, stops_of, trip_update_provenance_from_capture, unmarshalled,
  verify_payload, write_all_trip_updates, write_message, write_stops, write_trip_update_parquet,
  write_trip_updates, write_trip_updates_with_codec,
}
use gtfs_rt_archiver.Compact.Run.{
  attribution_of, commit, day_captures, day_manifest, day_texts, finish, if_valid, new_manifest,
  prepare, prepare_day, record_revision, revision_for, revision_of, select_day, some_included,
  url_or_error, with_artifact, write_artifact, write_kind, write_revision, written_flattened,
}
use gtfs_rt_archiver.Compact.Accounts.{agreed_url, manifest_sanitized_url, schema_version_for_kind}
use gtfs_rt_archiver.Projection.{
  base_row, count_projected_trip_update_rows, count_rows_of, count_stop_time_updates,
  count_stops_of, project_trip_update_stops, rows_for, rows_in, rows_of, stop_row, stop_rows,
  stops_in, update_rows,
}
use gtfs_rt_archiver.Compact.Validate.{
  expect, expected_rows, scan_stops, take_row, total_rows, validate_trip_update_parquet,
  with_rows_left,
}
use gtfs_rt_archiver.Config.{
  effective_location, find_source_stream, is_selected, matches, matches_in, the_match,
}
use gtfs_rt_archiver.Base.Sort.{insert, sort}
use gtfs_rt_archiver.State.Captures.{capture_of_day, captures_for_day}
use gtfs_rt_archiver.Base.{
  ℕ, ◌+◌, ◌*◌, List, [], ◌∷◌, ◌++◌, map, Bool, true, false, Option, none, some, String, str_eq, ok,
  ◌≡◌, refl, arith, if◌then◌else◌, all, codes, where_rows, any, All,
}
use gtfs_rt_archiver.Clock.{second}
use gtfs_rt_archiver.Config.{Config, Source, Stream}
use gtfs_rt_archiver.Model.{Capture, Manifest}
use gtfs_rt_archiver.Projection.{TripUpdateStopRow}
use gtfs_rt_archiver.Projection.Tests.{toy, message}
use gtfs_rt_archiver.State.History.{Reach}
use gtfs_rt_archiver.State.Tables.{Store, schema_v1}
use gtfs_rt_archiver.State.Tests.{capture, captured, captured-Reach, noon}
use gtfs_rt_archiver.Upload.Publish.{is_hex}
use gtfs_rt_archiver.Compact.Library.{
  Library, Parquet, IsFaithful, IsSound, Row, stored_row, stored_stop_row, RawRead, payload,
  not_exist, Directory,
}
use gtfs_rt_archiver.Compact.Run.{Request, Environment, Revision, compact}
use gtfs_rt_archiver.Compact.Ready.{HasIds}
use gtfs_rt_archiver.Compact.Sound.{compact-IsRevision, IsVerified, compact-IsVerified}
use gtfs_rt_archiver.Compact.Revision.{IsRevision}
use gtfs_rt_archiver.Compact.Gate.{compact-Reach}
use gtfs_rt_archiver.Compact.Accounts.{account_all, manifest_destinations, required_destination_ids}
use gtfs_rt_archiver.Compact.Inputs.{Progress, write_parquet, write_with_codec, exclusion_reason}
use gtfs_rt_archiver.Compact.Verify.{required_in}
use gtfs_rt_archiver.Compact.Partition.{readable_in, exclusions_in}
use gtfs_rt_archiver.Compact.Rows.{IsNested, write_parquet-IsNested}
use gtfs_rt_archiver.Compact.Stops.{IsFlattened, write_trip_update_parquet-IsFlattened}
use gtfs_rt_archiver.Compact.Totals.{Counts, account_all-Counts}
use gtfs_rt_archiver.Compact.Snapshot.{required_in-manifest}
use gtfs_rt_archiver.Compact.Complete.{Outcome, with_artifact-Outcome}
use gtfs_rt_archiver.Compact.Integrity.{Agrees, IsIntact, verify_directory-IsIntact}

abbrev in_memory : (R : Type 0) → (R → R) → Parquet R
in_memory R stored = record {
  Writer = List R;
  File = List R;
  open_file = λ codec rows metadata. [];
  write = λ w rows. w ++ map stored rows;
  flush = λ w. w;
  close = λ w. w;
  read = λ f. f;
  bytes = λ f. b'P' ∷ b'A' ∷ b'R' ∷ b'1' ∷ [];
}

in_memory-IsFaithful : (R : Type 0) (stored : R → R) → IsFaithful R stored (in_memory R stored)
in_memory-IsFaithful R stored = record {
  written = λ w. w;
  open-written = λ codec rows metadata. refl;
  write-written = λ w rows. refl;
  flush-written = λ w. refl;
  read-close = λ w. refl;
}

-- Every body that is not empty has the hash of the capture.
abbrev pub library : Library
library = record {
  bindings = toy;
  unmarshal = λ body. ok message;
  empty_message = [];
  Projected = Unit {0};
  project = λ m. tt;
  headers_json = λ headers. "{}";
  sha256 = λ body. elim body [ [] ↦ "00" | c ∷ cs ↦ "ab" ];
  stored_projected = λ p. p;
  nested = in_memory (Row (Unit {0})) (stored_row (λ p. p));
  flattened = in_memory TripUpdateStopRow stored_stop_row;
}

hexadecimal : (body : List ℕ) → all is_hex (codes (library.sha256 body)) ≡ true
unfolding all is_hex
hexadecimal [] = refl
hexadecimal (c ∷ cs) = refl

pub library-IsSound : IsSound library
library-IsSound = record {
  hexadecimal = hexadecimal;
  nested = in_memory-IsFaithful (Row (Unit {0})) (stored_row (λ p. p));
  flattened = in_memory-IsFaithful TripUpdateStopRow stored_stop_row;
}

abbrev trips : Stream
trips = record {
  id = "trips";
  expected_kind = "trip_update";
  url = "https://example.org/trips";
  timezone = "";
}

abbrev agency : Source
agency = record {
  id = "agency";
  location = "UTC";
  registry_id = "";
  license_url = "";
  attribution_text_file = "";
  streams = trips ∷ [];
}

abbrev pub cfg : Config
cfg = record {
  allow_local_only_cleanup = false;
  parquet = record { compression = "zstd"; target_row_group_bytes = 1000 };
  sources = agency ∷ [];
  destinations = record { id = "s3"; remote = "s3:b"; required = none } ∷ [];
}

abbrev raw : String → RawRead
raw path = if str_eq path "raw/c1.pb.gz" then payload (1 ∷ []) else not_exist

abbrev pub env : Environment
env = record {
  load_location = λ name. some name;
  parse_date = λ location date. some (noon, noon + 86400 * second);
  sanitize_url = λ url. ok url;
  read_text = λ file. none;
  application_version = "dev";
  protobuf_revision = "p";
  fingerprint = "f";
  now = noon + 90000 * second;
  saved_at = noon + 90001 * second;
  raw = raw;
  is_taken = λ path. false;
}

abbrev pub request : Request
request = record { source_id = "agency"; stream_id = "trips"; date = "2023-11-14"; revision = 0 }

abbrev pub store : Store
store = record schema_v1 { captures = capture ∷ [] }

abbrev holds : {R : Type 0} → (R → Bool) → Option R → Bool
holds p none = false
holds p (some r) = p r

value_at :
    {R : Type 0} (p : R → Bool) (o : Option R)
    → holds p o ≡ true
    → (r : R) × (o ≡ some r) × (p r ≡ true)
value_at p none h = absurd (ground arith)
value_at p (some r) h = (r, refl, h)

-- Two rows for the two stops of the message, and one for the trip update that has none.
is_committed :
    holds (λ r. is_complete r.manifest) (compact library cfg env store request).committed ≡ true
unfolding compact commit prepare select_day find_source_stream the_match matches matches_in
    is_selected effective_location revision_for prepare_day day_texts url_or_error
    manifest_sanitized_url agreed_url attribution_of day_captures captures_for_day insert sort
    where_rows capture_of_day next_revision latest_compaction latest_of write_revision finish
    with_artifact write_artifact write_kind written_flattened if_valid write_trip_update_parquet
    write_trip_updates_with_codec parquet_writer_options write_all_trip_updates write_trip_updates
    write_message write_stops close_full_group include exclude read_verified_capture verify_payload
    message_of unmarshalled stops_of project_trip_update_stops rows_of update_rows stop_rows
    stop_row base_row count_stop_time_updates count_stops_of stops_in counted
    trip_update_provenance_from_capture validate_trip_update_parquet expected_rows expect
    count_projected_trip_update_rows count_rows_of rows_in rows_for scan_stops take_row
    with_rows_left total_rows some_included record_revision revision_of day_manifest new_manifest
    schema_version_for_kind save_compaction insert_compaction has_compaction any schema_v1
    insert_inputs insert_input with_compaction insert_uploads destination_map put insert_upload
    is_complete account_all account with_snapshot with_validity with_times with_feed_timestamp
    is_valid with_written without_captures
is_committed = refl

pub store-HasIds : HasIds (λ c. c.id) store.captures
store-HasIds = ((refl, tt), (tt, tt))

found :
    (r : Revision) × ((compact library cfg env store request).committed ≡ some r)
    × (is_complete r.manifest ≡ true)
found =
    value_at (λ r. is_complete r.manifest) (compact library cfg env store request).committed
      is_committed

-- The revision that the run commits.
pub made : Revision
made = found.0

pub made-committed : (compact library cfg env store request).committed ≡ some made
unfolding made
made-committed = found.1

pub made_complete : is_complete made.manifest ≡ true
unfolding made
made_complete = found.2

pub made-IsRevision : IsRevision library cfg made
made-IsRevision =
    compact-IsRevision library library-IsSound cfg ((refl, tt), (tt, tt)) env store request made
      store-HasIds made-committed

compact-IsVerified_example : IsVerified library made
compact-IsVerified_example =
    compact-IsVerified library library-IsSound cfg ((refl, tt), (tt, tt)) env store request made
      store-HasIds made-committed

compact-Reach_example : Reach (compact library cfg env captured request).store
compact-Reach_example = compact-Reach library cfg env captured request captured-Reach

abbrev pub disk : String → Option Directory
disk path = some made.directory

verify_directory-IsIntact_example :
    (d : Directory) × (m : Manifest) × (disk made.compaction.manifest_path ≡ some d)
    × (d.manifest ≡ some m)
    × Agrees m made.compaction
    × All (IsIntact library.sha256 d made.compaction) m.files
verify_directory-IsIntact_example = verify_directory-IsIntact library.sha256 disk made.compaction (
    compact-IsVerified library library-IsSound cfg ((refl, tt), (tt, tt)) env store request made
      store-HasIds made-committed disk refl)

-- A second capture, whose payload is gone.
abbrev lost : Capture
lost = record capture { id = "c2"; raw_path = "raw/c2.pb.gz" }

abbrev both : List Capture
both = lost ∷ capture ∷ []

abbrev manifest : Manifest
manifest = made.manifest

nested_written : holds (λ _. true) (write_parquet library cfg raw both manifest) ≡ true
unfolding write_parquet write_with_codec parquet_writer_options
nested_written = refl

nested_found :
    (w : library.nested.File × Progress library.nested.Writer) × (write_parquet library cfg raw both
        manifest
      ≡ some w)
    × (true ≡ true)
nested_found = value_at (λ _. true) (write_parquet library cfg raw both manifest) nested_written

flattened_written :
    holds (λ _. true) (write_trip_update_parquet library cfg raw both manifest) ≡ true
unfolding write_trip_update_parquet write_trip_updates_with_codec parquet_writer_options
flattened_written = refl

flattened_found :
    (w : library.flattened.File × Progress library.flattened.Writer) × (write_trip_update_parquet
        library cfg raw both manifest
      ≡ some w)
    × (true ≡ true)
flattened_found =
    value_at (λ _. true) (write_trip_update_parquet library cfg raw both manifest) flattened_written

-- One capture is included, one excluded.
partition :
    (map (λ c. c.id) (readable_in library raw both) ≡ "c1" ∷ [])
    × (exclusions_in library raw both ≡ record { id = "c2"; reason = "raw_missing" } ∷ [])
unfolding where_rows read_verified_capture verify_payload exclusion_reason
partition = (refl, refl)

write_parquet-IsNested_example : IsNested library raw library-IsSound.nested both nested_found.0
write_parquet-IsNested_example =
    write_parquet-IsNested library raw library-IsSound.nested cfg both manifest nested_found.0
      nested_found.1

write_trip_update_parquet-IsFlattened_example :
    IsFlattened library raw library-IsSound.flattened both flattened_found.0
write_trip_update_parquet-IsFlattened_example =
    write_trip_update_parquet-IsFlattened library raw library-IsSound.flattened cfg both manifest
      flattened_found.0 flattened_found.1

account_all-Counts_example : Counts manifest both (account_all both manifest)
account_all-Counts_example = account_all-Counts both manifest

required_in-manifest_example :
    required_in (manifest_destinations cfg.destinations) ≡ required_destination_ids cfg.destinations
required_in-manifest_example = required_in-manifest cfg.destinations

known_codec : parquet_writer_options cfg ≡ some "zstd"
unfolding parquet_writer_options
known_codec = refl

with_artifact-Outcome_example :
    Outcome library library-IsSound cfg raw "zstd" known_codec both manifest
      (with_artifact library cfg raw both manifest)
with_artifact-Outcome_example =
    with_artifact-Outcome library library-IsSound cfg raw "zstd" known_codec both manifest
