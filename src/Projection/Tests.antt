-- ===== src/Projection/Tests.antt =====
-- The projection on a message of three entities: an alert, a trip update with two stops, and one
-- with none. The bindings are those of a toy message type.
use gtfs_rt_archiver.Base.Int.{pos}
use gtfs_rt_archiver.Base.{
  ℕ, ◌+◌, ◌≡◌, refl, List, [], ◌∷◌, Option, none, some, String, false, length, All,
}
use gtfs_rt_archiver.Projection.{
  Bindings, TripUpdateProvenance, project_trip_update_stops, count_projected_trip_update_rows,
  count_stop_time_updates, rows_for, rows_in, count_rows_of,
}
use gtfs_rt_archiver.Projection.Counts.{
  project-length, project-stops, project-ComesFrom, count_bare, ComesFrom,
}

abbrev pub toy : Bindings
toy = record {
  FeedMessage = List (Option (List ℕ));
  FeedHeader = Unit;
  FeedEntity = Option (List ℕ);
  TripUpdate = List ℕ;
  TripDescriptor = String;
  VehicleDescriptor = Unit;
  TripProperties = Unit;
  StopTimeUpdate = ℕ;
  StopTimeEvent = Unit;
  StopTimeProperties = Unit;
  header = λ m. none;
  entities = λ m. m;
  gtfs_realtime_version = λ h. "2.0";
  header_timestamp = λ h. none;
  header_incrementality = λ h. none;
  entity_id = λ e. "e";
  is_deleted = λ e. false;
  trip_update = λ e. e;
  trip = λ u. some "trip";
  vehicle = λ u. none;
  timestamp = λ u. none;
  delay = λ u. none;
  trip_properties = λ u. none;
  stop_time_update = λ u. u;
  trip_id = λ t. t;
  route_id = λ t. "";
  direction_id = λ t. none;
  start_time = λ t. "";
  start_date = λ t. "";
  schedule_relationship = λ t. pos 0;
  vehicle_id = λ v. "";
  vehicle_label = λ v. "";
  license_plate = λ v. none;
  properties_trip_id = λ p. none;
  properties_start_date = λ p. none;
  properties_start_time = λ p. none;
  stop_sequence = λ s. some s;
  stop_id = λ s. none;
  stop_schedule_relationship = λ s. none;
  arrival = λ s. none;
  departure = λ s. none;
  stop_time_properties = λ s. none;
  event_delay = λ e. none;
  event_time = λ e. none;
  event_uncertainty = λ e. none;
  assigned_stop_id = λ p. none;
}

abbrev pub message : toy.FeedMessage
message = none ∷ some (1 ∷ 2 ∷ []) ∷ some [] ∷ []

abbrev provenance : TripUpdateProvenance
provenance = record {
  source_file = "c1.pb.gz";
  feed_url = "https://example.org/trips";
  fetch_timestamp = 5;
  scheduled_at = 4;
  source_id = "agency";
  stream_id = "trips";
  capture_id = "c1";
  archive_date = "2023-11-14";
  archive_timezone = "UTC";
  parse_status = "valid";
  validation_flags = [];
}

count_message : count_projected_trip_update_rows toy (some message) ≡ 3
unfolding count_projected_trip_update_rows count_rows_of rows_in rows_for
count_message = refl

project-length_example :
    length (project_trip_update_stops toy message provenance)
    ≡ count_projected_trip_update_rows toy (some message)
project-length_example = project-length toy message provenance

project-stops_example :
    length (project_trip_update_stops toy message provenance)
    ≡ count_stop_time_updates toy (some message) + count_bare toy (toy.entities message)
project-stops_example = project-stops toy message provenance

project-ComesFrom_example :
    All (ComesFrom provenance) (project_trip_update_stops toy message provenance)
project-ComesFrom_example = project-ComesFrom toy message provenance
