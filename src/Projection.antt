-- ===== src/Projection.antt =====
-- internal/projection/trip_update_flatten.go: a decoded trip-update message as rows, one for each
-- stop_time_update.
--
-- The message types are generated code of the GTFS-Realtime bindings: `Bindings` takes them as
-- parameters, with the accessors that the source calls. A pointer that may be nil is an Option.
pub mod Counts
pub mod Tests
use gtfs_rt_archiver.Base.Int.{ℤ, pos}
use gtfs_rt_archiver.Base.{
  ℕ, suc, ◌+◌, List, [], ◌∷◌, ◌++◌, map, Bool, false, Option, none, some, String, length,
}
use gtfs_rt_archiver.Clock.{Time}

pub record Bindings : Type 1 where
  pub FeedMessage : Type 0
  pub FeedHeader : Type 0
  pub FeedEntity : Type 0
  pub TripUpdate : Type 0
  pub TripDescriptor : Type 0
  pub VehicleDescriptor : Type 0
  pub TripProperties : Type 0
  pub StopTimeUpdate : Type 0
  pub StopTimeEvent : Type 0
  pub StopTimeProperties : Type 0
  pub header : FeedMessage → Option FeedHeader
  pub entities : FeedMessage → List FeedEntity
  pub gtfs_realtime_version : FeedHeader → String
  pub header_timestamp : FeedHeader → Option ℕ
  pub header_incrementality : FeedHeader → Option ℤ
  pub entity_id : FeedEntity → String
  pub is_deleted : FeedEntity → Bool
  pub trip_update : FeedEntity → Option TripUpdate
  pub trip : TripUpdate → Option TripDescriptor
  pub vehicle : TripUpdate → Option VehicleDescriptor
  pub timestamp : TripUpdate → Option ℕ
  pub delay : TripUpdate → Option ℤ
  pub trip_properties : TripUpdate → Option TripProperties
  pub stop_time_update : TripUpdate → List StopTimeUpdate
  pub trip_id : TripDescriptor → String
  pub route_id : TripDescriptor → String
  pub direction_id : TripDescriptor → Option ℕ
  pub start_time : TripDescriptor → String
  pub start_date : TripDescriptor → String
  pub schedule_relationship : TripDescriptor → ℤ
  pub vehicle_id : VehicleDescriptor → String
  pub vehicle_label : VehicleDescriptor → String
  pub license_plate : VehicleDescriptor → Option String
  pub properties_trip_id : TripProperties → Option String
  pub properties_start_date : TripProperties → Option String
  pub properties_start_time : TripProperties → Option String
  pub stop_sequence : StopTimeUpdate → Option ℕ
  pub stop_id : StopTimeUpdate → Option String
  pub stop_schedule_relationship : StopTimeUpdate → Option ℤ
  pub arrival : StopTimeUpdate → Option StopTimeEvent
  pub departure : StopTimeUpdate → Option StopTimeEvent
  pub stop_time_properties : StopTimeUpdate → Option StopTimeProperties
  pub event_delay : StopTimeEvent → Option ℤ
  pub event_time : StopTimeEvent → Option ℤ
  pub event_uncertainty : StopTimeEvent → Option ℤ
  pub assigned_stop_id : StopTimeProperties → Option String

pub record TripUpdateProvenance : Type 0 where
  pub source_file : String
  pub feed_url : String
  pub fetch_timestamp : Time
  pub scheduled_at : Time
  pub source_id : String
  pub stream_id : String
  pub capture_id : String
  pub archive_date : String
  pub archive_timezone : String
  pub parse_status : String
  pub validation_flags : List String

pub record TripUpdateStopRow : Type 0 where
  pub source_file : String
  pub feed_url : String
  pub feed_timestamp : Option ℕ
  pub fetch_timestamp : Time
  pub entity_id : String
  pub trip_id : String
  pub route_id : String
  pub direction_id : Option ℕ
  pub start_time : String
  pub start_date : String
  pub schedule_relationship : ℤ
  pub vehicle_id : String
  pub vehicle_label : String
  pub trip_timestamp : Option ℕ
  pub trip_delay : Option ℤ
  pub stop_sequence : Option ℕ
  pub stop_id : Option String
  pub arrival_delay : Option ℤ
  pub arrival_time : Option ℤ
  pub arrival_uncertainty : Option ℤ
  pub departure_delay : Option ℤ
  pub departure_time : Option ℤ
  pub departure_uncertainty : Option ℤ
  pub stop_schedule_relationship : Option ℤ
  pub license_plate : Option String
  pub arrival_scheduled_time : Option ℤ
  pub departure_scheduled_time : Option ℤ
  pub departure_occupancy_status : Option ℤ
  pub assigned_stop_id : Option String
  pub stop_headsign : Option String
  pub pickup_type : Option ℤ
  pub drop_off_type : Option ℤ
  pub trip_properties_trip_id : Option String
  pub trip_properties_start_date : Option String
  pub trip_properties_start_time : Option String
  pub trip_properties_shape_id : Option String
  pub trip_properties_trip_headsign : Option String
  pub trip_properties_trip_short_name : Option String
  pub modified_trip_modifications_id : Option String
  pub modified_trip_affected_trip_id : Option String
  pub modified_trip_start_date : Option String
  pub modified_trip_start_time : Option String
  pub wheelchair_accessible : Option ℤ
  pub feed_version : String
  pub incrementality : Option ℤ
  pub is_deleted : Bool
  pub source_id : String
  pub stream_id : String
  pub capture_id : String
  pub archive_date : String
  pub archive_timezone : String
  pub scheduled_at : Time
  pub parse_status : String
  pub validation_flags : List String

-- A getter on a pointer that may be nil: the default of the type there.
abbrev pub get_or_default {ℓ} : {A : Type ℓ} {B : Type 0} → Option A → (A → B) → B → B
get_or_default none f d = d
get_or_default (some a) f d = f a

module _ (b : Bindings) where
  open b use {FeedMessage, FeedEntity, TripUpdate, StopTimeUpdate}

  -- The row of an entity before its stop_time_updates: columns not set are nil, "" or 0.
  unfoldable pub base_row :
      FeedMessage → TripUpdateProvenance → FeedEntity → TripUpdate → TripUpdateStopRow
  base_row message prov entity tu = record {
    source_file = prov.source_file;
    feed_url = prov.feed_url;
    feed_timestamp = get_or_default (b.header message) (λ h. b.header_timestamp h) none;
    fetch_timestamp = prov.fetch_timestamp;
    entity_id = b.entity_id entity;
    trip_id = get_or_default (b.trip tu) (λ td. b.trip_id td) "";
    route_id = get_or_default (b.trip tu) (λ td. b.route_id td) "";
    direction_id = get_or_default (b.trip tu) (λ td. b.direction_id td) none;
    start_time = get_or_default (b.trip tu) (λ td. b.start_time td) "";
    start_date = get_or_default (b.trip tu) (λ td. b.start_date td) "";
    schedule_relationship = get_or_default (b.trip tu) (λ td. b.schedule_relationship td) (pos 0);
    vehicle_id = get_or_default (b.vehicle tu) (λ vd. b.vehicle_id vd) "";
    vehicle_label = get_or_default (b.vehicle tu) (λ vd. b.vehicle_label vd) "";
    trip_timestamp = b.timestamp tu;
    trip_delay = b.delay tu;
    stop_sequence = none;
    stop_id = none;
    arrival_delay = none;
    arrival_time = none;
    arrival_uncertainty = none;
    departure_delay = none;
    departure_time = none;
    departure_uncertainty = none;
    stop_schedule_relationship = none;
    license_plate = get_or_default (b.vehicle tu) (λ vd. b.license_plate vd) none;
    arrival_scheduled_time = none;
    departure_scheduled_time = none;
    departure_occupancy_status = none;
    assigned_stop_id = none;
    stop_headsign = none;
    pickup_type = none;
    drop_off_type = none;
    trip_properties_trip_id =
        get_or_default (b.trip_properties tu) (λ tp. b.properties_trip_id tp) none;
    trip_properties_start_date =
        get_or_default (b.trip_properties tu) (λ tp. b.properties_start_date tp) none;
    trip_properties_start_time =
        get_or_default (b.trip_properties tu) (λ tp. b.properties_start_time tp) none;
    trip_properties_shape_id = none;
    trip_properties_trip_headsign = none;
    trip_properties_trip_short_name = none;
    modified_trip_modifications_id = none;
    modified_trip_affected_trip_id = none;
    modified_trip_start_date = none;
    modified_trip_start_time = none;
    wheelchair_accessible = none;
    feed_version = get_or_default (b.header message) (λ h. b.gtfs_realtime_version h) "";
    incrementality = get_or_default (b.header message) (λ h. b.header_incrementality h) none;
    is_deleted = b.is_deleted entity;
    source_id = prov.source_id;
    stream_id = prov.stream_id;
    capture_id = prov.capture_id;
    archive_date = prov.archive_date;
    archive_timezone = prov.archive_timezone;
    scheduled_at = prov.scheduled_at;
    parse_status = prov.parse_status;
    validation_flags = prov.validation_flags;
  }

  -- `row := base`, with the stop's own columns.
  unfoldable pub stop_row : TripUpdateStopRow → StopTimeUpdate → TripUpdateStopRow
  stop_row base stu = record base {
    stop_sequence = b.stop_sequence stu;
    stop_id = b.stop_id stu;
    stop_schedule_relationship = b.stop_schedule_relationship stu;
    arrival_delay = get_or_default (b.arrival stu) (λ e. b.event_delay e) none;
    arrival_time = get_or_default (b.arrival stu) (λ e. b.event_time e) none;
    arrival_uncertainty = get_or_default (b.arrival stu) (λ e. b.event_uncertainty e) none;
    departure_delay = get_or_default (b.departure stu) (λ e. b.event_delay e) none;
    departure_time = get_or_default (b.departure stu) (λ e. b.event_time e) none;
    departure_uncertainty = get_or_default (b.departure stu) (λ e. b.event_uncertainty e) none;
    assigned_stop_id = get_or_default (b.stop_time_properties stu) (λ p. b.assigned_stop_id p) none;
  }

  -- The loop's `out` for one trip update: a base row where there is no stop_time_update.
  unfoldable pub stop_rows : TripUpdateStopRow → List StopTimeUpdate → List TripUpdateStopRow
  stop_rows base [] = base ∷ []
  stop_rows base (stu ∷ stus) = map (stop_row base) (stu ∷ stus)

  -- `if tu == nil { continue }`.
  unfoldable pub update_rows :
      FeedMessage → TripUpdateProvenance → FeedEntity → Option TripUpdate → List TripUpdateStopRow
  update_rows message prov entity none = []
  update_rows message prov entity (some tu) =
      stop_rows (base_row message prov entity tu) (b.stop_time_update tu)

  unfoldable pub rows_of :
      FeedMessage → TripUpdateProvenance → List FeedEntity → List TripUpdateStopRow
  rows_of message prov [] = []
  rows_of message prov (e ∷ es) =
      update_rows message prov e (b.trip_update e) ++ rows_of message prov es

  unfoldable pub project_trip_update_stops :
      FeedMessage → TripUpdateProvenance → List TripUpdateStopRow
  project_trip_update_stops message prov = rows_of message prov (b.entities message)

  -- `n > 0` adds n, else the base row adds 1.
  unfoldable pub rows_for : List StopTimeUpdate → ℕ
  rows_for [] = 1
  rows_for (u ∷ us) = length (u ∷ us)

  unfoldable pub rows_in : Option TripUpdate → ℕ
  rows_in none = 0
  rows_in (some tu) = rows_for (b.stop_time_update tu)

  unfoldable pub count_rows_of : List FeedEntity → ℕ
  count_rows_of [] = 0
  count_rows_of (e ∷ es) = rows_in (b.trip_update e) + count_rows_of es

  -- A nil message has no rows.
  unfoldable pub count_projected_trip_update_rows : Option FeedMessage → ℕ
  count_projected_trip_update_rows none = 0
  count_projected_trip_update_rows (some m) = count_rows_of (b.entities m)

  unfoldable pub stops_in : Option TripUpdate → ℕ
  stops_in none = 0
  stops_in (some tu) = length (b.stop_time_update tu)

  unfoldable pub count_stops_of : List FeedEntity → ℕ
  count_stops_of [] = 0
  count_stops_of (e ∷ es) = stops_in (b.trip_update e) + count_stops_of es

  unfoldable pub count_stop_time_updates : Option FeedMessage → ℕ
  count_stop_time_updates none = 0
  count_stop_time_updates (some m) = count_stops_of (b.entities m)
