-- ===== src/Compact/Accounts.antt =====
-- internal/compact/compact.go: what the manifest of a revision says of the captures, and of the
-- destinations.
use gtfs_rt_archiver.Base.{
  ℕ, ◌+◌, ◌-◌, ◌/◌, List, [], ◌∷◌, ◌++◌, map, Bool, true, false, ◌&&◌, Option, none, some, String,
  str_eq, Result, ok, err, ltb, if◌then◌else◌, where_rows,
}
use gtfs_rt_archiver.Base.Sort.{sort}
use gtfs_rt_archiver.Clock.{Time}
use gtfs_rt_archiver.Config.{Destination, Stream, is_required}
use gtfs_rt_archiver.Gtfsrt.{text_le}
use gtfs_rt_archiver.Model.{
  Capture, Manifest, ManifestDestination, InputCapture, parquet_schema_version_nested,
  parquet_schema_version_trip_updates_flattened,
}
use gtfs_rt_archiver.State.Days.{count_up}

unfoldable pub schema_version_for_kind : String → ℕ
schema_version_for_kind expected_kind =
    if str_eq expected_kind "trip_update"
    then parquet_schema_version_trip_updates_flattened
    else parquet_schema_version_nested

unfoldable pub required_destination_ids : List Destination → List String
required_destination_ids ds = sort text_le (map (λ d. d.id) (where_rows is_required ds))

unfoldable pub snapshot : Destination → ManifestDestination
snapshot d = record { id = d.id; required = is_required d }

unfoldable pub destination_le : ManifestDestination → ManifestDestination → Bool
destination_le a b = text_le a.id b.id

unfoldable pub manifest_destinations : List Destination → List ManifestDestination
manifest_destinations ds = sort destination_le (map snapshot ds)

-- `destinations[id] = required` on a Go map.
unfoldable pub put : String → Bool → List (String × Bool) → List (String × Bool)
put id required [] = (id, required) ∷ []
put id required (d ∷ ds) =
    let rest = put id required ds in if str_eq d.0 id then (id, required) ∷ ds else d ∷ rest

unfoldable pub destination_map : List Destination → List (String × Bool) → List (String × Bool)
destination_map [] acc = acc
destination_map (d ∷ ds) acc = destination_map ds (put d.id (is_required d) acc)

-- The captures after the first agree with it, or the first that does not is the error.
unfoldable pub agreed_url : String → List Capture → Result String String
agreed_url value [] = ok value
agreed_url value (c ∷ cs) = if str_eq c.sanitized_url value then agreed_url value cs else err c.id

-- Without captures it is the URL of the configuration, sanitized.
unfoldable pub manifest_sanitized_url :
    (String → Result String String) → List Capture → Stream → Result String String
manifest_sanitized_url sanitize [] stream = sanitize stream.url
manifest_sanitized_url sanitize (c ∷ cs) stream = agreed_url c.sanitized_url cs

-- `if earliest == nil || v < *earliest`, and the other way round.
unfoldable pub earlier : Option ℕ → ℕ → Option ℕ
earlier none v = some v
earlier (some e) v = some (if ltb v e then v else e)

unfoldable pub later : Option ℕ → ℕ → Option ℕ
later none v = some v
later (some e) v = some (if ltb e v then v else e)

unfoldable pub with_feed_timestamp : Manifest → Option ℕ → Manifest
with_feed_timestamp m none = m
with_feed_timestamp m (some v) = record m {
  earliest_feed_timestamp = earlier m.earliest_feed_timestamp v;
  latest_feed_timestamp = later m.latest_feed_timestamp v;
}

unfoldable pub is_valid : Capture → Bool
is_valid c = str_eq c.parse_status "valid" && c.transport_complete

unfoldable pub with_validity : Bool → Manifest → Capture → Manifest
with_validity true m c =
    with_feed_timestamp (record m { valid_snapshots = m.valid_snapshots + 1 }) c.feed_timestamp
with_validity false m c = record m { invalid_payloads = m.invalid_payloads + 1 }

unfoldable pub with_snapshot : Manifest → Capture → Manifest
with_snapshot m c = with_validity (is_valid c) m c

unfoldable pub count_flags : List String → List (String × ℕ) → List (String × ℕ)
count_flags [] counts = counts
count_flags (f ∷ fs) counts = count_flags fs (count_up f counts)

-- The milliseconds since the capture before, where that is more than the largest gap so far. A
-- capture completed before the one in front of it leaves a negative gap, which is never more.
unfoldable pub widest : Option Time → Time → ℕ → ℕ
widest none observed gap = gap
widest (some last) observed gap =
    let since = (observed - last) / 1_000_000 in if ltb gap since then since else gap

unfoldable pub first_seen : Option Time → Time → Option Time
first_seen none observed = some observed
first_seen (some t) observed = some t

unfoldable pub with_times : Manifest → Time → Manifest
with_times m observed = record m {
  earliest_capture = first_seen m.earliest_capture observed;
  largest_fetch_gap_ms = widest m.latest_capture observed m.largest_fetch_gap_ms;
  latest_capture = some observed;
}

unfoldable pub input_capture : Capture → InputCapture
input_capture c = record { id = c.id; sha256 = c.body_sha256; bytes = c.decoded_length }

-- The body of the loop over the captures.
unfoldable pub account : Manifest → Capture → Manifest
account m c =
    let listed = record m {
      input_captures = m.input_captures ++ input_capture c ∷ [];
      parse_status_counts = count_up c.parse_status m.parse_status_counts;
    } in
    let counted = with_snapshot listed c in
    let flagged = record counted {
      validation_flag_counts = count_flags c.validation_flags counted.validation_flag_counts;
    } in
    with_times flagged c.completed_at

unfoldable pub account_all : List Capture → Manifest → Manifest
account_all [] m = m
account_all (c ∷ cs) m = account_all cs (account m c)
