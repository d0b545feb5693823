-- ===== src/Gtfsrt.antt =====
-- internal/gtfsrt/decode.go: the parse status and the validation flags of a body.
--
-- `Message` is what the accessors of the GTFS-Realtime bindings return for a message; whether the
-- protobuf library decodes the body, and with what error, is an argument.
pub mod Flags
pub mod Tests
use gtfs_rt_archiver.Base.Int.{ℤ, pos, negsuc, ◌+ℤ◌, ltb_ℤ}
use gtfs_rt_archiver.Base.Sort.{sort}
use gtfs_rt_archiver.Base.{
  ℕ, zero, suc, ◌+◌, ◌-◌, ◌*◌, ◌/◌, ◌%◌, ◌^◌, List, [], ◌∷◌, ◌++◌, Bool, true, false, not, ◌&&◌,
  ◌||◌, Option, none, some, String, str_eq, codes, if◌then◌else◌, length, ltb, leb, ◌==◌, Result,
  ok, err,
}
use gtfs_rt_archiver.Clock.{Time, second, stamp_le}
use gtfs_rt_archiver.Scheduler.{int64}

pub record Header : Type 0 where
  pub gtfs_realtime_version : String
  pub incrementality : Option ℕ
  pub timestamp : Option ℕ

pub record Entity : Type 0 where
  pub has_trip_update : Bool
  pub has_vehicle : Bool
  pub has_alert : Bool
  pub is_deleted : Bool

-- `uninitialized` is the error of proto.CheckInitialized.
pub record Message : Type 0 where
  pub header : Option Header
  pub entities : List Entity
  pub uninitialized : Option String

pub record Metadata : Type 0 where
  pub parse_status : String
  pub parse_error : List ℕ
  pub feed_version : String
  pub incrementality : Option ℕ
  pub feed_timestamp : Option ℕ
  pub entity_count : Option ℤ
  pub flags : List String

-- The first bytes of a text.
unfoldable pub bytes_to : ℕ → List ℕ → List ℕ
bytes_to zero cs = []
bytes_to (suc n) [] = []
bytes_to (suc n) (c ∷ cs) = c ∷ bytes_to n cs

-- boundedError of the name of an error's type.
unfoldable pub bounded_error : String → List ℕ
bounded_error v = bytes_to 160 (codes v)

-- int32 of a length.
unfoldable pub int32 : ℕ → ℤ
int32 n = let r = n % 2 ^ 32 in if ltb r (2 ^ 31) then pos r else negsuc (2 ^ 32 - 1 - r)

-- time.Unix(int64(v), 0), as time.Time keeps it: seconds from the year 1, in an int64.
unfoldable pub unix_seconds : ℕ → ℤ
unix_seconds v = int64 (int64 (pos v) +ℤ pos 62_135_596_800)

unfoldable pub seconds_of : Time → ℤ
seconds_of t = pos (t / second + 62_135_596_800)

-- feedTime.After(t) and feedTime.Before(t), for a feed time of whole seconds.
unfoldable pub feed_after : ℕ → Time → Bool
feed_after v t = ltb_ℤ (seconds_of t) (unix_seconds v)

unfoldable pub feed_before : ℕ → Time → Bool
feed_before v t =
    ltb_ℤ (unix_seconds v) (seconds_of t)
    || not (ltb_ℤ (seconds_of t) (unix_seconds v)) && ltb 0 (t % second)

abbrev flag_if : Bool → String → List String
flag_if true flag = flag ∷ []
flag_if false flag = []

unfoldable pub timestamp_flags : Option ℕ → Time → List String
timestamp_flags none observed = "missing_feed_timestamp" ∷ []
timestamp_flags (some v) observed =
    flag_if (feed_after v (observed + 300 * second)) "feed_timestamp_future"
    ++ flag_if (feed_before v (observed - 86400 * second)) "feed_timestamp_stale"

-- FeedHeader_DIFFERENTIAL is 1.
unfoldable pub incrementality_flags : Option ℕ → List String
incrementality_flags none = []
incrementality_flags (some v) = flag_if (v == 1) "differential_incrementality"

abbrev one_if : Bool → ℕ
one_if true = 1
one_if false = 0

unfoldable pub payloads : Entity → ℕ
payloads e = one_if e.has_trip_update + one_if e.has_vehicle + one_if e.has_alert

unfoldable pub actual_kind : Entity → String
actual_kind e =
    if e.has_alert
    then "alert"
    else (if e.has_vehicle
        then "vehicle_position"
        else (if e.has_trip_update then "trip_update" else "unknown"))

unfoldable pub is_unexpected : String → String → Bool
is_unexpected expected actual =
    not (str_eq expected "mixed")
    && not (str_eq expected "auto")
    && not (str_eq actual "unknown")
    && not (str_eq actual expected)

unfoldable pub entity_flags : String → List Entity → List String
entity_flags expected [] = []
entity_flags expected (e ∷ es) =
    flag_if (ltb 1 (payloads e)) "multiple_entity_payloads"
    ++ (flag_if (payloads e == 0 && not e.is_deleted) "entity_without_payload"
        ++ (flag_if (is_unexpected expected (actual_kind e)) "unexpected_entity_kind"
            ++ entity_flags expected es))

-- sort.Strings, then the values that differ from the last one kept.
unfoldable pub text_le : String → String → Bool
text_le a b = stamp_le (codes a) (codes b)

unfoldable pub dedupe_after : String → List String → List String
dedupe_after last [] = []
dedupe_after last (v ∷ vs) =
    let kept = dedupe_after v vs in
    let same = dedupe_after last vs in if str_eq last v then same else v ∷ kept

unfoldable pub dedupe : List String → List String
dedupe [] = []
dedupe (v ∷ vs) = v ∷ dedupe_after v vs

unfoldable pub unique : List String → List String
unique values = dedupe (sort text_le values)

abbrev no_metadata : String → List ℕ → Metadata
no_metadata status error = record {
  parse_status = status;
  parse_error = error;
  feed_version = "";
  incrementality = none;
  feed_timestamp = none;
  entity_count = none;
  flags = [];
}

abbrev pub with_version : Option Header → Option Header
with_version none = none
with_version (some h) = if str_eq h.gtfs_realtime_version "" then none else some h

-- What CheckInitialized says, before the header is read.
abbrev initialized_status : Option String → String × List ℕ
initialized_status none = ("valid", [])
initialized_status (some e) = ("protobuf_required_field", bounded_error e)

unfoldable pub decode_header : Option Header → Message → String → Time → Metadata
decode_header none m expected observed = record {
  parse_status = "protobuf_required_field";
  parse_error = codes "feed header or gtfs_realtime_version is absent";
  feed_version = "";
  incrementality = none;
  feed_timestamp = none;
  entity_count = some (int32 (length m.entities));
  flags = unique (entity_flags expected m.entities);
}
decode_header (some h) m expected observed =
    let checked = initialized_status m.uninitialized in
    record {
      parse_status = checked.0;
      parse_error = checked.1;
      feed_version = h.gtfs_realtime_version;
      incrementality = h.incrementality;
      feed_timestamp = h.timestamp;
      entity_count = some (int32 (length m.entities));
      flags = unique (
          incrementality_flags h.incrementality
          ++ (timestamp_flags h.timestamp observed ++ entity_flags expected m.entities));
    }

unfoldable pub decode_message : Message → String → Time → Metadata
decode_message m expected observed = decode_header (with_version m.header) m expected observed

-- Decode of a body of `size` bytes, from what Unmarshal makes of it.
unfoldable pub decode : ℕ → Result String Message → String → Time → Metadata
decode zero unmarshalled expected observed =
    no_metadata "empty_body" (codes "response body is empty")
decode (suc size) (err e) expected observed = no_metadata "protobuf_decode" (bounded_error e)
decode (suc size) (ok m) expected observed = decode_message m expected observed
