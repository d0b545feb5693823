-- ===== src/Gtfsrt/Tests.antt =====
-- Decode on a message with three entities.
use gtfs_rt_archiver.Base.{
  [], ◌∷◌, true, false, String, str_eq, any, ◌≡◌, refl, ok, some, none, ◌*◌, text_compare,
}
use gtfs_rt_archiver.Base.Sort.{insert, sort}
use gtfs_rt_archiver.Clock.{second, stamp_le}
use gtfs_rt_archiver.Gtfsrt.{
  Message, decode, decode_message, decode_header, entity_flags, timestamp_flags,
  incrementality_flags, payloads, actual_kind, is_unexpected, unique, dedupe, dedupe_after, text_le,
}
use gtfs_rt_archiver.Gtfsrt.Flags.{IsAscending, unique-IsAscending, decode-IsAscending}

abbrev message : Message
message = record {
  header = some record { gtfs_realtime_version = "2.0"; incrementality = some 0; timestamp = none };
  entities =
      record { has_trip_update = true; has_vehicle = true; has_alert = false; is_deleted = false }
      ∷ record {
        has_trip_update = false;
        has_vehicle = false;
        has_alert = false;
        is_deleted = false;
      }
      ∷ record {
        has_trip_update = false;
        has_vehicle = false;
        has_alert = false;
        is_deleted = false;
      }
      ∷ [];
  uninitialized = none;
}

decoded_flags :
    (decode 9 (ok message) "trip_update" (5 * second)).flags
    ≡ "entity_without_payload" ∷ "missing_feed_timestamp" ∷ "multiple_entity_payloads"
      ∷ "unexpected_entity_kind" ∷ []
unfolding decode decode_message decode_header entity_flags timestamp_flags incrementality_flags
    payloads actual_kind is_unexpected unique dedupe dedupe_after text_le sort insert stamp_le
    text_compare
decoded_flags = refl

unique-IsAscending_example :
    IsAscending (unique ("b" ∷ "a" ∷ "b" ∷ []))
    × ((flag : String)
        → any (λ v. str_eq v flag) (unique ("b" ∷ "a" ∷ "b" ∷ []))
          ≡ any (λ v. str_eq v flag) ("b" ∷ "a" ∷ "b" ∷ []))
unique-IsAscending_example = unique-IsAscending ("b" ∷ "a" ∷ "b" ∷ [])

decode-IsAscending_example : IsAscending (decode 9 (ok message) "trip_update" (5 * second)).flags
decode-IsAscending_example = decode-IsAscending 9 (ok message) "trip_update" (5 * second)
