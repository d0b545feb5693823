-- ===== src/State/Captures.antt =====
-- internal/state/store.go: captures and the rows that name their files.
use gtfs_rt_archiver.Base.{
  List, [], ◌∷◌, ◌++◌, Bool, ◌&&◌, ◌||◌, not, String, str_eq, any, update_rows, where_rows, map,
  codes, Result, ok, ◌>>◌, guard, text_compare, Ordering, true, false,
}
use gtfs_rt_archiver.Base.Sort.{sort}
use gtfs_rt_archiver.Clock.{encode_time, stamp_le}
use gtfs_rt_archiver.Model.{Tick, Capture}
use gtfs_rt_archiver.State.Tables.{
  Store, StateError, constraint, is_retained, retained_raw, retained_sidecar,
}
use gtfs_rt_archiver.State.Ticks.{upsert_tick}

-- The constraints of the captures table, for one row against those that are there.
unfoldable pub capture_conflicts : Capture → Capture → Bool
capture_conflicts c old =
    str_eq old.id c.id
    || str_eq old.tick_id c.tick_id
    || str_eq old.raw_path c.raw_path
    || str_eq old.sidecar_path c.sidecar_path

-- One transaction: the tick, then the capture, whose tick_id must be there.
unfoldable pub save_capture : Store → Tick → Capture → Result StateError Store
save_capture s tick capture = do
  let ticks = upsert_tick tick s.ticks
  guard (not (any (capture_conflicts capture) s.captures)) constraint
  guard (any (λ t. str_eq t.id capture.tick_id) ticks) constraint
  ok (record s { ticks = ticks; captures = s.captures ++ capture ∷ [] })

unfoldable pub has_capture : Store → String → Bool
has_capture s id = any (λ c. str_eq c.id id) s.captures

pub record RetentionCapture : Type 0 where
  pub id : String
  pub raw_path : String
  pub sidecar_path : String

abbrev pub retention_capture : Capture → RetentionCapture
retention_capture c = record { id = c.id; raw_path = c.raw_path; sidecar_path = c.sidecar_path }

id_le : Capture → Capture → Bool
id_le a b = stamp_le (codes a.id) (codes b.id)

unfoldable pub live_capture_files : Store → List RetentionCapture
unfolding id_le
live_capture_files s =
    map retention_capture (sort id_le (where_rows (λ c. not (is_retained c.raw_path)) s.captures))

unfoldable pub capture_of_day : String → String → String → Capture → Bool
capture_of_day source_id stream_id date c =
    str_eq c.source_id source_id && str_eq c.stream_id stream_id && str_eq c.archive_date date

-- ORDER BY scheduled_at, id.
unfoldable pub schedule_le : Capture → Capture → Bool
schedule_le a b = elim (text_compare (encode_time a.scheduled_at) (encode_time b.scheduled_at)) [
  | Ordering.lt ↦ true
  | Ordering.eq ↦ stamp_le (codes a.id) (codes b.id)
  | Ordering.gt ↦ false
]

unfoldable pub captures_for_day : Store → String → String → String → List Capture
captures_for_day s source_id stream_id date =
    sort schedule_le (where_rows (capture_of_day source_id stream_id date) s.captures)

-- The two paths are UNIQUE, so another row that holds one of them already refuses the update.
unfoldable pub mark_capture_retained : Store → String → Result StateError Store
mark_capture_retained s id = do
  guard (not (any clashes s.captures)) constraint
  ok (record s { captures = update_rows (λ c. str_eq c.id id) retain s.captures })
  where
    clashes : Capture → Bool
    clashes c =
        not (str_eq c.id id)
        && any (λ c'. str_eq c'.id id) s.captures
        && (str_eq c.raw_path (retained_raw id) || str_eq c.sidecar_path (retained_sidecar id))

    retain : Capture → Capture
    retain c = record c { raw_path = retained_raw id; sidecar_path = retained_sidecar id }
