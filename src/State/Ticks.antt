-- ===== src/State/Ticks.antt =====
-- internal/state/store.go: ticks, one for each scheduled request.
use gtfs_rt_archiver.Base.{
  List, [], ◌∷◌, ◌++◌, Bool, ◌&&◌, Option, String, str_eq, any, update_rows, where_rows, map,
  if◌then◌else◌,
}
use gtfs_rt_archiver.Clock.{Time}
use gtfs_rt_archiver.Model.{Tick}
use gtfs_rt_archiver.State.Tables.{Store, min_text_time, text_time_le, text_time_lt}

-- ON CONFLICT(id) DO UPDATE: identity, schedule and fingerprint stay as first inserted.
unfoldable pub overwrite_tick : Tick → Tick → Tick
overwrite_tick t old = record old {
  started_at = t.started_at;
  finished_at = t.finished_at;
  result = t.result;
  skip_reason = t.skip_reason;
  error_category = t.error_category;
  error_detail = t.error_detail;
  http_status = t.http_status;
  attempts = t.attempts;
}

unfoldable pub upsert_tick : Tick → List Tick → List Tick
upsert_tick t ticks =
    if any (λ old. str_eq old.id t.id) ticks
    then update_rows (λ old. str_eq old.id t.id) (overwrite_tick t) ticks
    else ticks ++ t ∷ []

unfoldable pub record_tick : Store → Tick → Store
record_tick s tick = record s { ticks = upsert_tick tick s.ticks }

unfoldable pub tick_of_stream : String → String → Tick → Bool
tick_of_stream source_id stream_id t = str_eq t.source_id source_id && str_eq t.stream_id stream_id

unfoldable pub earliest_tick : Store → String → String → Option Time
earliest_tick s source_id stream_id =
    min_text_time
      (map (λ t. t.scheduled_at) (where_rows (tick_of_stream source_id stream_id) s.ticks))

-- scheduled_at>=start AND scheduled_at<end, between encoded times.
unfoldable pub tick_of_day : String → String → Time → Time → Tick → Bool
tick_of_day source_id stream_id start end t =
    tick_of_stream source_id stream_id t
    && text_time_le start t.scheduled_at
    && text_time_lt t.scheduled_at end
