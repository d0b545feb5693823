-- ===== src/Projection/Counts.antt =====
-- The rows that the projection emits, against the two counts that compaction takes from the raw
-- message without building them.
use gtfs_rt_archiver.Base.{
  ℕ, ◌+◌, ◌≡◌, refl, List, [], ◌∷◌, map, Option, none, some, length, length-append, length-map,
  arith, All, All-append, ◌∙◌, ap₂,
}
use gtfs_rt_archiver.Projection.{
  Bindings, TripUpdateProvenance, TripUpdateStopRow, base_row, stop_row, stop_rows, update_rows,
  rows_for, rows_in, stops_in, rows_of, project_trip_update_stops, count_rows_of,
  count_projected_trip_update_rows, count_stops_of, count_stop_time_updates,
}

module _ (b : Bindings) where
  bare_for : List b.StopTimeUpdate → ℕ
  bare_for [] = 1
  bare_for (u ∷ us) = 0

  bare_in : Option b.TripUpdate → ℕ
  bare_in none = 0
  bare_in (some tu) = bare_for (b.stop_time_update tu)

  -- Trip updates without a stop_time_update, each of which keeps one row.
  pub count_bare : List b.FeedEntity → ℕ
  count_bare [] = 0
  count_bare (e ∷ es) = bare_in (b.trip_update e) + count_bare es

  rows_for-split : (us : List b.StopTimeUpdate) → rows_for b us ≡ length us + bare_for us
  unfolding rows_for bare_for
  rows_for-split [] = omega arith
  rows_for-split (u ∷ us) = omega arith

  rows_in-split : (o : Option b.TripUpdate) → rows_in b o ≡ stops_in b o + bare_in o
  unfolding rows_in stops_in bare_in
  rows_in-split none = omega arith
  rows_in-split (some tu) = rows_for-split (b.stop_time_update tu)

  count_rows-split :
      (es : List b.FeedEntity) → count_rows_of b es ≡ count_stops_of b es + count_bare es
  unfolding count_rows_of count_stops_of count_bare
  count_rows-split [] = omega arith
  count_rows-split (e ∷ es) = omega (arith, rows_in-split (b.trip_update e), count_rows-split es)

-- The columns that say which capture a row comes from.
abbrev pub ComesFrom : TripUpdateProvenance → TripUpdateStopRow → Type 0
ComesFrom prov row =
    (row.capture_id ≡ prov.capture_id)
    × (row.source_id ≡ prov.source_id)
    × (row.stream_id ≡ prov.stream_id)
    × (row.archive_timezone ≡ prov.archive_timezone)
    × (row.fetch_timestamp ≡ prov.fetch_timestamp)
    × (row.source_file ≡ prov.source_file)
    × (row.feed_url ≡ prov.feed_url)
    × (row.archive_date ≡ prov.archive_date)
    × (row.scheduled_at ≡ prov.scheduled_at)
    × (row.parse_status ≡ prov.parse_status)
    × (row.validation_flags ≡ prov.validation_flags)

module _ (b : Bindings) (prov : TripUpdateProvenance) (message : b.FeedMessage) where
  stop_rows-count :
      (base : TripUpdateStopRow) (us : List b.StopTimeUpdate)
      → length (stop_rows b base us) ≡ rows_for b us
  unfolding stop_rows rows_for
  stop_rows-count base [] = refl
  stop_rows-count base (u ∷ us) = length-map (stop_row b base) (u ∷ us)

  update_rows-count :
      (e : b.FeedEntity) (o : Option b.TripUpdate)
      → length (update_rows b message prov e o) ≡ rows_in b o
  unfolding update_rows rows_in
  update_rows-count e none = refl
  update_rows-count e (some tu) = stop_rows-count _ (b.stop_time_update tu)

  rows_of-count : (es : List b.FeedEntity) → length (rows_of b message prov es) ≡ count_rows_of b es
  unfolding rows_of count_rows_of
  rows_of-count [] = refl
  rows_of-count (e ∷ es) =
      length-append (update_rows b message prov e (b.trip_update e)) (rows_of b message prov es)
      ∙ ap₂ ◌+◌ (update_rows-count e (b.trip_update e)) (rows_of-count es)

  stops-ComesFrom :
      (base : TripUpdateStopRow) (stus : List b.StopTimeUpdate)
      → ComesFrom prov base
      → All (ComesFrom prov) (map (stop_row b base) stus)
  unfolding stop_row
  stops-ComesFrom base [] h = tt
  stops-ComesFrom base (u ∷ us) h = (h, stops-ComesFrom base us h)

  stop_rows-ComesFrom :
      (base : TripUpdateStopRow) (stus : List b.StopTimeUpdate)
      → ComesFrom prov base
      → All (ComesFrom prov) (stop_rows b base stus)
  unfolding stop_rows
  stop_rows-ComesFrom base [] h = (h, tt)
  stop_rows-ComesFrom base (u ∷ us) h = stops-ComesFrom base (u ∷ us) h

  update_rows-ComesFrom :
      (e : b.FeedEntity) (o : Option b.TripUpdate)
      → All (ComesFrom prov) (update_rows b message prov e o)
  unfolding update_rows base_row
  update_rows-ComesFrom e none = tt
  update_rows-ComesFrom e (some tu) =
      stop_rows-ComesFrom _ (b.stop_time_update tu)
        (refl, refl, refl, refl, refl, refl, refl, refl, refl, refl, refl)

  rows_of-ComesFrom : (es : List b.FeedEntity) → All (ComesFrom prov) (rows_of b message prov es)
  unfolding rows_of
  rows_of-ComesFrom [] = tt
  rows_of-ComesFrom (e ∷ es) =
      All-append _ (update_rows b message prov e (b.trip_update e)) _
        (update_rows-ComesFrom e (b.trip_update e)) (rows_of-ComesFrom es)

-- ProjectTripUpdateStops emits as many rows as CountProjectedTripUpdateRows counts in the message
-- without building them.
pub project-length :
    (b : Bindings) (message : b.FeedMessage) (prov : TripUpdateProvenance)
    → length (project_trip_update_stops b message prov)
      ≡ count_projected_trip_update_rows b (some message)
unfolding project_trip_update_stops count_projected_trip_update_rows
project-length b message prov = rows_of-count b prov message (b.entities message)

-- The rows emitted are as many as the stop_time_updates that CountStopTimeUpdates counts, plus one
-- for each trip update that has none.
pub project-stops :
    (b : Bindings) (message : b.FeedMessage) (prov : TripUpdateProvenance)
    → length (project_trip_update_stops b message prov)
      ≡ count_stop_time_updates b (some message) + count_bare b (b.entities message)
unfolding project_trip_update_stops count_stop_time_updates
project-stops b message prov =
    rows_of-count b prov message (b.entities message) ∙ count_rows-split b (b.entities message)

-- Every row emitted carries the provenance of its capture: its source, stream and id, the archive
-- date and timezone, the source file, the URL of the feed, the fetch and the scheduled time, the
-- parse status and the validation flags.
pub project-ComesFrom :
    (b : Bindings) (message : b.FeedMessage) (prov : TripUpdateProvenance)
    → All (ComesFrom prov) (project_trip_update_stops b message prov)
unfolding project_trip_update_stops
project-ComesFrom b message prov = rows_of-ComesFrom b prov message (b.entities message)
