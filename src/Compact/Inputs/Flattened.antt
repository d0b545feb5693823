-- ===== src/Compact/Inputs/Flattened.antt =====
-- internal/compact/compact.go, writeTripUpdateParquet: the rows of each included capture's stop_time_updates.
use gtfs_rt_archiver.Base.{
  ℕ, ◌+◌, List, [], ◌∷◌, Option, none, some, String, Result, ok, err, length,
}
use gtfs_rt_archiver.Config.{Config}
use gtfs_rt_archiver.Model.{Capture, Manifest}
use gtfs_rt_archiver.Projection.{
  TripUpdateStopRow, project_trip_update_stops, count_stop_time_updates,
}
use gtfs_rt_archiver.Compact.Library.{Library, RawRead}
use gtfs_rt_archiver.Compact.Inputs.Reading.{
  ReadFailure, trip_update_row_group_rows, parquet_writer_options, manifest_key_value_metadata,
  trip_update_provenance_from_capture, Progress, started, exclude, include, read_verified_capture,
  message_of, close_full_group,
}

module _ (l : Library) where
  open l use {bindings}

  -- `if len(rows) == 0 { continue }`.
  unfoldable pub write_stops :
      Progress l.flattened.Writer → List TripUpdateStopRow → Progress l.flattened.Writer
  write_stops w [] = w
  write_stops w (r ∷ rows) = close_full_group l l.flattened trip_update_row_group_rows (record w {
    writer = l.flattened.write w.writer (r ∷ rows);
    group = w.group + length (r ∷ rows);
  })

  unfoldable pub stops_of : Capture → Option bindings.FeedMessage → List TripUpdateStopRow
  stops_of c none = []
  stops_of c (some m) = project_trip_update_stops bindings m (trip_update_provenance_from_capture c)

  -- A capture that does not decode keeps its accounting alone.
  unfoldable pub write_message :
      Progress l.flattened.Writer
      → Capture
      → Option bindings.FeedMessage
      → Progress l.flattened.Writer
  write_message w c none = w
  write_message w c (some m) =
      write_stops
        (record w {
          stop_time_update_total =
              w.stop_time_update_total + count_stop_time_updates bindings (some m);
        })
        (stops_of c (some m))

  unfoldable pub write_trip_updates :
      Progress l.flattened.Writer
      → Capture
      → Result ReadFailure (List ℕ)
      → Progress l.flattened.Writer
  write_trip_updates w c (err failure) = exclude w c failure
  write_trip_updates w c (ok body) = write_message (include w c) c (message_of l body)

  unfoldable pub write_all_trip_updates :
      (String → RawRead) → List Capture → Progress l.flattened.Writer → Progress l.flattened.Writer
  write_all_trip_updates raw [] w = w
  write_all_trip_updates raw (c ∷ cs) w =
      write_all_trip_updates raw cs (write_trip_updates w c (read_verified_capture l raw c))

  unfoldable pub write_trip_updates_with_codec :
      (String → RawRead)
      → List Capture
      → Manifest
      → Option String
      → Option (l.flattened.File × Progress l.flattened.Writer)
  write_trip_updates_with_codec raw captures m none = none
  write_trip_updates_with_codec raw captures m (some codec) =
      let opened =
        l.flattened.open_file codec trip_update_row_group_rows (manifest_key_value_metadata m) in
      let done = write_all_trip_updates raw captures (started opened) in
      some (l.flattened.close done.writer, done)

  unfoldable pub write_trip_update_parquet :
      Config
      → (String → RawRead)
      → List Capture
      → Manifest
      → Option (l.flattened.File × Progress l.flattened.Writer)
  write_trip_update_parquet cfg raw captures m =
      write_trip_updates_with_codec raw captures m (parquet_writer_options cfg)
