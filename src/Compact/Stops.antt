-- ===== src/Compact/Stops.antt =====
-- internal/compact/compact.go, writeTripUpdateParquet: the rows of the artifact are those of the included
-- captures, in their order, however they are grouped.
use mathlib.Core.List.{append_assoc, append-nil}
use mathlib.Core.Option.{some-injective}
use gtfs_rt_archiver.Base.{
  ℕ, ◌+◌, List, [], ◌∷◌, ◌++◌, map, Option, none, some, String, ok, ◌≡◌, refl, ap, sym, subst, ◌∙◌,
  arith, inl, inr, Result-cases,
}
use gtfs_rt_archiver.Config.{Config}
use gtfs_rt_archiver.Model.{Capture, Manifest}
use gtfs_rt_archiver.Projection.{TripUpdateStopRow, count_stop_time_updates}
use gtfs_rt_archiver.Compact.Library.{Library, RawRead, IsFaithful, stored_stop_row}
use gtfs_rt_archiver.Compact.Inputs.{
  Progress, started, exclude, include, read_verified_capture, message_of, stops_of, write_stops,
  write_message, write_trip_updates, write_all_trip_updates, write_trip_updates_with_codec,
  write_trip_update_parquet, trip_update_row_group_rows, manifest_key_value_metadata,
  parquet_writer_options,
}
use gtfs_rt_archiver.Compact.Partition.{
  Tally, content, content_of, started-Tally, exclude-Tally, include-Tally,
}
use gtfs_rt_archiver.Compact.Rows.{close_full_group_lem}

module _ (l : Library) (raw : String → RawRead) where
  abbrev pub stops_for : Capture → List TripUpdateStopRow
  stops_for c = map stored_stop_row (stops_of l c (message_of l (content l raw c)))

  abbrev pub all_stops : List Capture → List TripUpdateStopRow
  all_stops [] = []
  all_stops (c ∷ cs) = stops_for c ++ all_stops cs

  abbrev pub count_all_stops : List Capture → ℕ
  count_all_stops [] = 0
  count_all_stops (c ∷ cs) =
      count_stop_time_updates l.bindings (message_of l (content l raw c)) + count_all_stops cs

  all_stops-last :
      (cs : List Capture) (c : Capture) → all_stops (cs ++ c ∷ []) ≡ all_stops cs ++ stops_for c
  all_stops-last [] c = append-nil _
  all_stops-last (d ∷ cs) c =
      ap (λ rows. stops_for d ++ rows) (all_stops-last cs c)
      ∙ sym (append_assoc (stops_for d) (all_stops cs) (stops_for c))

  count_all_stops-last :
      (cs : List Capture) (c : Capture)
      → count_all_stops (cs ++ c ∷ [])
        ≡ count_all_stops cs + count_stop_time_updates l.bindings (message_of l (content l raw c))
  count_all_stops-last [] c = omega arith
  count_all_stops-last (d ∷ cs) c = omega (arith, count_all_stops-last cs c)

  module _ (faithful : IsFaithful TripUpdateStopRow stored_stop_row l.flattened) where
    KeptStops : Progress l.flattened.Writer → List Capture → Type 0
    KeptStops w captures =
        Tally l raw w captures
        × (faithful.written w.writer ≡ all_stops w.included)
        × (w.stop_time_update_total ≡ count_all_stops w.included)

    -- What a written capture adds to the rows and to the total.
    Adds :
        Progress l.flattened.Writer
        → List TripUpdateStopRow
        → ℕ
        → Progress l.flattened.Writer
        → Type 0
    Adds w rows n w' =
        (w'.included ≡ w.included)
        × (w'.excluded ≡ w.excluded)
        × (w'.entity_total ≡ w.entity_total)
        × (faithful.written w'.writer ≡ faithful.written w.writer ++ map stored_stop_row rows)
        × (w'.stop_time_update_total ≡ w.stop_time_update_total + n)

    write_stops-Adds :
        (w : Progress l.flattened.Writer) (rows : List TripUpdateStopRow)
        → Adds w rows 0 (write_stops l w rows)
    unfolding write_stops Adds
    write_stops-Adds w [] = (refl, refl, refl, sym (append-nil _), omega arith)
    write_stops-Adds w (r ∷ rows) =
        close_full_group_lem l l.flattened trip_update_row_group_rows (λ w'. Adds w (r ∷ rows) 0 w')
          _ (refl, refl, refl, faithful.write-written _ _, omega arith)
          (refl, refl, refl, faithful.flush-written _ ∙ faithful.write-written _ _, omega arith)

    write_message-Adds :
        (w : Progress l.flattened.Writer) (c : Capture) (m : Option l.bindings.FeedMessage)
        → Adds w (stops_of l c m) (count_stop_time_updates l.bindings m) (write_message l w c m)
    unfolding write_message Adds stops_of count_stop_time_updates
    write_message-Adds w c none = (refl, refl, refl, sym (append-nil _), omega arith)
    write_message-Adds w c (some m) =
        let (i, x, n, rows, total) =
          write_stops-Adds
            (record w {
              stop_time_update_total =
                  w.stop_time_update_total + count_stop_time_updates l.bindings (some m);
            })
            (stops_of l c (some m)) in
        (i, x, n, rows, omega (arith, total))

    Adds-KeptStops :
        (w w' : Progress l.flattened.Writer) (c : Capture) (body : List ℕ) (captures : List Capture)
        → read_verified_capture l raw c ≡ ok body
        → Adds
            (include w c)
            (stops_of l c (message_of l body))
            (count_stop_time_updates l.bindings (message_of l body))
            w'
        → KeptStops w captures
        → KeptStops w' (captures ++ c ∷ [])
    unfolding Adds KeptStops include
    Adds-KeptStops w w' c body captures e (i, x, n, rows, total) (tally, kept, count) =
        let t = include-Tally l raw w c body captures e tally in
        let read_back : content l raw c ≡ body = ap content_of e in
        (
          rw (i, x, n) (unfold include in t),
          rw (i, all_stops-last w.included c, read_back)
              (rows ∙ ap (λ rs. rs ++ map stored_stop_row (stops_of l c (message_of l body))) kept),
          rw (i, count_all_stops-last w.included c, read_back) (omega (arith, total, count)),
        )

    write_trip_updates-KeptStops :
        (w : Progress l.flattened.Writer) (c : Capture) (captures : List Capture)
        → KeptStops w captures
        → KeptStops (write_trip_updates l w c (read_verified_capture l raw c)) (captures ++ c ∷ [])
    unfolding write_trip_updates KeptStops exclude
    write_trip_updates-KeptStops w c captures k =
        elim (Result-cases (read_verified_capture l raw c)) [
          | inl (body, e) ↦
              rw (e, write_trip_updates)
                (Adds-KeptStops w _ c body captures e
                  (write_message-Adds (include w c) c (message_of l body)) k)
          | inr (failure, e) ↦
              rw (e, write_trip_updates) (exclude-Tally l raw w c failure captures e k.0, k.1, k.2)
        ]

    write_all-KeptStops :
        (cs : List Capture) (w : Progress l.flattened.Writer) (captures : List Capture)
        → KeptStops w captures
        → KeptStops (write_all_trip_updates l raw cs w) (captures ++ cs)
    unfolding write_all_trip_updates
    write_all-KeptStops [] w captures k = rw (append-nil captures) k
    write_all-KeptStops (c ∷ cs) w captures k = rw (← append_assoc captures (c ∷ []) cs) (
        write_all-KeptStops cs _ (captures ++ c ∷ []) (write_trip_updates-KeptStops w c captures k))

    -- The file that `write_trip_update_parquet` closes, and its tally.
    abbrev pub IsFlattened : List Capture → l.flattened.File × Progress l.flattened.Writer → Type 0
    IsFlattened captures written =
        Tally l raw written.1 captures
        × (l.flattened.read written.0 ≡ all_stops written.1.included)
        × (written.1.stop_time_update_total ≡ count_all_stops written.1.included)

    closed-IsFlattened :
        (captures : List Capture) (w : Progress l.flattened.Writer)
        → KeptStops w captures
        → IsFlattened captures (l.flattened.close w.writer, w)
    unfolding KeptStops
    closed-IsFlattened captures w k = (k.0, faithful.read-close w.writer ∙ k.1, k.2)

    with_codec-IsFlattened :
        (captures : List Capture) (m : Manifest) (codec : Option String)
        (written : l.flattened.File × Progress l.flattened.Writer)
        → write_trip_updates_with_codec l raw captures m codec ≡ some written
        → IsFlattened captures written
    unfolding write_trip_updates_with_codec KeptStops
    with_codec-IsFlattened captures m none written e = absurd (ground arith)
    with_codec-IsFlattened captures m (some codec) written e =
        let opened =
          l.flattened.open_file codec trip_update_row_group_rows (manifest_key_value_metadata m) in
        let kept =
          write_all-KeptStops captures (started opened) []
            (started-Tally l raw opened, faithful.open-written _ _ _, refl) in
        subst (IsFlattened captures) (some-injective _ _ e) (
          closed-IsFlattened captures (write_all_trip_updates l raw captures (started opened)) kept)

    -- Where the library reads back what the columns of the rows written keep, the trip-update
    -- artifact of a day reads back as the rows of the stop_time_updates of the captures whose
    -- payload is there with the recorded hash, with their two instants truncated to the
    -- microsecond, in their order and however they were grouped; every other capture is excluded
    -- with the reason of its failure; the entities are those that the included captures count, and
    -- the total is that of their stop_time_updates.
    pub write_trip_update_parquet-IsFlattened :
        (cfg : Config) (captures : List Capture) (m : Manifest)
        (written : l.flattened.File × Progress l.flattened.Writer)
        → write_trip_update_parquet l cfg raw captures m ≡ some written
        → IsFlattened captures written
    unfolding write_trip_update_parquet
    write_trip_update_parquet-IsFlattened cfg captures m written e =
        with_codec-IsFlattened captures m (parquet_writer_options cfg) written e
