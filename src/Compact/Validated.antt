-- ===== src/Compact/Validated.antt =====
-- internal/compact/compact.go, validateParquet and validateTripUpdateParquet: they accept the artifact
-- that was written from the same captures.
use gtfs_rt_archiver.Base.{
  length-map, ℕ, suc, ◌+◌, List, [], ◌∷◌, ◌++◌, map, true, Option, none, some, String, str_eq,
  eq_refl, ok, ◌≡◌, refl, ap, ◌∙◌, arith, All, All-mono, length, Bool-cases, inl, inr, Result-cases,
  All-where_rows_test,
}
use gtfs_rt_archiver.Config.{Config}
use gtfs_rt_archiver.Model.{Capture, Manifest}
use gtfs_rt_archiver.Projection.{TripUpdateStopRow, count_projected_trip_update_rows}
use gtfs_rt_archiver.Projection.Counts.{project-length, project-ComesFrom}
use gtfs_rt_archiver.Compact.Library.{
  Library, RawRead, payload, not_exist, read_error, Row, IsFaithful, stored_row, stored_stop_row,
}
use gtfs_rt_archiver.Compact.Inputs.{
  counted, Progress, verify_payload, read_verified_capture, row_of, message_of, stops_of,
  trip_update_provenance_from_capture, write_parquet, write_trip_update_parquet,
}
use gtfs_rt_archiver.Compact.Validate.{
  same_count, expected_entities, check_row, scan_rows, expect, validate_parquet, expected_rows,
  total_rows, with_rows_left, take_row, scan_stops, validate_trip_update_parquet,
}
use gtfs_rt_archiver.Compact.Partition.{is_ok, content_of, is_readable, content, readable_in}
use gtfs_rt_archiver.Compact.Rows.{row_for, write_parquet-IsNested}
use gtfs_rt_archiver.Compact.Stops.{stops_for, all_stops, write_trip_update_parquet-IsFlattened}

same_count_refl : (o : Option ℕ) → same_count o o ≡ true
unfolding same_count
same_count_refl none = refl
same_count_refl (some n) = ground arith

module _ (l : Library) (raw : String → RawRead) where
  verify_payload-hash :
      (c : Capture) (r : RawRead)
      → is_ok (verify_payload l c r) ≡ true
      → str_eq (l.sha256 (content_of (verify_payload l c r))) c.body_sha256 ≡ true
  unfolding verify_payload
  verify_payload-hash c (payload body) h =
      elim (Bool-cases (str_eq (l.sha256 body) c.body_sha256)) [
        | inl e ↦ rw e e
        | inr e ↦ absurd (ground arith)
      ]
  verify_payload-hash c not_exist h = absurd (ground arith)
  verify_payload-hash c read_error h = absurd (ground arith)

  -- What is read of a readable capture has the hash that its row records.
  readable-hash :
      (c : Capture)
      → is_readable l raw c ≡ true
      → str_eq (l.sha256 (content l raw c)) c.body_sha256 ≡ true
  unfolding read_verified_capture
  readable-hash c h = verify_payload-hash c (raw c.raw_path) h

  check_row_for :
      (c : Capture) → is_readable l raw c ≡ true → check_row l (row_for l raw c) c ≡ ok tt
  unfolding check_row row_of
  check_row_for c h =
      rw (eq_refl c.id, eq_refl c.body_sha256, readable-hash c h, same_count_refl c.entity_count)
        refl

  scan_rows-accepts :
      (cs : List Capture) (index total : ℕ)
      → All (λ c. is_readable l raw c ≡ true) cs
      → scan_rows l (map (row_for l raw) cs) cs index total
        ≡ ok (index + length cs, total + expected_entities cs)
  unfolding scan_rows expected_entities row_of
  scan_rows-accepts [] index total h = ap ok (ground arith)
  scan_rows-accepts (c ∷ cs) index total h =
      rw (check_row_for c h.0) (
        scan_rows-accepts cs (suc index) (total + counted c.entity_count) h.1
        ∙ ap ok (ground arith))

  validate_rows :
      (file : l.nested.File) (cs : List Capture)
      → All (λ c. is_readable l raw c ≡ true) cs
      → l.nested.read file ≡ map (row_for l raw) cs
      → validate_parquet l file cs ≡ ok tt
  unfolding validate_parquet
  validate_rows file cs h e = rw (e, scan_rows-accepts cs 0 0 h) (ground arith)

  -- The rows that the message of a capture has.
  abbrev rows_expected : Capture → ℕ
  rows_expected c = count_projected_trip_update_rows l.bindings (message_of l (content l raw c))

  abbrev pending_of : List Capture → List (Capture × ℕ)
  pending_of cs = map (λ c. (c, rows_expected c)) cs

  expected_rows-eq :
      (cs : List Capture)
      → All (λ c. is_readable l raw c ≡ true) cs
      → expected_rows l raw cs ≡ ok (pending_of cs)
  unfolding expected_rows expect
  expected_rows-eq [] h = refl
  expected_rows-eq (c ∷ cs) h = elim (Result-cases (read_verified_capture l raw c)) [
    | inl (body, e) ↦ rw (e, expect, expected_rows-eq cs h.1) refl
    | inr (failure, e) ↦ absurd (ground (arith, h.0, e))
  ]

  stops_of-length :
      (c : Capture) (m : Option l.bindings.FeedMessage)
      → length (stops_of l c m) ≡ count_projected_trip_update_rows l.bindings m
  unfolding stops_of count_projected_trip_update_rows
  stops_of-length c none = refl
  stops_of-length c (some m) =
      unfold count_projected_trip_update_rows in
      project-length l.bindings m (trip_update_provenance_from_capture c)

  stops_of-All :
      (c : Capture) (m : Option l.bindings.FeedMessage)
      → All (λ row. row.capture_id ≡ c.id) (stops_of l c m)
  unfolding stops_of trip_update_provenance_from_capture
  stops_of-All c none = tt
  stops_of-All c (some m) =
      All-mono _ _ (λ row k. k.0) _
        (project-ComesFrom l.bindings m (trip_update_provenance_from_capture c))

  stored-All :
      (id : String) (rows : List TripUpdateStopRow)
      → All (λ row. row.capture_id ≡ id) rows
      → All (λ row. row.capture_id ≡ id) (map stored_stop_row rows)
  stored-All id [] h = tt
  stored-All id (row ∷ rows) h = (h.0, stored-All id rows h.1)

  scan_stops-skip :
      (c : Capture) (pending : List (Capture × ℕ)) (rows : List TripUpdateStopRow) (seen : ℕ)
      → scan_stops rows ((c, 0) ∷ pending) seen ≡ scan_stops rows pending seen
  unfolding scan_stops with_rows_left
  scan_stops-skip c pending [] seen = refl
  scan_stops-skip c pending (row ∷ rows) seen = refl

  -- The rows of one capture.
  scan_stops-capture :
      (c : Capture) (rows more : List TripUpdateStopRow) (pending : List (Capture × ℕ)) (seen : ℕ)
      → All (λ row. row.capture_id ≡ c.id) rows
      → scan_stops (rows ++ more) ((c, length rows) ∷ pending) seen
        ≡ scan_stops more pending (length rows + seen)
  unfolding scan_stops with_rows_left take_row
  scan_stops-capture c [] more pending seen h =
      unfold scan_stops with_rows_left take_row in
      (scan_stops-skip c pending more seen ∙ ap (scan_stops more pending) (ground arith))
  scan_stops-capture c (row ∷ rows) more pending seen h =
      rw (h.0, eq_refl c.id)
        (scan_stops-capture c rows more pending (suc seen) h.1
          ∙ ap (scan_stops more pending) (ground arith))

  scan_stops-accepts :
      (cs : List Capture) (seen : ℕ)
      → scan_stops (all_stops l raw cs) (pending_of cs) seen
        ≡ ok (total_rows (pending_of cs) + seen)
  unfolding total_rows
  scan_stops-accepts [] seen = unfold scan_stops in ap ok (ground arith)
  scan_stops-accepts (c ∷ cs) seen =
      let block =
        length-map stored_stop_row (stops_of l c (message_of l (content l raw c)))
        ∙ stops_of-length c (message_of l (content l raw c)) in
      rw (← block) (
        scan_stops-capture c (stops_for l raw c) (all_stops l raw cs) (pending_of cs) seen
          (stored-All c.id _ (stops_of-All c (message_of l (content l raw c))))
        ∙ scan_stops-accepts cs _
        ∙ ap ok (ground arith))

  validate_stops :
      (file : l.flattened.File) (cs : List Capture)
      → All (λ c. is_readable l raw c ≡ true) cs
      → l.flattened.read file ≡ all_stops l raw cs
      → validate_trip_update_parquet l raw file cs ≡ ok tt
  unfolding validate_trip_update_parquet
  validate_stops file cs h e = rw (expected_rows-eq cs h, e, scan_stops-accepts cs 0) (ground arith)

  readable_in-All :
      (cs : List Capture) → All (λ c. is_readable l raw c ≡ true) (readable_in l raw cs)
  readable_in-All cs = All-where_rows_test _ (is_readable l raw) (λ c e. e) cs

  pub write_parquet-validates :
      (cfg : Config) (captures : List Capture) (m : Manifest) (file : l.nested.File)
      (done : Progress l.nested.Writer)
      → IsFaithful (Row l.Projected) (stored_row l.stored_projected) l.nested
      → write_parquet l cfg raw captures m ≡ some (file, done)
      → validate_parquet l file done.included ≡ ok tt
  write_parquet-validates cfg captures m file done faithful e =
      let (tally, rows) = write_parquet-IsNested l raw faithful cfg captures m (file, done) e in
      validate_rows file done.included (rw tally.0 (readable_in-All captures)) rows

  pub write_trip_update_parquet-validates :
      (cfg : Config) (captures : List Capture) (m : Manifest) (file : l.flattened.File)
      (done : Progress l.flattened.Writer)
      → IsFaithful TripUpdateStopRow stored_stop_row l.flattened
      → write_trip_update_parquet l cfg raw captures m ≡ some (file, done)
      → validate_trip_update_parquet l raw file done.included ≡ ok tt
  write_trip_update_parquet-validates cfg captures m file done faithful e =
      let (tally, rows, total) =
        write_trip_update_parquet-IsFlattened l raw faithful cfg captures m (file, done) e in
      validate_stops file done.included (rw tally.0 (readable_in-All captures)) rows
