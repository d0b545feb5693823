-- ===== src/Compact/Validate.antt =====
-- internal/compact/compact.go, validateParquet and validateTripUpdateParquet: the artifact is read back
-- and compared with the captures it was made of.
use gtfs_rt_archiver.Base.{
  ℕ, zero, suc, ◌+◌, List, [], ◌∷◌, Bool, true, false, ◌&&◌, Option, none, some, String, str_eq,
  Result, ok, err, ◌>>=◌, ◌>>◌, guard, ◌==◌, length,
}
use gtfs_rt_archiver.Model.{Capture}
use gtfs_rt_archiver.Projection.{TripUpdateStopRow, count_projected_trip_update_rows}
use gtfs_rt_archiver.Compact.Library.{Library, Row, RawRead}
use gtfs_rt_archiver.Compact.Inputs.{ReadFailure, counted, read_verified_capture, message_of}

pub data ValidateError : Type 0 where
  extra_rows provenance_mismatch hash_mismatch entity_count_mismatch : ValidateError
  row_count_mismatch entity_total_mismatch : ValidateError
  unread : ReadFailure → ValidateError

unfoldable pub same_count : Option ℕ → Option ℕ → Bool
same_count none none = true
same_count none (some n) = false
same_count (some m) none = false
same_count (some m) (some n) = m == n

unfoldable pub expected_entities : List Capture → ℕ
expected_entities [] = 0
expected_entities (c ∷ cs) = counted c.entity_count + expected_entities cs

module _ (l : Library) where
  open l use {Projected}

  unfoldable pub check_row : Row Projected → Capture → Result ValidateError (Unit {0})
  check_row row c = do
    guard (str_eq row.capture_id c.id && str_eq row.body_sha256 c.body_sha256) provenance_mismatch
    guard (str_eq (l.sha256 row.feed_message_pb) c.body_sha256) hash_mismatch
    guard (same_count row.entity_count c.entity_count) entity_count_mismatch

  -- The rows against the captures from `index` on: the rows read, and their entities.
  unfoldable pub scan_rows :
      List (Row Projected) → List Capture → ℕ → ℕ → Result ValidateError (ℕ × ℕ)
  scan_rows [] captures index total = ok (index, total)
  scan_rows (row ∷ rows) [] index total = err extra_rows
  scan_rows (row ∷ rows) (c ∷ cs) index total =
      check_row row c >> scan_rows rows cs (suc index) (total + counted row.entity_count)

  unfoldable pub validate_parquet : l.nested.File → List Capture → Result ValidateError (Unit {0})
  validate_parquet file expected = do
    (index, total) ← scan_rows (l.nested.read file) expected 0 0
    guard (index == length expected) row_count_mismatch
    guard (total == expected_entities expected) entity_total_mismatch

  unfoldable pub expect :
      Capture
      → Result ReadFailure (List ℕ)
      → Result ValidateError (List (Capture × ℕ))
      → Result ValidateError (List (Capture × ℕ))
  expect c (err failure) later_rows = err (unread failure)
  expect c (ok body) later_rows = later_rows >>= λ rest.
      ok ((c, count_projected_trip_update_rows l.bindings (message_of l body)) ∷ rest)

  -- Phase A: the rows that each capture must have.
  unfoldable pub expected_rows :
      (String → RawRead) → List Capture → Result ValidateError (List (Capture × ℕ))
  expected_rows raw [] = ok []
  expected_rows raw (c ∷ cs) = expect c (read_verified_capture l raw c) (expected_rows raw cs)

unfoldable pub total_rows : List (Capture × ℕ) → ℕ
total_rows [] = 0
total_rows ((c, n) ∷ rest) = n + total_rows rest

-- `for rowsLeftInCapture == 0`: the captures up to the next one that has rows left.
unfoldable pub with_rows_left : List (Capture × ℕ) → List (Capture × ℕ)
with_rows_left [] = []
with_rows_left ((c, zero) ∷ rest) = with_rows_left rest
with_rows_left ((c, suc n) ∷ rest) = (c, suc n) ∷ rest

-- The capture whose rows are read stands first, with the rows that it has left.
unfoldable pub take_row :
    TripUpdateStopRow → List (Capture × ℕ) → Result ValidateError (List (Capture × ℕ))
take_row row [] = err extra_rows
take_row row ((c, zero) ∷ rest) = err extra_rows
take_row row ((c, suc n) ∷ rest) =
    guard (str_eq row.capture_id c.id) provenance_mismatch >> ok ((c, n) ∷ rest)

-- Phase B: the rows, in the order of the captures; how many there are.
unfoldable pub scan_stops : List TripUpdateStopRow → List (Capture × ℕ) → ℕ → Result ValidateError ℕ
scan_stops [] pending seen = ok seen
scan_stops (row ∷ rows) pending seen =
    take_row row (with_rows_left pending) >>= λ rest. scan_stops rows rest (suc seen)

unfoldable pub validate_trip_update_parquet :
    (l : Library)
    → (String → RawRead)
    → l.flattened.File
    → List Capture
    → Result ValidateError (Unit {0})
validate_trip_update_parquet l raw file captures = do
  expected ← expected_rows l raw captures
  seen ← scan_stops (l.flattened.read file) expected 0
  guard (seen == total_rows expected) row_count_mismatch
