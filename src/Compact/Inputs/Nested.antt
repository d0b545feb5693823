-- ===== src/Compact/Inputs/Nested.antt =====
-- internal/compact/compact.go, writeParquet: one row for each included capture.
use gtfs_rt_archiver.Base.{ℕ, ◌+◌, List, [], ◌∷◌, Option, none, some, String, Result, ok, err}
use gtfs_rt_archiver.Config.{Config}
use gtfs_rt_archiver.Model.{Capture, Manifest}
use gtfs_rt_archiver.Compact.Library.{Library, RawRead}
use gtfs_rt_archiver.Compact.Inputs.Reading.{
  ReadFailure, max_rows_per_row_group, parquet_writer_options, manifest_key_value_metadata,
  Progress, started, exclude, include, read_verified_capture, row_of, close_full_group,
}

module _ (l : Library) where
  open l use {bindings, Projected}

  unfoldable pub write_row :
      ℕ → Progress l.nested.Writer → Capture → List ℕ → Progress l.nested.Writer
  write_row target w c body =
      let kept = include w c in
      close_full_group l l.nested target (record kept {
        writer = l.nested.write kept.writer (row_of l c body ∷ []);
        group = kept.group + c.decoded_length;
      })

  unfoldable pub write_capture :
      ℕ
      → Progress l.nested.Writer
      → Capture
      → Result ReadFailure (List ℕ)
      → Progress l.nested.Writer
  write_capture target w c (err failure) = exclude w c failure
  write_capture target w c (ok body) = write_row target w c body

  unfoldable pub write_captures :
      (String → RawRead) → ℕ → List Capture → Progress l.nested.Writer → Progress l.nested.Writer
  write_captures raw target [] w = w
  write_captures raw target (c ∷ cs) w =
      write_captures raw target cs (write_capture target w c (read_verified_capture l raw c))

  unfoldable pub write_with_codec :
      Config
      → (String → RawRead)
      → List Capture
      → Manifest
      → Option String
      → Option (l.nested.File × Progress l.nested.Writer)
  write_with_codec cfg raw captures m none = none
  write_with_codec cfg raw captures m (some codec) =
      let opened =
        l.nested.open_file codec max_rows_per_row_group (manifest_key_value_metadata m) in
      let done = write_captures raw cfg.parquet.target_row_group_bytes captures (started opened) in
      some (l.nested.close done.writer, done)

  -- The closed file, and what the loop counted.
  unfoldable pub write_parquet :
      Config
      → (String → RawRead)
      → List Capture
      → Manifest
      → Option (l.nested.File × Progress l.nested.Writer)
  write_parquet cfg raw captures m =
      write_with_codec cfg raw captures m (parquet_writer_options cfg)
