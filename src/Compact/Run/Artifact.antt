-- ===== src/Compact/Run/Artifact.antt =====
-- internal/compact/compact.go, Compact: the artifact of a day, and what the manifest says of it.
use gtfs_rt_archiver.Base.{
  ℕ, List, [], ◌∷◌, Bool, true, false, Option, none, some, String, str_eq, Result, ok, err, ◌>>=◌,
  ◌>>◌, length, if◌then◌else◌,
}
use gtfs_rt_archiver.Config.{Config}
use gtfs_rt_archiver.Model.{Capture, Manifest, Artifact, ExcludedCapture}
use gtfs_rt_archiver.Compact.Library.{Library, RawRead, Entry, regular}
use gtfs_rt_archiver.Compact.Inputs.{Progress, write_parquet, write_trip_update_parquet}
use gtfs_rt_archiver.Compact.Validate.{
  ValidateError, validate_parquet, validate_trip_update_parquet,
}
use gtfs_rt_archiver.Compact.Verify.{artifact_name}
use gtfs_rt_archiver.Compact.Run.Start.{
  CompactError, exclusion_summary, all_excluded, unsupported_compression, invalid,
}

-- An artifact that was written and validated.
pub record Written : Type 0 where
  pub file : List ℕ
  pub entities : ℕ
  pub rows : ℕ
  pub stop_time_update_total : Option ℕ
  pub included : List Capture
  pub excluded : List ExcludedCapture

-- `if err := validate…(…); err != nil { return err }`.
unfoldable pub if_valid : Result ValidateError (Unit {0}) → Written → Result CompactError Written
if_valid (err e) w = err (invalid e)
if_valid (ok _) w = ok w

module _ (l : Library) (cfg : Config) (raw : String → RawRead) where
  unfoldable pub written_nested :
      Option (l.nested.File × Progress l.nested.Writer) → Result CompactError Written
  written_nested none = err unsupported_compression
  written_nested (some (file, p)) = if_valid (validate_parquet l file p.included) (record {
    file = l.nested.bytes file;
    entities = p.entity_total;
    rows = length p.included;
    stop_time_update_total = none;
    included = p.included;
    excluded = p.excluded;
  })

  unfoldable pub written_flattened :
      Option (l.flattened.File × Progress l.flattened.Writer) → Result CompactError Written
  written_flattened none = err unsupported_compression
  written_flattened (some (file, p)) =
      if_valid (validate_trip_update_parquet l raw file p.included) (record {
        file = l.flattened.bytes file;
        entities = p.entity_total;
        rows = p.stop_time_update_total;
        stop_time_update_total = some p.stop_time_update_total;
        included = p.included;
        excluded = p.excluded;
      })

  -- Whether the stream is of trip updates.
  unfoldable pub write_kind : Bool → List Capture → Manifest → Result CompactError Written
  write_kind true captures m = written_flattened (write_trip_update_parquet l cfg raw captures m)
  write_kind false captures m = written_nested (write_parquet l cfg raw captures m)

  unfoldable pub write_artifact : List Capture → Manifest → Result CompactError Written
  write_artifact captures m = write_kind (str_eq m.expected_kind "trip_update") captures m

unfoldable pub artifact_of : (List ℕ → String) → Written → Artifact
artifact_of sha256 w = record {
  relative_path = artifact_name (sha256 w.file);
  part = 0;
  bytes = length w.file;
  sha256 = sha256 w.file;
  rows = w.rows;
  entities = w.entities;
}

unfoldable pub with_written : (List ℕ → String) → Manifest → Written → Manifest
with_written sha256 m w = record m {
  stop_time_update_total = w.stop_time_update_total;
  excluded_captures = w.excluded;
  entity_total = w.entities;
  files = artifact_of sha256 w ∷ [];
}

unfoldable pub some_included : List Capture → List ExcludedCapture → Result CompactError (Unit {0})
some_included [] excluded = err (all_excluded (exclusion_summary excluded))
some_included (c ∷ cs) excluded = ok tt

-- The verifier requires the total on every trip-update revision.
unfoldable pub without_captures : Manifest → Manifest
without_captures m = record m {
  dataset_status = "no_captured_responses";
  stop_time_update_total = if str_eq m.expected_kind "trip_update" then some 0 else none;
}

-- The manifest before the captures are accounted for, and the files beside it.
unfoldable pub with_artifact :
    Library
    → Config
    → (String → RawRead)
    → List Capture
    → Manifest
    → Result CompactError (Manifest × List (String × Entry))
with_artifact l cfg raw [] m = ok (without_captures m, [])
with_artifact l cfg raw (c ∷ cs) m = do
  w ← write_artifact l cfg raw (c ∷ cs) m
  some_included w.included w.excluded
  ok (with_written l.sha256 m w, (artifact_name (l.sha256 w.file), regular w.file) ∷ [])
