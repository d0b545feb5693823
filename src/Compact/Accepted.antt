-- ===== src/Compact/Accepted.antt =====
-- internal/compact/compact.go: VerifyDirectory accepts the revision that Compact commits.
use gtfs_rt_archiver.Base.{
  ℕ, List, [], ◌∷◌, map, true, String, eq_refl, ok, ◌≡◌, refl, arith, ◌==◌, length, codes, all,
}
use gtfs_rt_archiver.Model.{
  Manifest, Compaction, manifest_format_version, parquet_format_version,
  is_supported_parquet_schema_version,
}
use gtfs_rt_archiver.Upload.Publish.{is_hex}
use gtfs_rt_archiver.Compact.Library.{Library, Directory, regular}
use gtfs_rt_archiver.Compact.Verify.{
  join_path, artifact_name, expected_artifact_rows, check_excluded, check_status,
  check_destinations, file_at, regular_file, check_artifact, check_artifacts, verify_manifest,
}
use gtfs_rt_archiver.Compact.Run.{data_path_of, data_sha256_of, data_bytes_of, Written, artifact_of}
use gtfs_rt_archiver.Compact.Checks.{same_bytes_refl}
use gtfs_rt_archiver.Compact.Names.{base_name-artifact}

pub ==_refl : (n : ℕ) → (n == n) ≡ true
==_refl n = ground arith

-- The row of the state database that a revision has.
pub record Describes (m : Manifest) (path : String) (count : ℕ) (c : Compaction) : Type 0 where
  pub source_id : c.source_id ≡ m.source_id
  pub stream_id : c.stream_id ≡ m.stream_id
  pub archive_date : c.archive_date ≡ m.archive_date
  pub revision : c.revision ≡ m.revision
  pub rows : c.rows ≡ count
  pub entities : c.entities ≡ m.entity_total
  pub directory : c.directory ≡ path
  pub data_path : c.data_path ≡ data_path_of path m.files
  pub data_sha256 : c.data_sha256 ≡ data_sha256_of m.files
  pub data_bytes : c.data_bytes ≡ data_bytes_of m.files

-- The checks of VerifyDirectory, one after the other.
pub verify_manifest-accepts :
    (sha256 : List ℕ → String) (d : Directory) (m : Manifest) (c : Compaction) (directory : String)
    (rows : ℕ)
    → Describes m directory m.captured_responses c
    → m.manifest_version ≡ manifest_format_version
    → m.format_version ≡ parquet_format_version
    → is_supported_parquet_schema_version m.schema_version ≡ true
    → length m.input_captures ≡ m.captured_responses
    → check_excluded (map (λ i. i.id) m.input_captures) [] m.excluded_captures ≡ ok tt
    → check_status m ≡ ok tt
    → check_destinations m.destinations m.required_destinations ≡ ok tt
    → expected_artifact_rows m ≡ ok rows
    → check_artifacts sha256 d m c rows m.files ≡ ok tt
    → verify_manifest sha256 d m c ≡ ok tt
unfolding verify_manifest
verify_manifest-accepts sha256 d m c directory rows i v f s n x t ds r a =
    rw
      (
        x,
        t,
        ds,
        r,
        a,
        v,
        f,
        s,
        i.source_id,
        i.stream_id,
        i.archive_date,
        i.revision,
        i.rows,
        i.entities,
        eq_refl m.source_id,
        eq_refl m.stream_id,
        eq_refl m.archive_date,
        ==_refl m.revision,
        n,
        ==_refl m.captured_responses,
        ==_refl m.entity_total,
      )
      refl

pub check_artifact-accepts :
    (l : Library) (d : Directory) (m : Manifest) (c : Compaction) (directory : String) (count : ℕ)
    (w : Written)
    → all is_hex (codes (l.sha256 w.file)) ≡ true
    → d.files ≡ (artifact_name (l.sha256 w.file), regular w.file) ∷ []
    → m.files ≡ artifact_of l.sha256 w ∷ []
    → m.entity_total ≡ w.entities
    → Describes m directory count c
    → check_artifact l.sha256 d m c w.rows (artifact_of l.sha256 w) ≡ ok tt
unfolding check_artifact file_at regular_file artifact_of data_path_of data_sha256_of data_bytes_of
check_artifact-accepts l d m c directory count w hex files e n i =
    let name = artifact_name (l.sha256 w.file) in
    rw
      (
        base_name-artifact (l.sha256 w.file) hex,
        same_bytes_refl (codes name),
        files,
        eq_refl name,
        eq_refl (l.sha256 w.file),
        ==_refl (length w.file),
        ==_refl w.rows,
        n,
        ==_refl w.entities,
        i.data_path,
        i.directory,
        i.data_sha256,
        i.data_bytes,
        e,
        eq_refl (join_path directory name),
        eq_refl (l.sha256 w.file),
        ==_refl (length w.file),
      )
      refl
