-- ===== src/Compact/Integrity.antt =====
-- internal/compact/compact.go, VerifyDirectory: what it has checked of a revision that it accepts.
use gtfs_rt_archiver.Base.{
  ℕ, List, [], ◌∷◌, map, true, ◌&&◌, Option, none, some, String, str_eq, eq_iff, ok, ok-injective,
  >>=-eq-ok, guard-then, guard-eq-ok, ◌≡◌, refl, ap, sym, ◌∙◌, arith, ◌==◌, ==_iff, length, All,
  codes,
}
use gtfs_rt_archiver.Model.{
  Manifest, Artifact, Compaction, manifest_format_version, parquet_format_version,
  is_supported_parquet_schema_version,
}
use gtfs_rt_archiver.Upload.Publish.{base_name, same_bytes}
use gtfs_rt_archiver.Compact.Library.{Directory, Entry, regular, other}
use gtfs_rt_archiver.Compact.Verify.{
  join_path, artifact_name, expected_artifact_rows, check_excluded, check_status,
  check_destinations, file_at, regular_file, check_artifact, check_artifacts, verify_manifest,
  verify_in, verify_at, verify_directory, unsupported_format, unsupported_schema, identity_mismatch,
  counts_mismatch, not_a_basename, integrity_mismatch, metadata_mismatch, state_mismatch,
}

-- The content of an artifact is the one that both the manifest and the database's row record.
abbrev pub IsIntact : (List ℕ → String) → Directory → Compaction → Artifact → Type 0
IsIntact sha256 d c a =
    (content : List ℕ) × (file_at d.files a.relative_path ≡ some (regular content))
    × (sha256 content ≡ c.data_sha256)
    × (length content ≡ c.data_bytes)
    × (c.data_path ≡ join_path c.directory a.relative_path)

-- The identity and the counts of a manifest are those of the database's row.
abbrev pub Agrees : Manifest → Compaction → Type 0
Agrees m c =
    (m.source_id ≡ c.source_id)
    × (m.stream_id ≡ c.stream_id)
    × (m.archive_date ≡ c.archive_date)
    × (m.revision ≡ c.revision)
    × (m.captured_responses ≡ c.rows)
    × (length m.input_captures ≡ c.rows)
    × (m.entity_total ≡ c.entities)

str_eq→eq : (a b : String) → str_eq a b ≡ true → a ≡ b
str_eq→eq a b h = (eq_iff a b).0 h

==→eq : (a b : ℕ) → (a == b) ≡ true → a ≡ b
==→eq a b h = (==_iff a b).0 h

regular_file-eq-ok :
    (e : Option Entry) (content : List ℕ) → regular_file e ≡ ok content → e ≡ some (regular content)
unfolding regular_file
regular_file-eq-ok none content h = absurd (ground arith)
regular_file-eq-ok (some other) content h = absurd (ground arith)
regular_file-eq-ok (some (regular c)) content h = ap (λ x. some (regular x)) (ok-injective h)

module _ (sha256 : List ℕ → String) (d : Directory) (c : Compaction) where
  check_artifact-IsIntact :
      (m : Manifest) (rows : ℕ) (a : Artifact)
      → check_artifact sha256 d m c rows a ≡ ok tt
      → IsIntact sha256 d c a
  unfolding check_artifact
  check_artifact-IsIntact m rows a h =
      let (_, h₁) =
        guard-then (same_bytes (base_name (codes a.relative_path)) (codes a.relative_path))
          not_a_basename _ h in
      let (content, file, h₂) = >>=-eq-ok (regular_file (file_at d.files a.relative_path)) _ h₁ in
      let (intact, h₃) =
        guard-then (str_eq (sha256 content) a.sha256 && length content == a.bytes)
          integrity_mismatch _ h₂ in
      let (_, h₄) =
        guard-then
          (str_eq a.relative_path (artifact_name a.sha256)
            && a.rows == rows
            && a.entities == m.entity_total)
          metadata_mismatch _ h₃ in
      let recorded =
        guard-eq-ok
          (str_eq c.data_path (join_path c.directory a.relative_path)
            && str_eq c.data_sha256 a.sha256
            && c.data_bytes == a.bytes)
          state_mismatch h₄ in
      let hash : str_eq (sha256 content) a.sha256 ≡ true = ground (arith, intact) in
      let bytes : (length content == a.bytes) ≡ true = ground (arith, intact) in
      let path : str_eq c.data_path (join_path c.directory a.relative_path) ≡ true =
        ground (arith, recorded) in
      let data_hash : str_eq c.data_sha256 a.sha256 ≡ true = ground (arith, recorded) in
      let data_bytes : (c.data_bytes == a.bytes) ≡ true = ground (arith, recorded) in
      (
        content,
        regular_file-eq-ok _ content file,
        str_eq→eq _ _ hash ∙ sym (str_eq→eq _ _ data_hash),
        ==→eq _ _ bytes ∙ sym (==→eq _ _ data_bytes),
        str_eq→eq _ _ path,
      )

  check_artifacts-IsIntact :
      (m : Manifest) (rows : ℕ) (files : List Artifact)
      → check_artifacts sha256 d m c rows files ≡ ok tt
      → All (IsIntact sha256 d c) files
  unfolding check_artifacts
  check_artifacts-IsIntact m rows [] h = tt
  check_artifacts-IsIntact m rows (a ∷ files) h =
      let (_, first, rest) = >>=-eq-ok (check_artifact sha256 d m c rows a) _ h in
      (check_artifact-IsIntact m rows a first, check_artifacts-IsIntact m rows files rest)

  -- What the checks leave behind: the agreement, the destinations' check and the artifacts.
  abbrev pub IsChecked : Manifest → Type 0
  IsChecked m =
      Agrees m c
      × (check_destinations m.destinations m.required_destinations ≡ ok tt)
      × All (IsIntact sha256 d c) m.files

  pub verify_manifest-IsChecked :
      (m : Manifest) → verify_manifest sha256 d m c ≡ ok tt → IsChecked m
  unfolding verify_manifest
  verify_manifest-IsChecked m h =
      let (_, h₁) =
        guard-then
          (m.manifest_version == manifest_format_version
            && m.format_version == parquet_format_version)
          unsupported_format _ h in
      let (_, h₂) =
        guard-then (is_supported_parquet_schema_version m.schema_version) unsupported_schema _ h₁ in
      let (same, h₃) =
        guard-then
          (str_eq m.source_id c.source_id
            && str_eq m.stream_id c.stream_id
            && str_eq m.archive_date c.archive_date
            && m.revision == c.revision)
          identity_mismatch _ h₂ in
      let (counts, h₄) =
        guard-then
          (length m.input_captures == m.captured_responses
            && m.captured_responses == c.rows
            && m.entity_total == c.entities)
          counts_mismatch _ h₃ in
      let (_, _, h₅) =
        >>=-eq-ok (check_excluded (map (λ i. i.id) m.input_captures) [] m.excluded_captures) _ h₄ in
      let (_, _, h₆) = >>=-eq-ok (check_status m) _ h₅ in
      let (_, ds, h₇) =
        >>=-eq-ok (check_destinations m.destinations m.required_destinations) _ h₆ in
      let (rows, _, h₈) = >>=-eq-ok (expected_artifact_rows m) _ h₇ in
      (agrees m same counts, ds, check_artifacts-IsIntact m rows m.files h₈)
    where
      agrees :
          (m : Manifest)
          → (str_eq m.source_id c.source_id
              && str_eq m.stream_id c.stream_id
              && str_eq m.archive_date c.archive_date
              && m.revision == c.revision)
            ≡ true
          → (length m.input_captures == m.captured_responses
              && m.captured_responses == c.rows
              && m.entity_total == c.entities)
            ≡ true
          → Agrees m c
      agrees m same counts =
          let source : str_eq m.source_id c.source_id ≡ true = ground (arith, same) in
          let stream : str_eq m.stream_id c.stream_id ≡ true = ground (arith, same) in
          let date : str_eq m.archive_date c.archive_date ≡ true = ground (arith, same) in
          (
            str_eq→eq _ _ source,
            str_eq→eq _ _ stream,
            str_eq→eq _ _ date,
            ground (arith, same),
            ground (arith, counts),
            ground (arith, counts),
            ground (arith, counts),
          )

-- A row that VerifyDirectory accepts has a directory with a manifest that agrees with the row in
-- its identity and its counts, and every artifact that the manifest lists is a regular file there
-- whose content has the hash and the size that the row records.
pub verify_directory-IsIntact :
    (sha256 : List ℕ → String) (disk : String → Option Directory) (c : Compaction)
    → verify_directory sha256 disk c ≡ ok tt
    → (d : Directory) × (m : Manifest) × (disk c.manifest_path ≡ some d)
      × (d.manifest ≡ some m)
      × Agrees m c
      × All (IsIntact sha256 d c) m.files
unfolding verify_directory verify_at verify_in
verify_directory-IsIntact sha256 disk c h = found (disk c.manifest_path) refl h
  where
    checked :
        (d : Directory) (m : Option Manifest)
        → disk c.manifest_path ≡ some d
        → d.manifest ≡ m
        → verify_in sha256 d m c ≡ ok tt
        → (d : Directory) × (m : Manifest) × (disk c.manifest_path ≡ some d)
          × (d.manifest ≡ some m)
          × Agrees m c
          × All (IsIntact sha256 d c) m.files
    checked d none e k h = absurd (ground arith)
    checked d (some m) e k h =
        let (agrees, _, intact) = verify_manifest-IsChecked sha256 d c m h in
        (d, m, e, k, agrees, intact)

    found :
        (o : Option Directory)
        → disk c.manifest_path ≡ o
        → verify_at sha256 o c ≡ ok tt
        → (d : Directory) × (m : Manifest) × (disk c.manifest_path ≡ some d)
          × (d.manifest ≡ some m)
          × Agrees m c
          × All (IsIntact sha256 d c) m.files
    found none e h = absurd (ground arith)
    found (some d) e h = checked d d.manifest e refl h
