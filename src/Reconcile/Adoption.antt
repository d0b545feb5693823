-- ===== src/Reconcile/Adoption.antt =====
-- internal/reconcile/reconcile.go: a revision that Compact committed, and whose row is not in the
-- database, is adopted as Compact would have recorded it.
use gtfs_rt_archiver.Base.{
  ℕ, List, [], ◌∷◌, map, Bool, true, false, Option, some, String, eq_refl, ok, ◌≡◌, refl, ap, sym,
  ◌∙◌, subst, inl, inr, codes, length,
}
use gtfs_rt_archiver.Clock.{Time}
use gtfs_rt_archiver.Config.{Config}
use gtfs_rt_archiver.Model.{Manifest, Compaction, Artifact}
use gtfs_rt_archiver.State.Compactions.{has_compaction, adopt_compaction}
use gtfs_rt_archiver.Upload.Publish.{base_name}
use gtfs_rt_archiver.Compact.Library.{Library, Directory, IsSound}
use gtfs_rt_archiver.State.Tables.{Store}
use gtfs_rt_archiver.Compact.Ready.{HasIds}
use gtfs_rt_archiver.Compact.Sound.{compact-IsRevision}
use gtfs_rt_archiver.Compact.Accepted.{Describes, ==_refl}
use gtfs_rt_archiver.Compact.Checks.{same_bytes_refl}
use gtfs_rt_archiver.Compact.Run.{
  Revision, Request, Environment, compact, new_compaction, publish_locally, data_path_of,
  data_sha256_of, data_bytes_of,
}
use gtfs_rt_archiver.Compact.Revision.{IsRevision, new_compaction-Describes}
use gtfs_rt_archiver.Compact.Verify.{join_path, verify_directory, verify_at, verify_in}
use gtfs_rt_archiver.Reconcile.{
  Reconciled, is_complete, is_in_place, row_of_manifest, with_basename, with_files, destinations_of,
  adopted_or, adopt_verified, adopt_row, adopt_manifest, visit_known, visit_manifest, manifest_in,
  visit,
}

-- The row that reconciliation makes of a manifest: it does not count the excluded captures.
abbrev pub uncounted : Compaction → Compaction
uncounted c = record c { excluded_captures = 0 }

row_for : Manifest → String → List Artifact → ℕ → Compaction
row_for m path files count = uncounted (new_compaction m path files count)

module _ (m : Manifest) (path : String) (count : ℕ) (captured : m.captured_responses ≡ count) where
  with_files-empty : with_files path [] (row_of_manifest path m) ≡ some (row_for m path [] count)
  unfolding with_files row_of_manifest row_for new_compaction data_path_of data_sha256_of
      data_bytes_of
  with_files-empty = rw captured refl

  with_files-one :
      (a : Artifact)
      → base_name (codes a.relative_path) ≡ codes a.relative_path
      → with_files path (a ∷ []) (row_of_manifest path m) ≡ some (row_for m path (a ∷ []) count)
  unfolding with_files with_basename row_of_manifest row_for new_compaction data_path_of
      data_sha256_of data_bytes_of
  with_files-one a basename =
      rw (basename, same_bytes_refl (codes a.relative_path), with_basename, captured) refl

publish_locally-uncounted :
    (allowed : Bool) (required : List String) (created : Time) (c : Compaction)
    → publish_locally allowed required created (uncounted c)
      ≡ uncounted (publish_locally allowed required created c)
unfolding publish_locally
publish_locally-uncounted true [] created c = refl
publish_locally-uncounted true (d ∷ ds) created c = refl
publish_locally-uncounted false required created c = refl

uncounted-Describes :
    (m : Manifest) (path : String) (count : ℕ) (c : Compaction)
    → Describes m path count c
    → Describes m path count (uncounted c)
uncounted-Describes m path count c h = record {
  source_id = h.source_id;
  stream_id = h.stream_id;
  archive_date = h.archive_date;
  revision = h.revision;
  rows = h.rows;
  entities = h.entities;
  directory = h.directory;
  data_path = h.data_path;
  data_sha256 = h.data_sha256;
  data_bytes = h.data_bytes;
}

module _ (l : Library) (cfg : Config) (r : Revision) (revision : IsRevision l cfg r) where
  row : Compaction
  row = row_for r.manifest r.path r.manifest.files (length r.captures)

  with_files-row : with_files r.path r.manifest.files (row_of_manifest r.path r.manifest) ≡ some row
  unfolding row
  with_files-row = elim revision.files [
    | inl e ↦
        subst
          (λ fs.
            with_files r.path fs (row_of_manifest r.path r.manifest)
            ≡ some (row_for r.manifest r.path fs (length r.captures)))
          (sym e) (with_files-empty r.manifest r.path (length r.captures) revision.captured)
    | inr (a, e, basename) ↦
        subst
          (λ fs.
            with_files r.path fs (row_of_manifest r.path r.manifest)
            ≡ some (row_for r.manifest r.path fs (length r.captures)))
          (sym e)
          (with_files-one r.manifest r.path (length r.captures) revision.captured a basename)
  ]

  row-verified :
      (disk : String → Option Directory)
      → disk (join_path r.path "manifest.json") ≡ some r.directory
      → verify_directory l.sha256 disk row ≡ ok tt
  unfolding verify_directory verify_at verify_in row row_for new_compaction
  row-verified disk e =
      rw (e, verify_at, revision.manifest, verify_in)
        (revision.accepts _ (
          uncounted-Describes r.manifest r.path (length r.captures) _ (
            unfold new_compaction in
            new_compaction-Describes r.manifest r.path (length r.captures))))

  row-published :
      publish_locally cfg.allow_local_only_cleanup r.manifest.required_destinations
        r.manifest.created_at row
      ≡ uncounted r.compaction
  unfolding row row_for
  row-published =
      publish_locally-uncounted cfg.allow_local_only_cleanup r.manifest.required_destinations
        r.manifest.created_at _
      ∙ ap uncounted (sym revision.compaction)

  in_place : is_in_place r.path r.manifest ≡ true
  unfolding is_in_place
  in_place =
      rw
        (
          ← revision.placed,
          eq_refl r.path,
          revision.listed,
          revision.captured,
          ==_refl (length r.captures),
        )
        refl

  -- What the walk does with such a revision.
  revision-adopted :
      (disk : String → Option Directory) (now : Time) (state : Reconciled)
      → disk (join_path r.path "manifest.json") ≡ some r.directory
      → is_complete r.manifest ≡ true
      → has_compaction state.store r.manifest.source_id r.manifest.stream_id r.manifest.archive_date
          r.manifest.revision
        ≡ false
      → visit l.sha256 disk cfg now state (manifest_in r.path (some r.manifest))
        ≡ adopted_or state (
            adopt_compaction state.store
              (uncounted r.compaction)
              r.manifest.input_captures
              (map (λ e. e.id) r.manifest.excluded_captures)
              (destinations_of r.manifest)
              now)
  unfolding visit visit_manifest visit_known adopt_manifest adopt_row adopt_verified
  revision-adopted disk now state e complete unknown =
      rw
        (
          complete,
          visit_manifest,
          unknown,
          visit_known,
          in_place,
          adopt_manifest,
          with_files-row,
          adopt_row,
          row-verified disk e,
          adopt_verified,
          row-published,
        )
        refl

-- A revision that Compact committed and that the database has no row for is never counted as
-- corrupt: where the walk finds its manifest, complete, on a disk that has its directory, the next
-- step is to adopt the row that Compact made, but for the count of its excluded captures, which no
-- table keeps. This holds where the Parquet library reads back what the columns of the rows
-- written keep and SHA-256 is given in hexadecimal, and where in the run of Compact no two
-- destinations and no two captures have one id and none has an empty one.
pub visit-adopts :
    (l : Library) (cfg : Config) (env : Environment) (s : Store) (req : Request) (r : Revision)
    (disk : String → Option Directory) (now : Time) (state : Reconciled)
    → IsSound l
    → HasIds (λ d. d.id) cfg.destinations
    → HasIds (λ c. c.id) s.captures
    → (compact l cfg env s req).committed ≡ some r
    → disk (join_path r.path "manifest.json") ≡ some r.directory
    → is_complete r.manifest ≡ true
    → has_compaction state.store r.manifest.source_id r.manifest.stream_id r.manifest.archive_date
        r.manifest.revision
      ≡ false
    → visit l.sha256 disk cfg now state (manifest_in r.path (some r.manifest))
      ≡ adopted_or state (
          adopt_compaction state.store
            (uncounted r.compaction)
            r.manifest.input_captures
            (map (λ e. e.id) r.manifest.excluded_captures)
            (destinations_of r.manifest)
            now)
visit-adopts l cfg env s req r disk now state sound destination_ids ids committed =
    revision-adopted l cfg r
      (compact-IsRevision l sound cfg destination_ids env s req r ids committed) disk now state
