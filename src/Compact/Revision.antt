-- ===== src/Compact/Revision.antt =====
-- internal/compact/compact.go, Compact: the revision that a run prepares.
use gtfs_rt_archiver.Base.{
  ℕ, List, [], ◌∷◌, ◌++◌, map, Bool, true, false, some, String, Result, ok, err, ok-injective,
  >>=-eq-ok, ◌≡◌, refl, ap, sym, ◌∙◌, subst, arith, ◌⊎◌, inl, inr, length, length-map, codes,
  All-where_rows, guard, not,
}
use gtfs_rt_archiver.Base.Pairs.{where_rows-Pairwise, sort-All, sort-Pairwise}
use gtfs_rt_archiver.Clock.{Time}
use gtfs_rt_archiver.Config.{Config}
use gtfs_rt_archiver.Model.{Capture, Manifest, Compaction, Artifact}
use gtfs_rt_archiver.State.Captures.{captures_for_day, capture_of_day, schedule_le}
use gtfs_rt_archiver.State.Tables.{Store}
use gtfs_rt_archiver.Compact.Library.{Library, RawRead, IsSound, Entry}
use gtfs_rt_archiver.Compact.Accounts.{
  manifest_destinations, destination_map, account_all, input_capture,
}
use gtfs_rt_archiver.Compact.Verify.{verify_manifest}
use gtfs_rt_archiver.Compact.Run.{
  Request, Environment, Day, CompactError, Revision, new_manifest, revision_directory,
  revision_exists, without_captures, with_written, artifact_of, with_artifact, new_compaction,
  publish_locally, revision_of, select_day, day_texts, day_captures, day_manifest, finish,
  write_revision, prepare_day, prepare,
}
use gtfs_rt_archiver.Compact.Totals.{Identity, identity, account_all-Counts}
use gtfs_rt_archiver.Compact.Artifacts.{IsArtifact, with_artifact-IsArtifact}
use gtfs_rt_archiver.Compact.Accepted.{Describes}
use gtfs_rt_archiver.Compact.Names.{base_name-artifact}
use gtfs_rt_archiver.Upload.Publish.{base_name}
use gtfs_rt_archiver.Compact.Ready.{IsNew, HasIds, written-accepted, empty-accepted}

captures_for_day-HasIds :
    (s : Store) (source stream date : String)
    → HasIds (λ c. c.id) s.captures
    → HasIds (λ c. c.id) (captures_for_day s source stream date)
unfolding captures_for_day
captures_for_day-HasIds s source stream date h =
    let of_day = capture_of_day source stream date in
    (
      sort-All schedule_le _ _ (All-where_rows _ of_day s.captures h.0),
      sort-Pairwise schedule_le _ (λ a b k e. k (sym e)) _
          (where_rows-Pairwise _ of_day s.captures h.1),
    )

pub new_compaction-Describes :
    (m : Manifest) (path : String) (count : ℕ)
    → Describes m path count (new_compaction m path m.files count)
unfolding new_compaction
new_compaction-Describes m path count = record {
  source_id = refl;
  stream_id = refl;
  archive_date = refl;
  revision = refl;
  rows = refl;
  entities = refl;
  directory = refl;
  data_path = refl;
  data_sha256 = refl;
  data_bytes = refl;
}

pub publish_locally-Describes :
    (allowed : Bool) (required : List String) (created : Time) (m : Manifest) (path : String)
    (count : ℕ) (c : Compaction)
    → Describes m path count c
    → Describes m path count (publish_locally allowed required created c)
unfolding publish_locally
publish_locally-Describes true [] created m path count c h = record {
  source_id = h.source_id;
  stream_id = h.stream_id;
  archive_date = h.archive_date;
  revision = h.revision;
  rows = h.rows;
  entities = h.entities;
  directory = h.directory;
  data_path = h.data_path;
  data_sha256 = h.data_sha256;
  data_bytes = h.data_bytes;
}
publish_locally-Describes true (d ∷ ds) created m path count c h = h
publish_locally-Describes false required created m path count c h = h

-- The directory that is named by the source, the stream, the date and the revision.
abbrev pub IsPlaced : String → Identity → Type 0
IsPlaced path k = path ≡ revision_directory k.source_id k.stream_id k.archive_date k.revision

-- A revision as Compact commits it: its directory, what its manifest counts, its one artifact if there
-- is one, its row and its destinations.
pub record IsRevision (l : Library) (cfg : Config) (r : Revision) : Type 0 where
  pub accepts :
      (c : Compaction)
      → Describes r.manifest r.path (length r.captures) c
      → verify_manifest l.sha256 r.directory r.manifest c ≡ ok tt
  pub manifest : r.directory.manifest ≡ some r.manifest
  pub placed : IsPlaced r.path (identity r.manifest)
  pub captured : r.manifest.captured_responses ≡ length r.captures
  pub listed : length r.manifest.input_captures ≡ length r.captures
  pub files :
      (r.manifest.files ≡ [])
      ⊎ ((a : Artifact) × (r.manifest.files ≡ a ∷ [])
          × (base_name (codes a.relative_path) ≡ codes a.relative_path))
  pub compaction :
      r.compaction
      ≡ publish_locally cfg.allow_local_only_cleanup r.manifest.required_destinations
          r.manifest.created_at
          (new_compaction r.manifest r.path r.manifest.files (length r.captures))
  pub destinations : r.destinations ≡ destination_map cfg.destinations []
  pub snapshot : r.manifest.destinations ≡ manifest_destinations cfg.destinations

publish_locally-manifest_path :
    (allowed : Bool) (required : List String) (created : Time) (c : Compaction)
    → (publish_locally allowed required created c).manifest_path ≡ c.manifest_path
unfolding publish_locally
publish_locally-manifest_path true [] created c = refl
publish_locally-manifest_path true (d ∷ ds) created c = refl
publish_locally-manifest_path false required created c = refl

module _ (l : Library) (sound : IsSound l) (cfg : Config)
    (destination_ids : HasIds (λ d. d.id) cfg.destinations) where
  artifact-IsRevision :
      (raw : String → RawRead) (path : String) (captures : List Capture) (m m' : Manifest)
      (files : List (String × Entry))
      → IsNew cfg.destinations captures m
      → HasIds (λ c. c.id) captures
      → IsPlaced path (identity m)
      → IsArtifact l sound cfg raw captures m (m', files)
      → IsRevision l cfg (revision_of cfg path captures (account_all captures m') files)
  unfolding account_all with_written without_captures revision_of artifact_of
  artifact-IsRevision raw path captures m m' files new ids placed (inl (e, e', e'')) =
      let none_captured : (without_captures m).captured_responses ≡ 0 =
        new.captured_responses ∙ ap length e in
      let empty : IsRevision l cfg (revision_of cfg path [] (without_captures m) files) = record {
        accepts = λ c describes.
            empty-accepted l sound cfg raw cfg.destinations captures m new destination_ids ids _ c
              path e
              (subst (λ k. Describes (without_captures m) path k c) (sym none_captured) describes);
        manifest = refl;
        placed = placed;
        captured = none_captured;
        listed = ap length new.input_captures;
        files = inl new.files;
        compaction = refl;
        destinations = refl;
        snapshot = new.destinations;
      } in
      subst (λ cs. IsRevision l cfg (revision_of cfg path cs (account_all cs m') files)) (sym e)
        (subst (λ n. IsRevision l cfg (revision_of cfg path [] n files)) (sym e') empty)
  artifact-IsRevision raw path captures m m' files new ids placed
        (inr (w, written, nonempty, e', e'')) =
      let (same, inputs, _, _, _, _) = account_all-Counts captures m' in
      let none_listed : m'.input_captures ≡ [] =
        ap (λ k. k.input_captures) e' ∙ new.input_captures in
      let listed : (account_all captures m').input_captures ≡ map input_capture captures =
        inputs ∙ ap (λ is. is ++ map input_capture captures) none_listed in
      let captured : (account_all captures m').captured_responses ≡ length captures =
        ap (λ k. k.captured_responses) same
        ∙ ap (λ k. k.captured_responses) e'
        ∙ new.captured_responses in
      record {
        accepts = λ c describes.
            written-accepted l sound cfg raw cfg.destinations captures m new destination_ids ids w
              (account_all captures m') _ c path written nonempty (same ∙ ap identity e') listed e''
              (subst (λ k. Describes (account_all captures m') path k c) (sym captured) describes);
        manifest = refl;
        placed =
            placed
            ∙ sym (
                ap (λ k. revision_directory k.source_id k.stream_id k.archive_date k.revision)
                  (same ∙ ap identity e'));
        captured = captured;
        listed = ap length listed ∙ length-map input_capture captures;
        files = inr (
          artifact_of l.sha256 w,
          ap (λ k. k.files) (same ∙ ap identity e'),
          base_name-artifact (l.sha256 w.file) (sound.hexadecimal w.file),
        );
        compaction = refl;
        destinations = refl;
        snapshot = ap (λ k. k.destinations) (same ∙ ap identity e') ∙ new.destinations;
      }

  day_manifest-IsNew :
      (env : Environment) (s : Store) (req : Request) (day : Day) (texts : String × String)
      → IsNew cfg.destinations (day_captures s req day) (day_manifest cfg env s req day texts)
  unfolding day_manifest new_manifest
  day_manifest-IsNew env s req day (url, attribution) = record {
    manifest_version = refl;
    format_version = refl;
    dataset_status = refl;
    schema_version = refl;
    captured_responses = refl;
    input_captures = refl;
    excluded_captures = refl;
    files = refl;
    required_destinations = refl;
    destinations = refl;
  }

  finish-IsRevision :
      (raw : String → RawRead) (path : String) (captures : List Capture) (m : Manifest)
      (written : Result CompactError (Manifest × List (String × Entry))) (r : Revision)
      → IsNew cfg.destinations captures m
      → HasIds (λ c. c.id) captures
      → IsPlaced path (identity m)
      → with_artifact l cfg raw captures m ≡ written
      → finish cfg path captures written ≡ ok r
      → IsRevision l cfg r
  unfolding finish
  finish-IsRevision raw path captures m (err e) r new ids placed k h = absurd (ground arith)
  finish-IsRevision raw path captures m (ok (m', files)) r new ids placed k h =
      subst (IsRevision l cfg) (ok-injective h) (
        artifact-IsRevision raw path captures m m' files new ids placed
          (with_artifact-IsArtifact l sound cfg raw captures m (m', files) k))

  prepare_day-IsRevision :
      (env : Environment) (s : Store) (req : Request) (day : Day) (r : Revision)
      → HasIds (λ c. c.id) s.captures
      → prepare_day l cfg env s req day ≡ ok r
      → IsRevision l cfg r
  unfolding prepare_day write_revision
  prepare_day-IsRevision env s req day r ids h =
      let path = revision_directory day.source.id day.stream.id req.date day.revision in
      let (_, _, h₁) = >>=-eq-ok (guard (not (env.is_taken path)) revision_exists) _ h in
      let (texts, _, h₂) = >>=-eq-ok (day_texts env day (day_captures s req day)) _ h₁ in
      finish-IsRevision env.raw path (day_captures s req day) (day_manifest cfg env s req day texts)
        _ r (day_manifest-IsNew env s req day texts)
        (unfold day_captures in captures_for_day-HasIds s day.source.id day.stream.id req.date ids)
        (unfold day_manifest new_manifest in refl) refl h₂

  pub prepare-IsRevision :
      (env : Environment) (s : Store) (req : Request) (r : Revision)
      → HasIds (λ c. c.id) s.captures
      → prepare l cfg env s req ≡ ok r
      → IsRevision l cfg r
  unfolding prepare
  prepare-IsRevision env s req r ids h =
      let (day, _, k) = >>=-eq-ok (select_day cfg env s req) _ h in
      prepare_day-IsRevision env s req day r ids k
