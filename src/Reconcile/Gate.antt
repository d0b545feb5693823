-- ===== src/Reconcile/Gate.antt =====
-- internal/reconcile/reconcile.go: the walk over the revisions keeps the database a reachable one. A
-- revision is adopted as published only where its manifest requires no destination.
use mathlib.Core.Option.{some-injective}
use gtfs_rt_archiver.Base.{
  ℕ, List, [], ◌∷◌, map, Bool, true, false, Option, none, some, String, Result, ok, err, ◌≡◌, refl,
  ap, sym, ◌∙◌, subst, arith, All,
}
use gtfs_rt_archiver.Clock.{Time}
use gtfs_rt_archiver.Config.{Config}
use gtfs_rt_archiver.Model.{Manifest, Compaction, Artifact}
use gtfs_rt_archiver.State.Tables.{Store, StateError}
use gtfs_rt_archiver.Compact.Verify.{
  VerifyError, check_destinations, join_path, verify_directory, verify_at, verify_in,
  verify_manifest,
}
use gtfs_rt_archiver.Compact.Integrity.{verify_manifest-IsChecked}
use gtfs_rt_archiver.Compact.Library.{Directory}
use gtfs_rt_archiver.Compact.Run.{publish_locally}
use gtfs_rt_archiver.State.History.{Reach, after, step, keep, adopt_compaction, NoneRequired}
use gtfs_rt_archiver.Reconcile.Snapshot.{destinations_from-none}
use gtfs_rt_archiver.Reconcile.{
  destinations_from, destinations_of, Visited, manifest_in, link, elsewhere, Reconciled,
  row_of_manifest, with_basename, with_files, is_corrupt, adopted_or, adopt_verified, adopt_row,
  adopt_manifest, is_in_place, is_complete, check_verified, check_existing, visit_known,
  visit_manifest, visit, walk, unless_ended, adopt_revisions,
}

-- The walk reads the manifests of the disk.
abbrev pub Reads : (String → Option Directory) → Visited → Type 0
Reads disk (manifest_in directory (some m)) =
    (d : Directory) × (disk (join_path directory "manifest.json") ≡ some d) × (d.manifest ≡ some m)
Reads disk v = Unit

module _ (sha256 : List ℕ → String) (disk : String → Option Directory) (cfg : Config)
    (now : Time) where
  -- A manifest that is verified at its own path.
  verified-NoneRequired :
      (m : Manifest) (c : Compaction) (d : Directory)
      → disk c.manifest_path ≡ some d
      → d.manifest ≡ some m
      → c.published_at ≡ none
      → verify_directory sha256 disk c ≡ ok tt
      → NoneRequired
          (publish_locally cfg.allow_local_only_cleanup m.required_destinations m.created_at c)
          (destinations_of m)
  unfolding verify_directory verify_at verify_in destinations_of publish_locally
  verified-NoneRequired m c d e k unpublished h =
      let checked : verify_manifest sha256 d m c ≡ ok tt = rw (e, verify_at, k, verify_in) at h in
      let ds = (verify_manifest-IsChecked sha256 d c m checked).1 in
      published cfg.allow_local_only_cleanup m.required_destinations ds
    where
      published :
          (allowed : Bool) (required : List String)
          → check_destinations m.destinations required ≡ ok tt
          → NoneRequired
              (publish_locally allowed required m.created_at c)
              (destinations_from m.destinations required)
      published true [] ds h = destinations_from-none m.destinations ds
      published true (r ∷ rs) ds h = absurd (ground arith)
      published false rs ds h = absurd (ground arith)

  with_basename-unpublished :
      (directory : String) (a : Artifact) (row c : Compaction) (is_basename : Bool)
      → row.published_at ≡ none
      → with_basename directory a row is_basename ≡ some c
      → (c.published_at ≡ none) × (c.manifest_path ≡ row.manifest_path)
  unfolding with_basename
  with_basename-unpublished directory a row c false u h = absurd (ground arith)
  with_basename-unpublished directory a row c true u h =
      subst (λ x. (x.published_at ≡ none) × (x.manifest_path ≡ row.manifest_path))
        (some-injective _ _ h) (u, refl)

  with_files-unpublished :
      (directory : String) (files : List Artifact) (m : Manifest) (c : Compaction)
      → with_files directory files (row_of_manifest directory m) ≡ some c
      → (c.published_at ≡ none) × (c.manifest_path ≡ join_path directory "manifest.json")
  unfolding with_files row_of_manifest
  with_files-unpublished directory [] m c h =
      subst (λ x. (x.published_at ≡ none) × (x.manifest_path ≡ join_path directory "manifest.json"))
        (some-injective _ _ h) (refl, refl)
  with_files-unpublished directory (a ∷ []) m c h =
      with_basename-unpublished directory a (row_of_manifest directory m) c _ refl h
  with_files-unpublished directory (a ∷ b ∷ files) m c h = absurd (ground arith)

  adopted_or-Reach :
      (r : Reconciled) (o : Result StateError Store)
      → Reach r.store
      → Reach (keep r.store o)
      → Reach (adopted_or r o).store
  unfolding adopted_or
  adopted_or-Reach r (err e) h k = h
  adopted_or-Reach r (ok s) h k = k

  adopt_verified-Reach :
      (r : Reconciled) (m : Manifest) (c : Compaction) (d : Directory)
      (o : Result VerifyError (Unit {0}))
      → Reach r.store
      → disk c.manifest_path ≡ some d
      → d.manifest ≡ some m
      → c.published_at ≡ none
      → verify_directory sha256 disk c ≡ o
      → Reach (adopt_verified sha256 disk cfg now r m c o).store
  unfolding adopt_verified is_corrupt step
  adopt_verified-Reach r m c d (err e) h p k u v = h
  adopt_verified-Reach r m c d (ok _) h p k u v = adopted_or-Reach r _ h (
      unfold step in
      after
        (adopt_compaction
          (publish_locally cfg.allow_local_only_cleanup m.required_destinations m.created_at c)
          m.input_captures (map (λ e. e.id) m.excluded_captures) (destinations_of m) now)
        h (verified-NoneRequired m c d p k u v))

  adopt_row-Reach :
      (r : Reconciled) (m : Manifest) (d : Directory) (directory : String) (o : Option Compaction)
      → Reach r.store
      → disk (join_path directory "manifest.json") ≡ some d
      → d.manifest ≡ some m
      → with_files directory m.files (row_of_manifest directory m) ≡ o
      → Reach (adopt_row sha256 disk cfg now r m o).store
  unfolding adopt_row is_corrupt
  adopt_row-Reach r m d directory none h p k e = h
  adopt_row-Reach r m d directory (some c) h p k e =
      let (unpublished, path) = with_files-unpublished directory m.files m c e in
      adopt_verified-Reach r m c d _ h (ap disk path ∙ p) k unpublished refl

  adopt_manifest-Reach :
      (r : Reconciled) (m : Manifest) (d : Directory) (directory : String) (in_place : Bool)
      → Reach r.store
      → disk (join_path directory "manifest.json") ≡ some d
      → d.manifest ≡ some m
      → Reach (adopt_manifest sha256 disk cfg now r directory m in_place).store
  unfolding adopt_manifest is_corrupt
  adopt_manifest-Reach r m d directory false h p k = h
  adopt_manifest-Reach r m d directory true h p k = adopt_row-Reach r m d directory _ h p k refl

  check_verified-store :
      (r : Reconciled) (o : Result VerifyError (Unit {0}))
      → (check_verified sha256 disk cfg now r o).store ≡ r.store
  unfolding check_verified is_corrupt
  check_verified-store r (err e) = refl
  check_verified-store r (ok _) = refl

  check_existing-store :
      (r : Reconciled) (o : Option Compaction)
      → (check_existing sha256 disk cfg now r o).store ≡ r.store
  unfolding check_existing is_corrupt
  check_existing-store r none = refl
  check_existing-store r (some c) = check_verified-store r (verify_directory sha256 disk c)

  visit_known-Reach :
      (r : Reconciled) (m : Manifest) (d : Directory) (directory : String) (known : Bool)
      → Reach r.store
      → disk (join_path directory "manifest.json") ≡ some d
      → d.manifest ≡ some m
      → Reach (visit_known sha256 disk cfg now r directory m known).store
  unfolding visit_known
  visit_known-Reach r m d directory false h p k =
      adopt_manifest-Reach r m d directory (is_in_place directory m) h p k
  visit_known-Reach r m d directory true h p k = subst Reach (sym (check_existing-store r _)) h

  visit_manifest-Reach :
      (r : Reconciled) (m : Manifest) (d : Directory) (directory : String) (complete : Bool)
      → Reach r.store
      → disk (join_path directory "manifest.json") ≡ some d
      → d.manifest ≡ some m
      → Reach (visit_manifest sha256 disk cfg now r directory m complete).store
  unfolding visit_manifest is_corrupt
  visit_manifest-Reach r m d directory false h p k = h
  visit_manifest-Reach r m d directory true h p k = visit_known-Reach r m d directory _ h p k

  visit-Reach :
      (r : Reconciled) (v : Visited)
      → Reads disk v
      → Reach r.store
      → Reach (visit sha256 disk cfg now r v).store
  unfolding visit is_corrupt
  visit-Reach r link reads h = h
  visit-Reach r elsewhere reads h = h
  visit-Reach r (manifest_in directory none) reads h = h
  visit-Reach r (manifest_in directory (some m)) (d, p, k) h =
      visit_manifest-Reach r m d directory (is_complete m) h p k

  unless_ended-Reach :
      (stopped : Option StateError) (r next : Reconciled)
      → Reach r.store
      → Reach next.store
      → Reach (unless_ended sha256 disk cfg now stopped r next).store
  unless_ended-Reach none r next h k = k
  unless_ended-Reach (some e) r next h k = h

  walk-Reach :
      (vs : List Visited) (r : Reconciled)
      → All (Reads disk) vs
      → Reach r.store
      → Reach (walk sha256 disk cfg now vs r).store
  unfolding walk
  walk-Reach [] r reads h = h
  walk-Reach (v ∷ vs) r reads h =
      walk-Reach vs _ reads.1 (unless_ended-Reach r.error r _ h (visit-Reach r v reads.0 h))

  -- The database that reconciliation leaves is reachable where the one it began with is, for every
  -- walk that reads its manifests from the disk: a revision is adopted as published only where no
  -- destination of its upload queue is required.
  pub adopt_revisions-Reach :
      (s : Store) (vs : List Visited)
      → All (Reads disk) vs
      → Reach s
      → Reach (adopt_revisions sha256 disk cfg now s vs).store
  unfolding adopt_revisions
  adopt_revisions-Reach s vs reads h =
      walk-Reach vs (record { store = s; adopted = 0; corrupt = 0; error = none }) reads h
