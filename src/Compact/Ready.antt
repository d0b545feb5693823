-- ===== src/Compact/Ready.antt =====
-- internal/compact/compact.go: the manifests that Compact makes, with captures and without, pass the checks of
-- VerifyDirectory.
use gtfs_rt_archiver.Base.{
  ℕ, ◌+◌, ◌-◌, List, [], ◌∷◌, map, Bool, true, false, not, String, str_eq, ok, ◌≡◌, ◌≢◌, refl, ap,
  sym, ◌∙◌, subst, arith, inl, inr, leb, length, length-map, All, All-where_rows,
  All-where_rows_test, where_rows, Bool-cases, any,
}
use gtfs_rt_archiver.Base.Pairs.{Pairwise, where_rows-Pairwise, sort-All, sort-Pairwise}
use gtfs_rt_archiver.Config.{Config, Destination}
use gtfs_rt_archiver.Model.{
  Capture, Manifest, Artifact, Compaction, manifest_format_version, parquet_format_version,
  is_supported_parquet_schema_version,
}
use gtfs_rt_archiver.State.Tables.{is_empty}
use gtfs_rt_archiver.Compact.Library.{Library, RawRead, IsSound, Directory, regular}
use gtfs_rt_archiver.Compact.Accounts.{
  schema_version_for_kind, required_destination_ids, manifest_destinations, snapshot, input_capture,
  destination_le,
}
use gtfs_rt_archiver.Compact.Verify.{
  artifact_name, expected_artifact_rows, check_excluded, check_status, check_destinations,
  check_artifact, check_artifacts, verify_manifest,
}
use gtfs_rt_archiver.Compact.Run.{without_captures, with_written, Written, artifact_of}
use gtfs_rt_archiver.Compact.Partition.{is_readable, exclusions_in}
use gtfs_rt_archiver.Compact.Totals.{identity}
use gtfs_rt_archiver.Compact.Snapshot.{required_in-manifest}
use gtfs_rt_archiver.Compact.Checks.{
  check_excluded-accepts, check_destinations-accepts, mem_text-ids, none_seen,
}
use gtfs_rt_archiver.Compact.Artifacts.{RowsFor, IsWritten}
use gtfs_rt_archiver.Compact.Accepted.{Describes, verify_manifest-accepts, check_artifact-accepts}

-- A manifest as Compact begins it.
pub record IsNew (ds : List Destination) (captures : List Capture) (m : Manifest) : Type 0 where
  pub manifest_version : m.manifest_version ≡ manifest_format_version
  pub format_version : m.format_version ≡ parquet_format_version
  pub dataset_status : m.dataset_status ≡ "ready"
  pub schema_version : m.schema_version ≡ schema_version_for_kind m.expected_kind
  pub captured_responses : m.captured_responses ≡ length captures
  pub input_captures : m.input_captures ≡ []
  pub excluded_captures : m.excluded_captures ≡ []
  pub files : m.files ≡ []
  pub required_destinations : m.required_destinations ≡ required_destination_ids ds
  pub destinations : m.destinations ≡ manifest_destinations ds

-- What validation of the configuration and the primary key of the captures guarantee of ids.
abbrev pub HasIds {ℓ} : {A : Type ℓ} → (A → String) → List A → Type 0
HasIds id rows = All (λ a. is_empty (id a) ≡ false) rows × Pairwise (λ a b. id b ≢ id a) rows

schema_version_for_kind-supported :
    (kind : String) → is_supported_parquet_schema_version (schema_version_for_kind kind) ≡ true
unfolding is_supported_parquet_schema_version schema_version_for_kind any
schema_version_for_kind-supported kind = elim (Bool-cases (str_eq kind "trip_update")) [
  | inl e ↦ rw e refl
  | inr e ↦ rw e refl
]

snapshots : (ds : List Destination) → HasIds (λ d. d.id) ds → HasIds (λ d. d.id) (map snapshot ds)
unfolding snapshot
snapshots [] h = (tt, tt)
snapshots (d ∷ ds) (n, k) =
    let rest = snapshots ds (n.1, k.1) in ((n.0, rest.0), (apart ds k.0, rest.1))
  where
    apart :
        (es : List Destination)
        → All (λ e. e.id ≢ d.id) es
        → All (λ e. e.id ≢ d.id) (map snapshot es)
    apart [] h = tt
    apart (e ∷ es) h = (h.0, apart es h.1)

destinations-accepted :
    (ds : List Destination)
    → HasIds (λ d. d.id) ds
    → check_destinations (manifest_destinations ds) (required_destination_ids ds) ≡ ok tt
unfolding manifest_destinations
destinations-accepted ds h =
    let (n, k) = snapshots ds h in
    check_destinations-accepts (manifest_destinations ds) (required_destination_ids ds)
      (sort-All destination_le _ (map snapshot ds) n)
      (sort-Pairwise destination_le _ (λ a b p e. p (sym e)) (map snapshot ds) k)
      (required_in-manifest ds)

length-split :
    (p : Capture → Bool) (cs : List Capture)
    → length (where_rows p cs) + length (where_rows (λ c. not (p c)) cs) ≡ length cs
unfolding where_rows
length-split p [] = omega arith
length-split p (c ∷ cs) = ground (arith, length-split p cs)

module _ (l : Library) (sound : IsSound l) (cfg : Config) (raw : String → RawRead) where
  rows-accepted :
      (trip_update : Bool) (n : Manifest) (w : Written)
      → str_eq n.expected_kind "trip_update" ≡ trip_update
      → RowsFor l sound cfg raw trip_update w
      → n.schema_version ≡ schema_version_for_kind n.expected_kind
      → n.stop_time_update_total ≡ w.stop_time_update_total
      → n.captured_responses - length n.excluded_captures ≡ length w.included
      → expected_artifact_rows n ≡ ok w.rows
  unfolding expected_artifact_rows schema_version_for_kind
  rows-accepted true n w kind rows schema total included = rw (schema, kind, total, rows.0) refl
  rows-accepted false n w kind rows schema total included = rw (schema, kind, included, rows.1) refl

  -- The captures that are not included.
  excluded-accepted :
      (cs : List Capture)
      → HasIds (λ c. c.id) cs
      → check_excluded (map (λ i. i.id) (map input_capture cs)) [] (exclusions_in l raw cs) ≡ ok tt
  excluded-accepted cs h =
      let unread = λ (c : Capture). not (is_readable l raw c) in
      check_excluded-accepts l raw (map (λ i. i.id) (map input_capture cs)) (where_rows unread cs)
        [] (All-where_rows_test _ unread (λ c e. ground (arith, e)) cs)
        (All-where_rows _ unread cs h.0) (All-where_rows _ unread cs (mem_text-ids cs))
        (where_rows-Pairwise _ unread cs h.1) (none_seen (where_rows unread cs))

  positive : (cs : List Capture) → cs ≢ [] → leb (length cs) 0 ≡ false
  positive [] h = absurd (h refl)
  positive (c ∷ cs) h = ground arith

  status-accepted :
      (n : Manifest) (w : Written)
      → n.dataset_status ≡ "ready"
      → n.captured_responses - length n.excluded_captures ≡ length w.included
      → w.included ≢ []
      → n.files ≡ artifact_of l.sha256 w ∷ []
      → check_status n ≡ ok tt
  unfolding check_status
  status-accepted n w status included nonempty files =
      rw (status, included, positive w.included nonempty, files) refl

  artifacts-accepted :
      (n : Manifest) (d : Directory) (c : Compaction) (w : Written) (files : List Artifact)
      → files ≡ artifact_of l.sha256 w ∷ []
      → check_artifact l.sha256 d n c w.rows (artifact_of l.sha256 w) ≡ ok tt
      → check_artifacts l.sha256 d n c w.rows files ≡ ok tt
  unfolding check_artifacts
  artifacts-accepted n d c w files e accepted =
      subst (λ fs. check_artifacts l.sha256 d n c w.rows fs ≡ ok tt) (sym e) (rw accepted refl)

  empty_rows-accepted :
      (m : Manifest)
      → m.schema_version ≡ schema_version_for_kind m.expected_kind
      → (n : ℕ) × (expected_artifact_rows (without_captures m) ≡ ok n)
  unfolding expected_artifact_rows without_captures schema_version_for_kind
  empty_rows-accepted m schema = elim (Bool-cases (str_eq m.expected_kind "trip_update")) [
    | inl e ↦ (0, rw (schema, e) refl)
    | inr e ↦ (m.captured_responses - length m.excluded_captures, rw (schema, e) refl)
  ]

  -- The manifest of a day with captures, once they are accounted for.
  module _ (ds : List Destination) (captures : List Capture) (m : Manifest)
      (new : IsNew ds captures m) (destination_ids : HasIds (λ d. d.id) ds)
      (capture_ids : HasIds (λ c. c.id) captures) where
    pub written-accepted :
        (w : Written) (n : Manifest) (d : Directory) (c : Compaction) (path : String)
        → IsWritten l sound cfg raw (str_eq m.expected_kind "trip_update") captures w
        → w.included ≢ []
        → identity n ≡ identity (with_written l.sha256 m w)
        → n.input_captures ≡ map input_capture captures
        → d.files ≡ (artifact_name (l.sha256 w.file), regular w.file) ∷ []
        → Describes n path n.captured_responses c
        → verify_manifest l.sha256 d n c ≡ ok tt
    unfolding with_written
    written-accepted w n d c path ((i, x, total), rows) nonempty same inputs files describes =
        let kind : n.expected_kind ≡ m.expected_kind = ap (λ k. k.expected_kind) same in
        let schema : n.schema_version ≡ schema_version_for_kind n.expected_kind =
          ap (λ k. k.schema_version) same
          ∙ new.schema_version
          ∙ ap schema_version_for_kind (sym kind) in
        let excluded : n.excluded_captures ≡ exclusions_in l raw captures =
          ap (λ k. k.excluded_captures) same ∙ x in
        let artifact : n.files ≡ artifact_of l.sha256 w ∷ [] = ap (λ k. k.files) same in
        let captured : n.captured_responses ≡ length captures =
          ap (λ k. k.captured_responses) same ∙ new.captured_responses in
        let split = length-split (is_readable l raw) captures in
        let unread : length n.excluded_captures
            ≡ length (where_rows (λ e. not (is_readable l raw e)) captures) =
          ap length excluded ∙ length-map _ _ in
        let included : n.captured_responses - length n.excluded_captures ≡ length w.included =
          omega (arith, captured, unread, split, ap length i) in
        verify_manifest-accepts l.sha256 d n c path w.rows describes
          (ap (λ k. k.manifest_version) same ∙ new.manifest_version)
          (ap (λ k. k.format_version) same ∙ new.format_version)
          (rw schema (schema_version_for_kind-supported n.expected_kind))
          (ap length inputs ∙ length-map input_capture captures ∙ sym captured)
          (rw (inputs, excluded) (excluded-accepted captures capture_ids))
          (status-accepted n w (ap (λ k. k.dataset_status) same ∙ new.dataset_status) included
            nonempty artifact)
          (rw
            (
              ap (λ k. k.destinations) same ∙ new.destinations,
              ap (λ k. k.required_destinations) same ∙ new.required_destinations,
            )
            (destinations-accepted ds destination_ids))
          (rows-accepted (str_eq m.expected_kind "trip_update") n w
            (ap (λ k. str_eq k "trip_update") kind) rows schema
            (ap (λ k. k.stop_time_update_total) same) included)
          (artifacts-accepted n d c w n.files artifact (
            check_artifact-accepts l d n c path n.captured_responses w (sound.hexadecimal w.file)
              files artifact (ap (λ k. k.entity_total) same) describes))

    -- The manifest of a day without captures.
    pub empty-accepted :
        (d : Directory) (c : Compaction) (path : String)
        → captures ≡ []
        → Describes (without_captures m) path (without_captures m).captured_responses c
        → verify_manifest l.sha256 d (without_captures m) c ≡ ok tt
    unfolding without_captures check_artifacts check_status check_excluded
    empty-accepted d c path none_captured describes =
        let captured : m.captured_responses ≡ 0 =
          new.captured_responses ∙ ap length none_captured in
        let (rows, expected) = empty_rows-accepted m new.schema_version in
        verify_manifest-accepts l.sha256 d (without_captures m) c path rows describes
          new.manifest_version new.format_version
          (rw new.schema_version (schema_version_for_kind-supported m.expected_kind))
          (ap length new.input_captures ∙ sym captured) (rw new.excluded_captures refl)
          (rw (captured, new.files, new.excluded_captures) refl)
          (rw (new.destinations, new.required_destinations)
            (destinations-accepted ds destination_ids))
          expected (rw new.files refl)
