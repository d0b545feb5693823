-- ===== src/Lifecycle/Cleanup.antt =====
-- internal/lifecycle/retention.go, Cleanup: what a pass deletes, and the database that it leaves.
use gtfs_rt_archiver.Base.{
  ◌+◌, ◌-◌, List, [], ◌∷◌, Bool, false, not, ◌&&◌, Option, none, some, String, any, All, All-append,
  All-mono, Memᴰ, ok, ◌≡◌, refl, ◌⊎◌, inl, inr, Bool-cases, Option-cases, Result-cases, subst, ltb,
}
use gtfs_rt_archiver.Clock.{Time}
use gtfs_rt_archiver.State.Tables.{Store, is_empty}
use gtfs_rt_archiver.State.Captures
use gtfs_rt_archiver.State.Captures.{RetentionCapture}
use gtfs_rt_archiver.State.Retention.{
  RetentionCompaction, SummaryCandidate, raw_retention_candidates, parquet_retention_candidates,
}
use gtfs_rt_archiver.State.Days
use gtfs_rt_archiver.State.Uploads.{gates}
use gtfs_rt_archiver.State.History.{
  Reach, after, step, mark_capture_retained, mark_parquet_retained, summarize_day, record_repair,
}
use gtfs_rt_archiver.State.Release.{
  IsRawReleased, raw_retention_candidates-IsRawReleased, parquet_retention_candidates-settled,
}
use gtfs_rt_archiver.Lifecycle.{
  Removal, refused, absent, removed, Removed, count_removal, remove_files, Source,
  configured_location, CleanupError, not_removed, not_parsed, state, Cleaned, stopped, clean_raw,
  clean_parquet, count_summary, clean_days, unless_error, unless_stopped, record_cleanup, Policy,
  has_required, cleanup,
}

-- Where a pass begins.
abbrev begun : Store → Cleaned
begun s = record {
  store = s;
  deleted = [];
  raw_files = 0;
  parquet_files = 0;
  summarized_days = 0;
  bytes = 0;
  error = none;
}

-- The database after the phase of the raw files.
abbrev pub after_raw : Policy → (String → Removal) → Store → Time → Store
after_raw policy disk s now =
    (clean_raw disk (begun s) (raw_retention_candidates s (now - policy.raw_retention))).store

-- A path of a candidate: of a capture that the database with which the pass begins returns and has
-- released, or of a compaction that the one after the raw files returns, where no required upload waits
-- for it.
abbrev pub IsDeletable : Policy → (String → Removal) → Store → Time → String → Type 0
IsDeletable policy disk s now path =
    ((c : RetentionCapture) × Memᴰ c (raw_retention_candidates s (now - policy.raw_retention))
      × IsRawReleased s (now - policy.raw_retention) c
      × ((path ≡ c.raw_path) ⊎ (path ≡ c.sidecar_path)))
    ⊎ ((c : RetentionCompaction) × Memᴰ c (
          parquet_retention_candidates (after_raw policy disk s now)
            (now - policy.parquet_retention))
        × (any (gates c.id) (after_raw policy disk s now).uploads ≡ false)
        × ((path ≡ c.data_path) ⊎ (path ≡ c.manifest_path)))

remove_files-All :
    (P : String → Type 0) (disk : String → Removal) (paths : List String)
    → All P paths
    → All P (remove_files disk paths).paths
unfolding remove_files
remove_files-All P disk [] h = tt
remove_files-All P disk (path ∷ paths) h = elim (Bool-cases (is_empty path)) [
  | inl e ↦ rw e (remove_files-All P disk paths h.1)
  | inr e ↦ rw e (counted (disk path) (remove_files disk paths) (remove_files-All P disk paths h.1))
]
  where
    counted :
        (r : Removal) (rest : Removed) → All P rest.paths → All P (count_removal path r rest).paths
    counted refused rest k = unfold count_removal in tt
    counted absent rest k = unfold count_removal in k
    counted (removed n) rest k = unfold count_removal in (h.0, k)

module _ (P : String → Type 0) where
  abbrev pub IsSound : Cleaned → Type 0
  IsSound p = Reach p.store × All P p.deleted

  stopped-IsSound :
      (p : Cleaned) (paths : List String) (e : CleanupError)
      → IsSound p
      → All P paths
      → IsSound (stopped p paths e)
  unfolding stopped
  stopped-IsSound p paths e h k = (h.0, All-append P p.deleted paths h.1 k)

  marked-Reach :
      (s t : Store) (id : String) → Captures.mark_capture_retained s id ≡ ok t → Reach s → Reach t
  marked-Reach s t id e r = subst Reach same (after (mark_capture_retained id) r tt)
    where
      same : step s (mark_capture_retained id) ≡ t
      same = unfold step in rw e refl

  clean_raw-IsSound :
      (disk : String → Removal) (cs : List RetentionCapture) (p : Cleaned)
      → IsSound p
      → All (λ c. P c.raw_path × P c.sidecar_path) cs
      → IsSound (clean_raw disk p cs)
  unfolding clean_raw
  clean_raw-IsSound disk [] p h k = h
  clean_raw-IsSound disk (c ∷ cs) p h k =
      let paths = remove_files-All P disk (c.raw_path ∷ c.sidecar_path ∷ []) (k.0.0, (k.0.1, tt)) in
      elim (Bool-cases (remove_files disk (c.raw_path ∷ c.sidecar_path ∷ [])).failed) [
        | inl e ↦ rw e (stopped-IsSound p _ not_removed h paths)
        | inr e ↦ elim (Result-cases (Captures.mark_capture_retained p.store c.id)) [
          | inr (failure, m) ↦ rw (e, m) (stopped-IsSound p _ (state failure) h paths)
          | inl (s, m) ↦
              rw (e, m)
                (clean_raw-IsSound disk cs _
                  (marked-Reach p.store s c.id m h.0, All-append P p.deleted _ h.1 paths) k.1)
        ]
      ]

  clean_parquet-IsSound :
      (disk : String → Removal) (cs : List RetentionCompaction) (p : Cleaned)
      → IsSound p
      → All (λ c. P c.data_path × P c.manifest_path) cs
      → IsSound (clean_parquet disk p cs)
  unfolding clean_parquet
  clean_parquet-IsSound disk [] p h k = h
  clean_parquet-IsSound disk (c ∷ cs) p h k =
      let paths =
        remove_files-All P disk (c.data_path ∷ c.manifest_path ∷ []) (k.0.0, (k.0.1, tt)) in
      elim (Bool-cases (remove_files disk (c.data_path ∷ c.manifest_path ∷ [])).failed) [
        | inl e ↦ rw e (stopped-IsSound p _ not_removed h paths)
        | inr e ↦ rw e (
            clean_parquet-IsSound disk cs _
              (
                unfold step in after (mark_parquet_retained c.id) h.0 tt,
                All-append P p.deleted _ h.1 paths,
              )
              k.1)
      ]

  summarized-Reach :
      (s : Store) (source stream date : String) (start end now : Time) (r : Store × Bool)
      → Days.summarize_day s source stream date start end now ≡ ok r
      → Reach s
      → Reach r.0
  summarized-Reach s source stream date start end now r e reached =
      subst Reach same (after (summarize_day source stream date start end now) reached tt)
    where
      same : step s (summarize_day source stream date start end now) ≡ r.0
      same = unfold step in rw e refl

  module _ {ℓ} {Location : Type ℓ} (sources : List (Source Location))
      (day_of : Location → String → Option (Time × Time)) where
    clean_days-IsSound :
        (now : Time) (ds : List SummaryCandidate) (p : Cleaned)
        → IsSound p
        → IsSound (clean_days sources day_of now p ds)
    unfolding clean_days
    clean_days-IsSound now [] p h = h
    clean_days-IsSound now (d ∷ ds) p h =
        elim (Option-cases (configured_location sources d.source_id d.stream_id)) [
          | inl gone ↦ rw (gone, clean_days) (clean_days-IsSound now ds p h)
          | inr (location, there) ↦ elim (Option-cases (day_of location d.archive_date)) [
            | inl bad ↦ rw (there, bad, clean_days) (stopped-IsSound p [] not_parsed h tt)
            | inr (bounds, parsed) ↦
                elim (Result-cases (
                  Days.summarize_day p.store d.source_id d.stream_id d.archive_date bounds.0
                    bounds.1 now)) [
                      | inr (failure, m) ↦
                          rw (there, parsed, m, clean_days)
                            (stopped-IsSound p [] (state failure) h tt)
                      | inl (r, m) ↦
                          rw (there, parsed, m, clean_days)
                            (clean_days-IsSound now ds (count_summary p r) (
                              unfold count_summary in
                              (
                                summarized-Reach p.store d.source_id d.stream_id d.archive_date
                                    bounds.0 bounds.1 now r m h.0,
                                h.1,
                              )))
                    ]
          ]
        ]

    unless_stopped-IsSound :
        (p : Cleaned) (next : Cleaned → Cleaned)
        → IsSound p
        → (IsSound p → IsSound (next p))
        → IsSound (unless_stopped p next)
    unfolding unless_stopped
    unless_stopped-IsSound p next h k = branch p.error
      where
        branch : (e : Option CleanupError) → IsSound (unless_error e next p)
        branch none = k h
        branch (some e) = h

    record_cleanup-IsSound :
        (counts : String) (now : Time) (p : Cleaned)
        → IsSound p
        → IsSound (record_cleanup counts now p)
    unfolding record_cleanup
    record_cleanup-IsSound counts now p h =
        elim (Bool-cases (ltb 0 (p.raw_files + p.parquet_files + p.summarized_days))) [
          | inl e ↦ rw e (
            unfold step in
                after (record_repair "retention_cleanup" counts "policy elapsed" now) h.0 tt,
            h.1,
          )
          | inr e ↦ rw e h
        ]

-- Each row of a list is a member of it.
All-Memᴰ {ℓ κ} :
    {A : Type ℓ} (P : A → Type κ) (xs : List A) → All P xs → All (λ x. Memᴰ x xs × P x) xs
All-Memᴰ P [] h = tt
All-Memᴰ P (x ∷ xs) h =
    ((Memᴰ.head refl, h.0), All-mono _ _ (λ y k. (Memᴰ.tail k.0, k.1)) xs (All-Memᴰ P xs h.1))

module _ {ℓ} {Location : Type ℓ} (sources : List (Source Location))
    (day_of : Location → String → Option (Time × Time)) (policy : Policy) (disk : String → Removal)
    (s : Store) (now : Time) where
  abbrev IsOfPass : String → Type 0
  IsOfPass = IsDeletable policy disk s now

  raw-IsDeletable :
      Reach s
      → All
          (λ c. IsOfPass c.raw_path × IsOfPass c.sidecar_path)
          (raw_retention_candidates s (now - policy.raw_retention))
  raw-IsDeletable r =
      All-mono _ _ (λ c h. (inl (c, h.0, h.1, inl refl), inl (c, h.0, h.1, inr refl))) _
        (All-Memᴰ _ _ (raw_retention_candidates-IsRawReleased s (now - policy.raw_retention) r))

  parquet-IsDeletable :
      Reach (after_raw policy disk s now)
      → All
          (λ c. IsOfPass c.data_path × IsOfPass c.manifest_path)
          (parquet_retention_candidates
            (after_raw policy disk s now)
            (now - policy.parquet_retention))
  parquet-IsDeletable r =
      All-mono _ _ (λ c h. (inr (c, h.0, h.1, inl refl), inr (c, h.0, h.1, inr refl))) _
        (All-Memᴰ _ _ (parquet_retention_candidates-settled _ (now - policy.parquet_retention) r))

  -- A retention pass over a reached database, whatever the disk answers and wherever it stops,
  -- leaves a reached database, and each path that it deletes is one of two kinds. It is the
  -- payload or the sidecar of a capture that RawRetentionCandidates returns of the database with
  -- which the pass begins, and every compaction that lists this capture was published by then and
  -- has no required upload that is neither verified nor retired; or it is the data or the manifest
  -- of a compaction that ParquetRetentionCandidates returns of the database after the raw files,
  -- which has no such upload there.
  pub cleanup-IsSound :
      (counts : String)
      → Reach s
      → IsSound (IsDeletable policy disk s now) (cleanup policy sources day_of disk counts s now)
  unfolding cleanup
  cleanup-IsSound counts r =
      elim (Bool-cases
        (not (has_required policy.destinations) && not policy.allow_local_only_cleanup)) [
          | inl e ↦ rw e (r, tt)
          | inr e ↦ rw e (
              unless_stopped-IsSound IsOfPass sources day_of _ _
                (unless_stopped-IsSound IsOfPass sources day_of _ _
                  (unless_stopped-IsSound IsOfPass sources day_of _ _
                    (clean_raw-IsSound IsOfPass disk _ (begun s) (r, tt) (raw-IsDeletable r))
                    (λ h. clean_parquet-IsSound IsOfPass disk _ _ h (parquet-IsDeletable h.0)))
                  (λ h. clean_days-IsSound IsOfPass sources day_of now _ _ h))
                (λ h. record_cleanup-IsSound IsOfPass sources day_of counts now _ h))
        ]
