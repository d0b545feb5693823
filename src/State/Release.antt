-- ===== src/State/Release.antt =====
-- What the retention queries let go: only what every required destination has settled.
use gtfs_rt_archiver.Base.{
  ◌/◌, ◌<◌, ◌≤◌, ◌≡◌, ◌≢◌, List, [], ◌∷◌, map, inl, inr, true, false, not, Option, none, some,
  arith, All, any, All-where_rows, Bool-cases, where_rows, Option-cases, any-false-All,
  All-map-where_rows, All-intro, All-where_rows_test,
}
use gtfs_rt_archiver.Clock.{Time, encode_time, stamp_le, second}
use gtfs_rt_archiver.Clock.Compare.{stamp_le_trans, stamp_le_total, stamp_le-second}
use gtfs_rt_archiver.Clock.Order.{year_10000}
use gtfs_rt_archiver.Model.{Capture, Compaction}
use gtfs_rt_archiver.State.Tables.{Store, text_time_le, max_text_time, is_some, is_retained}
use gtfs_rt_archiver.State.Captures.{RetentionCapture, retention_capture}
use gtfs_rt_archiver.State.Uploads.{gates}
use gtfs_rt_archiver.State.Retention.{
  all_published_before, compactions_of, raw_due, raw_retention_candidates, parquet_due,
  parquet_retention_candidates, retention_compaction, summary_candidates, summary_due, same_day,
  days_of, SummaryCandidate,
}
use gtfs_rt_archiver.State.Invariant.{IsGated, IsConsistent}
use gtfs_rt_archiver.State.History.{Reach}
use gtfs_rt_archiver.State.Gate.{Reach-IsConsistent}

-- A row whose time, if it has one, compares at most equal to `before`.
abbrev IsBefore : Time → Option Time → Type 0
IsBefore before none = Unit
IsBefore before (some t) = text_time_le t before ≡ true

max_text_time-none :
    (before : Time) (ts : List (Option Time)) → max_text_time ts ≡ none → All (IsBefore before) ts
unfolding max_text_time
max_text_time-none before [] e = tt
max_text_time-none before (none ∷ ts) e = (tt, max_text_time-none before ts e)
max_text_time-none before (some t ∷ ts) e = elim (Option-cases (max_text_time ts)) [
  | inl k ↦ absurd (ground arith)
  | inr (m, k) ↦ absurd (ground arith)
]

-- The maximum bounds every row.
max_text_time-bounds :
    (before : Time) (ts : List (Option Time)) (m : Time)
    → max_text_time ts ≡ some m
    → text_time_le m before ≡ true
    → All (IsBefore before) ts
unfolding max_text_time text_time_le
max_text_time-bounds before [] m e h = tt
max_text_time-bounds before (none ∷ ts) m e h = (tt, max_text_time-bounds before ts m e h)
max_text_time-bounds before (some t ∷ ts) m e h = elim (Option-cases (max_text_time ts)) [
  | inl k ↦ (ground arith, max_text_time-none before ts k)
  | inr (n, k) ↦ elim (Bool-cases (text_time_le t n)) [
    | inl le ↦
        let same : m ≡ n = ground arith in
        let below : text_time_le n before ≡ true = ground arith in
        (stamp_le_trans _ _ _ le below, max_text_time-bounds before ts n k below)
    | inr gt ↦
        let same : m ≡ t = ground arith in
        let below : text_time_le t before ≡ true = ground arith in
        (
          below,
          max_text_time-bounds before ts n k (stamp_le_trans _ _ _ (stamp_le_total _ _ gt) below),
        )
  ]
]

-- A compaction whose local files the program may let go at `before`: it was published, in a second
-- no later than that of `before`, and no required upload of it is unsettled.
abbrev pub IsReleased : Store → Time → Compaction → Type 0
IsReleased s before c =
    (t : Time) × (c.published_at ≡ some t)
    × (t / second < year_10000 → t / second ≤ before / second)
    × (any (gates c.id) s.uploads ≡ false)

released :
    (s : Store) (before : Time) (c : Compaction)
    → IsGated s.uploads c
    → not (is_some c.published_at) ≡ false
    → IsBefore before c.published_at
    → IsReleased s before c
released s before c g p b = elim (Option-cases c.published_at) [
  | inl e ↦ absurd (ground arith)
  | inr (t, e) ↦ (t, e, λ k. stamp_le-second t before k (in_text t e), g (ground arith))
]
  where
    in_text :
        (t : Time) → c.published_at ≡ some t → stamp_le (encode_time t) (encode_time before) ≡ true
    in_text t e = unfold text_time_le in ground arith

module _ (s : Store) (before : Time) where
  group_released :
      (group : List Compaction)
      → All (IsGated s.uploads) group
      → All (λ c. not (is_some c.published_at) ≡ false) group
      → All (IsBefore before) (map (λ c. c.published_at) group)
      → All (IsReleased s before) group
  group_released [] g p b = tt
  group_released (c ∷ cs) g p b = (released s before c g.0 p.0 b.0, group_released cs g.1 p.1 b.1)

  all_published_before-IsReleased :
      (group : List Compaction)
      → All (IsGated s.uploads) group
      → all_published_before before group ≡ true
      → All (IsReleased s before) group
  unfolding all_published_before
  all_published_before-IsReleased group g h =
      elim (Option-cases (max_text_time (map (λ c. c.published_at) group))) [
        | inl e ↦ absurd (ground arith)
        | inr (m, e) ↦
            group_released group g (any-false-All _ group (ground arith))
              (max_text_time-bounds before _ m e (ground arith))
      ]

-- What a candidate for the deletion of raw files must be.
abbrev pub IsRawReleased : Store → Time → RetentionCapture → Type 0
IsRawReleased s before r =
    (is_retained r.raw_path ≡ false)
    × (compactions_of s r.id ≢ [])
    × All (IsReleased s before) (compactions_of s r.id)

not-empty :
    (before : Time) (group : List Compaction)
    → all_published_before before group ≡ true
    → group ≢ []
unfolding all_published_before any max_text_time
not-empty before [] h e = cc
not-empty before (c ∷ cs) h e = cc

raw_due-IsRawReleased :
    (s : Store) (before : Time) (c : Capture)
    → IsConsistent s
    → raw_due s before c ≡ true
    → IsRawReleased s before (retention_capture c)
unfolding raw_due
raw_due-IsRawReleased s before c v h =
    let published : all_published_before before (compactions_of s c.id) ≡ true = ground arith in
    (
      ground arith,
      not-empty before _ published,
      all_published_before-IsReleased s before _
          (unfold compactions_of in All-where_rows _ _ s.compactions v.gated) published,
    )

-- In every reached database a capture that RawRetentionCandidates returns still has its raw files,
-- is listed by a compaction, and every compaction that lists it was published, in a second no
-- later than that of the date given where it is before the year 10000, and has no required upload
-- that is neither verified nor retired.
pub raw_retention_candidates-IsRawReleased :
    (s : Store) (before : Time)
    → Reach s
    → All (IsRawReleased s before) (raw_retention_candidates s before)
unfolding raw_retention_candidates
raw_retention_candidates-IsRawReleased s before r =
    All-map-where_rows (λ _. Unit {0}) (IsRawReleased s before) (raw_due s before) retention_capture
      (λ c _ due. raw_due-IsRawReleased s before c (Reach-IsConsistent r) due) s.captures
      (All-intro _ (λ _. tt) s.captures)

parquet_due-IsReleased :
    (s : Store) (before : Time) (c : Compaction)
    → IsGated s.uploads c
    → parquet_due before c ≡ true
    → any (gates c.id) s.uploads ≡ false
unfolding parquet_due
parquet_due-IsReleased s before c g h = g (ground arith)

-- In every reached database a compaction that ParquetRetentionCandidates returns has no required
-- upload that is neither verified nor retired.
pub parquet_retention_candidates-settled :
    (s : Store) (before : Time)
    → Reach s
    → All (λ r. any (gates r.id) s.uploads ≡ false) (parquet_retention_candidates s before)
unfolding parquet_retention_candidates
parquet_retention_candidates-settled s before r =
    All-map-where_rows (IsGated s.uploads) _ (parquet_due before) retention_compaction
      (λ c g due. parquet_due-IsReleased s before c g due) s.compactions
      (Reach-IsConsistent r).gated

summary_due-IsReleased :
    (s : Store) (before : Time) (d : SummaryCandidate)
    → IsConsistent s
    → summary_due s before d ≡ true
    → (where_rows (same_day d) s.compactions ≢ [])
      × All (IsReleased s before) (where_rows (same_day d) s.compactions)
unfolding summary_due
summary_due-IsReleased s before d v h =
    let published : all_published_before before (where_rows (same_day d) s.compactions) ≡ true =
      ground arith in
    (
      not-empty before _ published,
      all_published_before-IsReleased s before _ (All-where_rows _ _ s.compactions v.gated)
          published,
    )

-- In every reached database a day that SummaryCandidates returns has compactions, and each of them
-- was published, in a second no later than that of the date given where it is before the year
-- 10000, and has no required upload that is neither verified nor retired.
pub summary_candidates-IsReleased :
    (s : Store) (before : Time)
    → Reach s
    → All
        (λ d.
          (where_rows (same_day d) s.compactions ≢ [])
          × All (IsReleased s before) (where_rows (same_day d) s.compactions))
        (summary_candidates s before)
unfolding summary_candidates
summary_candidates-IsReleased s before r =
    All-where_rows_test _ (summary_due s before)
      (λ d due. summary_due-IsReleased s before d (Reach-IsConsistent r) due)
      (days_of s.compactions)
