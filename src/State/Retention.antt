-- ===== src/State/Retention.antt =====
-- internal/state/store.go: what the retention pass may delete, and the rows that record it.
use gtfs_rt_archiver.Base.{
  ℕ, List, [], ◌∷◌, Bool, false, ◌&&◌, not, none, some, String, str_eq, any, where_rows,
  update_rows, map, ◌==◌, if◌then◌else◌,
}
use gtfs_rt_archiver.Clock.{Time}
use gtfs_rt_archiver.Model.{Capture, Compaction, Upload, expired}
use gtfs_rt_archiver.State.Tables.{
  Store, text_time_le, max_text_time, is_retained, is_some, is_empty,
}
use gtfs_rt_archiver.State.Captures.{RetentionCapture, retention_capture}
use gtfs_rt_archiver.State.Compactions.{compaction_of_day}
use gtfs_rt_archiver.State.Uploads.{is_verified}
use gtfs_rt_archiver.State.Days.{summary_of_day}

-- HAVING SUM(published_at IS NULL)=0 AND MAX(published_at)<=?, over a group of compactions.
unfoldable pub all_published_before : Time → List Compaction → Bool
all_published_before before group =
    not (any (λ c. not (is_some c.published_at)) group)
    && elim (max_text_time (map (λ c. c.published_at) group)) [
      | none ↦ false
      | some t ↦ text_time_le t before
    ]

-- The compactions that list a capture.
unfoldable pub compactions_of : Store → String → List Compaction
compactions_of s capture_id =
    where_rows
      (λ cp.
        any (λ i. str_eq i.capture_id capture_id && i.compaction_id == cp.id) s.compaction_inputs)
      s.compactions

unfoldable pub raw_due : Store → Time → Capture → Bool
raw_due s before c =
    not (is_retained c.raw_path) && all_published_before before (compactions_of s c.id)

unfoldable pub raw_retention_candidates : Store → Time → List RetentionCapture
raw_retention_candidates s before = map retention_capture (where_rows (raw_due s before) s.captures)

pub record RetentionCompaction : Type 0 where
  pub id : ℕ
  pub source_id : String
  pub stream_id : String
  pub archive_date : String
  pub data_path : String
  pub manifest_path : String

abbrev pub retention_compaction : Compaction → RetentionCompaction
retention_compaction c = record {
  id = c.id;
  source_id = c.source_id;
  stream_id = c.stream_id;
  archive_date = c.archive_date;
  data_path = c.data_path;
  manifest_path = c.manifest_path;
}

unfoldable pub parquet_due : Time → Compaction → Bool
parquet_due before c = elim c.published_at [
  | none ↦ false
  | some t ↦ text_time_le t before && not (is_empty c.manifest_path)
]

unfoldable pub parquet_retention_candidates : Store → Time → List RetentionCompaction
parquet_retention_candidates s before =
    map retention_compaction (where_rows (parquet_due before) s.compactions)

pub record SummaryCandidate : Type 0 where
  pub source_id : String
  pub stream_id : String
  pub archive_date : String

abbrev pub same_day : SummaryCandidate → Compaction → Bool
same_day d c = compaction_of_day d.source_id d.stream_id d.archive_date c

-- One candidate for each day that has a compaction, at its last row.
unfoldable pub days_of : List Compaction → List SummaryCandidate
days_of [] = []
days_of (c ∷ cs) =
    let day : SummaryCandidate = record {
      source_id = c.source_id;
      stream_id = c.stream_id;
      archive_date = c.archive_date;
    } in
    let rest = days_of cs in if any (same_day day) cs then rest else day ∷ rest

unfoldable pub summary_due : Store → Time → SummaryCandidate → Bool
summary_due s before d =
    not (any (summary_of_day d.source_id d.stream_id d.archive_date) s.daily_summaries)
    && all_published_before before (where_rows (same_day d) s.compactions)

unfoldable pub summary_candidates : Store → Time → List SummaryCandidate
summary_candidates s before = where_rows (summary_due s before) (days_of s.compactions)

-- compaction_id=? AND required=0 AND status!='verified'.
unfoldable pub expires : ℕ → Upload → Bool
expires id u = u.compaction_id == id && not u.required && not (is_verified u.status)

unfoldable pub mark_parquet_retained : Store → ℕ → Store
mark_parquet_retained s id = record s {
  uploads =
      update_rows (expires id)
        (λ u. record u { status = expired; last_error = "local_retention_elapsed" }) s.uploads;
  compactions =
      update_rows (λ c. c.id == id)
        (λ c. record c { data_path = ""; manifest_path = ""; data_bytes = 0 }) s.compactions;
}
