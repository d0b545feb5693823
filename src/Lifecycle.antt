-- ===== src/Lifecycle.antt =====
-- internal/lifecycle/retention.go: the retention pass, with the files that it deletes.
--
-- The disk answers for each path; the time zone library gives the bounds of a local day. `now` less a
-- retention period is a natural number: a period that reaches before 1970 counts as reaching 1970.
-- The texts of RecordRepair's reason are left out.
pub mod Cleanup
pub mod Tests
use gtfs_rt_archiver.Base.{
  ℕ, suc, ◌+◌, ◌-◌, List, [], ◌∷◌, ◌++◌, Bool, true, false, not, ◌&&◌, ◌||◌, Option, none, some,
  String, str_eq, any, Result, ok, err, if◌then◌else◌, length, ltb,
}
use gtfs_rt_archiver.Clock.{Time}
use gtfs_rt_archiver.Config.{Destination, is_required}
use gtfs_rt_archiver.State.Tables.{Store, StateError, is_empty}
use gtfs_rt_archiver.State.Captures.{RetentionCapture, mark_capture_retained}
use gtfs_rt_archiver.State.Retention.{
  RetentionCompaction, SummaryCandidate, raw_retention_candidates, parquet_retention_candidates,
  summary_candidates, mark_parquet_retained,
}
use gtfs_rt_archiver.State.Days.{summarize_day}
use gtfs_rt_archiver.State.Uploads.{record_repair}

-- removeRegular on a path: an error, no such file, or a file of so many bytes that is deleted.
pub data Removal : Type 0 where
  refused absent : Removal
  removed : ℕ → Removal

-- The paths deleted, in order, their bytes, and whether an error ended the loop.
pub record Removed : Type 0 where
  pub paths : List String
  pub bytes : ℕ
  pub failed : Bool

unfoldable pub count_removal : String → Removal → Removed → Removed
count_removal path refused rest = record { paths = []; bytes = 0; failed = true }
count_removal path absent rest = rest
count_removal path (removed n) rest = record {
  paths = path ∷ rest.paths;
  bytes = n + rest.bytes;
  failed = rest.failed;
}

-- The inner loop over the two paths of a candidate.
unfoldable pub remove_files : (String → Removal) → List String → Removed
remove_files disk [] = record { paths = []; bytes = 0; failed = false }
remove_files disk (path ∷ paths) =
    let rest = remove_files disk paths in
    if is_empty path then rest else count_removal path (disk path) rest

-- The parts of the configuration that the pass reads: per source its streams, each with the location
-- that EffectiveLocation loads, where it loads one.
pub record Source {ℓ} (Location : Type ℓ) : Type ℓ where
  pub id : String
  pub streams : List (String × Option Location)

unfoldable pub stream_location {ℓ} :
    {Location : Type ℓ} → String → List (String × Option Location) → Option (Option Location)
stream_location stream_id [] = none
stream_location stream_id ((id, location) ∷ streams) =
    let rest = stream_location stream_id streams in
    if str_eq id stream_id then some location else rest

unfoldable pub configured_location {ℓ} :
    {Location : Type ℓ} → List (Source Location) → String → String → Option Location
configured_location [] source_id stream_id = none
configured_location (source ∷ sources) source_id stream_id =
    let rest = configured_location sources source_id stream_id in
    if str_eq source.id source_id
    then elim (stream_location stream_id source.streams) [ some location ↦ location | none ↦ rest ]
    else rest

pub data CleanupError : Type 0 where
  not_removed not_parsed : CleanupError
  state : StateError → CleanupError

-- CleanupResult with the database, the paths deleted so far, and the error that ended the pass.
pub record Cleaned : Type 0 where
  pub store : Store
  pub deleted : List String
  pub raw_files : ℕ
  pub parquet_files : ℕ
  pub summarized_days : ℕ
  pub bytes : ℕ
  pub error : Option CleanupError

unfoldable pub stopped : Cleaned → List String → CleanupError → Cleaned
stopped p paths e = record p { deleted = p.deleted ++ paths; error = some e }

unfoldable pub clean_raw : (String → Removal) → Cleaned → List RetentionCapture → Cleaned
clean_raw disk p [] = p
clean_raw disk p (c ∷ cs) =
    let r = remove_files disk (c.raw_path ∷ c.sidecar_path ∷ []) in
    if r.failed then stopped p r.paths not_removed else elim (mark_capture_retained p.store c.id) [
      | err e ↦ stopped p r.paths (state e)
      | ok s ↦
          let rest =
            clean_raw disk
              (record p {
                store = s;
                deleted = p.deleted ++ r.paths;
                raw_files = p.raw_files + length r.paths;
                bytes = p.bytes + r.bytes;
              })
              cs in
          rest
    ]

unfoldable pub clean_parquet : (String → Removal) → Cleaned → List RetentionCompaction → Cleaned
clean_parquet disk p [] = p
clean_parquet disk p (c ∷ cs) =
    let r = remove_files disk (c.data_path ∷ c.manifest_path ∷ []) in
    let rest =
      clean_parquet disk
        (record p {
          store = mark_parquet_retained p.store c.id;
          deleted = p.deleted ++ r.paths;
          parquet_files = p.parquet_files + length r.paths;
          bytes = p.bytes + r.bytes;
        })
        cs in
    if r.failed then stopped p r.paths not_removed else rest

unfoldable pub count_summary : Cleaned → Store × Bool → Cleaned
count_summary p (s, done) = record p {
  store = s;
  summarized_days = if done then suc p.summarized_days else p.summarized_days;
}

-- `day_of` is ParseInLocation of the date, with the day's end.
unfoldable pub clean_days {ℓ} :
    {Location : Type ℓ}
    → List (Source Location)
    → (Location → String → Option (Time × Time))
    → Time
    → Cleaned
    → List SummaryCandidate
    → Cleaned
clean_days sources day_of now p [] = p
clean_days sources day_of now p (d ∷ ds) =
    elim (configured_location sources d.source_id d.stream_id) [
      | none ↦ (let rest = clean_days sources day_of now p ds in rest)
      | some location ↦ elim (day_of location d.archive_date) [
        | none ↦ stopped p [] not_parsed
        | some bounds ↦
            elim (summarize_day p.store d.source_id d.stream_id d.archive_date bounds.0 bounds.1
              now) [
                | err e ↦ stopped p [] (state e)
                | ok r ↦ (let rest = clean_days sources day_of now (count_summary p r) ds in rest)
              ]
      ]
    ]

-- The next phase, unless an error ended this one.
abbrev pub unless_error : Option CleanupError → (Cleaned → Cleaned) → Cleaned → Cleaned
unless_error none next p = next p
unless_error (some e) next p = p

unfoldable pub unless_stopped : Cleaned → (Cleaned → Cleaned) → Cleaned
unless_stopped p next = unless_error p.error next p

-- The audit row, where something was done; its own failure is ignored.
unfoldable pub record_cleanup : String → Time → Cleaned → Cleaned
record_cleanup counts now p =
    if ltb 0 (p.raw_files + p.parquet_files + p.summarized_days)
    then record p { store = record_repair p.store "retention_cleanup" counts "policy elapsed" now }
    else p

unfoldable pub has_required : List Destination → Bool
has_required destinations = any is_required destinations

pub record Policy : Type 0 where
  pub destinations : List Destination
  pub allow_local_only_cleanup : Bool
  pub raw_retention : ℕ
  pub parquet_retention : ℕ
  pub metadata_retention : ℕ

-- Cleanup. `counts` is the text of the audit row.
unfoldable pub cleanup {ℓ} :
    {Location : Type ℓ}
    → Policy
    → List (Source Location)
    → (Location → String → Option (Time × Time))
    → (String → Removal)
    → String
    → Store
    → Time
    → Cleaned
cleanup policy sources day_of disk counts s now =
    let start : Cleaned = record {
      store = s;
      deleted = [];
      raw_files = 0;
      parquet_files = 0;
      summarized_days = 0;
      bytes = 0;
      error = none;
    } in
    if not (has_required policy.destinations) && not policy.allow_local_only_cleanup
    then start
    else unless_stopped
        (unless_stopped
          (unless_stopped
            (clean_raw disk start (raw_retention_candidates s (now - policy.raw_retention)))
            (λ p.
              clean_parquet disk p
                (parquet_retention_candidates p.store (now - policy.parquet_retention))))
          (λ p.
            clean_days sources day_of now p
              (summary_candidates p.store (now - policy.metadata_retention))))
        (record_cleanup counts now)
