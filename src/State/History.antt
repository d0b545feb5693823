-- ===== src/State/History.antt =====
-- The write operations of internal/state/store.go as commands, and the databases that sequences of
-- them reach from the empty schema. A command that fails leaves the database as it was.
use gtfs_rt_archiver.Base.{ℕ, List, Bool, true, false, String, Result, ok, err, ◌≡◌, All}
use gtfs_rt_archiver.Clock.{Time}
use gtfs_rt_archiver.Model.{Tick, Capture, Compaction, InputCapture, UploadStatus}
use gtfs_rt_archiver.State.Tables.{Store, StateError, schema_v1, is_some}
use gtfs_rt_archiver.State.Ticks
use gtfs_rt_archiver.State.Captures
use gtfs_rt_archiver.State.Compactions
use gtfs_rt_archiver.State.Uploads
use gtfs_rt_archiver.State.Uploads.{is_settled, has_id}
use gtfs_rt_archiver.State.Days
use gtfs_rt_archiver.State.Retention

pub data Command : Type 0 where
  record_tick : Tick → Command
  save_capture : Tick → Capture → Command
  save_compaction : Compaction → List Capture → List (String × Bool) → Time → Command
  adopt_compaction :
      Compaction → List InputCapture → List String → List (String × Bool) → Time → Command
  mark_upload_attempt mark_upload_failed : ℕ → UploadStatus → String → String → Time → Command
  mark_upload_verified : ℕ → String → Time → Command
  ensure_destination_backfill : String → Time → Command
  retire_destination : String → String → Time → Command
  mark_capture_retained : String → Command
  mark_parquet_retained : ℕ → Command
  summarize_day : String → String → String → Time → Time → Time → Command
  record_repair : String → String → String → Time → Command

abbrev pub keep : Store → Result StateError Store → Store
keep s (ok s') = s'
keep s (err e) = s

abbrev pub keep_first : Store → Result StateError (Store × Bool) → Store
keep_first s (ok (s', done)) = s'
keep_first s (err e) = s

unfoldable pub step : Store → Command → Store
step s (record_tick t) = Ticks.record_tick s t
step s (save_capture t c) = keep s (Captures.save_capture s t c)
step s (save_compaction c inputs ds now) = keep s (Compactions.save_compaction s c inputs ds now)
step s (adopt_compaction c inputs excluded ds now) =
    keep s (Compactions.adopt_compaction s c inputs excluded ds now)
step s (mark_upload_attempt id status detail remote next) =
    Uploads.mark_upload_attempt s id status detail remote next
step s (mark_upload_failed id status detail _ next) =
    Uploads.mark_upload_failed s id status detail next
step s (mark_upload_verified id remote now) = keep s (Uploads.mark_upload_verified s id remote now)
step s (ensure_destination_backfill d now) = (Uploads.ensure_destination_backfill s d now).0
step s (retire_destination d reason now) = (Uploads.retire_destination s d reason now).0
step s (mark_capture_retained id) = keep s (Captures.mark_capture_retained s id)
step s (mark_parquet_retained id) = Retention.mark_parquet_retained s id
step s (summarize_day source stream date start end now) =
    keep_first s (Days.summarize_day s source stream date start end now)
step s (record_repair action target reason now) = Uploads.record_repair s action target reason now

-- A revision is recorded as published only where no destination is required: Compact and All set
-- PublishedAt under len(RequiredDestinations) == 0.
abbrev pub NoneRequired : Compaction → List (String × Bool) → Type 0
NoneRequired c ds = is_some c.published_at ≡ true → All (λ d. d.1 ≡ false) ds

-- No upload of that id is verified or retired: ProcessPending marks what PendingUploads gave it.
abbrev pub IsUnsettled : Store → ℕ → Type 0
IsUnsettled s id = All (λ u. has_id id u ≡ true → is_settled u.status ≡ false) s.uploads

-- How the program calls the operations.
abbrev pub Allowed : Store → Command → Type 0
Allowed s (save_compaction c inputs ds now) = NoneRequired c ds
Allowed s (adopt_compaction c inputs excluded ds now) = NoneRequired c ds
Allowed s (mark_upload_attempt id status detail remote next) = IsUnsettled s id
Allowed s (mark_upload_failed id status detail remote next) = IsUnsettled s id
Allowed s _ = Unit

pub data Reach : Store → Type 0 where
  initial : Reach schema_v1
  after : {s : Store} (c : Command) → Reach s → Allowed s c → Reach (step s c)
