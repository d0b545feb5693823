-- ===== src/State/Uploads.antt =====
-- internal/state/store.go: the upload queue and the publication of a compaction.
use Prim.Native.String.{◌++◌ as str_append}
use gtfs_rt_archiver.Base.{
  ℕ, suc, ◌+◌, List, [], ◌∷◌, ◌++◌, Bool, true, false, ◌&&◌, ◌||◌, not, none, some, String, str_eq,
  any, find_row, where_rows, update_rows, count_rows, ◌==◌, Result, ok, err, if◌then◌else◌,
  text_compare, Ordering, leb, length,
}
use gtfs_rt_archiver.Base.Sort.{sort}
use gtfs_rt_archiver.Clock.{Time, encode_time}
use gtfs_rt_archiver.Model.{
  Compaction, Upload, UploadStatus, pending, uploading, retry, permanent_failure, verified, retired,
  published,
}
use gtfs_rt_archiver.State.Compactions.{new_upload, upload_to}
use gtfs_rt_archiver.State.Tables.{
  Store, StateError, no_rows, RepairAudit, text_time_le, is_some, is_empty,
}

-- status IN ('pending','retry','uploading').
abbrev pub is_open : UploadStatus → Bool
is_open pending = true
is_open retry = true
is_open uploading = true
is_open _ = false

-- status IN ('verified','retired').
abbrev pub is_settled : UploadStatus → Bool
is_settled verified = true
is_settled retired = true
is_settled _ = false

abbrev pub is_retired : UploadStatus → Bool
is_retired retired = true
is_retired _ = false

abbrev pub is_verified : UploadStatus → Bool
is_verified verified = true
is_verified _ = false

-- ORDER BY next_attempt_at, id.
unfoldable pub queue_le : Upload → Upload → Bool
queue_le a b = elim (text_compare (encode_time a.next_attempt_at) (encode_time b.next_attempt_at)) [
  | Ordering.lt ↦ true
  | Ordering.eq ↦ leb a.id b.id
  | Ordering.gt ↦ false
]

unfoldable pub is_due : String → Time → Upload → Bool
is_due destination now u =
    is_open u.status
    && text_time_le u.next_attempt_at now
    && (is_empty destination || str_eq u.destination_id destination)

unfoldable pub pending_uploads : Store → String → Time → List Upload
pending_uploads s destination now = sort queue_le (where_rows (is_due destination now) s.uploads)

abbrev pub has_id : ℕ → Upload → Bool
has_id id u = u.id == id

unfoldable pub mark_upload_attempt : Store → ℕ → UploadStatus → String → String → Time → Store
mark_upload_attempt s id status detail remote next = record s {
  uploads =
      update_rows (has_id id)
        (λ u. record u {
          status = status;
          attempt_count = u.attempt_count + 1;
          last_error = detail;
          remote_path = remote;
          next_attempt_at = next;
        })
        s.uploads;
}

unfoldable pub mark_upload_failed : Store → ℕ → UploadStatus → String → Time → Store
mark_upload_failed s id status detail next = record s {
  uploads =
      update_rows (has_id id)
        (λ u. record u { status = status; last_error = detail; next_attempt_at = next }) s.uploads;
}

-- compaction_id=? AND required=1 AND status NOT IN ('verified','retired').
unfoldable pub gates : ℕ → Upload → Bool
gates compaction_id u = u.compaction_id == compaction_id && u.required && not (is_settled u.status)

unfoldable pub publish_at : Time → Compaction → Compaction
publish_at now c = record c { status = published; published_at = some now }

unfoldable pub set_verified : String → Time → Upload → Upload
set_verified remote now u = record u {
  status = verified;
  last_error = "";
  remote_path = remote;
  completed_at = some now;
}

-- The compaction is published once nothing gates it.
unfoldable pub publish_settled : Store → ℕ → Time → Store
publish_settled s compaction_id now =
    if count_rows (gates compaction_id) s.uploads == 0
    then record s {
      compactions = update_rows (λ c. c.id == compaction_id) (publish_at now) s.compactions;
    }
    else s

-- One transaction: the upload is verified, and then perhaps its compaction published.
unfoldable pub mark_upload_verified : Store → ℕ → String → Time → Result StateError Store
mark_upload_verified s id remote now = elim (find_row (has_id id) s.uploads) [
  | none ↦ err no_rows
  | some u ↦
      let uploads = update_rows (has_id id) (set_verified remote now) s.uploads in
      ok (publish_settled (record s { uploads = uploads }) u.compaction_id now)
]

-- manifest_path!='' AND NOT EXISTS an upload of the compaction to the destination.
unfoldable pub wants_backfill : List Upload → String → Compaction → Bool
wants_backfill uploads destination_id c =
    not (is_empty c.manifest_path) && not (any (upload_to c.id destination_id) uploads)

-- INSERT … SELECT: an optional upload for each compaction with local files that has none there.
unfoldable pub backfill_rows : List Upload → ℕ → String → Time → List Compaction → List Upload
backfill_rows uploads seq destination_id now [] = []
backfill_rows uploads seq destination_id now (c ∷ cs) =
    let row = new_upload (suc seq) c.id now destination_id false in
    let rest = backfill_rows uploads (suc seq) destination_id now cs in
    let same = backfill_rows uploads seq destination_id now cs in
    if wants_backfill uploads destination_id c then row ∷ rest else same

unfoldable pub ensure_destination_backfill : Store → String → Time → Store × ℕ
ensure_destination_backfill s destination_id now =
    let rows = backfill_rows s.uploads s.upload_seq destination_id now s.compactions in
    (record s { uploads = s.uploads ++ rows; upload_seq = s.upload_seq + length rows }, length rows)

-- destination_id=? AND required=1 AND status NOT IN ('verified','retired').
unfoldable pub retirable : String → Upload → Bool
retirable destination_id u =
    str_eq u.destination_id destination_id && u.required && not (is_settled u.status)

unfoldable pub set_retired : String → Time → Upload → Upload
set_retired reason now u = record u {
  status = retired;
  last_error = str_append "retired: " reason;
  completed_at = some now;
  next_attempt_at = now;
}

-- The compactions that retiring a destination releases.
unfoldable pub released : String → List Upload → Compaction → Bool
released destination_id uploads c =
    not (is_some c.published_at)
    && any
        (λ u.
          u.compaction_id == c.id && str_eq u.destination_id destination_id && is_retired u.status)
        uploads
    && not (any (gates c.id) uploads)

unfoldable pub retire_destination : Store → String → String → Time → Store × ℕ
retire_destination s destination_id reason now =
    let uploads = update_rows (retirable destination_id) (set_retired reason now) s.uploads in
    let audit : RepairAudit = record {
      action = "retire_destination";
      target = destination_id;
      reason = reason;
      created_at = now;
    } in
    (
      record s {
        uploads = uploads;
        compactions = update_rows (released destination_id uploads) (publish_at now) s.compactions;
        repair_audit = s.repair_audit ++ audit ∷ [];
      },
      count_rows (retirable destination_id) s.uploads,
    )

unfoldable pub record_repair : Store → String → String → String → Time → Store
record_repair s action target reason now =
    let audit : RepairAudit = record {
      action = action;
      target = target;
      reason = reason;
      created_at = now;
    } in
    record s { repair_audit = s.repair_audit ++ audit ∷ [] }

pub record Status : Type 0 where
  pub ticks : ℕ
  pub captures : ℕ
  pub compactions : ℕ
  pub pending_uploads : ℕ
  pub failed_uploads : ℕ
  pub verified_uploads : ℕ
  pub retired_uploads : ℕ
  pub summarized_days : ℕ

abbrev pub is_waiting : UploadStatus → Bool
is_waiting pending = true
is_waiting uploading = true
is_waiting _ = false

abbrev pub is_failed : UploadStatus → Bool
is_failed retry = true
is_failed permanent_failure = true
is_failed _ = false

unfoldable pub status : Store → Status
status s = record {
  ticks = length s.ticks;
  captures = length s.captures;
  compactions = length s.compactions;
  pending_uploads = count_rows (λ u. is_waiting u.status) s.uploads;
  failed_uploads = count_rows (λ u. is_failed u.status) s.uploads;
  verified_uploads = count_rows (λ u. is_verified u.status) s.uploads;
  retired_uploads = count_rows (λ u. is_retired u.status) s.uploads;
  summarized_days = length s.daily_summaries;
}
