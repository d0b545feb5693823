-- ===== src/Upload.antt =====
-- internal/upload/upload.go: the queue of one pass, and what becomes of each upload in it.
--
-- What the disk, rclone, the clock and the random source answer for an upload is in `Answers`; a pass
-- takes these answers for each row of the queue. An error of the preparation or the publication is
-- its text.
pub mod Queue
pub mod Safety
pub mod Retries
pub mod Publish
pub mod Tests
use gtfs_rt_archiver.Base.{
  ℕ, zero, suc, ◌+◌, ◌-◌, ◌*◌, ◌/◌, ◌%◌, ◌^◌, min, List, [], ◌∷◌, Bool, true, false, ◌&&◌, ◌||◌,
  Option, none, some, String, str_eq, find_row, Result, ok, err, codes, map, ltb, leb, ◌==◌,
  if◌then◌else◌,
}
use gtfs_rt_archiver.Clock.{Time, second}
use gtfs_rt_archiver.Config.{Destination}
use gtfs_rt_archiver.Clock.Calendar.{year_of, month_of, month_days, year_days, years_from}
use gtfs_rt_archiver.Model.{Compaction, Upload, uploading, retry, permanent_failure}
use gtfs_rt_archiver.State.Tables.{Store, StateError, no_rows, fold_case}
use gtfs_rt_archiver.State.Compactions.{compaction_by_id}
use gtfs_rt_archiver.State.Uploads.{
  pending_uploads, mark_upload_attempt, mark_upload_failed, mark_upload_verified,
}

unfoldable pub find_destination : List Destination → String → Option Destination
find_destination ds id = find_row (λ d. str_eq d.id id) ds

-- strings.Contains, on bytes.
unfoldable pub has_prefix : List ℕ → List ℕ → Bool
has_prefix [] s = true
has_prefix (p ∷ ps) [] = false
has_prefix (p ∷ ps) (c ∷ s) = p == c && has_prefix ps s

unfoldable pub contains : List ℕ → List ℕ → Bool
contains part [] = has_prefix part []
contains part (c ∷ s) = has_prefix part (c ∷ s) || contains part s

abbrev pub categories : List String
categories =
    "stream_not_configured" ∷ "dataset_invalid" ∷ "local_integrity" ∷ "remote_integrity"
    ∷ "authentication" ∷ "permission" ∷ "remote_not_found" ∷ "configuration" ∷ "timeout"
    ∷ "throttled" ∷ "network" ∷ []

-- errorCategory of an error's text: the first category that the text names.
unfoldable pub first_named : List String → List ℕ → String
first_named [] text = "rclone_failure"
first_named (category ∷ rest) text =
    let later = first_named rest text in if contains (codes category) text then category else later

unfoldable pub error_category : String → String
error_category text = first_named categories (map fold_case (codes text))

unfoldable pub is_permanent : String → Bool
is_permanent category =
    str_eq category "local_integrity"
    || str_eq category "remote_integrity"
    || str_eq category "dataset_invalid"

-- The largest backoff of an attempt: 5 minutes, doubled at most six times, and at most 6 hours.
unfoldable pub max_backoff : ℕ → ℕ
max_backoff attempt =
    let a = if ltb attempt 1 then 1 else attempt in
    let maximum = 2 ^ min (a - 1) 6 * (300 * second) in
    if ltb (21600 * second) maximum then 21600 * second else maximum

-- rand.Int64N(maximum+1), with the random source as an argument.
unfoldable pub backoff : (ℕ → ℕ) → ℕ → ℕ
backoff int64_n attempt = int64_n (max_backoff attempt + 1)

unfoldable pub sum : List ℕ → ℕ
sum [] = 0
sum (n ∷ ns) = n + sum ns

unfoldable pub first_of : ℕ → List ℕ → List ℕ
first_of zero ns = []
first_of (suc k) [] = []
first_of (suc k) (n ∷ ns) = n ∷ first_of k ns

-- time.AddDate(years, 0, 0) in UTC: a day that the month has not runs over into the next.
unfoldable pub add_years : ℕ → Time → Time
add_years years t =
    let day = 86400 * second in
    let date = year_of (t / day) in
    let of_month = month_of date.0 date.1 in
    let year = date.0 + years in
    (sum (years_from (year - 1970) 1970)
        + sum (first_of (of_month.0 - 1) (month_days year))
        + of_month.1)
      * day
    + t % day

pub record Answers : Type 0 where
  -- ctx.Err() before the item.
  pub cancelled : Bool
  -- prepareRemoteDir: the remote directory.
  pub prepared : Result String String
  -- publish.
  pub published : Result String (Unit {0})
  pub int64_n : ℕ → ℕ
  pub attempt_at : Time
  pub now : Time

-- The failure branch: a permanent failure is put off for a century.
unfoldable pub fail_upload : Store → Upload → Answers → String → Store
fail_upload s item a text =
    let category = error_category text in
    if is_permanent category
    then mark_upload_failed s item.id permanent_failure category (add_years 100 a.now)
    else mark_upload_failed s item.id retry category
        (a.now + backoff a.int64_n (item.attempt_count + 1))

-- A published revision is verified; otherwise the item fails.
unfoldable pub finish_upload : Store → Upload → Answers → String → Result StateError Store
finish_upload s item a remote_dir = elim a.published [
  | ok done ↦ mark_upload_verified s item.id remote_dir a.now
  | err text ↦ ok (fail_upload s item a text)
]

unfoldable pub attempt_upload : Store → Upload → Answers → Result StateError Store
attempt_upload s item a = elim a.prepared [
  | err text ↦ ok (fail_upload s item a text)
  | ok remote_dir ↦
      finish_upload (mark_upload_attempt s item.id uploading "" remote_dir a.attempt_at) item a
        remote_dir
]

-- One round of the loop.
unfoldable pub process_item : List Destination → Store → Upload → Answers → Result StateError Store
process_item ds s item a = elim (find_destination ds item.destination_id) [
  | none ↦ ok (
      mark_upload_failed s item.id retry "destination_not_configured"
        (a.now + backoff a.int64_n (item.attempt_count + 1)))
  | some dest ↦ elim (compaction_by_id s item.compaction_id) [
    | none ↦ err no_rows
    | some compaction ↦ attempt_upload s item a
  ]
]

-- What ProcessPending returns, and the database that it leaves: each statement commits by itself.
pub data PassError : Type 0 where
  context_done : PassError
  state : StateError → PassError

pub record Pass : Type 0 where
  pub store : Store
  pub processed : ℕ
  pub error : Option PassError

unfoldable pub process_items :
    List Destination → (Upload → Answers) → Store → ℕ → List Upload → Pass
process_items ds answers s n [] = record { store = s; processed = n; error = none }
process_items ds answers s n (item ∷ items) =
    if (answers item).cancelled
    then record { store = s; processed = n; error = some context_done }
    else elim (process_item ds s item (answers item)) [
      | err e ↦ record { store = s; processed = n; error = some (state e) }
      | ok s' ↦ let rest = process_items ds answers s' (suc n) items in rest
    ]

unfoldable pub process_pending :
    List Destination → (Upload → Answers) → Store → String → Time → Pass
process_pending ds answers s destination now =
    process_items ds answers s 0 (pending_uploads s destination now)
