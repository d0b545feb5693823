-- ===== src/State/Tables.antt =====
-- internal/state/store.go, schemaV1: the tables, and the SQL operators that the queries use.
--
-- A row is a record; a TEXT column that holds a time keeps the `Time` that encodeTime wrote there,
-- and queries compare the encodings (`text_time_le`, `text_time_lt`). A column of JSON keeps the
-- value that was encoded. Columns that no query reads (created_at of captures, applied_at) are
-- left out. A failed statement rolls its transaction back: an operation gives the new database or
-- an error, never a part of the change.
use Prim.Native.String.{◌++◌ as str_append}
use gtfs_rt_archiver.Base.{
  ℕ, List, [], ◌∷◌, Bool, true, false, ◌&&◌, ◌||◌, Option, none, some, String, str_eq, codes, leb,
  ◌==◌, ◌+◌, if◌then◌else◌,
}
use gtfs_rt_archiver.Clock.{Time, encode_time, stamp_le, stamp_lt}
use gtfs_rt_archiver.Model.{Tick, Capture, Compaction, Upload}

pub record CompactionInput : Type 0 where
  pub compaction_id : ℕ
  pub capture_id : String

pub record DailySummary : Type 0 where
  pub source_id : String
  pub stream_id : String
  pub archive_date : String
  pub scheduled_ticks : ℕ
  pub skipped_ticks : ℕ
  pub captured_responses : ℕ
  pub valid_snapshots : ℕ
  pub invalid_payloads : ℕ
  pub http_failures : ℕ
  pub network_failures : ℕ
  pub parse_status_counts : List (String × ℕ)
  pub summarized_at : Time

pub record RepairAudit : Type 0 where
  pub action : String
  pub target : String
  pub reason : String
  pub created_at : Time

-- `compaction_seq` and `upload_seq` are the last ids that AUTOINCREMENT gave.
pub record Store : Type 0 where
  pub ticks : List Tick
  pub captures : List Capture
  pub compactions : List Compaction
  pub compaction_inputs : List CompactionInput
  pub uploads : List Upload
  pub repair_audit : List RepairAudit
  pub daily_summaries : List DailySummary
  pub compaction_seq : ℕ
  pub upload_seq : ℕ

unfoldable pub schema_v1 : Store
schema_v1 = record {
  ticks = [];
  captures = [];
  compactions = [];
  compaction_inputs = [];
  uploads = [];
  repair_audit = [];
  daily_summaries = [];
  compaction_seq = 0;
  upload_seq = 0;
}

-- What a statement can fail with: a UNIQUE, PRIMARY KEY or FOREIGN KEY constraint, sql.ErrNoRows,
-- and the mismatch that AdoptCompaction reports itself.
pub data StateError : Type 0 where
  constraint no_rows hash_mismatch : StateError

-- `<=` and `<` between two TEXT columns that hold times.
unfoldable pub text_time_le : Time → Time → Bool
text_time_le a b = stamp_le (encode_time a) (encode_time b)

unfoldable pub text_time_lt : Time → Time → Bool
text_time_lt a b = stamp_lt (encode_time a) (encode_time b)

-- MAX over TEXT; NULLs do not count.
unfoldable pub max_text_time : List (Option Time) → Option Time
max_text_time [] = none
max_text_time (none ∷ ts) = max_text_time ts
max_text_time (some t ∷ ts) = elim (max_text_time ts) [
  | none ↦ some t
  | some m ↦ some (if text_time_le t m then m else t)
]

unfoldable pub min_text_time : List Time → Option Time
min_text_time [] = none
min_text_time (t ∷ ts) = elim (min_text_time ts) [
  | none ↦ some t
  | some m ↦ some (if text_time_le t m then t else m)
]

-- LIKE '@retained/%', which folds the case of ASCII letters.
unfoldable pub fold_case : ℕ → ℕ
fold_case c = if leb b'A' c && leb c b'Z' then c + 32 else c

like_prefix : List ℕ → List ℕ → Bool
like_prefix [] s = true
like_prefix (p ∷ ps) [] = false
like_prefix (p ∷ ps) (c ∷ s) = fold_case c == fold_case p && like_prefix ps s

unfoldable pub is_retained : String → Bool
unfolding like_prefix fold_case
is_retained path = like_prefix (codes "@retained/") (codes path)

-- '@retained/' || id || '.pb' and '@retained/' || id || '.json'.
abbrev pub retained_raw : String → String
retained_raw id = str_append (str_append "@retained/" id) ".pb"

abbrev pub retained_sidecar : String → String
retained_sidecar id = str_append (str_append "@retained/" id) ".json"

abbrev pub is_some {ℓ} : {A : Type ℓ} → Option A → Bool
is_some none = false
is_some (some a) = true

abbrev pub is_empty : String → Bool
is_empty s = str_eq s ""

unfoldable pub mem_text : String → List String → Bool
mem_text s [] = false
mem_text s (t ∷ ts) = str_eq s t || mem_text s ts
