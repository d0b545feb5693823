-- ===== src/State/Compactions.antt =====
-- internal/state/store.go: compactions, their inputs and their upload queues.
use gtfs_rt_archiver.Base.{
  ℕ, suc, ◌+◌, List, [], ◌∷◌, ◌++◌, Bool, ◌&&◌, not, Option, none, some, String, str_eq, any,
  find_row, where_rows, ◌==◌, leb, Result, ok, err, ◌>>=◌, ◌>>◌, guard, if◌then◌else◌,
}
use gtfs_rt_archiver.Clock.{Time}
use gtfs_rt_archiver.Model.{Capture, Compaction, Upload, pending, InputCapture}
use gtfs_rt_archiver.State.Tables.{
  Store, StateError, constraint, no_rows, hash_mismatch, CompactionInput, mem_text,
}

unfoldable pub compaction_of_day : String → String → String → Compaction → Bool
compaction_of_day source_id stream_id date c =
    str_eq c.source_id source_id && str_eq c.stream_id stream_id && str_eq c.archive_date date

-- ORDER BY revision DESC LIMIT 1.
unfoldable pub latest_of : List Compaction → Option Compaction
latest_of [] = none
latest_of (c ∷ cs) = elim (latest_of cs) [
  | none ↦ some c
  | some d ↦ some (if leb d.revision c.revision then c else d)
]

unfoldable pub latest_compaction : Store → String → String → String → Option Compaction
latest_compaction s source_id stream_id date =
    latest_of (where_rows (compaction_of_day source_id stream_id date) s.compactions)

-- MAX(revision), plus 1.
unfoldable pub next_revision : Store → String → String → String → ℕ
next_revision s source_id stream_id date = elim (latest_compaction s source_id stream_id date) [
  | none ↦ 1
  | some c ↦ c.revision + 1
]

unfoldable pub compaction_for_revision : Store → String → String → String → ℕ → Option Compaction
compaction_for_revision s source_id stream_id date revision =
    find_row (λ c. compaction_of_day source_id stream_id date c && c.revision == revision)
      s.compactions

unfoldable pub has_compaction : Store → String → String → String → ℕ → Bool
has_compaction s source_id stream_id date revision =
    any (λ c. compaction_of_day source_id stream_id date c && c.revision == revision) s.compactions

unfoldable pub compaction_by_id : Store → ℕ → Option Compaction
compaction_by_id s id = find_row (λ c. c.id == id) s.compactions

-- The new row takes the next id of AUTOINCREMENT.
unfoldable pub with_compaction : Store → Compaction → Store
with_compaction s c = record s {
  compactions = s.compactions ++ record c { id = suc s.compaction_seq } ∷ [];
  compaction_seq = suc s.compaction_seq;
}

-- INSERT INTO compactions. UNIQUE(source_id, stream_id, archive_date, format_version, revision):
-- every row has the one format version.
unfoldable pub insert_compaction : Store → Compaction → Result StateError Store
insert_compaction s c = do
  guard (not (has_compaction s c.source_id c.stream_id c.archive_date c.revision)) constraint
  ok (with_compaction s c)

-- INSERT INTO compaction_inputs: PRIMARY KEY(compaction_id, capture_id), and the capture is there.
unfoldable pub insert_input : Store → ℕ → String → Result StateError Store
insert_input s compaction_id capture_id = do
  guard (not (any same s.compaction_inputs)) constraint
  guard (any (λ c. str_eq c.id capture_id) s.captures) constraint
  ok (record s { compaction_inputs = s.compaction_inputs ++ row ∷ [] })
  where
    same : CompactionInput → Bool
    same i = i.compaction_id == compaction_id && str_eq i.capture_id capture_id

    row : CompactionInput
    row = record { compaction_id = compaction_id; capture_id = capture_id }

unfoldable pub new_upload : ℕ → ℕ → Time → String → Bool → Upload
new_upload id compaction_id now destination_id required = record {
  id = id;
  compaction_id = compaction_id;
  destination_id = destination_id;
  required = required;
  status = pending;
  attempt_count = 0;
  next_attempt_at = now;
  last_error = "";
  remote_path = "";
  completed_at = none;
}

unfoldable pub with_upload : Store → Upload → Store
with_upload s u = record s { uploads = s.uploads ++ u ∷ []; upload_seq = u.id }

unfoldable pub upload_to : ℕ → String → Upload → Bool
upload_to compaction_id destination_id u =
    u.compaction_id == compaction_id && str_eq u.destination_id destination_id

-- INSERT INTO uploads … 'pending', 0: UNIQUE(compaction_id, destination_id).
unfoldable pub insert_upload : Store → ℕ → Time → String × Bool → Result StateError Store
insert_upload s compaction_id now (destination_id, required) = do
  guard (not (any (upload_to compaction_id destination_id) s.uploads)) constraint
  ok (with_upload s (new_upload (suc s.upload_seq) compaction_id now destination_id required))

unfoldable pub insert_inputs : Store → ℕ → List Capture → Result StateError Store
insert_inputs s id [] = ok s
insert_inputs s id (c ∷ cs) = insert_input s id c.id >>= λ s'. insert_inputs s' id cs

-- The destinations are a Go map: a list of pairs, in the order that the map was walked.
unfoldable pub insert_uploads : Store → ℕ → Time → List (String × Bool) → Result StateError Store
insert_uploads s id now [] = ok s
insert_uploads s id now (d ∷ ds) = insert_upload s id now d >>= λ s'. insert_uploads s' id now ds

-- One transaction. The new row's id is `compaction_seq` of the result.
unfoldable pub save_compaction :
    Store → Compaction → List Capture → List (String × Bool) → Time → Result StateError Store
save_compaction s c inputs destinations now = do
  s₁ ← insert_compaction s c
  s₂ ← insert_inputs s₁ s₁.compaction_seq inputs
  insert_uploads s₂ s₁.compaction_seq now destinations

-- A manifest's input is linked if its row is there with the recorded hash; one that the revision
-- excluded may be missing.
unfoldable pub adopt_inputs : Store → ℕ → List String → List InputCapture → Result StateError Store
adopt_inputs s id excluded [] = ok s
adopt_inputs s id excluded (i ∷ is) =
    let rest = λ (s' : Store). adopt_inputs s' id excluded is in
    elim (find_row (λ c. str_eq c.id i.id) s.captures) [
      | none ↦ (if mem_text i.id excluded then rest s else err no_rows)
      | some c ↦
          (guard (str_eq c.body_sha256 i.sha256) hash_mismatch >> (insert_input s id i.id >>= rest))
    ]

unfoldable pub adopt_compaction :
    Store
    → Compaction
    → List InputCapture
    → List String
    → List (String × Bool)
    → Time
    → Result StateError Store
adopt_compaction s c inputs excluded destinations now = do
  s₁ ← insert_compaction s c
  s₂ ← adopt_inputs s₁ s₁.compaction_seq excluded inputs
  insert_uploads s₂ s₁.compaction_seq now destinations
