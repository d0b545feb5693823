-- ===== src/Rawstore/Commit.antt =====
-- internal/rawstore/store.go, Stage and Commit: the files of a capture and the
-- order in which they appear.
--
-- The directory `staging` is known by its names, the rest of the storage root by relative paths. A run
-- may end after any number of the file operations of Commit; what a started write of the sidecar has
-- left of it until then is an argument. Other disk errors are left out. JSON and SHA-256 (in
-- hexadecimal) are functions that the standard library gives, and what safePath answers for a path is
-- an observation.
use Prim.Native.String.{◌++◌ as str_append}
use gtfs_rt_archiver.Base.{
  ℕ, zero, suc, List, [], ◌∷◌, Bool, true, false, not, Option, none, some, String, str_eq, Result,
  ok, err, ◌>>=◌, ◌>>◌, guard, if◌then◌else◌, ltb, min, length, codes,
}
use gtfs_rt_archiver.Model.{Capture}
use gtfs_rt_archiver.Compact.Library.{Entry, regular}
use gtfs_rt_archiver.Rawstore.{Zone, contains_any, capture_directory, raw_path_of, sidecar_path_of}

pub record Disk : Type 0 where
  pub staging : String → Option Entry
  pub tree : String → Option Entry

unfoldable pub set : (String → Option Entry) → String → Option Entry → String → Option Entry
set files path e p = if str_eq p path then e else files p

-- `path` is the name in `staging`, if there is a file.
pub record Staged : Type 0 where
  pub path : Option String
  pub size : ℕ
  pub sha256 : String
  pub too_large : Bool
  pub read_failed : Bool

-- What Commit does to the disk. A write of the sidecar begins with a new file.
pub data FileStep : Type 0 where
  name_payload : String → String → FileStep
  create_sidecar : String → List ℕ → FileStep
  write_sidecar : String → List ℕ → FileStep
  publish_staged : String → String → FileStep

unfoldable pub rename_staged : String → String → Disk → Option Entry → Option Disk
rename_staged from to d none = none
rename_staged from to d (some e) =
    some (record d { staging = set (set d.staging from none) to (some e) })

-- O_EXCL
unfoldable pub create_staged : String → List ℕ → Disk → Option Entry → Option Disk
create_staged name content d (some e) = none
create_staged name content d none =
    some (record d { staging = set d.staging name (some (regular content)) })

-- os.Rename from the staging directory to its place.
unfoldable pub move_entry : String → String → Entry → Disk → Disk
move_entry from to e d = record d {
  staging = set d.staging from none;
  tree = set d.tree to (some e);
}

unfoldable pub move_staged : String → String → Disk → Option Entry → Option Disk
move_staged from to d none = none
move_staged from to d (some e) = some (move_entry from to e d)

-- The disk after it, none where it fails.
unfoldable pub perform : FileStep → Disk → Option Disk
perform (name_payload from to) d = rename_staged from to d (d.staging from)
perform (create_sidecar name content) d = create_staged name content d (d.staging name)
perform (write_sidecar name content) d =
    some (record d { staging = set d.staging name (some (regular content)) })
perform (publish_staged from to) d = move_staged from to d (d.staging from)

-- The first steps, at most so many, up to the first that fails.
unfoldable pub run_steps : ℕ → List FileStep → Disk → Disk
run_steps zero steps d = d
run_steps (suc n) [] d = d
run_steps (suc n) (s ∷ steps) d = elim (perform s d) [ none ↦ d | some d' ↦ run_steps n steps d' ]

unfoldable pub payload_name : String → String
payload_name id = str_append id ".pb.tmp"

unfoldable pub sidecar_name : String → String
sidecar_name id = str_append id ".json.tmp"

pub data CommitError : Type 0 where
  invalid_staged invalid_staged_hash unsafe_path already_exists unsafe_id : CommitError

-- The steps, and the capture with its paths, hash and length.
unfoldable pub commit_steps : String → (Capture → List ℕ) → List ℕ → Capture → List FileStep
commit_steps from encode partial c =
    name_payload from (payload_name c.id)
    ∷ create_sidecar (sidecar_name c.id) partial
    ∷ write_sidecar (sidecar_name c.id) (encode c)
    ∷ publish_staged (payload_name c.id) c.raw_path
    ∷ publish_staged (sidecar_name c.id) c.sidecar_path
    ∷ []

unfoldable pub with_paths : Staged → String → Capture → Capture
with_paths staged hour c = record c {
  raw_path = raw_path_of c hour staged.sha256;
  sidecar_path = sidecar_path_of c hour staged.sha256;
  body_sha256 = staged.sha256;
  decoded_length = staged.size;
}

unfoldable pub staged_path : Bool → Option String → Result CommitError String
staged_path too_large none = err invalid_staged
staged_path true (some path) = err invalid_staged
staged_path false (some path) = ok path

unfoldable pub is_free : Option Entry → Bool
is_free none = true
is_free (some e) = false

module _ (is_safe : String → Bool) where
  -- The checks of the hash, of the paths and of the id, before the disk is changed.
  unfoldable pub check_commit : Staged → Capture → String → Disk → Result CommitError (Unit {0})
  check_commit staged c hour d = do
    guard (not (ltb (length (codes staged.sha256)) 12)) invalid_staged_hash
    guard (is_safe (capture_directory c.source_id c.stream_id c.archive_date hour)) unsafe_path
    guard (is_free (d.tree (raw_path_of c hour staged.sha256))) already_exists
    guard (not (contains_any (codes c.id) (b'/' ∷ b'\\' ∷ b'\\' ∷ []))) unsafe_id

  -- The capture and the steps to do, or the error for which nothing is done.
  unfoldable pub prepare_commit :
      (Capture → List ℕ)
      → Staged
      → Capture
      → Zone
      → List ℕ
      → Disk
      → Result CommitError (Capture × List FileStep)
  prepare_commit encode staged c zone partial d =
      let hour = (zone c.scheduled_at).1 in
      let done = with_paths staged hour c in
      staged_path staged.too_large staged.path >>= λ path.
      check_commit staged c hour d >> ok (done, commit_steps path encode partial done)

module _ (sha256 : List ℕ → String) where
  -- At most one byte more than the limit is read.
  unfoldable pub stage : String → List ℕ → Bool → ℕ → Disk → Disk × Staged
  stage name body read_failed max_bytes d =
      let n = min (length body) (suc max_bytes) in
      if ltb max_bytes n
      then (
        d,
        record { path = none; size = n; sha256 = ""; too_large = true; read_failed = read_failed },
      )
      else (
        record d { staging = set d.staging name (some (regular body)) },
        record {
          path = some name;
          size = n;
          sha256 = sha256 body;
          too_large = false;
          read_failed = read_failed;
        },
      )
