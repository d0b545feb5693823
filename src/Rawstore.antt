-- ===== src/Rawstore.antt =====
-- internal/rawstore/store.go: the paths of a capture, and the checks of its sidecar.
--
-- `Zone` is what time.LoadLocation gives for a name: of an instant, the date in the layout 2006-01-02
-- and the hour in the layout 15. No capture is scheduled at the zero time, which lies before 1970.
pub mod Commit
pub mod Finish
pub mod Names
pub mod Steps
pub mod Recovery
pub mod Atomic
pub mod Walk
pub mod Gate
pub mod Registered
pub mod Refusal
pub mod Unregistered
pub mod Tests
use Prim.Native.String.{◌++◌ as str_append}
use gtfs_rt_archiver.Base.{
  ℕ, zero, suc, List, [], ◌∷◌, ◌++◌, Bool, true, false, not, ◌&&◌, ◌||◌, Option, none, some, String,
  str_eq, Result, ok, err, ◌>>=◌, ◌>>◌, guard, ◌==◌, length, codes, any, all,
}
use gtfs_rt_archiver.Clock.{Time}
use gtfs_rt_archiver.Model.{Capture, sidecar_format_version}
use gtfs_rt_archiver.State.Tables.{is_empty}
use gtfs_rt_archiver.Upload.Publish.{is_hex}
use gtfs_rt_archiver.Compact.Verify.{join_path}

abbrev pub Zone : Type 0
Zone = Time → String × String

pub data PathError : Type 0 where
  invalid_identity invalid_hash invalid_time inconsistent_date inconsistent_paths : PathError

-- strings.ContainsAny
unfoldable pub contains_any : List ℕ → List ℕ → Bool
contains_any [] chars = false
contains_any (c ∷ cs) chars = any (λ d. c == d) chars || contains_any cs chars

-- s[:n] of a text that is long enough.
unfoldable pub take_text : ℕ → String → String
take_text zero s = ""
take_text (suc n) String.[] = ""
take_text (suc n) (String.◌∷◌ c s) = String.◌∷◌ c (take_text n s)

unfoldable pub capture_directory : String → String → String → String → String
capture_directory source_id stream_id date hour =
    join_path
      (join_path (join_path (str_append "raw/source=" source_id) (str_append "stream=" stream_id))
        (str_append "date=" date))
      (str_append "hour=" hour)

unfoldable pub base_of : String → String → String
base_of id hash = str_append id (str_append "_" (take_text 12 hash))

unfoldable pub raw_path_of : Capture → String → String → String
raw_path_of c hour hash =
    join_path (capture_directory c.source_id c.stream_id c.archive_date hour)
      (str_append (base_of c.id hash) ".pb")

unfoldable pub sidecar_path_of : Capture → String → String → String
sidecar_path_of c hour hash =
    join_path (capture_directory c.source_id c.stream_id c.archive_date hour)
      (str_append (base_of c.id hash) ".json")

-- The characters of the raw string literal `/\\\x00`, in which nothing is escaped.
abbrev pub forbidden : List ℕ
forbidden = b'/' ∷ b'\\' ∷ b'\\' ∷ b'\\' ∷ b'x' ∷ b'0' ∷ b'0' ∷ []

unfoldable pub check_local : Capture → String × String → Result PathError (Unit {0})
check_local c (date, hour) = do
  guard (str_eq date c.archive_date) inconsistent_date
  guard
      (str_eq c.raw_path (raw_path_of c hour c.body_sha256)
        && str_eq c.sidecar_path (sidecar_path_of c hour c.body_sha256))
      inconsistent_paths

unfoldable pub check_zone : Capture → Option Zone → Result PathError (Unit {0})
check_zone c none = err invalid_time
check_zone c (some zone) = check_local c (zone c.scheduled_at)

unfoldable pub has_identity : Capture → Bool
has_identity c =
    c.format_version == sidecar_format_version
    && not (is_empty c.id || is_empty c.source_id || is_empty c.stream_id)
    && not (contains_any (codes c.id ++ (codes c.source_id ++ codes c.stream_id)) forbidden)
    && length (codes c.body_sha256) == 64

unfoldable pub validate_capture_paths :
    (String → Option Zone) → Capture → Result PathError (Unit {0})
validate_capture_paths zones c = do
  guard (has_identity c) invalid_identity
  guard (all is_hex (codes c.body_sha256)) invalid_hash
  check_zone c (zones c.timezone)
