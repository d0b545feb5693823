-- ===== src/Compact/Run/Commit.antt =====
-- internal/compact/compact.go, Compact: the revision, its row, and the order in which they are committed.
use gtfs_rt_archiver.Base.{
  ℕ, List, [], ◌∷◌, Bool, true, false, not, Option, none, some, String, Result, ok, err, ◌>>=◌,
  ◌>>◌, guard, length,
}
use gtfs_rt_archiver.Clock.{Time}
use gtfs_rt_archiver.Config.{Config}
use gtfs_rt_archiver.Model.{Capture, Compaction, ready, published, Manifest, Artifact}
use gtfs_rt_archiver.State.Tables.{Store, StateError}
use gtfs_rt_archiver.State.Captures.{captures_for_day}
use gtfs_rt_archiver.State.Compactions.{save_compaction}
use gtfs_rt_archiver.State.Days.{day_stats}
use gtfs_rt_archiver.Compact.Library.{Library, Directory, Entry}
use gtfs_rt_archiver.Compact.Accounts.{manifest_sanitized_url, destination_map, account_all}
use gtfs_rt_archiver.Compact.Verify.{join_path}
use gtfs_rt_archiver.Compact.Run.Start.{
  Request, Environment, CompactError, revision_directory, attribution_of, Day, new_manifest,
  select_day, revision_exists, urls_differ, state,
}
use gtfs_rt_archiver.Compact.Run.Artifact.{with_artifact}

-- The columns that name the one file of a revision, empty where there is none.
unfoldable pub data_path_of : String → List Artifact → String
data_path_of directory [] = ""
data_path_of directory (a ∷ files) = join_path directory a.relative_path

unfoldable pub data_sha256_of : List Artifact → String
data_sha256_of [] = ""
data_sha256_of (a ∷ files) = a.sha256

unfoldable pub data_bytes_of : List Artifact → ℕ
data_bytes_of [] = 0
data_bytes_of (a ∷ files) = a.bytes

unfoldable pub new_compaction : Manifest → String → List Artifact → ℕ → Compaction
new_compaction m directory files captures = record {
  id = 0;
  source_id = m.source_id;
  stream_id = m.stream_id;
  archive_date = m.archive_date;
  revision = m.revision;
  status = ready;
  directory = directory;
  data_path = data_path_of directory files;
  manifest_path = join_path directory "manifest.json";
  data_sha256 = data_sha256_of files;
  data_bytes = data_bytes_of files;
  rows = captures;
  entities = m.entity_total;
  excluded_captures = length m.excluded_captures;
  required_destinations = m.required_destinations;
  created_at = m.created_at;
  published_at = none;
}

-- Without a required destination, and where local cleanup is allowed, it is published at once.
unfoldable pub publish_locally : Bool → List String → Time → Compaction → Compaction
publish_locally true [] created c = record c { status = published; published_at = some created }
publish_locally true (d ∷ ds) created c = c
publish_locally false required created c = c

-- What the run commits: the directory of the revision, and then its row.
pub record Revision : Type 0 where
  pub path : String
  pub directory : Directory
  pub manifest : Manifest
  pub compaction : Compaction
  pub captures : List Capture
  pub destinations : List (String × Bool)

unfoldable pub revision_of :
    Config → String → List Capture → Manifest → List (String × Entry) → Revision
revision_of cfg path captures m files = record {
  path = path;
  directory = record { manifest = some m; files = files };
  manifest = m;
  compaction =
      publish_locally cfg.allow_local_only_cleanup m.required_destinations m.created_at
        (new_compaction m path m.files (length captures));
  captures = captures;
  destinations = destination_map cfg.destinations [];
}

unfoldable pub url_or_error : Result String String → Result CompactError String
url_or_error (ok url) = ok url
url_or_error (err e) = err (urls_differ e)

-- The sanitized URL and the attribution.
unfoldable pub day_texts : Environment → Day → List Capture → Result CompactError (String × String)
day_texts env day captures = do
  url ← url_or_error (manifest_sanitized_url env.sanitize_url captures day.stream)
  attribution ← attribution_of env.read_text day.source.attribution_text_file
  ok (url, attribution)

unfoldable pub day_captures : Store → Request → Day → List Capture
day_captures s req day = captures_for_day s day.source.id day.stream.id req.date

unfoldable pub day_manifest :
    Config → Environment → Store → Request → Day → String × String → Manifest
day_manifest cfg env s req day (url, attribution) =
    new_manifest cfg env req day (day_stats s day.source.id day.stream.id day.start day.end)
      (day_captures s req day) url attribution

unfoldable pub finish :
    Config
    → String
    → List Capture
    → Result CompactError (Manifest × List (String × Entry))
    → Result CompactError Revision
finish cfg path captures (err e) = err e
finish cfg path captures (ok (m, files)) =
    ok (revision_of cfg path captures (account_all captures m) files)

unfoldable pub write_revision :
    Library
    → Config
    → Environment
    → Store
    → Request
    → Day
    → String × String
    → Result CompactError Revision
write_revision l cfg env s req day texts =
    finish cfg (revision_directory day.source.id day.stream.id req.date day.revision)
      (day_captures s req day)
      (with_artifact l cfg env.raw (day_captures s req day) (day_manifest cfg env s req day texts))

unfoldable pub prepare_day :
    Library → Config → Environment → Store → Request → Day → Result CompactError Revision
prepare_day l cfg env s req day = do
  let path = revision_directory day.source.id day.stream.id req.date day.revision
  guard (not (env.is_taken path)) revision_exists
  texts ← day_texts env day (day_captures s req day)
  write_revision l cfg env s req day texts

unfoldable pub prepare :
    Library → Config → Environment → Store → Request → Result CompactError Revision
prepare l cfg env s req = select_day cfg env s req >>= λ day. prepare_day l cfg env s req day

-- The directory that was committed, if one was, and the row, or the error. A directory stays where the
-- state transaction fails: reconciliation can adopt it.
pub record Compacted : Type 0 where
  pub committed : Option Revision
  pub store : Store
  pub error : Option CompactError

unfoldable pub record_revision : Store → Revision → Result StateError Store → Compacted
record_revision s r (err e) = record { committed = some r; store = s; error = some (state e) }
record_revision s r (ok s') = record { committed = some r; store = s'; error = none }

unfoldable pub commit : Environment → Store → Result CompactError Revision → Compacted
commit env s (err e) = record { committed = none; store = s; error = some e }
commit env s (ok r) =
    record_revision s r (save_compaction s r.compaction r.captures r.destinations env.saved_at)

unfoldable pub compact : Library → Config → Environment → Store → Request → Compacted
compact l cfg env s req = commit env s (prepare l cfg env s req)
