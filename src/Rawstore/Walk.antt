-- ===== src/Rawstore/Walk.antt =====
-- internal/rawstore/store.go, Reconcile: the captures on disk that the state database has no row for are
-- registered.
--
-- What filepath.WalkDir visits is a list, in its order. Paths are relative to the storage root.
use Prim.Native.String.{◌++◌ as str_append}
use gtfs_rt_archiver.Base.{
  ℕ, suc, ◌+◌, ◌-◌, List, [], ◌∷◌, Bool, true, false, ◌&&◌, Option, none, some, String, str_eq,
  Result, ok, err, length, codes, if◌then◌else◌,
}
use gtfs_rt_archiver.Model.{Tick, Capture}
use gtfs_rt_archiver.State.Tables.{Store, StateError}
use gtfs_rt_archiver.State.Captures.{
  save_capture, has_capture, live_capture_files, RetentionCapture,
}
use gtfs_rt_archiver.Compact.Library.{Entry, regular, other}
use gtfs_rt_archiver.Rawstore.{Zone, take_text, validate_capture_paths}
use gtfs_rt_archiver.Rawstore.Commit.{Disk}
use gtfs_rt_archiver.Rawstore.Finish.{
  has_suffix, has_hash, is_accepted, is_file, finish_interrupted_commits,
}

-- A symbolic link, a directory, or a file.
pub data Found : Type 0 where
  link directory : Found
  file : String → Found

-- `error` ends the walk.
pub record Walked : Type 0 where
  pub store : Store
  pub registered : ℕ
  pub corrupt : ℕ
  pub error : Option StateError

-- strings.TrimSuffix where the suffix, of so many bytes, is there.
unfoldable pub without_suffix : ℕ → String → String
without_suffix n path = take_text (length (codes path) - n) path

unfoldable pub add_corrupt : Walked → Walked
add_corrupt w = record w { corrupt = suc w.corrupt }

unfoldable pub tick_of_capture : Capture → Tick
tick_of_capture c = record {
  id = c.tick_id;
  source_id = c.source_id;
  stream_id = c.stream_id;
  scheduled_at = c.scheduled_at;
  started_at = some c.started_at;
  finished_at = some c.completed_at;
  result = "captured";
  skip_reason = "";
  error_category = "";
  error_detail = "";
  http_status = c.http_status;
  attempts = c.attempt_count;
  config_fingerprint = c.config_fingerprint;
}

unfoldable pub saved_or : Walked → Result StateError Store → Walked
saved_or w (err e) = record w { error = some e }
saved_or w (ok s) = record w { store = s; registered = suc w.registered }

-- A capture whose files agree, unless the database has it.
unfoldable pub register : Walked → Capture → Bool → Walked
register w c true = w
register w c false = saved_or w (save_capture w.store (tick_of_capture c) c)

unfoldable pub register_sound : Walked → Capture → Bool → Walked
register_sound w c false = add_corrupt w
register_sound w c true = register w c (has_capture w.store c.id)

-- A payload without a sidecar is corrupt.
unfoldable pub visit_payload : Walked → Option Entry → Walked
visit_payload w none = add_corrupt w
visit_payload w (some e) = w

module _ (sha256 : List ℕ → String) (is_safe : String → Bool) (zones : String → Option Zone)
    (decode : List ℕ → Option Capture) where
  unfoldable pub matches_disk : Disk → String → Capture → Bool
  matches_disk d path c =
      is_accepted (validate_capture_paths zones c)
      && str_eq path c.sidecar_path
      && (is_safe c.raw_path && str_eq c.raw_path (str_append (without_suffix 5 path) ".pb"))
      && has_hash sha256 c (d.tree c.raw_path)

  unfoldable pub visit_decoded : Disk → Walked → String → Option Capture → Walked
  visit_decoded d w path none = add_corrupt w
  visit_decoded d w path (some c) = register_sound w c (matches_disk d path c)

  unfoldable pub visit_sidecar : Disk → Walked → String → Option Entry → Walked
  visit_sidecar d w path none = add_corrupt w
  visit_sidecar d w path (some other) = add_corrupt w
  visit_sidecar d w path (some (regular content)) = visit_decoded d w path (decode content)

  unfoldable pub visit_other : Disk → Walked → String → Bool → Walked
  visit_other d w path false = w
  visit_other d w path true = visit_sidecar d w path (d.tree path)

  unfoldable pub visit_file : Disk → Walked → String → Bool → Walked
  visit_file d w path true = visit_payload w (d.tree (str_append (without_suffix 3 path) ".json"))
  visit_file d w path false = visit_other d w path (has_suffix (codes ".json") (codes path))

  unfoldable pub visit_found : Disk → Walked → Found → Walked
  visit_found d w link = add_corrupt w
  visit_found d w directory = w
  visit_found d w (file path) = visit_file d w path (has_suffix (codes ".pb") (codes path))

  unfoldable pub visit_unless : Option StateError → Disk → Walked → Found → Walked
  visit_unless none d w found = visit_found d w found
  visit_unless (some e) d w found = w

  unfoldable pub walk_found : Disk → List Found → Walked → Walked
  walk_found d [] w = w
  walk_found d (found ∷ rest) w = walk_found d rest (visit_unless w.error d w found)

  unfoldable pub is_present : Disk → String → Bool
  is_present d path = is_safe path && elim (d.tree path) [ none ↦ false | some e ↦ is_file e ]

  -- The second pass: a recorded pair that is not there in full.
  unfoldable pub missing_pairs : Disk → List RetentionCapture → ℕ
  missing_pairs d [] = 0
  missing_pairs d (c ∷ cs) =
      (if is_present d c.raw_path && is_present d c.sidecar_path then 0 else 1) + missing_pairs d cs

  unfoldable pub count_missing : Disk → Walked → Option StateError → Walked
  count_missing d w (some e) = w
  count_missing d w none = record w {
    corrupt = w.corrupt + missing_pairs d (live_capture_files w.store);
  }

  -- `names` are those in the staging directory, `found` what the walk visits then.
  unfoldable pub reconcile : List String → List Found → Store → Disk → Disk × Walked
  reconcile names found s d =
      let (finished, corrupt) = finish_interrupted_commits sha256 is_safe zones decode names d in
      let w =
        walk_found finished found
          (record { store = s; registered = 0; corrupt = corrupt; error = none }) in
      (finished, count_missing finished w w.error)
