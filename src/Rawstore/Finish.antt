-- ===== src/Rawstore/Finish.antt =====
-- internal/rawstore/store.go, finishInterruptedCommits: a start finishes the commits that have their
-- sidecar in the staging directory.
use gtfs_rt_archiver.Base.{
  ℕ, ◌+◌, List, [], ◌∷◌, Bool, true, false, ◌&&◌, ◌||◌, Option, none, some, String, str_eq, Result,
  ok, err, codes,
}
use gtfs_rt_archiver.Model.{Capture}
use gtfs_rt_archiver.Upload.Publish.{same_bytes}
use gtfs_rt_archiver.Compact.Library.{Entry, regular, other}
use gtfs_rt_archiver.Rawstore.{Zone, PathError, validate_capture_paths}
use gtfs_rt_archiver.Rawstore.Commit.{Disk, set, move_entry, payload_name, sidecar_name}

unfoldable pub has_suffix : List ℕ → List ℕ → Bool
has_suffix suffix [] = same_bytes [] suffix
has_suffix suffix (c ∷ cs) = same_bytes (c ∷ cs) suffix || has_suffix suffix cs

unfoldable pub is_file : Entry → Bool
is_file other = false
is_file (regular content) = true

module _ (sha256 : List ℕ → String) where
  -- hashFile, compared with the sidecar.
  unfoldable pub has_hash : Capture → Option Entry → Bool
  has_hash c none = false
  has_hash c (some other) = false
  has_hash c (some (regular body)) = str_eq (sha256 body) c.body_sha256

  unfoldable pub drop_staged : String → Disk → Capture → Bool → Disk × ℕ
  drop_staged name d c false = (d, 1)
  drop_staged name d c true =
      (record d { staging = set (set d.staging name none) (payload_name c.id) none }, 0)

  -- Both files exist, or the payload alone does, or it is staged still.
  unfoldable pub publish_sidecar : String → Entry → Disk → Capture → Bool → Disk × ℕ
  publish_sidecar name sidecar d c false = (d, 1)
  publish_sidecar name sidecar d c true = (move_entry name c.sidecar_path sidecar d, 0)

  unfoldable pub publish_both : String → Entry → Disk → Capture → Option Entry → Bool → Disk × ℕ
  publish_both name sidecar d c none hashed = (d, 1)
  publish_both name sidecar d c (some e) false = (d, 1)
  publish_both name sidecar d c (some e) true =
      (move_entry name c.sidecar_path sidecar (move_entry (payload_name c.id) c.raw_path e d), 0)

  unfoldable pub finish_payload : String → Entry → Disk → Capture → Option Entry → Disk × ℕ
  finish_payload name sidecar d c (some e) = publish_sidecar name sidecar d c (has_hash c (some e))
  finish_payload name sidecar d c none =
      publish_both name sidecar d c (d.staging (payload_name c.id))
        (has_hash c (d.staging (payload_name c.id)))

  unfoldable pub finish_pair : String → Entry → Disk → Capture → Option Entry → Disk × ℕ
  finish_pair name sidecar d c (some e) =
      drop_staged name d c (is_file e && has_hash c (d.tree c.raw_path))
  finish_pair name sidecar d c none = finish_payload name sidecar d c (d.tree c.raw_path)

  unfoldable pub finish_valid : String → Entry → Disk → Capture → Bool → Disk × ℕ
  finish_valid name sidecar d c false = (d, 1)
  finish_valid name sidecar d c true = finish_pair name sidecar d c (d.tree c.sidecar_path)

unfoldable pub is_accepted : Result PathError (Unit {0}) → Bool
is_accepted (err e) = false
is_accepted (ok _) = true

module _ (is_safe : String → Bool) (zones : String → Option Zone) where
  unfoldable pub is_recoverable : String → Capture → Bool
  is_recoverable name c =
      is_accepted (validate_capture_paths zones c)
      && str_eq name (sidecar_name c.id)
      && (is_safe c.raw_path && is_safe c.sidecar_path)

module _ (sha256 : List ℕ → String) (is_safe : String → Bool) (zones : String → Option Zone)
    (decode : List ℕ → Option Capture) where
  unfoldable pub finish_decoded : String → Entry → Disk → Option Capture → Disk × ℕ
  finish_decoded name sidecar d none = (d, 1)
  finish_decoded name sidecar d (some c) =
      finish_valid sha256 name sidecar d c (is_recoverable is_safe zones name c)

  -- A name that has no entry is none that ReadDir gives.
  unfoldable pub finish_named : String → Disk → Bool → Option Entry → Disk × ℕ
  finish_named name d false e = (d, 0)
  finish_named name d true none = (d, 0)
  finish_named name d true (some other) = (d, 0)
  finish_named name d true (some (regular content)) =
      finish_decoded name (regular content) d (decode content)

  -- The disk, and whether the entry is counted as corrupt.
  unfoldable pub finish_entry : Disk → String → Disk × ℕ
  finish_entry d name =
      finish_named name d (has_suffix (codes ".json.tmp") (codes name)) (d.staging name)

  -- The names that ReadDir gives, in its order.
  unfoldable pub finish_interrupted_commits : List String → Disk → Disk × ℕ
  finish_interrupted_commits [] d = (d, 0)
  finish_interrupted_commits (name ∷ names) d =
      let (d', corrupt) = finish_entry d name in
      let (end, rest) = finish_interrupted_commits names d' in (end, corrupt + rest)
