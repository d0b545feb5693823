-- ===== src/Upload/Publish.antt =====
-- internal/upload/upload.go: the publication of one revision through rclone.
--
-- `Rclone` is the remote as the commands change and read it. A file of the revision is known by its
-- name in the directory of the manifest; a remote path is a list of bytes.
pub mod Manifest
pub mod Tests
use gtfs_rt_archiver.Base.{
  ℕ, suc, List, [], ◌∷◌, ◌++◌, Bool, true, false, not, ◌&&◌, ◌||◌, Option, none, some, String,
  codes, map, length, all, ◌==◌, leb, if◌then◌else◌, Result, ok, err,
}
use gtfs_rt_archiver.Model.{Artifact}
use gtfs_rt_archiver.State.Tables.{fold_case}

pub record Rclone : Type 1 where
  pub Remote : Type 0
  -- rclone copyto: the remote afterwards, and the error.
  pub copyto : Remote → List ℕ → List ℕ → Remote × Option String
  -- rclone hashsum: the first field of its first line, where it succeeds and prints one.
  pub hashsum : Remote → List ℕ → Option (List ℕ)
  -- rclone cat: the hash of what it prints, in hexadecimal, or an error.
  pub cat_hash : Remote → List ℕ → Result String (List ℕ)

-- The bytes without the slashes at the front.
unfoldable pub trim_left : List ℕ → List ℕ
trim_left [] = []
trim_left (c ∷ cs) = let rest = trim_left cs in if c == b'/' then rest else c ∷ cs

unfoldable pub reverse_onto : List ℕ → List ℕ → List ℕ
reverse_onto acc [] = acc
reverse_onto acc (c ∷ cs) = reverse_onto (c ∷ acc) cs

unfoldable pub reverse : List ℕ → List ℕ
reverse cs = reverse_onto [] cs

unfoldable pub trim_right : List ℕ → List ℕ
trim_right cs = reverse (trim_left (reverse cs))

-- The bytes up to the first slash.
unfoldable pub to_slash : List ℕ → List ℕ
to_slash [] = []
to_slash (c ∷ cs) = let rest = to_slash cs in if c == b'/' then [] else c ∷ rest

-- filepath.Base: "." for an empty path, "/" for slashes alone.
abbrev pub or_root : List ℕ → List ℕ
or_root [] = b'/' ∷ []
or_root (c ∷ cs) = c ∷ cs

unfoldable pub base_name : List ℕ → List ℕ
base_name [] = b'.' ∷ []
base_name (c ∷ cs) = or_root (reverse (to_slash (trim_left (reverse (c ∷ cs)))))

-- remoteJoin of a base and one element that path.Join leaves as it is, since it has no slash inside.
unfoldable pub remote_join : List ℕ → List ℕ → List ℕ
remote_join base element = trim_right base ++ (b'/' ∷ trim_left element)

-- ^[a-fA-F0-9]{64}$.
unfoldable pub is_hex : ℕ → Bool
is_hex c = leb b'a' c && leb c b'f' || leb b'A' c && leb c b'F' || leb b'0' c && leb c b'9'

unfoldable pub is_sha256 : List ℕ → Bool
is_sha256 h = length h == 64 && all is_hex h

unfoldable pub same_bytes : List ℕ → List ℕ → Bool
same_bytes [] [] = true
same_bytes [] (d ∷ ds) = false
same_bytes (c ∷ cs) [] = false
same_bytes (c ∷ cs) (d ∷ ds) = c == d && same_bytes cs ds

-- strings.EqualFold of two ASCII texts.
unfoldable pub equal_fold : List ℕ → List ℕ → Bool
equal_fold a b = same_bytes (map fold_case a) (map fold_case b)

-- A copy that was run, and whether it was verified.
pub record Copy : Type 0 where
  pub remote : List ℕ
  pub verified : Bool

module _ (rclone : Rclone) where
  abbrev pub listed_hash : Option (List ℕ) → Result String (List ℕ) → Result String (List ℕ)
  listed_hash none read_back = read_back
  listed_hash (some h) read_back = if is_sha256 h then ok (map fold_case h) else read_back

  unfoldable pub remote_hash : rclone.Remote → List ℕ → Result String (List ℕ)
  remote_hash w remote = listed_hash (rclone.hashsum w remote) (rclone.cat_hash w remote)

  -- What copyAndVerify returns once the copy is made: an error, or none.
  abbrev pub check_hash : List ℕ → Result String (List ℕ) → Option String
  check_hash expected (err e) = some e
  check_hash expected (ok actual) =
      if equal_fold actual expected then none else some "remote_integrity: sha256_mismatch"

  abbrev pub after_copy : List ℕ → List ℕ → rclone.Remote × Option String → Option String
  after_copy remote expected (w, some e) = some e
  after_copy remote expected (w, none) = check_hash expected (remote_hash w remote)

  unfoldable pub copy_and_verify :
      rclone.Remote → List ℕ → List ℕ → List ℕ → rclone.Remote × Option String
  copy_and_verify w local remote expected =
      let copied = rclone.copyto w local remote in (copied.0, after_copy remote expected copied)

  -- The remote at the end, the copies run, in order, and the error.
  pub record Published : Type 0 where
    pub world : rclone.Remote
    pub copies : List Copy
    pub error : Option String

  abbrev pub after_file :
      List ℕ → rclone.Remote × Option String → (rclone.Remote → Published) → Published
  after_file remote (w, some e) next = record {
    world = w;
    copies = record { remote = remote; verified = false } ∷ [];
    error = some e;
  }
  after_file remote (w, none) next =
      let rest = next w in
      record {
        world = rest.world;
        copies = record { remote = remote; verified = true } ∷ rest.copies;
        error = rest.error;
      }

  -- The loop over the artifacts, and then the manifest.
  unfoldable pub publish_files : rclone.Remote → List ℕ → List ℕ → List Artifact → Published
  publish_files w remote_dir manifest_hash [] =
      let remote = remote_join remote_dir (codes "manifest.json") in
      after_file remote (copy_and_verify w (codes "manifest.json") remote manifest_hash)
        (λ w'. record { world = w'; copies = []; error = none })
  publish_files w remote_dir manifest_hash (a ∷ rest) =
      let name = base_name (codes a.relative_path) in
      let remote = remote_join remote_dir name in
      after_file remote (copy_and_verify w name remote (codes a.sha256))
        (λ w'. publish_files w' remote_dir manifest_hash rest)

  -- publish: VerifyDirectory and reading the manifest come first.
  unfoldable pub publish :
      rclone.Remote → Option String → List ℕ → List ℕ → List Artifact → Published
  publish w (some e) remote_dir manifest_hash files = record {
    world = w;
    copies = [];
    error = some e;
  }
  publish w none remote_dir manifest_hash files = publish_files w remote_dir manifest_hash files
