-- ===== src/Lifecycle/Tests.antt =====
-- A retention pass long after the day of State.Tests.
use gtfs_rt_archiver.Base.{ℕ, List, [], ◌∷◌, Option, some, String, true, false, ◌*◌, ◌≡◌, refl}
use gtfs_rt_archiver.Clock.{Time, second}
use gtfs_rt_archiver.State.Tests.{archived, archived-Reach, late}
use gtfs_rt_archiver.Lifecycle.{
  Policy, Source, Removal, removed, cleanup, remove_files, count_removal,
}
use gtfs_rt_archiver.Lifecycle.Cleanup.{IsSound, IsDeletable, cleanup-IsSound}

abbrev policy : Policy
policy = record {
  destinations = record { id = "s3"; remote = "s3:b"; required = some true } ∷ [];
  allow_local_only_cleanup = false;
  raw_retention = 7 * 86400 * second;
  parquet_retention = 30 * 86400 * second;
  metadata_retention = 365 * 86400 * second;
}

-- Location is the offset in seconds; the only day is that of the archive.
abbrev sources : List (Source ℕ)
sources = record { id = "agency"; streams = ("trips", some 0) ∷ [] } ∷ []

abbrev day_of : ℕ → String → Option (Time × Time)
day_of offset date = some (1_699_920_000 * second, 1_700_006_400 * second)

abbrev disk : String → Removal
disk path = removed 10

files_removed :
    remove_files disk ("a" ∷ "" ∷ "b" ∷ [])
    ≡ record { paths = "a" ∷ "b" ∷ []; bytes = 20; failed = false }
unfolding remove_files count_removal
files_removed = refl

cleanup-IsSound_example :
    IsSound
      (IsDeletable policy disk archived late)
      (cleanup policy sources day_of disk "" archived late)
cleanup-IsSound_example = cleanup-IsSound sources day_of policy disk archived late "" archived-Reach
