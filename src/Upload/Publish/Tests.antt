-- ===== src/Upload/Publish/Tests.antt =====
-- A publication of one artifact to a remote that reads back what it is told.
use gtfs_rt_archiver.Base.{ℕ, suc, [], ◌∷◌, none, Option, some, String, codes, ◌≡◌, refl, ok, ◌⊎◌}
use gtfs_rt_archiver.Model.{Artifact}
use gtfs_rt_archiver.State.Tables.{fold_case}
use gtfs_rt_archiver.Upload.Publish.{
  Rclone, publish, publish_files, copy_and_verify, remote_hash, equal_fold, same_bytes, remote_join,
  base_name, trim_left, trim_right, reverse, reverse_onto, to_slash,
}
use gtfs_rt_archiver.Upload.Publish.Manifest.{
  plan, Follows, publish-Follows, AllCopied, publish-AllCopied,
}

abbrev reads_back : Rclone
reads_back = record {
  Remote = ℕ;
  copyto = λ w local remote. (suc w, none);
  hashsum = λ w remote. none;
  cat_hash = λ w remote. ok (codes "ab");
}

abbrev artifact : Artifact
artifact = record {
  relative_path = "compact/r1/data.parquet";
  part = 0;
  bytes = 100;
  sha256 = "AB";
  rows = 3;
  entities = 3;
}

planned :
    plan (codes "s3:b/") (artifact ∷ [])
    ≡ codes "s3:b/data.parquet" ∷ codes "s3:b/manifest.json" ∷ []
unfolding remote_join base_name trim_left trim_right reverse reverse_onto to_slash
planned = refl

publish-Follows_example :
    let p = publish reads_back 0 none (codes "s3:b/") (codes "ab") (artifact ∷ []) in
    ((p.copies ≡ []) × (p.error ≡ none) × ((e : String) × (none ≡ some e)))
    ⊎ Follows (plan (codes "s3:b/") (artifact ∷ [])) p.copies p.error
publish-Follows_example =
    publish-Follows reads_back 0 none (codes "s3:b/") (codes "ab") (artifact ∷ [])

published_without_error :
    (publish reads_back 0 none (codes "s3:b/") (codes "ab") (artifact ∷ [])).error ≡ none
unfolding publish publish_files copy_and_verify remote_hash equal_fold same_bytes fold_case
published_without_error = refl

publish-AllCopied_example :
    Path (Option String) none none
    × AllCopied reads_back 0 (codes "s3:b/") (codes "ab") (artifact ∷ [])
publish-AllCopied_example =
    publish-AllCopied reads_back 0 none (codes "s3:b/") (codes "ab") (artifact ∷ [])
      published_without_error
