-- ===== src/Upload/Publish/Manifest.antt =====
-- internal/upload/upload.go, publish: in which order a revision is copied, and what is verified of it.
use gtfs_rt_archiver.Base.{
  ℕ, List, [], ◌∷◌, true, false, Option, none, some, String, codes, ◌≡◌, refl, arith, ◌⊎◌, inl, inr,
  Result, ok, err, Option-cases, Bool-cases, ok-injective, map, sym, ap, ◌∙◌,
}
use gtfs_rt_archiver.Model.{Artifact}
use gtfs_rt_archiver.State.Tables.{fold_case}
use gtfs_rt_archiver.Upload.Publish.{
  Rclone, Copy, Published, publish, publish_files, after_file, copy_and_verify, remote_join,
  base_name, remote_hash, equal_fold, after_copy, check_hash, is_sha256, listed_hash,
}

-- The remote paths of a revision, in the order in which they are to be written: the manifest is last.
abbrev pub plan : List ℕ → List Artifact → List (List ℕ)
plan remote_dir [] = remote_join remote_dir (codes "manifest.json") ∷ []
plan remote_dir (a ∷ files) =
    remote_join remote_dir (base_name (codes a.relative_path)) ∷ plan remote_dir files

-- The copies follow the plan and are verified; the error, if there is one, comes at a copy that is not
-- verified, and nothing is copied after it; without an error the whole plan was copied.
abbrev pub Follows : List (List ℕ) → List Copy → Option String → Type 0
Follows remotes [] error = (remotes ≡ []) × (error ≡ none)
Follows [] (c ∷ copies) error = ⊥
Follows (remote ∷ remotes) (c ∷ copies) error =
    (c.remote ≡ remote)
    × (((c.verified ≡ false) × (copies ≡ []) × ((e : String) × (error ≡ some e)))
        ⊎ ((c.verified ≡ true) × Follows remotes copies error))

module _ (rclone : Rclone) where
  after_file-Follows :
      (remote : List ℕ) (remotes : List (List ℕ)) (r : rclone.Remote × Option String)
      (next : rclone.Remote → Published rclone)
      → ((w : rclone.Remote) → Follows remotes (next w).copies (next w).error)
      → Follows
          (remote ∷ remotes)
          (after_file rclone remote r next).copies
          (after_file rclone remote r next).error
  after_file-Follows remote remotes (w, some e) next h = (refl, inl (refl, refl, (e, refl)))
  after_file-Follows remote remotes (w, none) next h = (refl, inr (refl, h w))

  publish_files-Follows :
      (w : rclone.Remote) (remote_dir manifest_hash : List ℕ) (files : List Artifact)
      → Follows
          (plan remote_dir files)
          (publish_files rclone w remote_dir manifest_hash files).copies
          (publish_files rclone w remote_dir manifest_hash files).error
  unfolding publish_files
  publish_files-Follows w remote_dir manifest_hash [] =
      after_file-Follows _ [] _ _ (λ w'. (refl, refl))
  publish_files-Follows w remote_dir manifest_hash (a ∷ files) =
      after_file-Follows _ (plan remote_dir files) _ _
        (λ w'. publish_files-Follows w' remote_dir manifest_hash files)

  -- A publication whose local check fails copies nothing. Otherwise its copies are those of the
  -- artifacts in order, then that of the manifest, each begun only when all before it were
  -- verified; an error ends it at a copy that was not verified, and without one everything was
  -- copied.
  pub publish-Follows :
      (w : rclone.Remote) (checked : Option String) (remote_dir manifest_hash : List ℕ)
      (files : List Artifact)
      → let p = publish rclone w checked remote_dir manifest_hash files in
        ((p.copies ≡ []) × (p.error ≡ checked) × ((e : String) × (checked ≡ some e)))
        ⊎ Follows (plan remote_dir files) p.copies p.error
  unfolding publish
  publish-Follows w (some e) remote_dir manifest_hash files = inl (refl, refl, (e, refl))
  publish-Follows w none remote_dir manifest_hash files =
      inr (publish_files-Follows w remote_dir manifest_hash files)

  -- The hash that `rclone hashsum` gives, where it gives one that is a SHA-256, and without such an
  -- answer the hash of what `rclone cat` reads back.
  abbrev pub HashIs : rclone.Remote → List ℕ → List ℕ → Type 0
  HashIs w remote hash =
      ((listed : List ℕ) × (rclone.hashsum w remote ≡ some listed)
        × (is_sha256 listed ≡ true)
        × (hash ≡ map fold_case listed))
      ⊎ (((rclone.hashsum w remote ≡ none)
            ⊎ ((listed : List ℕ) × (rclone.hashsum w remote ≡ some listed)
                × (is_sha256 listed ≡ false)))
          × (rclone.cat_hash w remote ≡ ok hash))

  remote_hash-HashIs :
      (w : rclone.Remote) (remote hash : List ℕ)
      → remote_hash rclone w remote ≡ ok hash
      → HashIs w remote hash
  unfolding remote_hash
  remote_hash-HashIs w remote hash h = elim (Option-cases (rclone.hashsum w remote)) [
    | inl none_listed ↦ inr (
      inl none_listed,
      sym (ap (λ o. listed_hash rclone o (rclone.cat_hash w remote)) none_listed) ∙ h,
    )
    | inr (listed, e) ↦ elim (Bool-cases (is_sha256 listed)) [
      | inl is_hash ↦ inl (listed, e, is_hash, ok-injective (sym h ∙ rw (e, is_hash) refl))
      | inr no_hash ↦ inr (inr (listed, e, no_hash), sym (rw (e, no_hash) refl) ∙ h)
    ]
  ]

  -- A copy without an error after which the remote has a hash, in either case.
  abbrev pub IsCopied : rclone.Remote × Option String → List ℕ → List ℕ → Type 0
  IsCopied copied remote expected =
      (copied.1 ≡ none)
      × ((hash : List ℕ) × HashIs copied.0 remote hash × (equal_fold hash expected ≡ true))

  copy_and_verify-IsCopied :
      (w : rclone.Remote) (local remote expected : List ℕ)
      → (copy_and_verify rclone w local remote expected).1 ≡ none
      → IsCopied (rclone.copyto w local remote) remote expected
  unfolding copy_and_verify
  copy_and_verify-IsCopied w local remote expected h = copied (rclone.copyto w local remote) h
    where
      checked :
          (r : Result String (List ℕ))
          → check_hash rclone expected r ≡ none
          → (hash : List ℕ) × (r ≡ ok hash) × (equal_fold hash expected ≡ true)
      checked (err e) k = absurd (ground arith)
      checked (ok hash) k = (hash, refl, ground arith)

      copied :
          (c : rclone.Remote × Option String)
          → after_copy rclone remote expected c ≡ none
          → IsCopied c remote expected
      copied (w', some e) k = absurd (ground arith)
      copied (w', none) k =
          let (hash, e, same) = checked (remote_hash rclone w' remote) k in
          (refl, (hash, remote_hash-HashIs w' remote hash e, same))

  -- The copies of the artifacts and that of the manifest, each with its hash, made one on what the
  -- other leaves.
  abbrev pub AllCopied : rclone.Remote → List ℕ → List ℕ → List Artifact → Type 0
  AllCopied w remote_dir manifest_hash [] =
      let remote = remote_join remote_dir (codes "manifest.json") in
      IsCopied (rclone.copyto w (codes "manifest.json") remote) remote manifest_hash
  AllCopied w remote_dir manifest_hash (a ∷ files) =
      let name = base_name (codes a.relative_path) in
      let remote = remote_join remote_dir name in
      IsCopied (rclone.copyto w name remote) remote (codes a.sha256)
      × AllCopied (rclone.copyto w name remote).0 remote_dir manifest_hash files

  after_file-none :
      (remote : List ℕ) (r : rclone.Remote × Option String)
      (next : rclone.Remote → Published rclone)
      → (after_file rclone remote r next).error ≡ none
      → (r.1 ≡ none) × ((next r.0).error ≡ none)
  after_file-none remote (w, some e) next h = absurd (ground arith)
  after_file-none remote (w, none) next h = (refl, h)

  publish_files-AllCopied :
      (w : rclone.Remote) (remote_dir manifest_hash : List ℕ) (files : List Artifact)
      → (publish_files rclone w remote_dir manifest_hash files).error ≡ none
      → AllCopied w remote_dir manifest_hash files
  unfolding publish_files copy_and_verify
  publish_files-AllCopied w remote_dir manifest_hash [] h =
      copy_and_verify-IsCopied w _ _ manifest_hash (after_file-none _ _ _ h).0
  publish_files-AllCopied w remote_dir manifest_hash (a ∷ files) h =
      let name = base_name (codes a.relative_path) in
      let (first, rest) = after_file-none _ _ _ h in
      (
        copy_and_verify-IsCopied w _ _ (codes a.sha256) first,
        publish_files-AllCopied (rclone.copyto w name (remote_join remote_dir name)).0 remote_dir
            manifest_hash files rest,
      )

  -- A publication without an error has passed its local check, and has copied every artifact and
  -- then the manifest, each copy made on what the one before it left, without an error of rclone,
  -- and followed by a hash of the remote file that equals the recorded one, in either case. That
  -- hash is the one that hashsum lists, where that is a SHA-256; only where hashsum lists none, or
  -- one that is no SHA-256, is it that of the content that cat reads back.
  pub publish-AllCopied :
      (w : rclone.Remote) (checked : Option String) (remote_dir manifest_hash : List ℕ)
      (files : List Artifact)
      → (publish rclone w checked remote_dir manifest_hash files).error ≡ none
      → (checked ≡ none) × AllCopied w remote_dir manifest_hash files
  unfolding publish
  publish-AllCopied w (some e) remote_dir manifest_hash files h = absurd (ground arith)
  publish-AllCopied w none remote_dir manifest_hash files h =
      (refl, publish_files-AllCopied w remote_dir manifest_hash files h)
