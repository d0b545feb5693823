-- ===== src/Rawstore/Unregistered.antt =====
-- internal/rawstore/store.go, Reconcile, over the sidecars of captures that have their id from NewID.
use gtfs_rt_archiver.Base.{
  ◌⊎◌, ℕ, List, [], ◌∷◌, Bool, true, false, Option, none, some, String, ◌≡◌, refl, ap, ◌∙◌,
  Option-cases, inl, inr, codes,
}
use gtfs_rt_archiver.Model.{Capture}
use gtfs_rt_archiver.State.Tables.{Store, StateError}
use gtfs_rt_archiver.Compact.Library.{Entry, regular, other}
use gtfs_rt_archiver.Rawstore.{Zone}
use gtfs_rt_archiver.Rawstore.Commit.{Disk}
use gtfs_rt_archiver.Rawstore.Finish.{
  has_suffix, is_accepted, is_recoverable, finish_valid, finish_decoded, finish_named, finish_entry,
  finish_interrupted_commits,
}
use gtfs_rt_archiver.Rawstore.Walk.{
  Found, link, directory, file, Walked, add_corrupt, register_sound, visit_payload, matches_disk,
  visit_decoded, visit_sidecar, visit_other, visit_file, visit_found, visit_unless, walk_found,
  count_missing, reconcile,
}
use gtfs_rt_archiver.Rawstore.Refusal.{IsOfCentury, validate_capture_paths-refuses}

-- The content of a file of the raw store, staged or in its place.
abbrev pub OnDisk : Disk → List ℕ → Type 0
OnDisk d content =
    ((name : String) × (d.staging name ≡ some (regular content)))
    ⊎ ((path : String) × (d.tree path ≡ some (regular content)))

module _ (sha256 : List ℕ → String) (is_safe : String → Bool) (zones : String → Option Zone)
    (decode : List ℕ → Option Capture) (d : Disk)
    (of_century : (content : List ℕ) (c : Capture)
      → OnDisk d content
      → decode content ≡ some c
      → IsOfCentury c.id) where
  finish_decoded-refuses :
      (name : String) (content : List ℕ)
      → OnDisk d content
      → (finish_decoded sha256 is_safe zones decode name (regular content) d (decode content)).0 ≡ d
  unfolding finish_decoded finish_valid is_recoverable is_accepted
  finish_decoded-refuses name content there = elim (Option-cases (decode content)) [
    | inl e ↦ rw (e, finish_decoded) refl
    | inr (c, e) ↦
        rw
          (e, finish_decoded, validate_capture_paths-refuses zones c (of_century content c there e))
          refl
  ]

  finish_named-refuses :
      (name : String) (b : Bool) (e : Option Entry)
      → d.staging name ≡ e
      → (finish_named sha256 is_safe zones decode name d b e).0 ≡ d
  unfolding finish_named
  finish_named-refuses name false e there = refl
  finish_named-refuses name true none there = refl
  finish_named-refuses name true (some other) there = refl
  finish_named-refuses name true (some (regular content)) there =
      finish_decoded-refuses name content (inl (name, there))

  finish_interrupted-refuses :
      (names : List String) → (finish_interrupted_commits sha256 is_safe zones decode names d).0 ≡ d
  unfolding finish_interrupted_commits finish_entry
  finish_interrupted-refuses [] = refl
  finish_interrupted-refuses (name ∷ names) =
      ap (λ x. (finish_interrupted_commits sha256 is_safe zones decode names x).0)
        (finish_named-refuses name (has_suffix (codes ".json.tmp") (codes name)) _ refl)
      ∙ finish_interrupted-refuses names

  -- The database, and what was registered in it, are as before.
  abbrev pub IsUnchanged : Walked → Walked → Type 0
  IsUnchanged w w' = (w'.store ≡ w.store) × (w'.registered ≡ w.registered)

  visit_decoded-refuses :
      (w : Walked) (path : String) (content : List ℕ)
      → OnDisk d content
      → IsUnchanged w (visit_decoded sha256 is_safe zones decode d w path (decode content))
  unfolding visit_decoded register_sound matches_disk is_accepted add_corrupt
  visit_decoded-refuses w path content there = elim (Option-cases (decode content)) [
    | inl e ↦ rw (e, visit_decoded) (refl, refl)
    | inr (c, e) ↦
        rw (e, visit_decoded, validate_capture_paths-refuses zones c (of_century content c there e))
          (refl, refl)
  ]

  visit_sidecar-refuses :
      (w : Walked) (path : String) (e : Option Entry)
      → d.tree path ≡ e
      → IsUnchanged w (visit_sidecar sha256 is_safe zones decode d w path e)
  unfolding visit_sidecar add_corrupt
  visit_sidecar-refuses w path none there = (refl, refl)
  visit_sidecar-refuses w path (some other) there = (refl, refl)
  visit_sidecar-refuses w path (some (regular content)) there =
      visit_decoded-refuses w path content (inr (path, there))

  visit_other-refuses :
      (w : Walked) (path : String) (b : Bool)
      → IsUnchanged w (visit_other sha256 is_safe zones decode d w path b)
  unfolding visit_other
  visit_other-refuses w path false = (refl, refl)
  visit_other-refuses w path true = visit_sidecar-refuses w path (d.tree path) refl

  visit_payload-refuses : (w : Walked) (e : Option Entry) → IsUnchanged w (visit_payload w e)
  unfolding visit_payload add_corrupt
  visit_payload-refuses w none = (refl, refl)
  visit_payload-refuses w (some e) = (refl, refl)

  visit_file-refuses :
      (w : Walked) (path : String) (b : Bool)
      → IsUnchanged w (visit_file sha256 is_safe zones decode d w path b)
  unfolding visit_file
  visit_file-refuses w path true = visit_payload-refuses w _
  visit_file-refuses w path false =
      visit_other-refuses w path (has_suffix (codes ".json") (codes path))

  visit_unless-refuses :
      (w : Walked) (error : Option StateError) (found : Found)
      → IsUnchanged w (visit_unless sha256 is_safe zones decode error d w found)
  unfolding visit_unless visit_found add_corrupt
  visit_unless-refuses w (some e) found = (refl, refl)
  visit_unless-refuses w none link = (refl, refl)
  visit_unless-refuses w none directory = (refl, refl)
  visit_unless-refuses w none (file path) =
      visit_file-refuses w path (has_suffix (codes ".pb") (codes path))

  walk_found-refuses :
      (founds : List Found) (w : Walked)
      → IsUnchanged w (walk_found sha256 is_safe zones decode d founds w)
  unfolding walk_found
  walk_found-refuses [] w = (refl, refl)
  walk_found-refuses (found ∷ founds) w =
      let w' = visit_unless sha256 is_safe zones decode w.error d w found in
      let first = visit_unless-refuses w w.error found in
      let rest = walk_found-refuses founds w' in (rest.0 ∙ first.0, rest.1 ∙ first.1)

  count_missing-refuses :
      (w : Walked) (error : Option StateError)
      → IsUnchanged w (count_missing sha256 is_safe zones decode d w error)
  unfolding count_missing
  count_missing-refuses w none = (refl, refl)
  count_missing-refuses w (some e) = (refl, refl)

  -- Where every file of the raw store, staged or in the tree, that reads as a sidecar is that of a
  -- capture whose id NewID gave in a year from 2000 to 2099, Reconcile leaves the disk and the
  -- database as they are and registers nothing.
  pub reconcile-refuses :
      (names : List String) (founds : List Found) (s : Store)
      → ((reconcile sha256 is_safe zones decode names founds s d).0 ≡ d)
        × ((reconcile sha256 is_safe zones decode names founds s d).1.store ≡ s)
        × ((reconcile sha256 is_safe zones decode names founds s d).1.registered ≡ 0)
  unfolding reconcile
  reconcile-refuses names founds s =
      let begun : Walked = record {
        store = s;
        registered = 0;
        corrupt = (finish_interrupted_commits sha256 is_safe zones decode names d).1;
        error = none;
      } in
      let w = walk_found sha256 is_safe zones decode d founds begun in
      let walked = walk_found-refuses founds begun in
      let counted = count_missing-refuses w w.error in
      rw (finish_interrupted-refuses names) (refl, counted.0 ∙ walked.0, counted.1 ∙ walked.1)
