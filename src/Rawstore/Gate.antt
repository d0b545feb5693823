-- ===== src/Rawstore/Gate.antt =====
-- internal/rawstore/store.go, Reconcile, and the state database.
use gtfs_rt_archiver.Base.{
  ℕ, List, [], ◌∷◌, Bool, true, false, Option, none, some, String, Result, ok, err,
}
use gtfs_rt_archiver.Model.{Capture}
use gtfs_rt_archiver.State.Tables.{Store, StateError}
use gtfs_rt_archiver.State.History.{Reach, after, step, keep, save_capture}
use gtfs_rt_archiver.Compact.Library.{Entry, regular, other}
use gtfs_rt_archiver.Rawstore.{Zone}
use gtfs_rt_archiver.Rawstore.Commit.{Disk}
use gtfs_rt_archiver.Rawstore.Walk.{
  Found, link, directory, file, Walked, add_corrupt, tick_of_capture, saved_or, register,
  register_sound, visit_payload, visit_decoded, visit_sidecar, visit_other, visit_file, visit_found,
  visit_unless, walk_found, count_missing, reconcile,
}

saved_or-Reach :
    (w : Walked) (o : Result StateError Store)
    → Reach w.store
    → Reach (keep w.store o)
    → Reach (saved_or w o).store
unfolding saved_or
saved_or-Reach w (err e) h k = h
saved_or-Reach w (ok s) h k = k

register-Reach :
    (w : Walked) (c : Capture) (has : Bool) → Reach w.store → Reach (register w c has).store
unfolding register
register-Reach w c true h = h
register-Reach w c false h =
    saved_or-Reach w _ h (unfold step in after (save_capture (tick_of_capture c) c) h tt)

register_sound-Reach :
    (w : Walked) (c : Capture) (sound : Bool)
    → Reach w.store
    → Reach (register_sound w c sound).store
unfolding register_sound add_corrupt
register_sound-Reach w c false h = h
register_sound-Reach w c true h = register-Reach w c _ h

visit_payload-Reach :
    (w : Walked) (e : Option Entry) → Reach w.store → Reach (visit_payload w e).store
unfolding visit_payload add_corrupt
visit_payload-Reach w none h = h
visit_payload-Reach w (some e) h = h

module _ (sha256 : List ℕ → String) (is_safe : String → Bool) (zones : String → Option Zone)
    (decode : List ℕ → Option Capture) where
  visit_decoded-Reach :
      (d : Disk) (w : Walked) (path : String) (o : Option Capture)
      → Reach w.store
      → Reach (visit_decoded sha256 is_safe zones decode d w path o).store
  unfolding visit_decoded add_corrupt
  visit_decoded-Reach d w path none h = h
  visit_decoded-Reach d w path (some c) h = register_sound-Reach w c _ h

  visit_sidecar-Reach :
      (d : Disk) (w : Walked) (path : String) (e : Option Entry)
      → Reach w.store
      → Reach (visit_sidecar sha256 is_safe zones decode d w path e).store
  unfolding visit_sidecar add_corrupt
  visit_sidecar-Reach d w path none h = h
  visit_sidecar-Reach d w path (some other) h = h
  visit_sidecar-Reach d w path (some (regular content)) h =
      visit_decoded-Reach d w path (decode content) h

  visit_other-Reach :
      (d : Disk) (w : Walked) (path : String) (is_sidecar : Bool)
      → Reach w.store
      → Reach (visit_other sha256 is_safe zones decode d w path is_sidecar).store
  unfolding visit_other
  visit_other-Reach d w path false h = h
  visit_other-Reach d w path true h = visit_sidecar-Reach d w path (d.tree path) h

  visit_file-Reach :
      (d : Disk) (w : Walked) (path : String) (is_payload : Bool)
      → Reach w.store
      → Reach (visit_file sha256 is_safe zones decode d w path is_payload).store
  unfolding visit_file
  visit_file-Reach d w path true h = visit_payload-Reach w _ h
  visit_file-Reach d w path false h = visit_other-Reach d w path _ h

  visit_unless-Reach :
      (d : Disk) (w : Walked) (error : Option StateError) (found : Found)
      → Reach w.store
      → Reach (visit_unless sha256 is_safe zones decode error d w found).store
  unfolding visit_unless visit_found add_corrupt
  visit_unless-Reach d w (some e) found h = h
  visit_unless-Reach d w none link h = h
  visit_unless-Reach d w none directory h = h
  visit_unless-Reach d w none (file path) h = visit_file-Reach d w path _ h

  walk_found-Reach :
      (d : Disk) (founds : List Found) (w : Walked)
      → Reach w.store
      → Reach (walk_found sha256 is_safe zones decode d founds w).store
  unfolding walk_found
  walk_found-Reach d [] w h = h
  walk_found-Reach d (found ∷ founds) w h =
      walk_found-Reach d founds _ (visit_unless-Reach d w w.error found h)

  count_missing-Reach :
      (d : Disk) (w : Walked) (error : Option StateError)
      → Reach w.store
      → Reach (count_missing sha256 is_safe zones decode d w error).store
  unfolding count_missing
  count_missing-Reach d w none h = h
  count_missing-Reach d w (some e) h = h

  pub reconcile-Reach :
      (names : List String) (founds : List Found) (s : Store) (d : Disk)
      → Reach s
      → Reach (reconcile sha256 is_safe zones decode names founds s d).1.store
  unfolding reconcile
  reconcile-Reach names founds s d h = count_missing-Reach _ _ _ (walk_found-Reach _ founds _ h)
