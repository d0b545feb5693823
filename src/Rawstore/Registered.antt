-- ===== src/Rawstore/Registered.antt =====
-- internal/rawstore/store.go, Reconcile: what the captures that it registers have on the disk.
use mathlib.Core.List.{append_assoc, append-nil}
use gtfs_rt_archiver.Base.{
  ℕ, List, [], ◌∷◌, ◌++◌, Bool, true, false, not, Option, none, some, String, str_eq, eq_iff,
  Result, ok, err, ok-injective, >>=-eq-ok, guard, ◌≡◌, refl, sym, ap, ◌∙◌, arith, length,
  length-append, codes, All, All-append, any, &&-true,
}
use gtfs_rt_archiver.Model.{Capture, Tick}
use gtfs_rt_archiver.State.Tables.{Store, StateError, constraint}
use gtfs_rt_archiver.State.Ticks.{upsert_tick}
use gtfs_rt_archiver.State.Captures.{save_capture, capture_conflicts}
use gtfs_rt_archiver.Compact.Library.{Entry, regular, other}
use gtfs_rt_archiver.Rawstore.{Zone, PathError, validate_capture_paths}
use gtfs_rt_archiver.Rawstore.Commit.{Disk}
use gtfs_rt_archiver.Rawstore.Finish.{has_suffix, has_hash, is_accepted, finish_interrupted_commits}
use gtfs_rt_archiver.Rawstore.Walk.{
  Found, link, directory, file, Walked, add_corrupt, tick_of_capture, saved_or, register,
  register_sound, visit_payload, matches_disk, visit_decoded, visit_sidecar, visit_other,
  visit_file, visit_found, visit_unless, walk_found, count_missing, reconcile,
}

save_capture-captures :
    (s s' : Store) (t : Tick) (c : Capture)
    → save_capture s t c ≡ ok s'
    → s'.captures ≡ s.captures ++ c ∷ []
unfolding save_capture
save_capture-captures s s' t c e =
    let (_, _, e₁) =
      >>=-eq-ok (guard (not (any (capture_conflicts c) s.captures)) constraint) _ e in
    let has_tick = any (λ k. str_eq k.id c.tick_id) (upsert_tick t s.ticks) in
    let (_, _, e₂) = >>=-eq-ok (guard has_tick constraint) _ e₁ in
    ap (λ r. r.captures) (sym (ok-injective e₂))

accepted-ok : (r : Result PathError (Unit {0})) → is_accepted r ≡ true → r ≡ ok tt
unfolding is_accepted
accepted-ok (err e) h = absurd (ground arith)
accepted-ok (ok _) h = refl

module _ (sha256 : List ℕ → String) where
  has_hash-body :
      (c : Capture) (e : Option Entry)
      → has_hash sha256 c e ≡ true
      → (body : List ℕ) × (e ≡ some (regular body)) × (sha256 body ≡ c.body_sha256)
  unfolding has_hash
  has_hash-body c none h = absurd (ground arith)
  has_hash-body c (some other) h = absurd (ground arith)
  has_hash-body c (some (regular body)) h = (body, refl, (eq_iff _ _).0 h)

module _ (sha256 : List ℕ → String) (is_safe : String → Bool) (zones : String → Option Zone)
    (decode : List ℕ → Option Capture) (d : Disk) where
  -- The sidecar at its path is that of the capture, accepted, and the payload has its hash.
  abbrev pub HasFiles : Capture → Type 0
  HasFiles c =
      (validate_capture_paths zones c ≡ ok tt)
      × ((content : List ℕ) × (d.tree c.sidecar_path ≡ some (regular content))
          × (decode content ≡ some c))
      × ((body : List ℕ) × (d.tree c.raw_path ≡ some (regular body))
          × (sha256 body ≡ c.body_sha256))

  -- What was registered since.
  abbrev pub Registers : Store → Walked → Type 0
  Registers s w =
      (new : List Capture) × (w.store.captures ≡ s.captures ++ new)
      × All HasFiles new
      × (w.registered ≡ length new)

  matches_disk-HasFiles :
      (path : String) (content : List ℕ) (c : Capture)
      → d.tree path ≡ some (regular content)
      → decode content ≡ some c
      → matches_disk sha256 is_safe zones decode d path c ≡ true
      → HasFiles c
  unfolding matches_disk
  matches_disk-HasFiles path content c there decoded h =
      let (h₁, hashed) = &&-true _ _ h in
      let (h₂, _) = &&-true _ _ h₁ in
      let (accepted, at_path) = &&-true _ _ h₂ in
      (
        accepted-ok _ accepted,
        (content, ap d.tree (sym ((eq_iff path c.sidecar_path).0 at_path)) ∙ there, decoded),
        has_hash-body sha256 c (d.tree c.raw_path) hashed,
      )

  module _ (s : Store) where
    saved_or-Registers :
        (w : Walked) (c : Capture) (o : Result StateError Store)
        → HasFiles c
        → save_capture w.store (tick_of_capture c) c ≡ o
        → Registers s w
        → Registers s (saved_or w o)
    unfolding saved_or
    saved_or-Registers w c (err e) files h r = r
    saved_or-Registers w c (ok s') files h (new, same, all, count) = (
      new ++ c ∷ [],
      save_capture-captures w.store s' (tick_of_capture c) c h
          ∙ ap (λ cs. cs ++ c ∷ []) same
          ∙ append_assoc s.captures new (c ∷ []),
      All-append HasFiles new (c ∷ []) all (files, tt),
      omega (arith, count, length-append new (c ∷ [])),
    )

    register_sound-Registers :
        (w : Walked) (c : Capture) (sound : Bool)
        → (sound ≡ true → HasFiles c)
        → Registers s w
        → Registers s (register_sound w c sound)
    unfolding register_sound register add_corrupt
    register_sound-Registers w c false files r = r
    register_sound-Registers w c true files r = by _
      where
        by : (has : Bool) → Registers s (register w c has)
        by true = unfold register in r
        by false = unfold register in saved_or-Registers w c _ (files refl) refl r

    visit_sidecar-Registers :
        (w : Walked) (path : String) (e : Option Entry)
        → d.tree path ≡ e
        → Registers s w
        → Registers s (visit_sidecar sha256 is_safe zones decode d w path e)
    unfolding visit_sidecar add_corrupt
    visit_sidecar-Registers w path none there r = r
    visit_sidecar-Registers w path (some other) there r = r
    visit_sidecar-Registers w path (some (regular content)) there r = by _ refl
      where
        by :
            (o : Option Capture)
            → decode content ≡ o
            → Registers s (visit_decoded sha256 is_safe zones decode d w path o)
        by none decoded = unfold visit_decoded add_corrupt in r
        by (some c) decoded =
            unfold visit_decoded in
            register_sound-Registers w c _ (matches_disk-HasFiles path content c there decoded) r

    visit_file-Registers :
        (w : Walked) (path : String) (is_payload is_sidecar : Bool)
        → has_suffix (codes ".json") (codes path) ≡ is_sidecar
        → Registers s w
        → Registers s (visit_file sha256 is_safe zones decode d w path is_payload)
    unfolding visit_file visit_other visit_payload add_corrupt
    visit_file-Registers w path true b e r = by _
      where
        by : (o : Option Entry) → Registers s (visit_payload w o)
        by none = unfold visit_payload add_corrupt in r
        by (some x) = unfold visit_payload in r
    visit_file-Registers w path false true e r =
        rw (e, visit_other) (visit_sidecar-Registers w path _ refl r)
    visit_file-Registers w path false false e r = rw (e, visit_other) r

    visit_unless-Registers :
        (w : Walked) (error : Option StateError) (found : Found)
        → Registers s w
        → Registers s (visit_unless sha256 is_safe zones decode error d w found)
    unfolding visit_unless visit_found add_corrupt
    visit_unless-Registers w (some e) found r = r
    visit_unless-Registers w none link r = r
    visit_unless-Registers w none directory r = r
    visit_unless-Registers w none (file path) r = visit_file-Registers w path _ _ refl r

    walk_found-Registers :
        (founds : List Found) (w : Walked)
        → Registers s w
        → Registers s (walk_found sha256 is_safe zones decode d founds w)
    unfolding walk_found
    walk_found-Registers [] w r = r
    walk_found-Registers (found ∷ founds) w r =
        walk_found-Registers founds _ (visit_unless-Registers w w.error found r)

    count_missing-Registers :
        (w : Walked) (error : Option StateError)
        → Registers s w
        → Registers s (count_missing sha256 is_safe zones decode d w error)
    unfolding count_missing
    count_missing-Registers w none r = r
    count_missing-Registers w (some e) r = r

-- Reconcile only adds captures to the table, after those that are there, as many as it counts as
-- registered, and each of them has its files on the disk that finishing the interrupted commits
-- leaves: a regular file at its sidecar path that reads as this capture, which
-- validateCapturePaths accepts, and a regular file at its payload path with the hash that it
-- records.
pub reconcile-Registers :
    (sha256 : List ℕ → String) (is_safe : String → Bool) (zones : String → Option Zone)
    (decode : List ℕ → Option Capture) (names : List String) (founds : List Found) (s : Store)
    (d : Disk)
    → Registers sha256 is_safe zones decode
        (reconcile sha256 is_safe zones decode names founds s d).0
        s
        (reconcile sha256 is_safe zones decode names founds s d).1
unfolding reconcile
reconcile-Registers sha256 is_safe zones decode names founds s d =
    let x = (finish_interrupted_commits sha256 is_safe zones decode names d).0 in
    count_missing-Registers sha256 is_safe zones decode x s _ _ (
      walk_found-Registers sha256 is_safe zones decode x s founds _
        ([], sym (append-nil s.captures), tt, refl))
