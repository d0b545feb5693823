-- ===== src/Reconcile/Snapshot.antt =====
-- internal/reconcile/reconcile.go: what VerifyDirectory has checked of the destinations that a manifest's
-- revision is adopted with.
use gtfs_rt_archiver.Base.{
  List, [], ◌∷◌, map, Bool, true, false, not, ◌||◌, String, ok, guard-then, guard-eq-ok, >>=-eq-ok,
  ◌≡◌, refl, arith, All, All-where_rows, where_rows, Bool-cases, inl, inr,
}
use gtfs_rt_archiver.Base.Pairs.{sort-All}
use gtfs_rt_archiver.Base.Sort.{sort}
use gtfs_rt_archiver.Gtfsrt.{text_le}
use gtfs_rt_archiver.Model.{ManifestDestination}
use gtfs_rt_archiver.State.Tables.{is_empty, mem_text}
use gtfs_rt_archiver.Upload.Publish.{same_bytes}
use gtfs_rt_archiver.Compact.Accounts.{put}
use gtfs_rt_archiver.Compact.Gate.{sort-nil}
use gtfs_rt_archiver.Compact.Snapshot.{put-All}
use gtfs_rt_archiver.Compact.Verify.{
  check_ids, check_destinations, joined, required_in, invalid_destination,
  inconsistent_destinations,
}
use gtfs_rt_archiver.Reconcile.{snapshot_map, required_map, destinations_from}

check_ids-nonempty :
    (seen : List String) (ds : List ManifestDestination)
    → check_ids seen ds ≡ ok tt
    → All (λ d. is_empty d.id ≡ false) ds
unfolding check_ids
check_ids-nonempty seen [] h = tt
check_ids-nonempty seen (d ∷ ds) h =
    let (valid, rest) =
      guard-then (not (is_empty d.id || mem_text d.id seen)) invalid_destination _ h in
    (ground (arith, valid), check_ids-nonempty (d.id ∷ seen) ds rest)

-- Texts that are not empty join to nothing only where there are none.
joined-nil :
    (vs : List String)
    → All (λ v. is_empty v ≡ false) vs
    → same_bytes (joined vs) [] ≡ true
    → vs ≡ []
unfolding joined same_bytes
joined-nil [] h e = refl
joined-nil (String.[] ∷ []) h e = absurd (ground (arith, h.0))
joined-nil (String.◌∷◌ c v ∷ []) h e = absurd (ground arith)
joined-nil (String.[] ∷ w ∷ vs) h e = absurd (ground arith)
joined-nil (String.◌∷◌ c v ∷ w ∷ vs) h e = absurd (ground arith)

map-ids-All :
    (P : String → Type 0) (ds : List ManifestDestination)
    → All (λ d. P d.id) ds
    → All P (map (λ d. d.id) ds)
map-ids-All P [] h = tt
map-ids-All P (d ∷ ds) h = (h.0, map-ids-All P ds h.1)

none_required :
    (ds : List ManifestDestination) → required_in ds ≡ [] → All (λ d. d.required ≡ false) ds
unfolding required_in where_rows
none_required [] e = tt
none_required (d ∷ ds) e = elim (Bool-cases d.required) [
  | inl k ↦ absurd (ground arith)
  | inr k ↦ (k, none_required ds (ground arith))
]

joined-none : joined (sort text_le []) ≡ []
unfolding joined sort
joined-none = refl

-- A checked snapshot marks no destination as required where the manifest requires none.
check_destinations-none :
    (ds : List ManifestDestination)
    → check_destinations ds [] ≡ ok tt
    → All (λ d. d.required ≡ false) ds
unfolding check_destinations
check_destinations-none [] h = tt
check_destinations-none (d ∷ ds) h =
    let (_, ids, last) = >>=-eq-ok (check_ids [] (d ∷ ds)) _ h in
    let same =
      guard-eq-ok
        (same_bytes (joined (sort text_le (required_in (d ∷ ds)))) (joined (sort text_le [])))
        inconsistent_destinations last in
    let nonempty : All (λ v. is_empty v ≡ false) (sort text_le (required_in (d ∷ ds))) =
      sort-All text_le _ _ (
        unfold required_in in
        map-ids-All _ _ (All-where_rows _ _ (d ∷ ds) (check_ids-nonempty [] (d ∷ ds) ids))) in
    none_required (d ∷ ds) (
      sort-nil _
        (joined-nil (sort text_le (required_in (d ∷ ds))) nonempty (rw joined-none at same)))

snapshot_map-All :
    (P : String × Bool → Type 0) (ds : List ManifestDestination) (acc : List (String × Bool))
    → All (λ d. P (d.id, d.required)) ds
    → All P acc
    → All P (snapshot_map ds acc)
unfolding snapshot_map
snapshot_map-All P [] acc h k = k
snapshot_map-All P (d ∷ ds) acc h k =
    snapshot_map-All P ds (put d.id d.required acc) h.1 (put-All P d.id d.required acc h.0 k)

pub destinations_from-none :
    (ds : List ManifestDestination)
    → check_destinations ds [] ≡ ok tt
    → All (λ d. d.1 ≡ false) (destinations_from ds [])
unfolding destinations_from required_map
destinations_from-none [] h = tt
destinations_from-none (d ∷ ds) h =
    snapshot_map-All (λ e. e.1 ≡ false) (d ∷ ds) [] (check_destinations-none (d ∷ ds) h) tt
