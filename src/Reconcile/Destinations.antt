-- ===== src/Reconcile/Destinations.antt =====
-- internal/reconcile/reconcile.go: the upload queues of an adopted revision go to the destinations that
-- Compact would have queued it for.
use mathlib.Core.List.{Perm}
use mathlib.Core.List.Perm
use gtfs_rt_archiver.Base.{
  List, [], ◌∷◌, map, Bool, String, where_rows, ◌≡◌, ◌≢◌, refl, ap, sym, ◌∙◌, subst, All,
}
use gtfs_rt_archiver.Base.Pairs.{Pairwise, sort-Pairwise}
use gtfs_rt_archiver.Base.Sort.{sort, sort-perm}
use gtfs_rt_archiver.Config.{Destination}
use gtfs_rt_archiver.Model.{ManifestDestination}
use gtfs_rt_archiver.Compact.Accounts.{
  required_destination_ids, manifest_destinations, snapshot, destination_le, destination_map, put,
}
use gtfs_rt_archiver.Compact.Snapshot.{
  HasDistinctIds, entry, put_all, put_all-entries, destination_map-entries, required_in-manifest,
}
use gtfs_rt_archiver.Compact.Verify.{required_in}
use gtfs_rt_archiver.Reconcile.{snapshot_map, required_map, destinations_from}

snapshot_entry : ManifestDestination → String × Bool
snapshot_entry d = (d.id, d.required)

snapshot_map-put_all :
    (ds : List ManifestDestination) (acc : List (String × Bool))
    → snapshot_map ds acc ≡ put_all (map snapshot_entry ds) acc
unfolding snapshot_map snapshot_entry
snapshot_map-put_all [] acc = refl
snapshot_map-put_all (d ∷ ds) acc = snapshot_map-put_all ds (put d.id d.required acc)

IsApart : ManifestDestination → ManifestDestination → Type 0
IsApart a b = b.id ≢ a.id

snapshots-IsApart : (ds : List Destination) → HasDistinctIds ds → Pairwise IsApart (map snapshot ds)
unfolding snapshot IsApart
snapshots-IsApart [] h = tt
snapshots-IsApart (d ∷ ds) h = (apart ds h.0, snapshots-IsApart ds h.1)
  where
    apart :
        (es : List Destination)
        → All (λ e. e.id ≢ d.id) es
        → All (λ e. e.id ≢ d.id) (map snapshot es)
    apart [] k = tt
    apart (e ∷ es) k = (k.0, apart es k.1)

entries-apart :
    (ds : List ManifestDestination)
    → Pairwise IsApart ds
    → Pairwise (λ a b. b.0 ≢ a.0) (map snapshot_entry ds)
unfolding snapshot_entry IsApart
entries-apart [] h = tt
entries-apart (d ∷ ds) h = (apart ds h.0, entries-apart ds h.1)
  where
    apart :
        (es : List ManifestDestination)
        → All (λ e. e.id ≢ d.id) es
        → All (λ (e : String × Bool). e.0 ≢ d.id) (map snapshot_entry es)
    apart [] k = tt
    apart (e ∷ es) k = (k.0, apart es k.1)

snapshot_map-entries :
    (ds : List Destination)
    → HasDistinctIds ds
    → snapshot_map (manifest_destinations ds) [] ≡ map snapshot_entry (manifest_destinations ds)
unfolding manifest_destinations IsApart
snapshot_map-entries ds h =
    snapshot_map-put_all (sort destination_le (map snapshot ds)) []
    ∙ put_all-entries _ (
        entries-apart _
          (sort-Pairwise destination_le IsApart (λ a b k e. k (sym e)) _ (snapshots-IsApart ds h)))

map-snapshot_entry : (ds : List Destination) → map snapshot_entry (map snapshot ds) ≡ map entry ds
unfolding snapshot_entry snapshot
map-snapshot_entry [] = refl
map-snapshot_entry (d ∷ ds) = ap (λ es. entry d ∷ es) (map-snapshot_entry ds)

-- A snapshot that is not empty, or that requires nothing, is what the queues are made of.
destinations_from-snapshot :
    (ds : List ManifestDestination) (required : List String)
    → (ds ≡ [] → required ≡ [])
    → destinations_from ds required ≡ snapshot_map ds []
unfolding destinations_from snapshot_map required_map
destinations_from-snapshot [] required h = rw (h refl) refl
destinations_from-snapshot (d ∷ ds) required h = refl

-- Where no two destinations of the configuration have one id, the destinations that reconciliation
-- reads back from a manifest are those that Compact queues the revision for, each as required as
-- it is there, in an order of their own.
pub destinations_from-Perm :
    (ds : List Destination)
    → HasDistinctIds ds
    → Perm
        (destinations_from (manifest_destinations ds) (required_destination_ids ds))
        (destination_map ds [])
unfolding manifest_destinations required_in where_rows
destinations_from-Perm ds h =
    let read_back =
      destinations_from-snapshot (manifest_destinations ds) (required_destination_ids ds)
        (λ e. sym (required_in-manifest ds) ∙ ap required_in e ∙ none_there)
      ∙ snapshot_map-entries ds h in
    let queued = destination_map-entries ds h ∙ sym (map-snapshot_entry ds) in
    subst (λ es. Perm es (destination_map ds [])) (sym read_back)
      (subst (Perm (map snapshot_entry (sort destination_le (map snapshot ds)))) (sym queued)
        (Perm.map snapshot_entry (sort-perm destination_le (map snapshot ds))))
  where
    none_there : required_in [] ≡ []
    none_there = refl
