-- ===== src/Compact/Snapshot.antt =====
-- internal/compact/compact.go, requiredDestinationIDs and manifestDestinations: the two lists of a
-- manifest agree, and so does the map of destinations that the queues are made of.
use mathlib.Core.List.{append_assoc, append-nil}
use gtfs_rt_archiver.Base.{
  List, [], ◌∷◌, ◌++◌, map, Bool, false, String, str_eq, eq_iff, ◌≡◌, ◌≢◌, refl, sym, ap, ◌∙◌,
  arith, where_rows, All, All-append, Bool-cases, inl, inr,
}
use gtfs_rt_archiver.Base.Pairs.{Pairwise, where_rows-sort, map-sort}
use gtfs_rt_archiver.Base.Sort.{sort}
use gtfs_rt_archiver.Config.{Destination, is_required}
use gtfs_rt_archiver.Gtfsrt.{text_le}
use gtfs_rt_archiver.Gtfsrt.Flags.{text_le_trans, text_le_total}
use gtfs_rt_archiver.Model.{ManifestDestination}
use gtfs_rt_archiver.Compact.Accounts.{
  required_destination_ids, snapshot, destination_le, manifest_destinations, put, destination_map,
}
use gtfs_rt_archiver.Compact.Verify.{required_in}

required_in-snapshot :
    (ds : List Destination)
    → required_in (map snapshot ds) ≡ map (λ d. d.id) (where_rows is_required ds)
unfolding required_in where_rows snapshot
required_in-snapshot [] = refl
required_in-snapshot (d ∷ ds) = ground (arith, required_in-snapshot ds)

-- The required destinations of a manifest are the ids of those that its snapshot marks as
-- required, in the same order.
pub required_in-manifest :
    (ds : List Destination) → required_in (manifest_destinations ds) ≡ required_destination_ids ds
unfolding required_in manifest_destinations required_destination_ids destination_le
required_in-manifest ds =
    ap (map (λ d. d.id)) (
      where_rows-sort (λ a b. text_le a.id b.id) (λ a b c. text_le_trans a.id b.id c.id)
        (λ a b. text_le_total a.id b.id) (λ d. d.required) (map snapshot ds))
    ∙ map-sort (λ (d : ManifestDestination). d.id) text_le
        (where_rows (λ d. d.required) (map snapshot ds))
    ∙ ap (sort text_le) (unfold required_in in required_in-snapshot ds)

pub apart-eq : (a b : String) → a ≢ b → str_eq a b ≡ false
apart-eq a b h = elim (Bool-cases (str_eq a b)) [
  | inl e ↦ absurd (h ((eq_iff a b).0 e))
  | inr e ↦ e
]

-- No destination has the id of another.
abbrev pub HasDistinctIds : List Destination → Type 0
HasDistinctIds = Pairwise (λ a b. b.id ≢ a.id)

put-new :
    (id : String) (required : Bool) (ds : List (String × Bool))
    → All (λ d. d.0 ≢ id) ds
    → put id required ds ≡ ds ++ (id, required) ∷ []
unfolding put
put-new id required [] h = refl
put-new id required (d ∷ ds) h = rw (apart-eq d.0 id h.0, put-new id required ds h.1) refl

abbrev pub entry : Destination → String × Bool
entry d = (d.id, is_required d)

pub put-All {κ} :
    (P : String × Bool → Type κ) (id : String) (required : Bool) (ds : List (String × Bool))
    → P (id, required)
    → All P ds
    → All P (put id required ds)
unfolding put
put-All P id required [] p h = (p, tt)
put-All P id required (d ∷ ds) p h = elim (Bool-cases (str_eq d.0 id)) [
  | inl e ↦ rw e (p, h.1)
  | inr e ↦ rw e (h.0, put-All P id required ds p h.1)
]

-- What holds of every destination holds of every entry of the map.
pub destination_map-All {κ} :
    (P : String × Bool → Type κ) (ds : List Destination) (acc : List (String × Bool))
    → All (λ d. P (entry d)) ds
    → All P acc
    → All P (destination_map ds acc)
unfolding destination_map
destination_map-All P [] acc h k = k
destination_map-All P (d ∷ ds) acc h k =
    destination_map-All P ds (put d.id (is_required d) acc) h.1
      (put-All P d.id (is_required d) acc h.0 k)

-- Entries added one after the other.
abbrev pub put_all : List (String × Bool) → List (String × Bool) → List (String × Bool)
put_all [] acc = acc
put_all (e ∷ es) acc = put_all es (put e.0 e.1 acc)

FreeOf : List (String × Bool) → String × Bool → Type 0
FreeOf acc e = All (λ a. a.0 ≢ e.0) acc

FreeOf-later :
    (d : String × Bool) (es acc : List (String × Bool))
    → All (λ e. e.0 ≢ d.0) es
    → All (FreeOf acc) es
    → All (FreeOf (acc ++ d ∷ [])) es
unfolding FreeOf
FreeOf-later d [] acc a h = tt
FreeOf-later d (e ∷ es) acc a h =
    (All-append _ acc (d ∷ []) h.0 ((λ k. a.0 (sym k)), tt), FreeOf-later d es acc a.1 h.1)

put_all-onto :
    (es acc : List (String × Bool))
    → Pairwise (λ a b. b.0 ≢ a.0) es
    → All (FreeOf acc) es
    → put_all es acc ≡ acc ++ es
unfolding FreeOf
put_all-onto [] acc h k = sym (append-nil acc)
put_all-onto (e ∷ es) acc h k =
    ap (put_all es) (put-new e.0 e.1 acc k.0)
    ∙ put_all-onto es (acc ++ e ∷ []) h.1 (FreeOf-later e es acc h.0 k.1)
    ∙ append_assoc acc (e ∷ []) es

FreeOf-nil : (es : List (String × Bool)) → All (FreeOf []) es
unfolding FreeOf
FreeOf-nil [] = tt
FreeOf-nil (e ∷ es) = (tt, FreeOf-nil es)

-- Entries with distinct ids make the map that has just them.
pub put_all-entries :
    (es : List (String × Bool)) → Pairwise (λ a b. b.0 ≢ a.0) es → put_all es [] ≡ es
put_all-entries es h = put_all-onto es [] h (FreeOf-nil es)

destination_map-put_all :
    (ds : List Destination) (acc : List (String × Bool))
    → destination_map ds acc ≡ put_all (map entry ds) acc
unfolding destination_map
destination_map-put_all [] acc = refl
destination_map-put_all (d ∷ ds) acc = destination_map-put_all ds (put d.id (is_required d) acc)

pub entries-apart :
    (ds : List Destination) → HasDistinctIds ds → Pairwise (λ a b. b.0 ≢ a.0) (map entry ds)
entries-apart [] h = tt
entries-apart (d ∷ ds) h = (apart ds h.0, entries-apart ds h.1)
  where
    apart :
        (es : List Destination) → All (λ e. e.id ≢ d.id) es → All (λ e. e.0 ≢ d.id) (map entry es)
    apart [] k = tt
    apart (e ∷ es) k = (k.0, apart es k.1)

-- With distinct ids the map has one entry for each destination.
pub destination_map-entries :
    (ds : List Destination) → HasDistinctIds ds → destination_map ds [] ≡ map entry ds
destination_map-entries ds h =
    destination_map-put_all ds [] ∙ put_all-entries (map entry ds) (entries-apart ds h)
