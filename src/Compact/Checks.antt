-- ===== src/Compact/Checks.antt =====
-- internal/compact/compact.go, VerifyDirectory: each of its checks accepts what Compact writes.
use gtfs_rt_archiver.Base.{
  ℕ, List, [], ◌∷◌, map, true, false, String, eq_refl, Result, ok, err, ◌≡◌, ◌≢◌, refl, arith, All,
  All-mono,
}
use gtfs_rt_archiver.Base.Pairs.{Pairwise}
use gtfs_rt_archiver.Base.Sort.{sort}
use gtfs_rt_archiver.Gtfsrt.{text_le}
use gtfs_rt_archiver.Model.{Capture, ManifestDestination}
use gtfs_rt_archiver.State.Tables.{is_empty, mem_text}
use gtfs_rt_archiver.Upload.Publish.{same_bytes}
use gtfs_rt_archiver.Compact.Library.{Library, RawRead}
use gtfs_rt_archiver.Compact.Inputs.{
  ReadFailure, missing, mismatched, unreadable, exclusion_reason, read_verified_capture,
}
use gtfs_rt_archiver.Compact.Accounts.{input_capture}
use gtfs_rt_archiver.Compact.Verify.{
  is_exclusion_reason, check_excluded, check_ids, check_destinations, joined, required_in,
}
use gtfs_rt_archiver.Compact.Partition.{is_ok, reason_of, is_readable, exclusion}
use gtfs_rt_archiver.Compact.Snapshot.{apart-eq}

pub same_bytes_refl : (cs : List ℕ) → same_bytes cs cs ≡ true
unfolding same_bytes
same_bytes_refl [] = refl
same_bytes_refl (c ∷ cs) = ground (arith, same_bytes_refl cs)

-- A snapshot of destinations with distinct ids, none of them empty, whose required ones are those that
-- the manifest requires.
check_ids-accepts :
    (ds : List ManifestDestination) (seen : List String)
    → All (λ d. is_empty d.id ≡ false) ds
    → Pairwise (λ a b. b.id ≢ a.id) ds
    → All (λ d. mem_text d.id seen ≡ false) ds
    → check_ids seen ds ≡ ok tt
unfolding check_ids
check_ids-accepts [] seen h k s = refl
check_ids-accepts (d ∷ ds) seen h k s =
    rw (h.0, s.0) (check_ids-accepts ds (d.id ∷ seen) h.1 k.1 (unseen ds k.0 s.1))
  where
    unseen :
        (es : List ManifestDestination)
        → All (λ e. e.id ≢ d.id) es
        → All (λ e. mem_text e.id seen ≡ false) es
        → All (λ e. mem_text e.id (d.id ∷ seen) ≡ false) es
    unseen [] a b = tt
    unseen (e ∷ es) a b =
        (unfold mem_text in rw (apart-eq e.id d.id a.0, b.0) refl, unseen es a.1 b.1)

pub check_destinations-accepts :
    (ds : List ManifestDestination) (required : List String)
    → All (λ d. is_empty d.id ≡ false) ds
    → Pairwise (λ a b. b.id ≢ a.id) ds
    → required_in ds ≡ required
    → check_destinations ds required ≡ ok tt
unfolding check_destinations
check_destinations-accepts [] required h k e = refl
check_destinations-accepts (d ∷ ds) required h k e =
    rw
      (
        check_ids-accepts (d ∷ ds) [] h k (nothing_seen (d ∷ ds)),
        e,
        same_bytes_refl (joined (sort text_le required)),
      )
      refl
  where
    nothing_seen : (es : List ManifestDestination) → All (λ e. mem_text e.id [] ≡ false) es
    nothing_seen [] = tt
    nothing_seen (e ∷ es) = (unfold mem_text in refl, nothing_seen es)

-- The reason of a capture that was not read is one of the three.
reason_of-valid :
    (r : Result ReadFailure (List ℕ))
    → is_ok r ≡ false
    → (is_empty (reason_of r) ≡ false) × (is_exclusion_reason (reason_of r) ≡ true)
unfolding exclusion_reason is_exclusion_reason
reason_of-valid (ok body) h = absurd (ground arith)
reason_of-valid (err missing) h = (refl, refl)
reason_of-valid (err mismatched) h = (refl, refl)
reason_of-valid (err unreadable) h = (refl, refl)

module _ (l : Library) (raw : String → RawRead) (inputs : List String) where
  pub check_excluded-accepts :
      (cs : List Capture) (seen : List String)
      → All (λ c. is_readable l raw c ≡ false) cs
      → All (λ c. is_empty c.id ≡ false) cs
      → All (λ c. mem_text c.id inputs ≡ true) cs
      → Pairwise (λ a b. b.id ≢ a.id) cs
      → All (λ c. mem_text c.id seen ≡ false) cs
      → check_excluded inputs seen (map (exclusion l raw) cs) ≡ ok tt
  unfolding check_excluded
  check_excluded-accepts [] seen u n i d s = refl
  check_excluded-accepts (c ∷ cs) seen u n i d s =
      let reason = reason_of-valid (read_verified_capture l raw c) u.0 in
      rw (n.0, s.0, i.0, reason.0, reason.1)
        (check_excluded-accepts cs (c.id ∷ seen) u.1 n.1 i.1 d.1 (unseen cs d.0 s.1))
    where
      unseen :
          (es : List Capture)
          → All (λ e. e.id ≢ c.id) es
          → All (λ e. mem_text e.id seen ≡ false) es
          → All (λ e. mem_text e.id (c.id ∷ seen) ≡ false) es
      unseen [] a b = tt
      unseen (e ∷ es) a b =
          (unfold mem_text in rw (apart-eq e.id c.id a.0, b.0) refl, unseen es a.1 b.1)

pub none_seen : (cs : List Capture) → All (λ c. mem_text c.id [] ≡ false) cs
unfolding mem_text
none_seen [] = tt
none_seen (c ∷ cs) = (refl, none_seen cs)

-- The captures that are not read are among the inputs.
pub mem_text-ids :
    (cs : List Capture)
    → All (λ c. mem_text c.id (map (λ i. i.id) (map input_capture cs)) ≡ true) cs
unfolding mem_text input_capture
mem_text-ids [] = tt
mem_text-ids (c ∷ cs) =
    (rw (eq_refl c.id) refl, All-mono _ _ (λ d h. ground (arith, h)) cs (mem_text-ids cs))
