-- ===== src/Upload/Queue.antt =====
-- internal/upload/upload.go: the queue that a pass takes has each upload once, none of them settled.
use gtfs_rt_archiver.Base.{
  ℕ, ◌<◌, ◌≡◌, ◌≢◌, refl, sym, List, [], ◌∷◌, map, Bool, true, false, String, All, All-mono,
  where_rows, arith, Bool-cases, inl, inr, subst, ==_iff,
}
use gtfs_rt_archiver.Base.Pairs.{Pairwise, where_rows-Pairwise, sort-All, sort-Pairwise}
use gtfs_rt_archiver.Clock.{Time}
use gtfs_rt_archiver.Model.{
  Upload, UploadStatus, pending, uploading, retry, verified, retired, permanent_failure, expired,
}
use gtfs_rt_archiver.State.Tables.{Store}
use gtfs_rt_archiver.State.Uploads.{is_open, is_settled, is_due, queue_le, pending_uploads}
use gtfs_rt_archiver.State.History.{IsUnsettled}
use gtfs_rt_archiver.State.Ids.{Ascending, HasIds}

abbrev pub Distinct : List Upload → Type 0
Distinct = Pairwise (λ u v. v.id ≢ u.id)

-- A row is the only one with its id.
abbrev pub IsAlone : List Upload → Upload → Type 0
IsAlone us u = All (λ v. v.id ≡ u.id → v ≡ u) us

Ascending-above :
    (low high : ℕ) (us : List Upload)
    → Ascending low (map (λ u. u.id) us) high
    → All (λ u. low < u.id) us
Ascending-above low high [] h = tt
Ascending-above low high (u ∷ us) h =
    (h.0, All-mono _ _ (λ v k. omega (arith, h.0)) us (Ascending-above u.id high us h.1))

Ascending-Distinct :
    (low high : ℕ) (us : List Upload) → Ascending low (map (λ u. u.id) us) high → Distinct us
Ascending-Distinct low high [] h = tt
Ascending-Distinct low high (u ∷ us) h = (
  All-mono _ _ (λ v k e. omega arith) us (Ascending-above u.id high us h.1),
  Ascending-Distinct u.id high us h.1,
)

Distinct-IsAlone : (us : List Upload) → Distinct us → All (IsAlone us) us
Distinct-IsAlone [] h = tt
Distinct-IsAlone (u ∷ us) (apart, rest) = (
  ((λ _. refl), All-mono _ _ (λ v k e. absurd (k e)) us apart),
  both us apart (Distinct-IsAlone us rest),
)
  where
    both :
        (vs : List Upload)
        → All (λ v. v.id ≢ u.id) vs
        → All (IsAlone us) vs
        → All (IsAlone (u ∷ us)) vs
    both [] a h = tt
    both (v ∷ vs) a h = (((λ e. absurd (a.0 (sym e))), h.0), both vs a.1 h.1)

-- The queue of a pass.
pub pending_uploads-Distinct :
    (s : Store) (destination : String) (now : Time)
    → HasIds s.uploads s.upload_seq
    → Distinct (pending_uploads s destination now)
unfolding pending_uploads
pending_uploads-Distinct s destination now h =
    sort-Pairwise queue_le _ (λ u v k e. k (sym e)) _
      (where_rows-Pairwise _ (is_due destination now) s.uploads
        (Ascending-Distinct 0 s.upload_seq s.uploads h))

open-unsettled : (status : UploadStatus) → is_open status ≡ true → is_settled status ≡ false
open-unsettled pending h = refl
open-unsettled uploading h = refl
open-unsettled retry h = refl
open-unsettled permanent_failure h = refl
open-unsettled verified h = sym h
open-unsettled retired h = sym h
open-unsettled expired h = refl

is_due-unsettled :
    (destination : String) (now : Time) (u : Upload)
    → is_due destination now u ≡ true
    → is_settled u.status ≡ false
unfolding is_due
is_due-unsettled destination now u h = open-unsettled u.status (ground arith)

due-IsUnsettled :
    (s : Store) (destination : String) (now : Time) (u : Upload)
    → IsAlone s.uploads u
    → is_due destination now u ≡ true
    → IsUnsettled s u.id
due-IsUnsettled s destination now u alone h =
    All-mono _ _
      (λ v k e.
        subst (λ w. is_settled w.status ≡ false) (sym (k ((==_iff v.id u.id).0 e)))
          (is_due-unsettled destination now u h))
      s.uploads alone

where_rows-All_both :
    (P Q : Upload → Type 0) (p : Upload → Bool)
    → ((u : Upload) → P u → p u ≡ true → Q u)
    → (us : List Upload) → All P us
    → All Q (where_rows p us)
unfolding where_rows
where_rows-All_both P Q p k [] h = tt
where_rows-All_both P Q p k (u ∷ us) h = elim (Bool-cases (p u)) [
  | inl e ↦ rw e (k u h.0 e, where_rows-All_both P Q p k us h.1)
  | inr e ↦ rw e (where_rows-All_both P Q p k us h.1)
]

pub pending_uploads-IsUnsettled :
    (s : Store) (destination : String) (now : Time)
    → HasIds s.uploads s.upload_seq
    → All (λ u. IsUnsettled s u.id) (pending_uploads s destination now)
unfolding pending_uploads
pending_uploads-IsUnsettled s destination now h = sort-All queue_le _ _ (
    where_rows-All_both (IsAlone s.uploads) _ (is_due destination now)
      (λ u a e. due-IsUnsettled s destination now u a e) s.uploads
      (Distinct-IsAlone s.uploads (Ascending-Distinct 0 s.upload_seq s.uploads h)))
