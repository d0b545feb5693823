-- ===== src/State/Marks.antt =====
-- Each operation on the upload queue keeps the database consistent.
use gtfs_rt_archiver.Base.{
  ℕ, subst, if_intro, All-any-false, suc, ◌≤◌, ◌≡◌, refl, Bool, true, false, All, any, arith, List,
  [], ◌∷◌, ◌++◌, inl, inr, All-mono, All-intro, All-update_rows, All-append, any-append-false,
  update_rows, Option-cases, some, find_row, count_rows, count_rows-zero-iff-any, Bool-cases, ok,
  ◌==◌, String, ==_iff,
}
use gtfs_rt_archiver.Clock.{Time}
use gtfs_rt_archiver.Model.{Compaction, Upload, UploadStatus}
use gtfs_rt_archiver.State.Tables.{Store, is_some}
use gtfs_rt_archiver.State.Uploads.{
  gates, has_id, is_settled, mark_upload_attempt, mark_upload_failed, mark_upload_verified,
  set_verified, publish_at, publish_settled, ensure_destination_backfill, backfill_rows,
  wants_backfill, retire_destination, retirable, set_retired, released,
}
use gtfs_rt_archiver.State.Compactions.{new_upload}
use gtfs_rt_archiver.State.Retention.{mark_parquet_retained, expires}
use gtfs_rt_archiver.State.History.{IsUnsettled}
use gtfs_rt_archiver.State.Invariant.{IsGated, IsConsistent, update-IsGated, KeepsGates}

-- An update of the uploads alone, which keeps their compactions and makes none a gate.
module _ (s : Store) (p : Upload → Bool) (f : Upload → Upload)
    (same_owner : (u : Upload) → (f u).compaction_id ≡ u.compaction_id)
    (keep_gates : All (KeepsGates p f) s.uploads) where
  owners_kept :
      IsConsistent s → All (λ u. u.compaction_id ≤ s.compaction_seq) (update_rows p f s.uploads)
  owners_kept v =
      All-update_rows (λ u. u.compaction_id ≤ s.compaction_seq)
        (λ u. u.compaction_id ≤ s.compaction_seq) p f (λ u h _. rw (same_owner u) h) (λ u h _. h)
        s.uploads v.upload_owners

  uploads-IsConsistent :
      IsConsistent s → IsConsistent (record s { uploads = update_rows p f s.uploads })
  uploads-IsConsistent v = record {
    compaction_ids = v.compaction_ids;
    upload_owners = owners_kept v;
    gated = update-IsGated p f s.uploads keep_gates s.compactions v.gated;
  }

-- An upload that is open gates its compaction if it is required, whatever its status becomes.
reopen-gates :
    (k : ℕ) (u u' : Upload)
    → u'.compaction_id ≡ u.compaction_id
    → u'.required ≡ u.required
    → is_settled u.status ≡ false
    → gates k u' ≡ true
    → gates k u ≡ true
unfolding gates
reopen-gates k u u' c r h g = ground arith

pub mark_upload_attempt-IsConsistent :
    (s : Store) (id : ℕ) (status : UploadStatus) (detail remote : String) (next : Time)
    → IsUnsettled s id
    → IsConsistent s
    → IsConsistent (mark_upload_attempt s id status detail remote next)
unfolding mark_upload_attempt
mark_upload_attempt-IsConsistent s id status detail remote next open_id v =
    uploads-IsConsistent s (has_id id) _ (λ u. refl)
      (All-mono _ _ (λ u h k m g. reopen-gates k u _ refl refl (h m) g) s.uploads open_id) v

pub mark_upload_failed-IsConsistent :
    (s : Store) (id : ℕ) (status : UploadStatus) (detail : String) (next : Time)
    → IsUnsettled s id
    → IsConsistent s
    → IsConsistent (mark_upload_failed s id status detail next)
unfolding mark_upload_failed
mark_upload_failed-IsConsistent s id status detail next open_id v =
    uploads-IsConsistent s (has_id id) _ (λ u. refl)
      (All-mono _ _ (λ u h k m g. reopen-gates k u _ refl refl (h m) g) s.uploads open_id) v

-- A change of compactions that keeps ids, and sets published_at only where nothing gates.
module _ (s : Store) (p : Compaction → Bool) (f : Compaction → Compaction)
    (same_id : (c : Compaction) → (f c).id ≡ c.id)
    (publishes : (c : Compaction)
      → IsGated s.uploads c
      → p c ≡ true
      → is_some (f c).published_at ≡ true
      → any (gates c.id) s.uploads ≡ false) where
  compactions-IsConsistent :
      IsConsistent s → IsConsistent (record s { compactions = update_rows p f s.compactions })
  compactions-IsConsistent v = record {
    compaction_ids =
        All-update_rows (λ c. c.id ≤ s.compaction_seq) (λ c. c.id ≤ s.compaction_seq) p f
          (λ c h _. rw (same_id c) h) (λ c h _. h) s.compactions v.compaction_ids;
    upload_owners = v.upload_owners;
    gated =
        All-update_rows (IsGated s.uploads) (IsGated s.uploads) p f
          (λ c g e published. rw (same_id c) (publishes c g e published)) (λ c g _. g) s.compactions
          v.gated;
  }

expire-gates :
    (k id : ℕ) (u u' : Upload)
    → u'.required ≡ u.required
    → expires id u ≡ true
    → gates k u' ≡ true
    → gates k u ≡ true
unfolding gates expires
expire-gates k id u u' r e g = ground arith

pub mark_parquet_retained-IsConsistent :
    (s : Store) (id : ℕ) → IsConsistent s → IsConsistent (mark_parquet_retained s id)
unfolding mark_parquet_retained
mark_parquet_retained-IsConsistent s id v =
    compactions-IsConsistent (record s { uploads = update_rows (expires id) _ s.uploads })
      (λ c. c.id == id) _ (λ c. refl) (λ c g _ published. g published)
      (uploads-IsConsistent s (expires id) _ (λ u. refl)
        (All-intro _ (λ u k m g. expire-gates k id u _ refl m g) s.uploads) v)

settle-gates :
    (k : ℕ) (u u' : Upload) → is_settled u'.status ≡ true → gates k u' ≡ true → gates k u ≡ true
unfolding gates
settle-gates k u u' h g = ground arith

publish_settled-IsConsistent :
    (s : Store) (id : ℕ) (now : Time) → IsConsistent s → IsConsistent (publish_settled s id now)
unfolding publish_settled publish_at
publish_settled-IsConsistent s id now v = elim (Bool-cases (count_rows (gates id) s.uploads == 0)) [
  | inl e ↦ rw e (
      compactions-IsConsistent s (λ c. c.id == id) (publish_at now) (λ c. refl)
        (λ c _ same _.
          rw ((==_iff c.id id).0 same)
            (count_rows-zero-iff-any (gates id) s.uploads ((==_iff _ 0).0 e)))
        v)
  | inr e ↦ rw e v
]

pub mark_upload_verified-IsConsistent :
    (s t : Store) (id : ℕ) (remote : String) (now : Time)
    → IsConsistent s
    → mark_upload_verified s id remote now ≡ ok t
    → IsConsistent t
unfolding mark_upload_verified set_verified
mark_upload_verified-IsConsistent s t id remote now v e =
    elim (Option-cases (find_row (has_id id) s.uploads)) [
      | inl missing ↦ absurd (ground arith)
      | inr (u, found) ↦ subst IsConsistent (verified_store u found) (
          publish_settled-IsConsistent _ u.compaction_id now (
            uploads-IsConsistent s (has_id id) (set_verified remote now) (λ u. refl)
              (All-intro _ (λ u k m g. settle-gates k u _ refl g) s.uploads) v))
    ]
  where
    verified_store :
        (u : Upload)
        → find_row (has_id id) s.uploads ≡ some u
        → publish_settled
            (record s { uploads = update_rows (has_id id) (set_verified remote now) s.uploads })
            u.compaction_id
            now
          ≡ t
    verified_store u found = ground arith

released-gates :
    (d : String) (uploads : List Upload) (c : Compaction)
    → released d uploads c ≡ true
    → any (gates c.id) uploads ≡ false
unfolding released
released-gates d uploads c h = ground arith

pub retire_destination-IsConsistent :
    (s : Store) (destination_id reason : String) (now : Time)
    → IsConsistent s
    → IsConsistent (retire_destination s destination_id reason now).0
unfolding retire_destination set_retired publish_at
retire_destination-IsConsistent s d reason now v = record {
  compaction_ids = after.compaction_ids;
  upload_owners = after.upload_owners;
  gated = after.gated;
}
  where
    uploads : List Upload
    uploads = update_rows (retirable d) (set_retired reason now) s.uploads

    after : IsConsistent (record s {
      uploads = uploads;
      compactions = update_rows (released d uploads) (publish_at now) s.compactions;
    })
    after =
        compactions-IsConsistent (record s { uploads = uploads }) (released d uploads)
          (publish_at now) (λ c. refl) (λ c _ h _. released-gates d uploads c h)
          (uploads-IsConsistent s (retirable d) (set_retired reason now) (λ u. refl)
            (All-intro _ (λ u k m g. settle-gates k u _ refl g) s.uploads) v)

-- The rows that a backfill adds gate nothing and belong to compactions of the table.
backfill_rows-All :
    (uploads : List Upload) (seq : ℕ) (d : String) (now : Time) (cs : List Compaction) (n : ℕ)
    → All (λ c. c.id ≤ n) cs
    → All (λ u. (u.required ≡ false) × (u.compaction_id ≤ n)) (backfill_rows uploads seq d now cs)
unfolding backfill_rows new_upload
backfill_rows-All uploads seq d now [] n h = tt
backfill_rows-All uploads seq d now (c ∷ cs) n h =
    if_intro (All (λ u. (u.required ≡ false) × (u.compaction_id ≤ n))) (wants_backfill uploads d c)
      _ _ ((refl, h.0), backfill_rows-All uploads (suc seq) d now cs n h.1)
      (backfill_rows-All uploads seq d now cs n h.1)

optional-gates : (k : ℕ) (u : Upload) → u.required ≡ false → gates k u ≡ false
unfolding gates
optional-gates k u h = ground arith

-- Rows at the end of the queue that gate none of the compactions.
pub append-IsGated :
    (uploads rows : List Upload) (cs : List Compaction)
    → All (λ c. is_some c.published_at ≡ true → any (gates c.id) rows ≡ false) cs
    → All (IsGated uploads) cs
    → All (IsGated (uploads ++ rows)) cs
append-IsGated uploads rows [] h g = tt
append-IsGated uploads rows (c ∷ cs) h g = (
  λ published. any-append-false (gates c.id) uploads rows (g.0 published) (h.0 published),
  append-IsGated uploads rows cs h.1 g.1,
)

pub ensure_destination_backfill-IsConsistent :
    (s : Store) (destination_id : String) (now : Time)
    → IsConsistent s
    → IsConsistent (ensure_destination_backfill s destination_id now).0
unfolding ensure_destination_backfill
ensure_destination_backfill-IsConsistent s d now v = record {
  compaction_ids = v.compaction_ids;
  upload_owners =
      All-append _ s.uploads rows v.upload_owners (All-mono _ _ (λ u h. h.1) rows optional);
  gated =
      append-IsGated s.uploads rows s.compactions
        (All-intro _
          (λ c _.
            All-any-false (gates c.id) rows
              (All-mono _ _ (λ u h. optional-gates c.id u h.0) rows optional))
          s.compactions)
        v.gated;
}
  where
    rows : List Upload
    rows = backfill_rows s.uploads s.upload_seq d now s.compactions

    optional : All (λ u. (u.required ≡ false) × (u.compaction_id ≤ s.compaction_seq)) rows
    optional =
        backfill_rows-All s.uploads s.upload_seq d now s.compactions s.compaction_seq
          v.compaction_ids
