-- ===== src/Upload/Safety.antt =====
-- internal/upload/upload.go, ProcessPending: a pass uses the state database as the gate wants it.
use gtfs_rt_archiver.Base.{
  Result-cases, ℕ, suc, ◌+◌, ◌≡◌, ◌≢◌, refl, sym, ◌∙◌, List, [], ◌∷◌, true, false, String, All,
  All-update_rows, All-intro, arith, ok, err, subst, update_rows, ==_iff, Option-cases, inl, inr,
  Bool-cases,
}
use gtfs_rt_archiver.Config.{Destination}
use gtfs_rt_archiver.Clock.{Time}
use gtfs_rt_archiver.Model.{Upload, UploadStatus, uploading, retry, permanent_failure}
use gtfs_rt_archiver.State.Tables.{Store}
use gtfs_rt_archiver.State.Compactions.{compaction_by_id}
use gtfs_rt_archiver.State.Uploads.{
  is_settled, has_id, set_verified, publish_settled, pending_uploads,
}
use gtfs_rt_archiver.State.Uploads
use gtfs_rt_archiver.State.History.{
  Reach, after, step, IsUnsettled, mark_upload_attempt, mark_upload_failed, mark_upload_verified,
}
use gtfs_rt_archiver.State.Ids.{Reach-HasIds}
use gtfs_rt_archiver.Upload.Queue.{Distinct, pending_uploads-Distinct, pending_uploads-IsUnsettled}
use gtfs_rt_archiver.Upload.{
  find_destination, Answers, fail_upload, finish_upload, attempt_upload, process_item,
  process_items, process_pending, error_category, is_permanent, backoff,
}

-- From `s` to `t`, the upload `id` aside, nothing that was unsettled gets settled.
record Advances (s : Store) (id : ℕ) (t : Store) : Type 0 where
  reached : Reach t
  others : (k : ℕ) → k ≢ id → IsUnsettled s k → IsUnsettled t k

module _ (s : Store) (id : ℕ) (f : Upload → Upload) (same_id : (u : Upload) → (f u).id ≡ u.id) where
  update-others :
      (k : ℕ)
      → k ≢ id
      → IsUnsettled s k
      → All
          (λ u. has_id k u ≡ true → is_settled u.status ≡ false)
          (update_rows (has_id id) f s.uploads)
  update-others k other h =
      All-update_rows _ _ (has_id id) f
        (λ u _ e g. absurd (other (sym ((==_iff _ _).0 g) ∙ same_id u ∙ (==_iff _ _).0 e)))
        (λ u g _. g) s.uploads h

  update-own :
      ((u : Upload) → is_settled (f u).status ≡ false)
      → All
          (λ u. has_id id u ≡ true → is_settled u.status ≡ false)
          (update_rows (has_id id) f s.uploads)
  update-own open_after =
      All-update_rows (λ _. Unit {0}) _ (has_id id) f (λ u _ _ _. open_after u)
        (λ u _ e g. absurd (ground arith)) s.uploads (All-intro _ (λ _. tt) s.uploads)

failed-Advances :
    (s : Store) (id : ℕ) (status : UploadStatus) (category : String) (next : Time)
    → Reach s
    → IsUnsettled s id
    → Advances s id (Uploads.mark_upload_failed s id status category next)
failed-Advances s id status category next r u = record {
  reached = subst Reach step_failed (after (mark_upload_failed id status category "" next) r u);
  others = λ k other h.
      unfold Uploads.mark_upload_failed in
      update-others s id
        (λ v. record v { status = status; last_error = category; next_attempt_at = next })
        (λ v. refl) k other h;
}
  where
    step_failed :
        step s (mark_upload_failed id status category "" next)
        ≡ Uploads.mark_upload_failed s id status category next
    step_failed = unfold step in refl

attempted-Advances :
    (s : Store) (id : ℕ) (remote : String) (at : Time)
    → Reach s
    → IsUnsettled s id
    → Advances s id (Uploads.mark_upload_attempt s id uploading "" remote at)
attempted-Advances s id remote at r u = record {
  reached = subst Reach step_attempted (after (mark_upload_attempt id uploading "" remote at) r u);
  others =
      λ k other h. unfold Uploads.mark_upload_attempt in update-others s id _ (λ v. refl) k other h;
}
  where
    step_attempted :
        step s (mark_upload_attempt id uploading "" remote at)
        ≡ Uploads.mark_upload_attempt s id uploading "" remote at
    step_attempted = unfold step in refl

attempted-IsUnsettled :
    (s : Store) (id : ℕ) (remote : String) (at : Time)
    → IsUnsettled (Uploads.mark_upload_attempt s id uploading "" remote at) id
unfolding Uploads.mark_upload_attempt
attempted-IsUnsettled s id remote at = update-own s id _ (λ v. refl) (λ v. refl)

verified-uploads :
    (s t : Store) (id : ℕ) (remote : String) (now : Time)
    → Uploads.mark_upload_verified s id remote now ≡ ok t
    → t.uploads ≡ update_rows (has_id id) (set_verified remote now) s.uploads
unfolding Uploads.mark_upload_verified publish_settled
verified-uploads s t id remote now e = ground arith

verified-Advances :
    (s t : Store) (id : ℕ) (remote : String) (now : Time)
    → Reach s
    → Uploads.mark_upload_verified s id remote now ≡ ok t
    → Advances s id t
verified-Advances s t id remote now r e = record {
  reached = subst Reach step_verified (after (mark_upload_verified id remote now) r tt);
  others = λ k other h.
      rw (verified-uploads s t id remote now e)
        (update-others s id (set_verified remote now) (λ v. unfold set_verified in refl) k other h);
}
  where
    step_verified : step s (mark_upload_verified id remote now) ≡ t
    step_verified = unfold step in rw e refl

Advances-trans : (s t u : Store) (id : ℕ) → Advances s id t → Advances t id u → Advances s id u
Advances-trans s t u id a b = record {
  reached = b.reached;
  others = λ k other h. b.others k other (a.others k other h);
}

fail_upload-Advances :
    (s : Store) (item : Upload) (a : Answers) (text : String)
    → Reach s
    → IsUnsettled s item.id
    → Advances s item.id (fail_upload s item a text)
unfolding fail_upload
fail_upload-Advances s item a text r u = elim (Bool-cases (is_permanent (error_category text))) [
  | inl e ↦ rw e (failed-Advances s item.id permanent_failure _ _ r u)
  | inr e ↦ rw e (failed-Advances s item.id retry _ _ r u)
]

finish_upload-Advances :
    (s t : Store) (item : Upload) (a : Answers) (remote : String)
    → Reach s
    → IsUnsettled s item.id
    → finish_upload s item a remote ≡ ok t
    → Advances s item.id t
unfolding finish_upload
finish_upload-Advances s t item a remote r u e = elim (Result-cases a.published) [
  | inl (done, p) ↦ verified-Advances s t item.id remote a.now r (
      subst
        (λ m.
          (elim m [
            | ok done ↦ Uploads.mark_upload_verified s item.id remote a.now
            | err text ↦ ok (fail_upload s item a text)
          ])
          ≡ ok t)
        p e)
  | inr (text, p) ↦
      subst (Advances s item.id) (ground arith) (fail_upload-Advances s item a text r u)
]

attempt_upload-Advances :
    (s t : Store) (item : Upload) (a : Answers)
    → Reach s
    → IsUnsettled s item.id
    → attempt_upload s item a ≡ ok t
    → Advances s item.id t
unfolding attempt_upload
attempt_upload-Advances s t item a r u e = elim (Result-cases a.prepared) [
  | inr (text, p) ↦
      subst (Advances s item.id) (ground arith) (fail_upload-Advances s item a text r u)
  | inl (remote, p) ↦
      let first = attempted-Advances s item.id remote a.attempt_at r u in
      Advances-trans s _ t item.id first (
        finish_upload-Advances _ t item a remote first.reached
          (attempted-IsUnsettled s item.id remote a.attempt_at) (ground arith))
]

process_item-Advances :
    (ds : List Destination) (s t : Store) (item : Upload) (a : Answers)
    → Reach s
    → IsUnsettled s item.id
    → process_item ds s item a ≡ ok t
    → Advances s item.id t
unfolding process_item
process_item-Advances ds s t item a r u e =
    elim (Option-cases (find_destination ds item.destination_id)) [
      | inl gone ↦ subst (Advances s item.id) (ground arith) (
          failed-Advances s item.id retry "destination_not_configured"
            (a.now + backoff a.int64_n (item.attempt_count + 1)) r u)
      | inr (dest, found) ↦ elim (Option-cases (compaction_by_id s item.compaction_id)) [
        | inl missing ↦ absurd (ground arith)
        | inr (c, there) ↦ attempt_upload-Advances s t item a r u (ground arith)
      ]
    ]

carry-IsUnsettled :
    (s t : Store) (item : Upload) (us : List Upload)
    → Advances s item.id t
    → All (λ v. v.id ≢ item.id) us
    → All (λ u. IsUnsettled s u.id) us
    → All (λ u. IsUnsettled t u.id) us
carry-IsUnsettled s t item [] a p h = tt
carry-IsUnsettled s t item (u ∷ us) a p h =
    (a.others u.id p.0 h.0, carry-IsUnsettled s t item us a p.1 h.1)

process_items-Reach :
    (ds : List Destination) (answers : Upload → Answers) (s : Store) (n : ℕ) (items : List Upload)
    → Reach s
    → Distinct items
    → All (λ u. IsUnsettled s u.id) items
    → Reach (process_items ds answers s n items).store
unfolding process_items process_item
process_items-Reach ds answers s n [] r d h = r
process_items-Reach ds answers s n (item ∷ items) r d h =
    elim (Bool-cases (answers item).cancelled) [
      | inl stopped ↦ rw stopped r
      | inr live ↦ elim (Result-cases (process_item ds s item (answers item))) [
        | inr (e, failed) ↦ rw (live, failed) r
        | inl (t, done) ↦
            let step = process_item-Advances ds s t item (answers item) r h.0 done in
            rw (live, done)
              (process_items-Reach ds answers t (suc n) items step.reached d.1
                (carry-IsUnsettled s t item items step d.0 h.1))
      ]
    ]

-- A pass of ProcessPending over a reached database, whatever rclone, the disk and the clock answer
-- and wherever it stops, leaves a reached database: its marks are on uploads that are not settled.
pub process_pending-Reach :
    (ds : List Destination) (answers : Upload → Answers) (s : Store) (destination : String)
    (now : Time)
    → Reach s
    → Reach (process_pending ds answers s destination now).store
unfolding process_pending
process_pending-Reach ds answers s destination now r =
    process_items-Reach ds answers s 0 (pending_uploads s destination now) r
      (pending_uploads-Distinct s destination now (Reach-HasIds r))
      (pending_uploads-IsUnsettled s destination now (Reach-HasIds r))
