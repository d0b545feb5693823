-- ===== src/State/Ids.antt =====
-- The ids of the uploads: AUTOINCREMENT gives each row a larger one, and no statement changes one.
use gtfs_rt_archiver.Base.{
  ℕ, suc, ◌+◌, ◌<◌, ◌≤◌, ◌≡◌, refl, List, [], ◌∷◌, ◌++◌, map, Bool, String, length, arith, Result,
  ok, err, ap, update_rows, >>=-eq-ok, subst, find_row, Option-cases, Bool-cases, inl, inr,
}
use gtfs_rt_archiver.Clock.{Time}
use gtfs_rt_archiver.Model.{Tick, Capture, Compaction, Upload, InputCapture}
use gtfs_rt_archiver.State.Tables.{Store, StateError, schema_v1}
use gtfs_rt_archiver.State.Ticks
use gtfs_rt_archiver.State.Captures
use gtfs_rt_archiver.State.Days
use gtfs_rt_archiver.State.Retention
use gtfs_rt_archiver.State.Uploads
use gtfs_rt_archiver.State.Uploads.{
  has_id, publish_settled, backfill_rows, wants_backfill, set_verified,
}
use gtfs_rt_archiver.State.Compactions.{
  insert_upload, insert_uploads, new_upload, with_upload, insert_compaction, with_compaction,
  insert_inputs, adopt_inputs,
}
use gtfs_rt_archiver.State.Compactions
use gtfs_rt_archiver.State.Inserts.{insert_inputs-SameGate, adopt_inputs-SameGate}
use gtfs_rt_archiver.State.History.{
  Command, Reach, step, initial, after, record_tick, save_capture, save_compaction,
  adopt_compaction, mark_upload_attempt, mark_upload_failed, mark_upload_verified,
  ensure_destination_backfill, retire_destination, mark_capture_retained, mark_parquet_retained,
  summarize_day, record_repair, keep, keep_first,
}

-- Numbers that ascend strictly, above `low` and up to `high`.
abbrev pub Ascending : ℕ → List ℕ → ℕ → Type 0
Ascending low [] high = low ≤ high
Ascending low (n ∷ ns) high = (low < n) × Ascending n ns high

Ascending-append :
    (low middle high : ℕ) (ns ms : List ℕ)
    → Ascending low ns middle
    → Ascending middle ms high
    → Ascending low (ns ++ ms) high
Ascending-append low middle high [] [] a b = omega arith
Ascending-append low middle high [] (m ∷ ms) a b = (omega arith, b.1)
Ascending-append low middle high (n ∷ ns) ms a b = (a.0, Ascending-append n middle high ns ms a.1 b)

abbrev id_of : Upload → ℕ
id_of u = u.id

map-append : (xs ys : List Upload) → map id_of (xs ++ ys) ≡ map id_of xs ++ map id_of ys
map-append [] ys = refl
map-append (x ∷ xs) ys = ap (λ ns. x.id ∷ ns) (map-append xs ys)

abbrev pub HasIds : List Upload → ℕ → Type 0
HasIds uploads seq = Ascending 0 (map id_of uploads) seq

append-HasIds :
    (uploads rows : List Upload) (seq seq' : ℕ)
    → HasIds uploads seq
    → Ascending seq (map id_of rows) seq'
    → HasIds (uploads ++ rows) seq'
append-HasIds uploads rows seq seq' h k =
    rw (map-append uploads rows) (Ascending-append 0 seq seq' _ _ h k)

module _ (p : Upload → Bool) (f : Upload → Upload) (same_id : (u : Upload) → (f u).id ≡ u.id) where
  map-update_rows : (us : List Upload) → map id_of (update_rows p f us) ≡ map id_of us
  unfolding update_rows
  map-update_rows [] = refl
  map-update_rows (u ∷ us) = ground (arith, same_id u, map-update_rows us)

  update-HasIds : (us : List Upload) (seq : ℕ) → HasIds us seq → HasIds (update_rows p f us) seq
  update-HasIds us seq h = rw (map-update_rows us) h

abbrev IsNumbered : Store → Type 0
IsNumbered s = HasIds s.uploads s.upload_seq

same-IsNumbered :
    (s t : Store)
    → t.uploads ≡ s.uploads
    → t.upload_seq ≡ s.upload_seq
    → IsNumbered s
    → IsNumbered t
same-IsNumbered s t u n h = rw (u, n) h

insert_uploads-IsNumbered :
    (s t : Store) (id : ℕ) (now : Time) (ds : List (String × Bool))
    → insert_uploads s id now ds ≡ ok t
    → IsNumbered s
    → IsNumbered t
unfolding insert_uploads insert_upload with_upload new_upload
insert_uploads-IsNumbered s t id now [] e h = subst IsNumbered {x = s} {y = t} (ground arith) h
insert_uploads-IsNumbered s t id now (d ∷ ds) e h =
    insert_uploads-IsNumbered (with_upload s (new_upload (suc s.upload_seq) id now d.0 d.1)) t id
      now ds (ground arith)
      (append-HasIds s.uploads _ s.upload_seq (suc s.upload_seq) h (omega arith, omega arith))

backfill_rows-Ascending :
    (uploads : List Upload) (seq : ℕ) (d : String) (now : Time) (cs : List Compaction)
    → let rows = backfill_rows uploads seq d now cs in
      Ascending seq (map id_of rows) (seq + length rows)
unfolding backfill_rows new_upload
backfill_rows-Ascending uploads seq d now [] = omega arith
backfill_rows-Ascending uploads seq d now (c ∷ cs) =
    elim (Bool-cases (wants_backfill uploads d c)) [
      | inl e ↦
          let rest = backfill_rows-Ascending uploads (suc seq) d now cs in
          rw e (omega arith, subst (Ascending (suc seq) _) (omega arith) rest)
      | inr e ↦ rw e (backfill_rows-Ascending uploads seq d now cs)
    ]

save_compaction-IsNumbered :
    (s t : Store) (c : Compaction) (inputs : List Capture) (ds : List (String × Bool)) (now : Time)
    → IsNumbered s
    → Compactions.save_compaction s c inputs ds now ≡ ok t
    → IsNumbered t
unfolding Compactions.save_compaction insert_compaction with_compaction
save_compaction-IsNumbered s t c inputs ds now h e =
    let (s₁, opened, e₁) = >>=-eq-ok (insert_compaction s c) _ e in
    let (s₂, linked, queued) = >>=-eq-ok (insert_inputs s₁ s₁.compaction_seq inputs) _ e₁ in
    let queue : s₁.uploads ≡ s.uploads = ground arith in
    let next : s₁.upload_seq ≡ s.upload_seq = ground arith in
    let linked_same = insert_inputs-SameGate s₁ s₂ s₁.compaction_seq inputs linked in
    insert_uploads-IsNumbered s₂ t s₁.compaction_seq now ds queued
      (same-IsNumbered s₁ s₂ linked_same.1 linked_same.3 (same-IsNumbered s s₁ queue next h))

adopt_compaction-IsNumbered :
    (s t : Store) (c : Compaction) (inputs : List InputCapture) (excluded : List String)
    (ds : List (String × Bool)) (now : Time)
    → IsNumbered s
    → Compactions.adopt_compaction s c inputs excluded ds now ≡ ok t
    → IsNumbered t
unfolding Compactions.adopt_compaction insert_compaction with_compaction
adopt_compaction-IsNumbered s t c inputs excluded ds now h e =
    let (s₁, opened, e₁) = >>=-eq-ok (insert_compaction s c) _ e in
    let (s₂, linked, queued) = >>=-eq-ok (adopt_inputs s₁ s₁.compaction_seq excluded inputs) _ e₁ in
    let queue : s₁.uploads ≡ s.uploads = ground arith in
    let next : s₁.upload_seq ≡ s.upload_seq = ground arith in
    let linked_same = adopt_inputs-SameGate s₁ s₂ s₁.compaction_seq excluded inputs linked in
    insert_uploads-IsNumbered s₂ t s₁.compaction_seq now ds queued
      (same-IsNumbered s₁ s₂ linked_same.1 linked_same.3 (same-IsNumbered s s₁ queue next h))

keep-IsNumbered :
    (s : Store) (r : Result StateError Store)
    → IsNumbered s
    → ((t : Store) → r ≡ ok t → IsNumbered t)
    → IsNumbered (keep s r)
keep-IsNumbered s (ok t) h k = k t refl
keep-IsNumbered s (err e) h k = h

save_capture-IsNumbered :
    (s t : Store) (tick : Tick) (c : Capture)
    → IsNumbered s
    → Captures.save_capture s tick c ≡ ok t
    → IsNumbered t
unfolding Captures.save_capture
save_capture-IsNumbered s t tick c h e = same-IsNumbered s t (ground arith) (ground arith) h

mark_capture_retained-IsNumbered :
    (s t : Store) (id : String)
    → IsNumbered s
    → Captures.mark_capture_retained s id ≡ ok t
    → IsNumbered t
unfolding Captures.mark_capture_retained
mark_capture_retained-IsNumbered s t id h e = same-IsNumbered s t (ground arith) (ground arith) h

summarize_day-IsNumbered :
    (s : Store) (source stream date : String) (start end now : Time)
    → IsNumbered s
    → IsNumbered (keep_first s (Days.summarize_day s source stream date start end now))
unfolding Days.summarize_day
summarize_day-IsNumbered s source stream date start end now h =
    same-IsNumbered s (keep_first s (Days.summarize_day s source stream date start end now))
      (ground arith) (ground arith) h

publish_settled-IsNumbered :
    (s : Store) (id : ℕ) (now : Time) → IsNumbered s → IsNumbered (publish_settled s id now)
unfolding publish_settled
publish_settled-IsNumbered s id now h =
    same-IsNumbered s (publish_settled s id now) (ground arith) (ground arith) h

mark_upload_verified-IsNumbered :
    (s t : Store) (id : ℕ) (remote : String) (now : Time)
    → IsNumbered s
    → Uploads.mark_upload_verified s id remote now ≡ ok t
    → IsNumbered t
unfolding Uploads.mark_upload_verified
mark_upload_verified-IsNumbered s t id remote now h e =
    elim (Option-cases (find_row (has_id id) s.uploads)) [
      | inl missing ↦ absurd (ground arith)
      | inr (u, found) ↦
          subst IsNumbered
            {x = publish_settled
              (record s { uploads = update_rows (has_id id) (set_verified remote now) s.uploads })
              u.compaction_id now}
            {y = t} (ground arith)
            (publish_settled-IsNumbered _ u.compaction_id now (
              update-HasIds (has_id id) (set_verified remote now) (λ v. unfold set_verified in refl)
                s.uploads s.upload_seq h))
    ]

step-IsNumbered : (s : Store) (c : Command) → IsNumbered s → IsNumbered (step s c)
unfolding step
step-IsNumbered s (record_tick t) h =
    unfold Ticks.record_tick in same-IsNumbered s (Ticks.record_tick s t) refl refl h
step-IsNumbered s (save_capture t c) h =
    keep-IsNumbered s _ h (λ t' e. save_capture-IsNumbered s t' t c h e)
step-IsNumbered s (save_compaction c inputs ds now) h =
    keep-IsNumbered s _ h (λ t e. save_compaction-IsNumbered s t c inputs ds now h e)
step-IsNumbered s (adopt_compaction c inputs excluded ds now) h =
    keep-IsNumbered s _ h (λ t e. adopt_compaction-IsNumbered s t c inputs excluded ds now h e)
step-IsNumbered s (mark_upload_attempt id status detail remote next) h =
    unfold Uploads.mark_upload_attempt in update-HasIds _ _ (λ u. refl) s.uploads s.upload_seq h
step-IsNumbered s (mark_upload_failed id status detail _ next) h =
    unfold Uploads.mark_upload_failed in update-HasIds _ _ (λ u. refl) s.uploads s.upload_seq h
step-IsNumbered s (mark_upload_verified id remote now) h =
    keep-IsNumbered s _ h (λ t e. mark_upload_verified-IsNumbered s t id remote now h e)
step-IsNumbered s (ensure_destination_backfill d now) h =
    unfold Uploads.ensure_destination_backfill in
    append-HasIds s.uploads _ s.upload_seq _ h
      (backfill_rows-Ascending s.uploads s.upload_seq d now s.compactions)
step-IsNumbered s (retire_destination d reason now) h =
    unfold Uploads.retire_destination Uploads.set_retired in
    update-HasIds _ _ (λ u. refl) s.uploads s.upload_seq h
step-IsNumbered s (mark_capture_retained id) h =
    keep-IsNumbered s _ h (λ t e. mark_capture_retained-IsNumbered s t id h e)
step-IsNumbered s (mark_parquet_retained id) h =
    unfold Retention.mark_parquet_retained in update-HasIds _ _ (λ u. refl) s.uploads s.upload_seq h
step-IsNumbered s (summarize_day source stream date start end now) h =
    summarize_day-IsNumbered s source stream date start end now h
step-IsNumbered s (record_repair action target reason now) h =
    unfold Uploads.record_repair in
    same-IsNumbered s (Uploads.record_repair s action target reason now) refl refl h

pub Reach-HasIds : {s : Store} → Reach s → HasIds s.uploads s.upload_seq
Reach-HasIds initial = unfold schema_v1 in omega arith
Reach-HasIds (after {s} c r a) = step-IsNumbered s c (Reach-HasIds r)
