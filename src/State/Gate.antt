-- ===== src/State/Gate.antt =====
-- The publication gate: a compaction is published only when every upload to a required
-- destination is verified or retired, and stays so.
use gtfs_rt_archiver.Base.{String, ◌≡◌, refl, arith, Result, ok, err}
use gtfs_rt_archiver.Clock.{Time}
use gtfs_rt_archiver.Model.{Tick, Capture}
use gtfs_rt_archiver.State.Tables.{Store, StateError, schema_v1}
use gtfs_rt_archiver.State.Ticks
use gtfs_rt_archiver.State.Captures
use gtfs_rt_archiver.State.Days
use gtfs_rt_archiver.State.Uploads
use gtfs_rt_archiver.State.Uploads.{gates}
use gtfs_rt_archiver.State.History.{
  Command, Reach, step, Allowed, initial, after, record_tick, save_capture, save_compaction,
  adopt_compaction, mark_upload_attempt, mark_upload_failed, mark_upload_verified,
  ensure_destination_backfill, retire_destination, mark_capture_retained, mark_parquet_retained,
  summarize_day, record_repair, keep, keep_first,
}
use gtfs_rt_archiver.State.Invariant.{IsConsistent}
use gtfs_rt_archiver.State.Marks.{
  mark_upload_attempt-IsConsistent, mark_upload_failed-IsConsistent,
  mark_upload_verified-IsConsistent, ensure_destination_backfill-IsConsistent,
  retire_destination-IsConsistent, mark_parquet_retained-IsConsistent,
}
use gtfs_rt_archiver.State.Inserts.{save_compaction-IsConsistent, adopt_compaction-IsConsistent}

schema_v1-IsConsistent : IsConsistent schema_v1
unfolding schema_v1
schema_v1-IsConsistent = record { compaction_ids = tt; upload_owners = tt; gated = tt }

-- A command that fails changes nothing.
keep-IsConsistent :
    (s : Store) (r : Result StateError Store)
    → IsConsistent s
    → ((t : Store) → r ≡ ok t → IsConsistent t)
    → IsConsistent (keep s r)
keep-IsConsistent s (ok t) v k = k t refl
keep-IsConsistent s (err e) v k = v

-- Captures, ticks, inputs, summaries and the audit are no part of the gate.
SameGate-IsConsistent :
    (s t : Store)
    → t.compactions ≡ s.compactions
    → t.uploads ≡ s.uploads
    → t.compaction_seq ≡ s.compaction_seq
    → IsConsistent s
    → IsConsistent t
SameGate-IsConsistent s t c u n v = record {
  compaction_ids = rw (c, n) v.compaction_ids;
  upload_owners = rw (u, n) v.upload_owners;
  gated = rw (c, u) v.gated;
}

save_capture-IsConsistent :
    (s t : Store) (tick : Tick) (c : Capture)
    → IsConsistent s
    → Captures.save_capture s tick c ≡ ok t
    → IsConsistent t
unfolding Captures.save_capture
save_capture-IsConsistent s t tick c v e =
    SameGate-IsConsistent s t (ground arith) (ground arith) (ground arith) v

mark_capture_retained-IsConsistent :
    (s t : Store) (id : String)
    → IsConsistent s
    → Captures.mark_capture_retained s id ≡ ok t
    → IsConsistent t
unfolding Captures.mark_capture_retained
mark_capture_retained-IsConsistent s t id v e =
    SameGate-IsConsistent s t (ground arith) (ground arith) (ground arith) v

summarize_day-IsConsistent :
    (s : Store) (source stream date : String) (start end now : Time)
    → IsConsistent s
    → IsConsistent (keep_first s (Days.summarize_day s source stream date start end now))
unfolding Days.summarize_day
summarize_day-IsConsistent s source stream date start end now v =
    SameGate-IsConsistent s _ (ground arith) (ground arith) (ground arith) v

-- Every operation of the store, called as the program calls it, keeps the database consistent: in
-- particular a published compaction never has a required upload that is not verified or retired.
pub step-IsConsistent :
    (s : Store) (c : Command) → Allowed s c → IsConsistent s → IsConsistent (step s c)
unfolding step
step-IsConsistent s (record_tick t) a v =
    unfold Ticks.record_tick in SameGate-IsConsistent s _ refl refl refl v
step-IsConsistent s (save_capture t c) a v =
    keep-IsConsistent s _ v (λ t' e. save_capture-IsConsistent s t' t c v e)
step-IsConsistent s (save_compaction c inputs ds now) a v =
    keep-IsConsistent s _ v (λ t e. save_compaction-IsConsistent s t c inputs ds now a v e)
step-IsConsistent s (adopt_compaction c inputs excluded ds now) a v =
    keep-IsConsistent s _ v
      (λ t e. adopt_compaction-IsConsistent s t c inputs excluded ds now a v e)
step-IsConsistent s (mark_upload_attempt id status detail remote next) a v =
    mark_upload_attempt-IsConsistent s id status detail remote next a v
step-IsConsistent s (mark_upload_failed id status detail _ next) a v =
    mark_upload_failed-IsConsistent s id status detail next a v
step-IsConsistent s (mark_upload_verified id remote now) a v =
    keep-IsConsistent s _ v (λ t e. mark_upload_verified-IsConsistent s t id remote now v e)
step-IsConsistent s (ensure_destination_backfill d now) a v =
    ensure_destination_backfill-IsConsistent s d now v
step-IsConsistent s (retire_destination d reason now) a v =
    retire_destination-IsConsistent s d reason now v
step-IsConsistent s (mark_capture_retained id) a v =
    keep-IsConsistent s _ v (λ t e. mark_capture_retained-IsConsistent s t id v e)
step-IsConsistent s (mark_parquet_retained id) a v = mark_parquet_retained-IsConsistent s id v
step-IsConsistent s (summarize_day source stream date start end now) a v =
    summarize_day-IsConsistent s source stream date start end now v
step-IsConsistent s (record_repair action target reason now) a v =
    unfold Uploads.record_repair in SameGate-IsConsistent s _ refl refl refl v

-- In every database that a history of the write operations reaches from the empty schema, where
-- attempts and failures are marked only on uploads that are not settled, and a compaction is
-- recorded as published only where no destination is required: a published compaction has no
-- required upload that is neither verified nor retired, and neither the id of a compaction nor the
-- one that an upload names passes the counter of ids.
pub Reach-IsConsistent : {s : Store} → Reach s → IsConsistent s
Reach-IsConsistent initial = schema_v1-IsConsistent
Reach-IsConsistent (after {s} c r a) = step-IsConsistent s c a (Reach-IsConsistent r)
