-- ===== src/Compact/Gate.antt =====
-- internal/compact/compact.go, Compact: recording a revision keeps the database a reachable one. It is
-- recorded as published only where no destination is required.
use gtfs_rt_archiver.Base.{
  List, [], ◌∷◌, map, Bool, true, false, none, String, Result, ok, err, ok-injective, >>=-eq-ok,
  ◌≡◌, ◌≢◌, refl, ap, sym, ◌∙◌, subst, arith, inl, inr, All, where_rows, Bool-cases, guard, not,
}
use gtfs_rt_archiver.Base.Sort.{insert, sort}
use gtfs_rt_archiver.Clock.{Time}
use gtfs_rt_archiver.Config.{Config, Destination, is_required}
use gtfs_rt_archiver.Gtfsrt.{text_le}
use gtfs_rt_archiver.Model.{Capture, Manifest, Compaction}
use gtfs_rt_archiver.State.History.{Reach, after, step, keep, save_compaction, NoneRequired}
use gtfs_rt_archiver.State.Tables.{Store, StateError}
use gtfs_rt_archiver.Compact.Library.{Library, RawRead, Entry}
use gtfs_rt_archiver.Compact.Accounts.{required_destination_ids, destination_map, account_all}
use gtfs_rt_archiver.Compact.Run.{
  Request, Environment, CompactError, Revision, revision_directory, revision_exists,
  without_captures, with_written, with_artifact, write_artifact, some_included, new_compaction,
  publish_locally, revision_of, select_day, day_texts, day_captures, day_manifest, finish,
  write_revision, prepare_day, prepare, record_revision, commit, compact, new_manifest,
}
use gtfs_rt_archiver.Compact.Totals.{account_all-Counts}
use gtfs_rt_archiver.Compact.Snapshot.{destination_map-All}

insert-nonempty : (v : String) (vs : List String) → insert text_le v vs ≢ []
unfolding insert
insert-nonempty v [] e = absurd (ground arith)
insert-nonempty v (w ∷ ws) e = elim (Bool-cases (text_le v w)) [
  | inl k ↦ absurd (ground arith)
  | inr k ↦ absurd (ground arith)
]

pub sort-nil : (vs : List String) → sort text_le vs ≡ [] → vs ≡ []
unfolding sort
sort-nil [] e = refl
sort-nil (v ∷ vs) e = absurd (insert-nonempty v (sort text_le vs) e)

none_required :
    (ds : List Destination)
    → map (λ d. d.id) (where_rows is_required ds) ≡ []
    → All (λ d. is_required d ≡ false) ds
unfolding where_rows
none_required [] e = tt
none_required (d ∷ ds) e = elim (Bool-cases (is_required d)) [
  | inl k ↦ absurd (ground arith)
  | inr k ↦ (k, none_required ds (ground arith))
]

pub publish_locally-NoneRequired :
    (allowed : Bool) (ds : List Destination) (required : List String) (created : Time)
    (c : Compaction)
    → c.published_at ≡ none
    → required_destination_ids ds ≡ required
    → NoneRequired (publish_locally allowed required created c) (destination_map ds [])
unfolding publish_locally required_destination_ids
publish_locally-NoneRequired true ds [] created c h e published =
    destination_map-All (λ d. d.1 ≡ false) ds [] (none_required ds (sort-nil _ e)) tt
publish_locally-NoneRequired true ds (d ∷ rest) created c h e published = absurd (ground arith)
publish_locally-NoneRequired false ds required created c h e published = absurd (ground arith)

-- A revision whose row may be recorded.
IsAllowed : Revision → Type 0
IsAllowed r = NoneRequired r.compaction r.destinations

module _ (l : Library) (cfg : Config) where
  revision_of-IsAllowed :
      (path : String) (captures : List Capture) (n : Manifest) (files : List (String × Entry))
      → required_destination_ids cfg.destinations ≡ n.required_destinations
      → IsAllowed (revision_of cfg path captures n files)
  unfolding revision_of new_compaction IsAllowed
  revision_of-IsAllowed path captures n files e =
      publish_locally-NoneRequired cfg.allow_local_only_cleanup cfg.destinations
        n.required_destinations n.created_at _ refl e

  artifact-required :
      (raw : String → RawRead) (captures : List Capture) (m m' : Manifest)
      (files : List (String × Entry))
      → with_artifact l cfg raw captures m ≡ ok (m', files)
      → m'.required_destinations ≡ m.required_destinations
  unfolding with_artifact without_captures with_written
  artifact-required raw [] m m' files e = ap (λ r. r.0.required_destinations) (sym (ok-injective e))
  artifact-required raw (c ∷ cs) m m' files e =
      let (w, _, e₁) = >>=-eq-ok (write_artifact l cfg raw (c ∷ cs) m) _ e in
      let (_, _, e₂) = >>=-eq-ok (some_included w.included w.excluded) _ e₁ in
      ap (λ r. r.0.required_destinations) (sym (ok-injective e₂))

  finish-IsAllowed :
      (raw : String → RawRead) (path : String) (captures : List Capture) (m : Manifest)
      (written : Result CompactError (Manifest × List (String × Entry))) (r : Revision)
      → m.required_destinations ≡ required_destination_ids cfg.destinations
      → with_artifact l cfg raw captures m ≡ written
      → finish cfg path captures written ≡ ok r
      → IsAllowed r
  unfolding finish
  finish-IsAllowed raw path captures m (err e) r q k h = absurd (ground arith)
  finish-IsAllowed raw path captures m (ok (m', files)) r q k h =
      let same = (account_all-Counts captures m').0 in
      let kept = artifact-required raw captures m m' files k in
      subst IsAllowed (ok-injective h) (
        revision_of-IsAllowed path captures (account_all captures m') files
          (sym (ap (λ k. k.required_destinations) same ∙ kept ∙ q)))

  prepare-IsAllowed :
      (env : Environment) (s : Store) (req : Request) (r : Revision)
      → prepare l cfg env s req ≡ ok r
      → IsAllowed r
  unfolding prepare prepare_day write_revision day_manifest new_manifest
  prepare-IsAllowed env s req r h =
      let (day, _, h₀) = >>=-eq-ok (select_day cfg env s req) _ h in
      let path = revision_directory day.source.id day.stream.id req.date day.revision in
      let (_, _, h₁) = >>=-eq-ok (guard (not (env.is_taken path)) revision_exists) _ h₀ in
      let (texts, _, h₂) = >>=-eq-ok (day_texts env day (day_captures s req day)) _ h₁ in
      finish-IsAllowed env.raw path (day_captures s req day) (day_manifest cfg env s req day texts)
        _ r refl refl h₂

  commit-Reach :
      (env : Environment) (s : Store) (o : Result CompactError Revision)
      → Reach s
      → ((r : Revision) → o ≡ ok r → IsAllowed r)
      → Reach (commit env s o).store
  unfolding commit IsAllowed step
  commit-Reach env s (err e) reach allowed = reach
  commit-Reach env s (ok r) reach allowed = subst Reach (sym (recorded _)) (
      unfold step in
      after (save_compaction r.compaction r.captures r.destinations env.saved_at) reach
        (allowed r refl))
    where
      recorded :
          (saved : Result StateError Store) → (record_revision s r saved).store ≡ keep s saved
      recorded (err e) = unfold record_revision in refl
      recorded (ok s') = unfold record_revision in refl

  -- The database that a run of Compact leaves is reachable where the one it began with is: the row
  -- it records is marked as published only where no destination of its upload queue is required.
  pub compact-Reach :
      (env : Environment) (s : Store) (req : Request)
      → Reach s
      → Reach (compact l cfg env s req).store
  unfolding compact
  compact-Reach env s req reach =
      commit-Reach env s (prepare l cfg env s req) reach (λ r e. prepare-IsAllowed env s req r e)
