-- ===== src/Fetch/Record.antt =====
-- internal/fetch/fetch.go, Fetch: what a fetch writes to the state database.
use gtfs_rt_archiver.Base.{
  ℕ, ◌≡◌, refl, Bool, true, String, ok, subst, arith, Bool-cases, inl, inr, ◌⊎◌, not, ◌||◌, ◌++◌,
  List, [], ◌∷◌, any, All, All-append, All-update_rows, All-intro, str_eq, update_rows, ◌∙◌,
  any-append, any-false-All, All-mono, eq_refl,
}
use gtfs_rt_archiver.Clock.{Time}
use gtfs_rt_archiver.Model.{Tick, Capture}
use gtfs_rt_archiver.State.Tables.{Store}
use gtfs_rt_archiver.State.Ticks
use gtfs_rt_archiver.State.Captures
use gtfs_rt_archiver.Fetch.{
  Round, Outcome, failure, captured, run_attempts, finish_failure, finish_capture, fetch,
}

Outcome-cases :
    (o : Outcome)
    → ((category : String) × (status : ℕ) × (n : ℕ) × (o ≡ failure category status n))
      ⊎ ((c : Capture) × (status : ℕ) × (n : ℕ) × (o ≡ captured c status n))
Outcome-cases (failure category status n) = inl (category, status, n, refl)
Outcome-cases (captured c status n) = inr (c, status, n, refl)

-- The row of a tick after RecordTick: it is there, and its result is the one given.
abbrev HasResult : Tick → List Tick → Type 0
HasResult t ticks =
    (any (λ x. str_eq x.id t.id) ticks ≡ true)
    × All (λ x. str_eq x.id t.id ≡ true → x.result ≡ t.result) ticks

any-overwrite :
    (t : Tick) (ticks : List Tick)
    → any
        (λ x. str_eq x.id t.id)
        (update_rows (λ x. str_eq x.id t.id) (Ticks.overwrite_tick t) ticks)
      ≡ any (λ x. str_eq x.id t.id) ticks
unfolding any update_rows Ticks.overwrite_tick
any-overwrite t [] = refl
any-overwrite t (x ∷ xs) = ground (arith, any-overwrite t xs)

upsert_tick-HasResult : (t : Tick) (ticks : List Tick) → HasResult t (Ticks.upsert_tick t ticks)
unfolding Ticks.upsert_tick
upsert_tick-HasResult t ticks = elim (Bool-cases (any (λ x. str_eq x.id t.id) ticks)) [
  | inl e ↦ rw e (any-overwrite t ticks ∙ e, overwritten)
  | inr e ↦ rw e (
    appended,
    All-append _ ticks (t ∷ [])
        (All-mono _ _ (λ x k g. absurd (ground arith)) ticks (any-false-All _ ticks e))
        ((λ _. refl), tt),
  )
]
  where
    appended : any (λ x. str_eq x.id t.id) (ticks ++ t ∷ []) ≡ true
    appended =
        unfold any in
        ground (arith, any-append (λ x. str_eq x.id t.id) ticks (t ∷ []), eq_refl t.id)

    overwritten :
        All
          (λ x. str_eq x.id t.id ≡ true → x.result ≡ t.result)
          (update_rows (λ x. str_eq x.id t.id) (Ticks.overwrite_tick t) ticks)
    overwritten =
        All-update_rows (λ _. Unit {0}) _ (λ x. str_eq x.id t.id) (Ticks.overwrite_tick t)
          (λ x _ _ _. unfold Ticks.overwrite_tick in refl) (λ x _ e g. absurd (ground arith)) ticks
          (All-intro _ (λ _. tt) ticks)

-- What the fetcher ends a tick with.
abbrev pub is_final : String → Bool
is_final result =
    str_eq result "captured"
    || str_eq result "captured_invalid"
    || str_eq result "failed"
    || str_eq result "cancelled"

abbrev pub IsFinished : String → List Tick → Type 0
IsFinished id ticks =
    (any (λ x. str_eq x.id id) ticks ≡ true)
    × All (λ x. str_eq x.id id ≡ true → is_final x.result ≡ true) ticks

upsert_tick-IsFinished :
    (t : Tick) (ticks : List Tick)
    → is_final t.result ≡ true
    → IsFinished t.id (Ticks.upsert_tick t ticks)
upsert_tick-IsFinished t ticks f =
    let (there, all) = upsert_tick-HasResult t ticks in
    (there, All-mono _ _ (λ x k g. rw (k g) f) (Ticks.upsert_tick t ticks) all)

finish_failure-final :
    (tick : Tick) (category detail : String) (status n : ℕ) (now : Time)
    → is_final (finish_failure tick category detail status n now).result ≡ true
unfolding finish_failure
finish_failure-final tick category detail status n now =
    elim (Bool-cases (str_eq category "cancelled")) [ inl e ↦ rw e refl | inr e ↦ rw e refl ]

finish_capture-final :
    (tick : Tick) (c : Capture) (status n : ℕ)
    → is_final (finish_capture tick c status n).result ≡ true
unfolding finish_capture
finish_capture-final tick c status n =
    elim (Bool-cases (not (str_eq c.parse_status "valid") || not c.transport_complete)) [
      | inl e ↦ rw e refl
      | inr e ↦ rw e refl
    ]

failed-IsFinished :
    (s : Store) (tick : Tick) (category detail : String) (status n : ℕ) (now : Time)
    → IsFinished tick.id
        (Ticks.record_tick s (finish_failure tick category detail status n now)).ticks
unfolding Ticks.record_tick
failed-IsFinished s tick category detail status n now =
    subst
      (λ id.
        IsFinished id
          (Ticks.upsert_tick (finish_failure tick category detail status n now) s.ticks))
      {x = (finish_failure tick category detail status n now).id} {y = tick.id}
      (unfold finish_failure in refl)
      (upsert_tick-IsFinished (finish_failure tick category detail status n now) s.ticks
        (finish_failure-final tick category detail status n now))

saved-ticks :
    (s t : Store) (tick : Tick) (c : Capture)
    → Captures.save_capture s tick c ≡ ok t
    → t.ticks ≡ Ticks.upsert_tick tick s.ticks
unfolding Captures.save_capture
saved-ticks s t tick c e = ground arith

captured-IsFinished :
    (s t : Store) (tick : Tick) (c : Capture) (status n : ℕ)
    → Captures.save_capture s (finish_capture tick c status n) c ≡ ok t
    → IsFinished tick.id t.ticks
captured-IsFinished s t tick c status n e =
    rw (saved-ticks s t (finish_capture tick c status n) c e) (
      subst (λ id. IsFinished id (Ticks.upsert_tick (finish_capture tick c status n) s.ticks))
        {x = (finish_capture tick c status n).id} {y = tick.id} (unfold finish_capture in refl)
        (upsert_tick-IsFinished (finish_capture tick c status n) s.ticks
          (finish_capture-final tick c status n)))

-- A fetch that does not fail on the database leaves no running tick: the row of its tick is there,
-- and says captured, captured_invalid, failed or cancelled.
pub fetch-IsFinished :
    (s t : Store) (tick : Tick) (resolved : Bool) (rounds : ℕ → Round) (attempts : ℕ)
    (detail : String) (now : Time)
    → fetch s tick resolved rounds attempts detail now ≡ ok t
    → IsFinished tick.id t.ticks
unfolding fetch
fetch-IsFinished s t tick resolved rounds attempts detail now e = elim (Bool-cases resolved) [
  | inr unresolved ↦
      finished (Ticks.record_tick started (finish_failure running "configuration" detail 0 0 now))
        (ground arith) (failed-IsFinished started running "configuration" detail 0 0 now)
  | inl there ↦ elim (Outcome-cases (run_attempts rounds attempts)) [
    | inl (category, status, n, o) ↦
        finished (Ticks.record_tick started (finish_failure running category detail status n now))
          (ground arith) (failed-IsFinished started running category detail status n now)
    | inr (c, status, n, o) ↦ captured-IsFinished started t running c status n (ground arith)
  ]
]
  where
    running : Tick
    running = record tick { result = "running" }

    started : Store
    started = Ticks.record_tick s running

    finished : (u : Store) → u ≡ t → IsFinished tick.id u.ticks → IsFinished tick.id t.ticks
    finished u same h = subst (λ w. IsFinished tick.id w.ticks) same h
