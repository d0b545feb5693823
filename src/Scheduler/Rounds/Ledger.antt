-- ===== src/Scheduler/Rounds/Ledger.antt =====
-- internal/scheduler/scheduler.go, runStream: each tick is accounted for once, and each semaphore
-- is given back.
use gtfs_rt_archiver.Base.Int.{ℤ, pos, ◌+ℤ◌}
use gtfs_rt_archiver.Base.{
  ℕ, zero, suc, List, [], ◌∷◌, Option, none, some, map, ◌≡◌, refl, length, arith, ap, subst, ◌⊎◌,
  ap₂, inl, inr, ◌≤◌, sym, ◌∙◌,
}
use gtfs_rt_archiver.Scheduler.Rounds.{
  Slots, Observed, Event, skipped, fetched, Outcome, stop, proceed, acquire_global, release_global,
  enter, leave, acquire_host, release_host, round, run_stream,
}

abbrev pub scheduled : Event → ℤ
scheduled (skipped reason at) = at
scheduled (fetched at) = at

-- The ticks from an instant on: `next`, `next + interval`, and so on.
abbrev pub ticks_from : ℕ → ℤ → ℕ → List ℤ
ticks_from zero next interval = []
ticks_from (suc n) next interval = next ∷ ticks_from n (next +ℤ pos interval) interval

-- A round that does not stop is about `next` and goes on at the next tick, with the slots it had.
abbrev pub IsRound : ℕ → ℤ → Slots → Outcome → Type 0
IsRound interval next s (stop s') = s' ≡ s
IsRound interval next s (proceed e later s') =
    (scheduled e ≡ next) × (later ≡ next +ℤ pos interval) × (s' ≡ s)

leave-enter : (h : Option ℕ) → leave (enter h) ≡ h
leave-enter none = refl
leave-enter (some n) = ap some (omega arith)

release-acquire : (s : Slots) → release_global (acquire_global s) ≡ s
unfolding release_global acquire_global
release-acquire s = ap (λ n. record s { global = n }) (omega arith)

release-acquire_both :
    (s : Slots) → release_global (release_host (acquire_host (acquire_global s))) ≡ s
unfolding release_global acquire_global release_host acquire_host
release-acquire_both s =
    ap₂ (λ g h. record s { global = g; host = h }) (omega arith) (leave-enter s.host)

round-IsRound :
    (configured : ℤ) (interval : ℕ) (o : Observed) (next : ℤ) (s : Slots)
    → IsRound interval next s (round configured interval o next s)
unfolding round
round-IsRound configured interval o next s =
    ground (arith, release-acquire s, release-acquire_both s)

Outcome-cases :
    (out : Outcome)
    → ((s : Slots) × (out ≡ stop s))
      ⊎ ((e : Event) × (later : ℤ) × (s : Slots) × (out ≡ proceed e later s))
Outcome-cases (stop s) = inl (s, refl)
Outcome-cases (proceed e later s) = inr (e, later, s, refl)

run_stream-stop :
    (configured : ℤ) (interval : ℕ) (o : Observed) (os : List Observed) (next : ℤ) (s s' : Slots)
    → round configured interval o next s ≡ stop s'
    → run_stream configured interval (o ∷ os) next s ≡ ([], s')
unfolding run_stream
run_stream-stop configured interval o os next s s' e = rw (e, run_stream) refl

run_stream-proceed :
    (configured : ℤ) (interval : ℕ) (o : Observed) (os : List Observed) (next : ℤ) (s : Slots)
    (event : Event) (later : ℤ) (s' : Slots)
    → round configured interval o next s ≡ proceed event later s'
    → run_stream configured interval (o ∷ os) next s ≡ (
      event ∷ (run_stream configured interval os later s').0,
      (run_stream configured interval os later s').1,
    )
unfolding run_stream
run_stream-proceed configured interval o os next s event later s' e = rw (e, run_stream) refl

-- What run_stream-IsLedger says of a run's events and slots.
abbrev pub IsLedger : ℕ → ℤ → ℕ → Slots → List Event × Slots → Type 0
IsLedger interval next rounds s run =
    (map scheduled run.0 ≡ ticks_from (length run.0) next interval)
    × (length run.0 ≤ rounds)
    × (run.1 ≡ s)

-- Whatever the rounds of runStream observe, its events are about the first ticks from the first
-- on, in order and each once, a round gives at most one, and every semaphore that was taken is
-- given back.
pub run_stream-IsLedger :
    (configured : ℤ) (interval : ℕ) (os : List Observed) (next : ℤ) (s : Slots)
    → IsLedger interval next (length os) s (run_stream configured interval os next s)
unfolding run_stream
run_stream-IsLedger configured interval [] next s = (refl, omega arith, refl)
run_stream-IsLedger configured interval (o ∷ os) next s =
    elim (Outcome-cases (round configured interval o next s)) [
      | inl (s', e) ↦
          let r : s' ≡ s =
            subst (IsRound interval next s) e (round-IsRound configured interval o next s) in
          subst (IsLedger interval next (length (o ∷ os)) s)
            (sym (run_stream-stop configured interval o os next s s' e)) (refl, omega arith, r)
      | inr (event, later, s', e) ↦
          let r : IsRound interval next s (proceed event later s') =
            subst (IsRound interval next s) e (round-IsRound configured interval o next s) in
          let ih : IsLedger interval later (length os) s'
              (run_stream configured interval os later s') =
            run_stream-IsLedger configured interval os later s' in
          subst (IsLedger interval next (length (o ∷ os)) s)
            (sym (run_stream-proceed configured interval o os next s event later s' e))
            (
              ap₂ (λ a b. a ∷ b) r.0
                  (ih.0
                    ∙ ap
                        (λ z.
                          ticks_from (length (run_stream configured interval os later s').0) z
                            interval)
                        r.1),
              omega (arith, ih.1),
              ih.2 ∙ r.2,
            )
    ]
