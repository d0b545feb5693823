-- ===== src/Scheduler/Rounds.antt =====
-- internal/scheduler/scheduler.go: the rounds of runStream, on what each round observes.
--
-- The clock, the pause of the disk guard and the waiting for a semaphore are observations: the
-- model says what the loop does with each of them. Instants are exact integers of nanoseconds, for
-- time.Time does not wrap around.
pub mod Ledger
use gtfs_rt_archiver.Base.Int.{ℤ, pos, ◌+ℤ◌, ◌-ℤ◌, ltb_ℤ}
use gtfs_rt_archiver.Base.{
  ℕ, suc, ◌-◌, List, [], ◌∷◌, Bool, true, false, Option, none, some, String, if◌then◌else◌, not,
}
use gtfs_rt_archiver.Scheduler.{effective_lateness}

-- The semaphores in use: the global channel's length, and the host's where the host has one.
pub record Slots : Type 0 where
  pub global : ℕ
  pub host : Option ℕ

-- What a round sees, in the order in which it asks.
pub record Observed : Type 0 where
  pub stopped_waiting : Bool
  pub started : ℤ
  pub paused : Bool
  pub global_free : Bool
  pub host_free : Bool
  pub cancelled : Bool

pub data Event : Type 0 where
  skipped : String → ℤ → Event
  fetched : ℤ → Event

pub data Outcome : Type 0 where
  stop : Slots → Outcome
  proceed : Event → ℤ → Slots → Outcome

-- A channel that is nil is none.
abbrev pub enter : Option ℕ → Option ℕ
enter none = none
enter (some n) = some (suc n)

abbrev pub leave : Option ℕ → Option ℕ
leave none = none
leave (some n) = some (n - 1)

unfoldable pub acquire_global : Slots → Slots
acquire_global s = record s { global = suc s.global }

unfoldable pub release_global : Slots → Slots
release_global s = record s { global = s.global - 1 }

unfoldable pub acquire_host : Slots → Slots
acquire_host s = record s { host = enter s.host }

unfoldable pub release_host : Slots → Slots
release_host s = record s { host = leave s.host }

-- hostSem != nil && !acquireUntil(…).
unfoldable pub host_refused : Option ℕ → Bool → Bool
host_refused none free = false
host_refused (some n) free = not free

unfoldable pub round : ℤ → ℕ → Observed → ℤ → Slots → Outcome
round configured interval o next s =
    let lateness = effective_lateness configured interval in
    let later = next +ℤ pos interval in
    let held = acquire_global s in
    let both = acquire_host held in
    if o.stopped_waiting
    then stop s
    else (if ltb_ℤ (pos lateness) (o.started -ℤ next)
        then proceed (skipped "late" next) later s
        else (if o.paused
            then proceed (skipped "disk_pressure" next) later s
            else (if not o.global_free
                then proceed (skipped "global_concurrency" next) later s
                else (if host_refused held.host o.host_free
                    then proceed (skipped "host_concurrency" next) later (release_global held)
                    else (if o.cancelled
                        then stop (release_global (release_host both))
                        else proceed (fetched next) later (release_global (release_host both)))))))

-- The loop: the events, in order, and the semaphores at its end.
unfoldable pub run_stream : ℤ → ℕ → List Observed → ℤ → Slots → List Event × Slots
run_stream configured interval [] next s = ([], s)
run_stream configured interval (o ∷ os) next s = elim (round configured interval o next s) [
  | stop s' ↦ ([], s')
  | proceed e later s' ↦
      let rest = run_stream configured interval os later s' in (e ∷ rest.0, rest.1)
]
