-- ===== src/Scheduler/Tests.antt =====
-- The scheduler on concrete instants and observations.
use gtfs_rt_archiver.Base.Int.{ℤ, pos, ◌+ℤ◌, ◌-ℤ◌, ◌*ℤ◌, ◌≤ℤ◌, ltb_ℤ, pos_part}
use gtfs_rt_archiver.Base.{◌<◌, ◌%◌, ◌≡◌, refl, arith, some, List, [], ◌∷◌, true, false, codes}
use gtfs_rt_archiver.Scheduler.{
  next_tick, effective_lateness, int64, floor_mod, rem, fnv64a, fnv64a_from,
}
use gtfs_rt_archiver.Scheduler.Ticks.{IsUsual, next_tick_lem, effective_lateness_lem}
use gtfs_rt_archiver.Scheduler.Rounds.{Slots, Observed, run_stream}
use gtfs_rt_archiver.Scheduler.Rounds.Ledger.{IsLedger, run_stream-IsLedger}

-- hash/fnv's test vector for "a".
fnv64a_vector : fnv64a (codes "a") ≡ 12638187200555641996
unfolding fnv64a fnv64a_from
fnv64a_vector = refl

next_tick_at : next_tick (pos 1_000) (pos 60) 7 ≡ some (pos 1_027)
unfolding next_tick int64 floor_mod rem ◌+ℤ◌ ◌-ℤ◌
next_tick_at = refl

usual : IsUsual (pos 1_000) 60
usual = record {
  after_epoch = omega arith;
  before_epoch = omega arith;
  positive = omega arith;
  short = omega arith;
}

next_tick_lem_example :
    (t : ℤ) × (k : ℤ) × (next_tick (pos 1_000) (pos 60) 7 ≡ some t)
    × (t ≡ pos (7 % 60) +ℤ k *ℤ pos 60)
    × (ltb_ℤ (pos 1_000) t ≡ true)
    × (t ≤ℤ pos 1_000 +ℤ pos 60)
next_tick_lem_example = next_tick_lem (pos 1_000) 60 7 usual

effective_lateness_lem_example :
    (effective_lateness (pos 90) 60 < 60)
    × (pos (effective_lateness (pos 90) 60) ≤ℤ pos (pos_part (pos 90)))
effective_lateness_lem_example = effective_lateness_lem (pos 90) 60 (omega arith)

-- On time, then paused, then late.
abbrev rounds : List Observed
rounds =
    record {
      stopped_waiting = false;
      started = pos 100;
      paused = false;
      global_free = true;
      host_free = true;
      cancelled = false;
    }
    ∷ record {
      stopped_waiting = false;
      started = pos 160;
      paused = true;
      global_free = true;
      host_free = true;
      cancelled = false;
    }
    ∷ record {
      stopped_waiting = false;
      started = pos 260;
      paused = false;
      global_free = true;
      host_free = true;
      cancelled = false;
    }
    ∷ []

abbrev slots : Slots
slots = record { global = 3; host = some 1 }

run_stream-IsLedger_example :
    IsLedger 60 (pos 100) 3 slots (run_stream (pos 10) 60 rounds (pos 100) slots)
run_stream-IsLedger_example = run_stream-IsLedger (pos 10) 60 rounds (pos 100) slots
