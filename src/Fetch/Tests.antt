-- ===== src/Fetch/Tests.antt =====
-- A fetch that is answered 503 and then a feed.
use gtfs_rt_archiver.Base.Int.{ℤ, pos, ltb_ℤ}
use gtfs_rt_archiver.Base.{
  ◌⊎◌, false, ℕ, zero, suc, ◌*◌, ◌≡◌, refl, any, update_rows, true, none, some, ok, err, arith,
}
use gtfs_rt_archiver.Clock.{second}
use gtfs_rt_archiver.State.Tables.{Store, schema_v1}
use gtfs_rt_archiver.State.History.{keep}
use gtfs_rt_archiver.State.Tests.{tick, capture, noon}
use gtfs_rt_archiver.Fetch.{
  Round, answered, local_storage, captured, run_attempts, fetch, retry_after, wait_backoff,
  attempts_from, attempt_once, is_success, retryable_status, finish_capture,
}
use gtfs_rt_archiver.State.Captures.{save_capture}
use gtfs_rt_archiver.State.Ticks.{record_tick, upsert_tick, overwrite_tick}
use gtfs_rt_archiver.Fetch.Attempts.{IsWithin, run_attempts-IsWithin, wait_backoff-bounded}
use gtfs_rt_archiver.Fetch.Record.{fetch-IsFinished, IsFinished}

abbrev rounds : ℕ → Round
rounds zero = record { reply = answered 503 (err local_storage); backoff_cancelled = false }
rounds (suc zero) = record { reply = answered 503 (err local_storage); backoff_cancelled = false }
rounds (suc (suc n)) = record { reply = answered 200 (ok capture); backoff_cancelled = false }

second_attempt : run_attempts rounds 3 ≡ captured capture 200 2
unfolding run_attempts attempts_from attempt_once is_success retryable_status
second_attempt = refl

run_attempts-IsWithin_example : IsWithin rounds 1 3 (run_attempts rounds 3)
run_attempts-IsWithin_example = run_attempts-IsWithin rounds 3 (omega arith)

unchanged : (d : ℤ) → ltb_ℤ d d ≡ false
unchanged d = ground arith

wait_backoff-bounded_example :
    (ltb_ℤ (pos (60 * second)) (
        wait_backoff
          (pos second)
          (pos (30 * second))
          (λ d. d)
          3
          (retry_after (some (pos 18446744074)) none (pos (60 * second))))
      ≡ false)
    ⊎ (ltb_ℤ (pos (30 * second)) (
          wait_backoff
            (pos second)
            (pos (30 * second))
            (λ d. d)
            3
            (retry_after (some (pos 18446744074)) none (pos (60 * second))))
        ≡ false)
wait_backoff-bounded_example =
    wait_backoff-bounded (some (pos 18446744074)) none (60 * second) (pos second)
      (pos (30 * second)) (λ d. d) 3 (λ d positive. unchanged d)

abbrev fetched : Store
fetched = keep schema_v1 (fetch schema_v1 tick true rounds 3 "" noon)

fetch_writes : fetch schema_v1 tick true rounds 3 "" noon ≡ ok fetched
unfolding fetch run_attempts attempts_from attempt_once is_success retryable_status save_capture any
    record_tick schema_v1 upsert_tick finish_capture update_rows overwrite_tick
fetch_writes = refl

fetch-IsFinished_example : IsFinished tick.id fetched.ticks
fetch-IsFinished_example =
    fetch-IsFinished schema_v1 fetched tick true rounds 3 "" noon fetch_writes
