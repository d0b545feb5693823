-- ===== src/Upload/Retries.antt =====
-- internal/upload/upload.go, backoff: how long a failed upload waits.
use gtfs_rt_archiver.Base.{ℕ, zero, suc, ◌+◌, ◌-◌, ◌*◌, ◌^◌, ◌<◌, ◌≤◌, min, arith}
use gtfs_rt_archiver.Clock.{second}
use gtfs_rt_archiver.Upload.{max_backoff, backoff}

powers : (k : ℕ) → k ≤ 6 → 2 ^ k ≤ 64
powers zero h = omega arith
powers (suc zero) h = omega arith
powers (suc (suc zero)) h = omega arith
powers (suc (suc (suc zero))) h = omega arith
powers (suc (suc (suc (suc zero)))) h = omega arith
powers (suc (suc (suc (suc (suc zero))))) h = omega arith
powers (suc (suc (suc (suc (suc (suc zero)))))) h = omega arith
powers (suc (suc (suc (suc (suc (suc (suc k))))))) h = absurd (omega arith)

max_backoff-bounded : (attempt : ℕ) → max_backoff attempt ≤ 64 * (300 * second)
unfolding max_backoff
max_backoff-bounded attempt =
    ground (arith, powers (min (attempt - 1) 6) (omega arith), powers 0 (omega arith))

-- The wait of a failed upload is at most 5 hours and 20 minutes, where the random source answers
-- below its bound, so that the cap of 6 hours is never reached.
pub backoff-bounded :
    (int64_n : ℕ → ℕ)
    → ((n : ℕ) → 0 < n → int64_n n < n)
    → (attempt : ℕ) → backoff int64_n attempt ≤ 64 * (300 * second)
backoff-bounded int64_n below attempt =
    unfold backoff in
    omega (arith, below (max_backoff attempt + 1) (omega arith), max_backoff-bounded attempt)
