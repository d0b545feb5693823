-- ===== src/Scheduler.antt =====
-- internal/scheduler/scheduler.go: when a stream is due, and what one round of its loop does.
--
-- Instants and durations are int64 nanoseconds: an integer with the wrap-around written out.
pub mod Ticks
pub mod Rounds
pub mod Tests
use Prim.Native.Nat.{bit_xor}
use gtfs_rt_archiver.Base.Int.{ℤ, pos, negsuc, ◌+ℤ◌, ◌-ℤ◌, ltb_ℤ}
use gtfs_rt_archiver.Base.{
  ℕ, suc, ◌+◌, ◌-◌, ◌*◌, ◌/◌, ◌%◌, ◌^◌, List, [], ◌∷◌, Bool, true, false, Option, none, some,
  String, codes, ltb, leb, if◌then◌else◌, not, ◌&&◌, ◌||◌, str_eq,
}

-- int64 of an exact integer.
unfoldable pub int64 : ℤ → ℤ
int64 (pos n) = let r = n % 2 ^ 64 in if ltb r (2 ^ 63) then pos r else negsuc (2 ^ 64 - 1 - r)
int64 (negsuc n) = let r = n % 2 ^ 64 in if ltb r (2 ^ 63) then negsuc r else pos (2 ^ 64 - 1 - r)

-- Go's `%` by a positive divisor: the remainder has the sign of the dividend.
unfoldable pub rem : ℤ → ℕ → ℤ
rem (pos n) d = pos (n % d)
rem (negsuc n) d = pos 0 -ℤ pos ((n + 1) % d)

unfoldable pub floor_mod : ℤ → ℕ → ℤ
floor_mod value divisor =
    let r = rem value divisor in if ltb_ℤ r (pos 0) then r +ℤ pos divisor else r

-- hash/fnv, New64a: the offset basis, then for each byte an xor and a product modulo 2^64.
unfoldable pub fnv64a_from : ℕ → List ℕ → ℕ
fnv64a_from h [] = h
fnv64a_from h (c ∷ cs) = fnv64a_from (bit_xor h c * 1_099_511_628_211 % 2 ^ 64) cs

unfoldable pub fnv64a : List ℕ → ℕ
fnv64a = fnv64a_from 14_695_981_039_346_656_037

unfoldable pub stable_phase : String → ℤ → ℕ
stable_phase key (negsuc n) = 0
stable_phase key (pos interval) = if ltb 0 interval then fnv64a (codes key) % interval else 0

-- `none` is the panic on an interval that is not positive.
unfoldable pub next_tick : ℤ → ℤ → ℕ → Option ℤ
next_tick n (negsuc i) phase = none
next_tick n (pos interval) phase =
    if ltb 0 interval
    then (let p = pos (phase % interval) in
        let base = int64 (n -ℤ floor_mod (int64 (n -ℤ p)) interval) in
        some (if ltb_ℤ n base then base else int64 (base +ℤ pos interval)))
    else none

unfoldable pub effective_lateness : ℤ → ℕ → ℕ
effective_lateness (negsuc n) interval = 0
effective_lateness (pos configured) interval =
    if leb interval configured then interval / 2 else configured
