-- ===== src/Fetch/Attempts.antt =====
-- internal/fetch/fetch.go, Fetch: which attempts are made.
use gtfs_rt_archiver.Base.Int.{ℤ, pos, negsuc, ltb_ℤ, ◌*ℤ◌}
use gtfs_rt_archiver.Base.{
  ℕ, zero, suc, ◌+◌, ◌<◌, ◌≤◌, ◌≡◌, refl, ◌⊎◌, inl, inr, arith, Bool, true, false, not, ◌&&◌,
  Option, none, some, String, ◌^◌, Option-cases, ◌==◌, ◌-◌, Bool-cases, if_intro, if◌then◌else◌,
}
use gtfs_rt_archiver.Scheduler.{int64}
use gtfs_rt_archiver.Fetch.{
  Round, Reply, invalid_request, no_answer, answered, Outcome, failure, captured, retryable_network,
  retryable_status, attempt_once, attempts_from, run_attempts, is_success, retry_after, drawn,
  wait_backoff, last_category, last_status,
}

abbrev pub attempts_of : Outcome → ℕ
attempts_of (failure category status n) = n
attempts_of (captured capture status n) = n

-- A reply that may be followed by another attempt.
abbrev pub is_retryable : Reply → Bool
is_retryable invalid_request = false
is_retryable (no_answer e) = retryable_network e
is_retryable (answered status result) = not (is_success status) && retryable_status status

-- From `attempt` on: the attempts before the last one made got a retryable reply, and a backoff that
-- was not cancelled.
abbrev pub IsRetried : (ℕ → Round) → ℕ → ℕ → Type 0
IsRetried rounds attempt n =
    (i : ℕ)
    → attempt ≤ i
    → i < n
    → (is_retryable (rounds i).reply ≡ true) × ((rounds i).backoff_cancelled ≡ false)

≤-cases : (a b : ℕ) → a ≤ b → (a ≡ b) ⊎ (suc a ≤ b)
≤-cases a b h = omega arith

once-attempts :
    (r : Round) (last : Bool) (attempt : ℕ) (o : Outcome)
    → attempt_once r last attempt ≡ some o
    → attempts_of o ≡ attempt
unfolding attempt_once
once-attempts r last attempt o e = ground arith

once-continues :
    (r : Round) (last : Bool) (attempt : ℕ)
    → attempt_once r last attempt ≡ none
    → (last ≡ false) × (is_retryable r.reply ≡ true) × (r.backoff_cancelled ≡ false)
unfolding attempt_once
once-continues r last attempt e = (ground arith, ground arith, ground arith)

module _ (rounds : ℕ → Round) (left attempt : ℕ) (category : String) (status : ℕ) where
  attempts_from-once :
      (o : Outcome)
      → attempt_once (rounds attempt) (left == 0) attempt ≡ some o
      → attempts_from rounds (suc left) attempt category status ≡ o
  unfolding attempts_from
  attempts_from-once o e = rw (e, attempts_from) refl

  attempts_from-again :
      attempt_once (rounds attempt) (left == 0) attempt ≡ none
      → attempts_from rounds (suc left) attempt category status
        ≡ attempts_from rounds left
            (suc attempt)
            (last_category (rounds attempt) category)
            (last_status (rounds attempt) status)
  unfolding attempts_from
  attempts_from-again e = rw (e, attempts_from) refl

-- The last attempt made is one of those allowed, and each before it was followed by a retry.
abbrev pub IsWithin : (ℕ → Round) → ℕ → ℕ → Outcome → Type 0
IsWithin rounds attempt left o =
    (attempt ≤ attempts_of o)
    × (attempts_of o < attempt + left)
    × IsRetried rounds attempt (attempts_of o)

extended :
    (rounds : ℕ → Round) (attempt n : ℕ)
    → (is_retryable (rounds attempt).reply ≡ true) × ((rounds attempt).backoff_cancelled ≡ false)
    → IsRetried rounds (suc attempt) n
    → IsRetried rounds attempt n
extended rounds attempt n now later i a b = elim (≤-cases attempt i a) [
  | inl e ↦ rw (← e) now
  | inr k ↦ later i k b
]

attempts_from-IsWithin :
    (rounds : ℕ → Round) (left attempt : ℕ) (category : String) (status : ℕ)
    → 0 < left
    → IsWithin rounds attempt left (attempts_from rounds left attempt category status)
attempts_from-IsWithin rounds zero attempt category status h = absurd (omega arith)
attempts_from-IsWithin rounds (suc left) attempt category status h =
    elim (Option-cases (attempt_once (rounds attempt) (left == 0) attempt)) [
      | inr (o, e) ↦
          let same = once-attempts (rounds attempt) (left == 0) attempt o e in
          rw (attempts_from-once rounds left attempt category status o e)
            (omega (arith, same), omega (arith, same), λ i a b. absurd (omega (arith, same)))
      | inl e ↦
          let (more, retryable, waited) = once-continues (rounds attempt) (left == 0) attempt e in
          let (above, below, retried) =
            attempts_from-IsWithin rounds left (suc attempt)
              (last_category (rounds attempt) category) (last_status (rounds attempt) status)
              (ground (arith, more)) in
          rw (attempts_from-again rounds left attempt category status e) (
            omega (arith, above),
            omega (arith, below),
            extended rounds attempt _ (retryable, waited) retried,
          )
    ]

-- With at least one attempt configured, Fetch makes from one to that many, and each attempt before
-- the last one made got a network error that is not a cancellation, or a status that is retryable,
-- and its backoff was not cancelled.
pub run_attempts-IsWithin :
    (rounds : ℕ → Round) (attempts : ℕ)
    → 0 < attempts
    → IsWithin rounds 1 attempts (run_attempts rounds attempts)
unfolding run_attempts
run_attempts-IsWithin rounds attempts h = attempts_from-IsWithin rounds attempts 1 "" 0 h

ltb_ℤ_irrefl : (d : ℤ) → ltb_ℤ d d ≡ false
ltb_ℤ_irrefl d = ground arith

not_above : (m d r : ℤ) → ltb_ℤ m d ≡ false → ltb_ℤ d r ≡ false → ltb_ℤ m r ≡ false
not_above m d r h k = ground arith

capped-bounded : (m d : ℤ) → ltb_ℤ m (if ltb_ℤ m d then m else d) ≡ false
capped-bounded m d = elim (Bool-cases (ltb_ℤ m d)) [
  | inl e ↦ rw e (ltb_ℤ_irrefl m)
  | inr e ↦ rw (e, e) refl
]

drawn-bounded :
    (random : ℤ → ℤ) (m d : ℤ)
    → ((x : ℤ) → ltb_ℤ (pos 0) x ≡ true → ltb_ℤ x (random x) ≡ false)
    → ltb_ℤ m d ≡ false
    → ltb_ℤ m (drawn random d) ≡ false
unfolding drawn
drawn-bounded random m d below h = elim (Bool-cases (ltb_ℤ (pos 0) d)) [
  | inl e ↦ rw e (not_above m d (random d) h (below d e))
  | inr e ↦ rw e h
]

retry_after-bounded :
    (seconds until : Option ℤ) (interval : ℕ)
    → ltb_ℤ (pos interval) (retry_after seconds until (pos interval)) ≡ false
unfolding retry_after
retry_after-bounded (some (pos n)) until interval = capped-bounded (pos interval) _
retry_after-bounded none none interval = ground arith
retry_after-bounded (some (negsuc n)) none interval = ground arith
retry_after-bounded none (some d) interval =
    if_intro (λ x. ltb_ℤ (pos interval) x ≡ false) (ltb_ℤ d (pos 0)) (pos 0) _ (ground arith)
      (capped-bounded (pos interval) d)
retry_after-bounded (some (negsuc n)) (some d) interval =
    if_intro (λ x. ltb_ℤ (pos interval) x ≡ false) (ltb_ℤ d (pos 0)) (pos 0) _ (ground arith)
      (capped-bounded (pos interval) d)

-- No wait before a retry is longer than the interval of the stream or the maximum backoff
-- configured, whatever Retry-After says, in seconds or as a date, and however the shift of the
-- initial backoff and the product with a second wrap around, where the random source answers no
-- more than the wait it is given.
pub wait_backoff-bounded :
    (seconds until : Option ℤ) (interval : ℕ) (initial maximum : ℤ) (random : ℤ → ℤ) (attempt : ℕ)
    → ((d : ℤ) → ltb_ℤ (pos 0) d ≡ true → ltb_ℤ d (random d) ≡ false)
    → let wait =
        wait_backoff initial maximum random attempt (retry_after seconds until (pos interval)) in
      (ltb_ℤ (pos interval) wait ≡ false) ⊎ (ltb_ℤ maximum wait ≡ false)
unfolding wait_backoff
wait_backoff-bounded seconds until interval initial maximum random attempt below =
    let override = retry_after seconds until (pos interval) in
    let shifted = int64 (initial *ℤ pos (2 ^ (attempt - 1))) in
    if_intro (λ x. (ltb_ℤ (pos interval) x ≡ false) ⊎ (ltb_ℤ maximum x ≡ false))
      (ltb_ℤ (pos 0) override) override _ (inl (retry_after-bounded seconds until interval))
      (inr (drawn-bounded random maximum _ below (capped-bounded maximum shifted)))
