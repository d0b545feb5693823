-- ===== src/Fetch.antt =====
-- internal/fetch/fetch.go: the attempts of one scheduled fetch, and what is recorded of them.
--
-- What the HTTP client answers to an attempt, what captureResponse then returns, and whether the
-- context ends during a backoff are observations, one `Round` for each attempt. The texts of
-- ErrorDetail are left out: `detail` is an argument.
pub mod Attempts
pub mod Record
pub mod Tests
use gtfs_rt_archiver.Base.Int.{◌*ℤ◌, ℤ, pos, negsuc, ltb_ℤ}
use gtfs_rt_archiver.Base.{
  ℕ, zero, suc, ◌+◌, ◌-◌, ◌*◌, ◌^◌, Bool, true, false, not, ◌&&◌, ◌||◌, ◌==◌, ltb, leb, Option,
  none, some, String, str_eq, if◌then◌else◌, Result, ok, err,
}
use gtfs_rt_archiver.Clock.{Time, second}
use gtfs_rt_archiver.Model.{Tick, Capture}
use gtfs_rt_archiver.Scheduler.{int64}
use gtfs_rt_archiver.State.Tables.{Store, StateError}
use gtfs_rt_archiver.State.Ticks.{record_tick}
use gtfs_rt_archiver.State.Captures.{save_capture}

-- What errors.Is and errors.As say of an error of the client.
pub record NetworkError : Type 0 where
  pub canceled : Bool
  pub deadline_exceeded : Bool
  pub dns : Bool
  pub unknown_authority : Bool
  pub net_timeout : Bool
  pub op : Bool

unfoldable pub classify_network : NetworkError → String
classify_network e =
    if e.canceled
    then "cancelled"
    else (if e.deadline_exceeded
        then "timeout"
        else (if e.dns
            then "dns"
            else (if e.unknown_authority
                then "tls"
                else (if e.net_timeout
                    then "timeout"
                    else (if e.op then "connect" else "network")))))

unfoldable pub retryable_network : NetworkError → Bool
retryable_network e = not e.canceled

unfoldable pub retryable_status : ℕ → Bool
retryable_status status = status == 408 || status == 425 || status == 429 || leb 500 status

-- ErrBodyTooLarge, or any other error of captureResponse.
pub data CaptureError : Type 0 where
  body_too_large local_storage : CaptureError

pub data Reply : Type 0 where
  invalid_request : Reply
  no_answer : NetworkError → Reply
  answered : ℕ → Result CaptureError Capture → Reply

pub record Round : Type 0 where
  pub reply : Reply
  pub backoff_cancelled : Bool

-- finishFailure's arguments, or a capture with its status; each with the attempt.
pub data Outcome : Type 0 where
  failure : String → ℕ → ℕ → Outcome
  captured : Capture → ℕ → ℕ → Outcome

unfoldable pub capture_category : CaptureError → String
capture_category body_too_large = "body_too_large"
capture_category local_storage = "local_storage"

unfoldable pub is_success : ℕ → Bool
is_success status = not (ltb status 200 || leb 300 status)

-- One iteration: the outcome, or none for `continue`. `last` is attempt == attempts.
unfoldable pub attempt_once : Round → Bool → ℕ → Option Outcome
attempt_once r last attempt = elim r.reply [
  | invalid_request ↦ some (failure "configuration" 0 attempt)
  | no_answer e ↦
      (if str_eq (classify_network e) "cancelled"
        then some (failure "cancelled" 0 attempt)
        else (if not last && retryable_network e
            then (if r.backoff_cancelled then some (failure "cancelled" 0 attempt) else none)
            else some (failure (classify_network e) 0 attempt)))
  | answered status result ↦
      (if is_success status
        then elim result [
          | err e ↦ some (failure (capture_category e) status attempt)
          | ok c ↦ some (captured c status attempt)
        ]
        else (if not last && retryable_status status
            then (if r.backoff_cancelled then some (failure "cancelled" status attempt) else none)
            else some (failure "http_status" status attempt)))
]

-- The category that the loop carries, for its end.
unfoldable pub last_category : Round → String → String
last_category r category = elim r.reply [ no_answer e ↦ classify_network e | _ ↦ category ]

unfoldable pub last_status : Round → ℕ → ℕ
last_status r status = elim r.reply [ answered code _ ↦ code | _ ↦ status ]

-- The loop, from `attempt` on with `left` iterations left: attempts is attempt + left - 1.
unfoldable pub attempts_from : (ℕ → Round) → ℕ → ℕ → String → ℕ → Outcome
attempts_from rounds zero attempt category status = failure category status (attempt - 1)
attempts_from rounds (suc left) attempt category status =
    let r = rounds attempt in
    let rest =
      attempts_from rounds left (suc attempt) (last_category r category) (last_status r status) in
    elim (attempt_once r (left == 0) attempt) [ some o ↦ o | none ↦ rest ]

unfoldable pub run_attempts : (ℕ → Round) → ℕ → Outcome
run_attempts rounds attempts = attempts_from rounds attempts 1 "" 0

unfoldable pub finish_failure : Tick → String → String → ℕ → ℕ → Time → Tick
finish_failure tick category detail status attempts now = record tick {
  finished_at = some now;
  result = if str_eq category "cancelled" then "cancelled" else "failed";
  error_category = category;
  error_detail = detail;
  http_status = status;
  attempts = attempts;
}

unfoldable pub finish_capture : Tick → Capture → ℕ → ℕ → Tick
finish_capture tick capture status attempts = record tick {
  finished_at = some capture.completed_at;
  http_status = status;
  attempts = attempts;
  result =
      if not (str_eq capture.parse_status "valid") || not capture.transport_complete
      then "captured_invalid"
      else "captured";
}

-- Fetch: the running tick is recorded first; `resolved` is resolveRequest without an error.
unfoldable pub fetch :
    Store → Tick → Bool → (ℕ → Round) → ℕ → String → Time → Result StateError Store
fetch s tick resolved rounds attempts detail now =
    let running = record tick { result = "running" } in
    let started = record_tick s running in
    if not resolved
    then ok (record_tick started (finish_failure running "configuration" detail 0 0 now))
    else elim (run_attempts rounds attempts) [
      | failure category status n ↦
          ok (record_tick started (finish_failure running category detail status n now))
      | captured capture status n ↦
          save_capture started (finish_capture running capture status n) capture
    ]

-- retryAfter: the header as a number of seconds, or the time until the instant that it names.
unfoldable pub retry_after : Option ℤ → Option ℤ → ℤ → ℤ
retry_after (some (pos seconds)) until maximum =
    let d = int64 (pos (seconds * second)) in if ltb_ℤ maximum d then maximum else d
retry_after _ none maximum = pos 0
retry_after _ (some d) maximum =
    if ltb_ℤ d (pos 0) then pos 0 else (if ltb_ℤ maximum d then maximum else d)

-- time.Duration(rand.Int64N(int64(d) + 1)), where the wait is positive.
unfoldable pub drawn : (ℤ → ℤ) → ℤ → ℤ
drawn random d = if ltb_ℤ (pos 0) d then random d else d

-- waitBackoff: how long it waits. The shift wraps around; `random` is what rand answers for a wait.
unfoldable pub wait_backoff : ℤ → ℤ → (ℤ → ℤ) → ℕ → ℤ → ℤ
wait_backoff initial maximum random attempt override =
    let d = int64 (initial *ℤ pos (2 ^ (attempt - 1))) in
    if ltb_ℤ (pos 0) override
    then override
    else drawn random (if ltb_ℤ maximum d then maximum else d)
