-- ===== src/Upload/Tests.antt =====
-- A pass over the day of State.Tests, and the small functions of the uploader, on concrete values.
use gtfs_rt_archiver.Base.{
  none, ◌+◌, ◌-◌, ◌*◌, ◌≤◌, ◌≡◌, refl, List, [], ◌∷◌, false, ok, arith, codes,
}
use gtfs_rt_archiver.Config.{Destination}
use gtfs_rt_archiver.Clock.{second, encode_time, fraction, trim_zeros}
use gtfs_rt_archiver.Model.{Upload}
use gtfs_rt_archiver.State.History.{Reach}
use gtfs_rt_archiver.State.Tests.{compacted, compacted-Reach, late, noon}
use gtfs_rt_archiver.Upload.{
  Answers, process_pending, backoff, error_category, add_years, first_named, contains, has_prefix,
  sum, first_of,
}
use gtfs_rt_archiver.State.Tables.{fold_case}
use gtfs_rt_archiver.Config.{Destination}
use gtfs_rt_archiver.Clock.Calendar.{
  date_text, day_text, year_of, month_of, clock_text, period_of, years_from, month_days, year_days,
  is_leap,
}
use gtfs_rt_archiver.Config.{Destination}
use gtfs_rt_archiver.Clock.Digits.{digits}
use gtfs_rt_archiver.Upload.Safety.{process_pending-Reach}
use gtfs_rt_archiver.Upload.Retries.{backoff-bounded}

abbrev destinations : List Destination
destinations = record { id = "s3"; remote = "s3:bucket"; required = none } ∷ []

abbrev answers : Upload → Answers
answers item = record {
  cancelled = false;
  prepared = ok "s3:bucket/trip_updates";
  published = ok tt;
  int64_n = λ n. 0;
  attempt_at = late;
  now = late + 60 * second;
}

process_pending_example : Reach (process_pending destinations answers compacted "" late).store
process_pending_example =
    process_pending-Reach destinations answers compacted "" late compacted-Reach

backoff-bounded_example : backoff (λ n. n - 1) 3 ≤ 64 * (300 * second)
backoff-bounded_example = backoff-bounded (λ n. n - 1) (λ n h. omega (arith, h)) 3

error_category_mismatch : error_category "remote_integrity: sha256_mismatch" ≡ "remote_integrity"
unfolding error_category first_named contains has_prefix fold_case
error_category_mismatch = refl

century : encode_time (add_years 100 noon) ≡ codes "2123-11-14T22:13:20Z"
unfolding encode_time add_years date_text day_text digits year_of month_of clock_text period_of sum
    fraction years_from month_days trim_zeros year_days is_leap first_of
century = refl
