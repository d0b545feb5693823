-- ===== src/Clock/Tests.antt =====
-- Encoded instants, among them the two kinds of neighbours whose order the database reads.
use gtfs_rt_archiver.Base.{◌+◌, ◌*◌, ◌≡◌, refl, arith, codes, text_compare, Ordering}
use gtfs_rt_archiver.Clock.{encode_time, fraction, trim_zeros, second}
use gtfs_rt_archiver.Clock.Calendar.{
  date_text, day_text, year_of, period_of, years_from, year_days, clock_text, is_leap, month_days,
  month_of,
}
use gtfs_rt_archiver.Clock.Digits.{digits}
use gtfs_rt_archiver.Clock.Order.{encode_time-lt, encode_time-inverts}

encode_time_fraction : encode_time 1_709_211_723_450_000_000 ≡ codes "2024-02-29T13:02:03.45Z"
unfolding encode_time date_text day_text digits year_of period_of years_from year_days clock_text
    is_leap month_days month_of fraction trim_zeros
encode_time_fraction = refl

encode_time_whole : encode_time 1_709_211_723_000_000_000 ≡ codes "2024-02-29T13:02:03Z"
unfolding encode_time date_text day_text digits year_of period_of years_from year_days clock_text
    is_leap month_days month_of fraction trim_zeros
encode_time_whole = refl

encode_time-lt_example :
    text_compare (encode_time (5 * second + 7)) (encode_time (6 * second)) ≡ Ordering.lt
encode_time-lt_example = encode_time-lt (5 * second + 7) (6 * second) (omega arith) (omega arith)

encode_time-inverts_example :
    text_compare (encode_time (1_700_000_000 * second + 5)) (encode_time (1_700_000_000 * second))
    ≡ Ordering.lt
encode_time-inverts_example = encode_time-inverts 1_700_000_000 5 (omega arith) (omega arith)
