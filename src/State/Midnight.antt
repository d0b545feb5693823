-- ===== src/State/Midnight.antt =====
-- The bounds of an archive day are compared as texts: what the queries count as a day's ticks.
use gtfs_rt_archiver.Base.{
  ℕ, ◌+◌, ◌*◌, ◌/◌, ◌<◌, ◌≡◌, ◌≢◌, inl, inr, true, false, ◌&&◌, not, any, arith, Bool-cases, leb,
  ltb, String, str_eq, eq_iff, err, where_rows, any-mem, where_rows-mem, Memᴰ, ltb→lt, le→leb, sym,
}
use gtfs_rt_archiver.Clock.{Time, second}
use gtfs_rt_archiver.Clock.Compare.{stamp_lt-le, compare-stamp_lt, compare-stamp_le, stamp_lt_asymm}
use gtfs_rt_archiver.Clock.Order.{year_10000, encode_time-lt, encode_time-inverts}
use gtfs_rt_archiver.Model.{Tick, Capture}
use gtfs_rt_archiver.State.Tables.{Store, text_time_le, text_time_lt, is_retained, constraint}
use gtfs_rt_archiver.State.Ticks.{tick_of_day, tick_of_stream}
use gtfs_rt_archiver.State.Captures.{capture_of_day}
use gtfs_rt_archiver.State.Days.{summarize_day}

text_time_le-earlier :
    (a b : Time) → a / second < b / second → b / second < year_10000 → text_time_le a b ≡ true
unfolding text_time_le
text_time_le-earlier a b h k = compare-stamp_le _ _ (encode_time-lt a b h k)

text_time_lt-earlier :
    (a b : Time) → a / second < b / second → b / second < year_10000 → text_time_lt a b ≡ true
unfolding text_time_lt
text_time_lt-earlier a b h k = compare-stamp_lt _ _ (encode_time-lt a b h k)

text_time_le-later :
    (a b : Time) → b / second < a / second → a / second < year_10000 → text_time_le a b ≡ false
unfolding text_time_le
text_time_le-later a b h k = stamp_lt-le _ _ (compare-stamp_lt _ _ (encode_time-lt b a h k))

text_time_lt-later :
    (a b : Time) → b / second < a / second → a / second < year_10000 → text_time_lt a b ≡ false
unfolding text_time_lt
text_time_lt-later a b h k = stamp_lt_asymm _ _ (compare-stamp_lt _ _ (encode_time-lt b a h k))

-- In different seconds the texts compare as the times do.
module _ (a b : Time) (apart : a / second ≢ b / second) (early_a : a / second < year_10000)
    (early_b : b / second < year_10000) where
  text_time_le-exact : text_time_le a b ≡ leb a b
  text_time_le-exact = elim (Bool-cases (ltb (a / second) (b / second))) [
    | inl e ↦
        rw (text_time_le-earlier a b (ltb→lt _ _ e) early_b)
          (sym (le→leb a b (omega (arith, ltb→lt _ _ e))))
    | inr e ↦ rw (text_time_le-later a b (ground arith) early_a) (ground arith)
  ]

  text_time_lt-exact : text_time_lt a b ≡ ltb a b
  text_time_lt-exact = elim (Bool-cases (ltb (a / second) (b / second))) [
    | inl e ↦ rw (text_time_lt-earlier a b (ltb→lt _ _ e) early_b) (ground (arith, ltb→lt _ _ e))
    | inr e ↦ rw (text_time_lt-later a b (ground arith) early_a) (ground arith)
  ]

-- A tick whose second is neither that of the start of the day nor that of its end is counted on
-- the day exactly when it is of the stream and lies between them, all three being before the year
-- 10000.
pub tick_of_day_exact :
    (source_id stream_id : String) (start end : Time) (t : Tick)
    → t.scheduled_at / second ≢ start / second
    → t.scheduled_at / second ≢ end / second
    → t.scheduled_at / second < year_10000
    → start / second < year_10000
    → end / second < year_10000
    → tick_of_day source_id stream_id start end t
      ≡ (tick_of_stream source_id stream_id t && leb start t.scheduled_at && ltb t.scheduled_at end)
unfolding tick_of_day
tick_of_day_exact source_id stream_id start end t a b k l m = rw (
  text_time_le-exact start t.scheduled_at (λ e. a (sym e)) l k,
  text_time_lt-exact t.scheduled_at end b k m,
)

-- A tick in the second that begins at midnight, but not at its first instant, is left out of the
-- day that begins there and, if it is of the stream, counted on the day that ends there, where
-- that day begins in an earlier second and midnight is before the year 10000.
pub tick_of_day_midnight :
    (source_id stream_id : String) (start end : Time) (midnight n : ℕ) (t : Tick)
    → t.scheduled_at ≡ midnight * second + n
    → 0 < n
    → n < second
    → start / second < midnight
    → midnight < year_10000
    → (tick_of_day source_id stream_id (midnight * second) end t ≡ false)
      × (tick_of_day source_id stream_id start (midnight * second) t
          ≡ tick_of_stream source_id stream_id t)
unfolding tick_of_day
tick_of_day_midnight source_id stream_id start end midnight n t at k l m y = rw at (
    ground (
      arith,
      outside,
      inside,
      text_time_le-earlier start (midnight * second + n) (omega arith) (omega arith),
    ))
  where
    outside : text_time_le (midnight * second) (midnight * second + n) ≡ false
    outside =
        unfold text_time_le in
        stamp_lt-le _ _ (compare-stamp_lt _ _ (encode_time-inverts midnight n k l))

    inside : text_time_lt (midnight * second + n) (midnight * second) ≡ true
    inside = unfold text_time_lt in compare-stamp_lt _ _ (encode_time-inverts midnight n k l)

-- SummarizeDay of a day whose raw files are all gone fails with a constraint while the database
-- has a capture of another day that belongs to a tick of the stream in the first second after the
-- end of the day, but not at its first instant.
pub summarize_day_blocked :
    (s : Store) (source_id stream_id date : String) (start now : Time) (midnight n : ℕ)
    (c : Capture) (t : Tick)
    → any
        (λ x. capture_of_day source_id stream_id date x && not (is_retained x.raw_path))
        s.captures
      ≡ false
    → Memᴰ c s.captures
    → capture_of_day source_id stream_id date c ≡ false
    → Memᴰ t s.ticks
    → t.id ≡ c.tick_id
    → tick_of_stream source_id stream_id t ≡ true
    → t.scheduled_at ≡ midnight * second + n
    → 0 < n
    → n < second
    → start / second < midnight
    → midnight < year_10000
    → summarize_day s source_id stream_id date start (midnight * second) now ≡ err constraint
unfolding summarize_day
summarize_day_blocked s source_id stream_id date start now midnight n c t dead mc other mt same of
      at k l m y =
    ground (arith, dead, referenced)
  where
    counted :
        (tick_of_day source_id stream_id start (midnight * second) t && str_eq t.id c.tick_id)
        ≡ true
    counted = rw (
      (tick_of_day_midnight source_id stream_id start 0 midnight n t at k l m y).1,
      of,
      (eq_iff t.id c.tick_id).1 same,
    )

    referenced :
        any
          (λ x.
            any
              (λ u.
                tick_of_day source_id stream_id start (midnight * second) u
                && str_eq u.id x.tick_id)
              s.ticks)
          (where_rows (λ x. not (capture_of_day source_id stream_id date x)) s.captures)
        ≡ true
    referenced = any-mem _ c (where_rows-mem _ c mc (rw other)) (any-mem _ t mt counted)
