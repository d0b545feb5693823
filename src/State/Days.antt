-- ===== src/State/Days.antt =====
-- internal/state/store.go: the statistics of an archive day, its compaction and its summary.
use gtfs_rt_archiver.Base.{
  ℕ, suc, ◌-◌, List, [], ◌∷◌, ◌++◌, Bool, true, false, ◌&&◌, not, none, some, String, str_eq, any,
  where_rows, count_rows, map, ◌==◌, Result, ok, ◌>>◌, guard, if◌then◌else◌, length,
}
use gtfs_rt_archiver.Clock.{Time}
use gtfs_rt_archiver.Model.{Tick, Capture}
use gtfs_rt_archiver.State.Tables.{
  Store, StateError, constraint, DailySummary, CompactionInput, is_retained, is_empty, mem_text,
}
use gtfs_rt_archiver.State.Ticks.{tick_of_day}
use gtfs_rt_archiver.State.Captures.{capture_of_day}
use gtfs_rt_archiver.State.Compactions.{latest_compaction}

-- `counts[key]++` on a Go map; GROUP BY key with COUNT(*).
unfoldable pub count_up : String → List (String × ℕ) → List (String × ℕ)
count_up key [] = (key, 1) ∷ []
count_up key ((k, n) ∷ rest) =
    if str_eq k key then (k, suc n) ∷ rest else (k, n) ∷ count_up key rest

unfoldable pub group_counts : List String → List (String × ℕ)
group_counts [] = []
group_counts (key ∷ keys) = count_up key (group_counts keys)

abbrev pub network_categories : List String
network_categories = "dns" ∷ "connect" ∷ "tls" ∷ "timeout" ∷ "network" ∷ []

pub record DayStats : Type 0 where
  pub scheduled : ℕ
  pub skipped : ℕ
  pub http_failures : ℕ
  pub network_failures : ℕ
  pub failure_category_counts : List (String × ℕ)

unfoldable pub day_stats : Store → String → String → Time → Time → DayStats
day_stats s source_id stream_id start end = record {
  scheduled = length ticks;
  skipped = count_rows (λ t. str_eq t.result "skipped") ticks;
  http_failures = count_rows (λ t. str_eq t.error_category "http_status") ticks;
  network_failures = count_rows (λ t. mem_text t.error_category network_categories) ticks;
  failure_category_counts =
      group_counts
        (map (λ t. t.error_category) (where_rows (λ t. not (is_empty t.error_category)) ticks));
}
  where
    ticks : List Tick
    ticks = where_rows (tick_of_day source_id stream_id start end) s.ticks

unfoldable pub summary_of_day : String → String → String → DailySummary → Bool
summary_of_day source_id stream_id date d =
    str_eq d.source_id source_id && str_eq d.stream_id stream_id && str_eq d.archive_date date

-- A capture of the day that the compaction does not list.
unfoldable pub unlisted : List CompactionInput → ℕ → Capture → Bool
unlisted inputs compaction_id c =
    not (any (λ i. i.compaction_id == compaction_id && str_eq i.capture_id c.id) inputs)

-- `date` is the day of `start` in the stream's zone.
unfoldable pub day_needs_compaction : Store → String → String → String → Time → Time → Bool
day_needs_compaction s source_id stream_id date start end =
    let captures = where_rows (capture_of_day source_id stream_id date) s.captures in
    if any (summary_of_day source_id stream_id date) s.daily_summaries
    then false
    else (if count_rows (tick_of_day source_id stream_id start end) s.ticks == 0
        then false
        else elim (latest_compaction s source_id stream_id date) [
          | none ↦ true
          | some latest ↦
              (if not (latest.rows == length captures)
                then true
                else not (count_rows (unlisted s.compaction_inputs latest.id) captures == 0))
        ])

abbrev pub is_valid_snapshot : Capture → Bool
is_valid_snapshot c = str_eq c.parse_status "valid" && c.transport_complete

-- One transaction. `false` means that a raw file of the day is still there, and nothing changes.
unfoldable pub summarize_day :
    Store → String → String → String → Time → Time → Time → Result StateError (Store × Bool)
summarize_day s source_id stream_id date start end now =
    if any (λ c. of_day c && not (is_retained c.raw_path)) s.captures then ok (s, false) else do
      guard (not (any (summary_of_day source_id stream_id date) s.daily_summaries)) constraint
      let captures = where_rows (λ c. not (of_day c)) s.captures
      guard (not (any (λ c. any (λ t. of_ticks t && str_eq t.id c.tick_id) s.ticks) captures))
          constraint
      ok (
        record s {
          daily_summaries = s.daily_summaries ++ summary ∷ [];
          compaction_inputs = where_rows (λ i. not (of_inputs i)) s.compaction_inputs;
          captures = captures;
          ticks = where_rows (λ t. not (of_ticks t)) s.ticks;
        },
        true,
      )
  where
    of_day : Capture → Bool
    of_day = capture_of_day source_id stream_id date

    of_ticks : Tick → Bool
    of_ticks = tick_of_day source_id stream_id start end

    of_inputs : CompactionInput → Bool
    of_inputs i = any (λ c. of_day c && str_eq c.id i.capture_id) s.captures

    gone : List Capture
    gone = where_rows of_day s.captures

    ticks : List Tick
    ticks = where_rows of_ticks s.ticks

    summary : DailySummary
    summary = record {
      source_id = source_id;
      stream_id = stream_id;
      archive_date = date;
      scheduled_ticks = length ticks;
      skipped_ticks = count_rows (λ t. str_eq t.result "skipped") ticks;
      captured_responses = length gone;
      valid_snapshots = count_rows is_valid_snapshot gone;
      invalid_payloads = length gone - count_rows is_valid_snapshot gone;
      http_failures = count_rows (λ t. str_eq t.error_category "http_status") ticks;
      network_failures = count_rows (λ t. mem_text t.error_category network_categories) ticks;
      parse_status_counts = group_counts (map (λ c. c.parse_status) gone);
      summarized_at = now;
    }
