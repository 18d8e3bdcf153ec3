-- ===== src/Metrics/Tests.antt =====
-- The runs of the unit tests in metrics.rs.
use swanlake.Prelude.{ℕ, ◌≡◌, refl, true, false, List, [], ◌∷◌, none, some, arith, negsuc, length}
use swanlake.Text.{codes, bytes_eq, contains, to_ascii_lowercase}
use swanlake.Dict.{lookup, insert}
use swanlake.Metrics.Texts.{
  compact_sql, infer_reasons, join_aggregation_sort, leading_wildcard_match, write_heavy_statement,
}
use swanlake.Metrics.Latency.{summarize_latencies, percentile}
use swanlake.Metrics.Groups.{
  SlowQuery, Key, grouped, key_beq, group_key, summarize_slow_query_groups,
}
use swanlake.Metrics.State.{
  Metrics, new_metrics, query, from_millis, unless_zero, default_history_size,
  default_slow_query_threshold_ms,
}
use swanlake.Metrics.Log.{
  Event, started, dropped, query_success, query_error, update_success, update_error, replay, Shows,
}
use swanlake.Metrics.Quantiles.{IsSummary, summarize_latencies-IsSummary}
use swanlake.Metrics.Tallies.{tally, lookup-grouped}
use swanlake.Metrics.Replay.{replay-Shows}

abbrev events : List Event
events =
    started query
    ∷ query_success (1, 1) (codes "SELECT 1") (from_millis 5) 1 16
    ∷ query_error (2, 2) (codes "SELECT * FROM t") (from_millis 15) (codes "query failed")
    ∷ dropped query
    ∷ update_success (3, 3) (codes "UPDATE  t SET v = 1 WHERE n LIKE '%abc'") (from_millis 20)
        (some (negsuc 0))
    ∷ update_error (4, 4) (codes "DELETE FROM t") (from_millis 25) (codes "delete failed")
    ∷ query_success (5, 5) (codes "SELECT 2") (from_millis 35) 2 16
    ∷ []

abbrev after : Metrics
after = replay events (new_metrics 0 0 10 2)

windows :
    (after.query_latencies ≡ 15 ∷ 35 ∷ [])
    × (length after.slow_queries ≡ 2)
    × (after.total_slow_queries ≡ 4)
    × (after.total_errors ≡ 2)
    × (after.in_flight_queries ≡ 0)
unfolding replay new_metrics
windows = (refl, refl, refl, refl, refl)

replay-Shows_example :
    Shows
      (from_millis (unless_zero default_slow_query_threshold_ms 10))
      (unless_zero default_history_size 2)
      events
      after
replay-Shows_example = replay-Shows 0 0 10 2 events

percentiles :
    (percentile (10 ∷ 20 ∷ 30 ∷ 100 ∷ []) 50 ≡ 30) × (percentile (10 ∷ 20 ∷ 30 ∷ 100 ∷ []) 95 ≡ 100)
unfolding percentile
percentiles = (refl, refl)

abbrev latencies : List ℕ
latencies = 100 ∷ 10 ∷ 30 ∷ 20 ∷ []

average_is_forty : (summarize_latencies latencies).avg_ms ≡ 40
unfolding summarize_latencies
average_is_forty = refl

summarize_latencies-IsSummary_example : IsSummary latencies (summarize_latencies latencies)
summarize_latencies-IsSummary_example = summarize_latencies-IsSummary latencies (omega arith)

compacted : compact_sql (codes " SELECT   *  FROM t ") ≡ codes "SELECT * FROM t"
unfolding compact_sql
compacted = refl

reasons :
    infer_reasons (codes "UPDATE t JOIN u WHERE n LIKE '%abc'") false none none 10 10 false
    ≡ join_aggregation_sort ∷ leading_wildcard_match ∷ write_heavy_statement ∷ []
unfolding infer_reasons contains to_ascii_lowercase
reasons = refl

abbrev slow : ℕ → ℕ → SlowQuery
slow at duration = record {
  timestamp_ms = at;
  duration_ms = duration;
  sql = codes "SELECT 1";
  rows = none;
  bytes = none;
  is_query = true;
  reasons = [];
}

abbrev slow_ones : List SlowQuery
slow_ones = slow 3 50 ∷ slow 1 100 ∷ []

abbrev select_key : Key
select_key = (true, codes "SELECT 1")

lookup-grouped_example : lookup select_key (grouped slow_ones []) ≡ tally select_key slow_ones
lookup-grouped_example = lookup-grouped slow_ones select_key

one_group :
    summarize_slow_query_groups slow_ones 10
    ≡ record {
      sql = codes "SELECT 1";
      is_query = true;
      count = 2;
      total_ms = 150;
      avg_ms = 75;
      max_ms = 100;
      latest_timestamp_ms = 3;
    }
      ∷ []
unfolding summarize_slow_query_groups lookup insert key_beq bytes_eq
one_group = refl
