-- ===== src/Metrics/State.antt =====
-- metrics.rs: `Metrics`, its recording functions, its guards and its snapshot.
use swanlake.Prelude.{
  ℕ, ◌+◌, ◌-◌, ◌*◌, ◌/◌, ◌%◌, ◌^◌, Bool, true, false, List, [], Option, none, some, ◌==◌, leb,
  if◌then◌else◌, ℤ, pos, negsuc,
}
use mathlib.Core.List.{reverse}
use swanlake.Text.{codes}
use swanlake.Metrics.Texts.{Chars, compact_sql, infer_reasons}
use swanlake.Metrics.Latency.{push_ring, LatencySummarySnapshot, summarize_latencies}
use swanlake.Metrics.Groups.{SlowQuery, SlowQueryGroup, summarize_slow_query_groups}

abbrev pub default_history_size : ℕ
default_history_size = 200

abbrev pub default_slow_query_threshold_ms : ℕ
default_slow_query_threshold_ms = 1000

pub record ErrorEvent : Type 0 where
  pub timestamp_ms : ℕ
  pub message : Chars
  pub sql : Option Chars
  pub context : Chars

-- `MetricsInner`
pub record Metrics : Type 0 where
  pub started_at : ℕ
  pub started_at_ms : ℕ
  pub slow_query_threshold : ℕ
  pub history_size : ℕ
  pub total_queries : ℕ
  pub total_updates : ℕ
  pub total_errors : ℕ
  pub total_slow_queries : ℕ
  pub in_flight_queries : ℕ
  pub in_flight_updates : ℕ
  pub query_latencies : List ℕ
  pub update_latencies : List ℕ
  pub slow_queries : List SlowQuery
  pub recent_errors : List ErrorEvent

-- `fetch_add(1)` and `fetch_sub(1)`
abbrev pub incremented : ℕ → ℕ
incremented n = (n + 1) % 2 ^ 64

abbrev pub decremented : ℕ → ℕ
decremented n = (n + 2 ^ 64 - 1) % 2 ^ 64

-- `Duration::from_millis`, and `as_millis() as u64`
abbrev pub from_millis : ℕ → ℕ
from_millis ms = ms * 1000000

abbrev pub as_millis : ℕ → ℕ
as_millis duration = (duration / 1000000) % 2 ^ 64

abbrev pub unless_zero : ℕ → ℕ → ℕ
unless_zero default n = if n == 0 then default else n

unfoldable pub new_metrics : ℕ → ℕ → ℕ → ℕ → Metrics
new_metrics now now_millis slow_query_threshold_ms history_size = record {
  started_at = now;
  started_at_ms = now_millis;
  slow_query_threshold =
      from_millis (unless_zero default_slow_query_threshold_ms slow_query_threshold_ms);
  history_size = unless_zero default_history_size history_size;
  total_queries = 0;
  total_updates = 0;
  total_errors = 0;
  total_slow_queries = 0;
  in_flight_queries = 0;
  in_flight_updates = 0;
  query_latencies = [];
  update_latencies = [];
  slow_queries = [];
  recent_errors = [];
}

pub data InFlightKind : Type 0 where
  query : InFlightKind
  update : InFlightKind

unfoldable pub start_query : Metrics → InFlightKind × Metrics
start_query m = (query, record m { in_flight_queries = incremented m.in_flight_queries })

unfoldable pub start_update : Metrics → InFlightKind × Metrics
start_update m = (update, record m { in_flight_updates = incremented m.in_flight_updates })

-- `Drop for InFlightGuard`
unfoldable pub drop_guard : InFlightKind → Metrics → Metrics
drop_guard query m = record m { in_flight_queries = decremented m.in_flight_queries }
drop_guard update m = record m { in_flight_updates = decremented m.in_flight_updates }

unfoldable pub record_error : ℕ → Chars → Option Chars → Chars → Metrics → Metrics
unfolding push_ring
record_error now_millis context sql message m = record m {
  total_errors = incremented m.total_errors;
  recent_errors =
      push_ring m.recent_errors
        (record { timestamp_ms = now_millis; message = message; sql = sql; context = context })
        m.history_size;
}

abbrev pub is_some : Option Chars → Bool
is_some none = false
is_some (some s) = true

abbrev pub with_error : ℕ → Chars → Option Chars → Metrics → Metrics
with_error now_millis sql none m = m
with_error now_millis sql (some message) m =
    record_error now_millis (codes "execution") (some sql) message m

abbrev pub slow_query : ℕ → Chars → ℕ → Option ℕ → Option ℕ → Bool → Bool → ℕ → SlowQuery
slow_query now_millis sql duration rows bytes is_query had_error threshold = record {
  timestamp_ms = now_millis;
  duration_ms = as_millis duration;
  sql = sql;
  rows = rows;
  bytes = bytes;
  is_query = is_query;
  reasons =
      infer_reasons sql is_query rows bytes (as_millis duration) (as_millis threshold) had_error;
}

abbrev pub with_slow : ℕ → Chars → ℕ → Option ℕ → Option ℕ → Bool → Bool → Metrics → Metrics
with_slow now_millis sql duration rows bytes is_query had_error m =
    if leb m.slow_query_threshold duration
    then record m {
      total_slow_queries = incremented m.total_slow_queries;
      slow_queries =
          push_ring m.slow_queries
            (slow_query now_millis sql duration rows bytes is_query had_error
              m.slow_query_threshold)
            m.history_size;
    }
    else m

-- The clock is read for the error, and again for the slow statement.
unfoldable pub record_common :
    ℕ × ℕ → Chars → ℕ → Option ℕ → Option ℕ → Bool → Option Chars → Metrics → Metrics
unfolding record_error compact_sql infer_reasons push_ring
record_common clock sql duration rows bytes is_query error m =
    with_slow clock.1 (compact_sql sql) duration rows bytes is_query (is_some error)
      (with_error clock.0 (compact_sql sql) error m)

unfoldable pub record_query_result :
    ℕ × ℕ → Chars → ℕ → Option ℕ → Option ℕ → Option Chars → Metrics → Metrics
unfolding record_common push_ring
record_query_result clock sql duration rows bytes error m =
    record_common clock sql duration rows bytes true error (record m {
      total_queries = incremented m.total_queries;
      query_latencies = push_ring m.query_latencies (as_millis duration) m.history_size;
    })

unfoldable pub record_update_result :
    ℕ × ℕ → Chars → ℕ → Option ℕ → Option Chars → Metrics → Metrics
unfolding record_common push_ring
record_update_result clock sql duration rows error m =
    record_common clock sql duration rows none false error (record m {
      total_updates = incremented m.total_updates;
      update_latencies = push_ring m.update_latencies (as_millis duration) m.history_size;
    })

unfoldable pub record_query_success : ℕ × ℕ → Chars → ℕ → ℕ → ℕ → Metrics → Metrics
unfolding record_query_result
record_query_success clock sql duration rows bytes =
    record_query_result clock sql duration (some rows) (some bytes) none

unfoldable pub record_query_error : ℕ × ℕ → Chars → ℕ → Chars → Metrics → Metrics
unfolding record_query_result
record_query_error clock sql duration message =
    record_query_result clock sql duration none none (some message)

abbrev pub non_negative : Option ℤ → Option ℕ
non_negative none = none
non_negative (some (pos n)) = some n
non_negative (some (negsuc n)) = none

unfoldable pub record_update_success : ℕ × ℕ → Chars → ℕ → Option ℤ → Metrics → Metrics
unfolding record_update_result
record_update_success clock sql duration affected_rows =
    record_update_result clock sql duration (non_negative affected_rows) none

unfoldable pub record_update_error : ℕ × ℕ → Chars → ℕ → Chars → Metrics → Metrics
unfolding record_update_result
record_update_error clock sql duration message =
    record_update_result clock sql duration none (some message)

pub record TotalsSnapshot : Type 0 where
  pub queries : ℕ
  pub updates : ℕ
  pub errors : ℕ
  pub slow_queries : ℕ

pub record InFlightSnapshot : Type 0 where
  pub queries : ℕ
  pub updates : ℕ

pub record LatencyStatsSnapshot : Type 0 where
  pub queries : LatencySummarySnapshot
  pub updates : LatencySummarySnapshot

pub record MetricsSnapshot : Type 0 where
  pub started_at_ms : ℕ
  pub uptime_ms : ℕ
  pub slow_query_threshold_ms : ℕ
  pub totals : TotalsSnapshot
  pub in_flight : InFlightSnapshot
  pub latency : LatencyStatsSnapshot
  pub slow_queries : List SlowQuery
  pub slow_query_groups : List SlowQueryGroup
  pub recent_errors : List ErrorEvent
  pub history_size : ℕ

unfoldable pub snapshot : ℕ → Metrics → MetricsSnapshot
unfolding summarize_latencies summarize_slow_query_groups
snapshot now m = record {
  started_at_ms = m.started_at_ms;
  uptime_ms = as_millis (now - m.started_at);
  slow_query_threshold_ms = as_millis m.slow_query_threshold;
  totals = record {
    queries = m.total_queries;
    updates = m.total_updates;
    errors = m.total_errors;
    slow_queries = m.total_slow_queries;
  };
  in_flight = record { queries = m.in_flight_queries; updates = m.in_flight_updates };
  latency = record {
    queries = summarize_latencies m.query_latencies;
    updates = summarize_latencies m.update_latencies;
  };
  slow_queries = reverse m.slow_queries;
  slow_query_groups = summarize_slow_query_groups (reverse m.slow_queries) 10;
  recent_errors = reverse m.recent_errors;
  history_size = m.history_size;
}
