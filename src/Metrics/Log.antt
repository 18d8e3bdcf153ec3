-- ===== src/Metrics/Log.antt =====
-- metrics.rs: the metrics as a view of the log of all that was recorded.
use swanlake.Prelude.{
  ℕ, ◌+◌, ◌%◌, ◌^◌, ◌≡◌, true, false, List, [], ◌∷◌, ◌++◌, Option, none, some, leb, if◌then◌else◌,
  length, ℤ,
}
use swanlake.Text.{codes}
use swanlake.Metrics.Texts.{Chars, compact_sql}
use swanlake.Metrics.Groups.{SlowQuery}
use swanlake.Metrics.State.{
  Metrics, ErrorEvent, InFlightKind, query, update, as_millis, slow_query, non_negative,
  start_query, start_update, drop_guard, record_query_success, record_query_error,
  record_update_success, record_update_error,
}
use swanlake.Metrics.Rings.{last_of}

-- What callers do with the metrics; the pair of a recording has the two readings of the clock.
pub data Event : Type 0 where
  started : InFlightKind → Event
  dropped : InFlightKind → Event
  query_success : ℕ × ℕ → Chars → ℕ → ℕ → ℕ → Event
  query_error : ℕ × ℕ → Chars → ℕ → Chars → Event
  update_success : ℕ × ℕ → Chars → ℕ → Option ℤ → Event
  update_error : ℕ × ℕ → Chars → ℕ → Chars → Event

unfoldable pub step : Event → Metrics → Metrics
unfolding start_query start_update drop_guard record_query_success record_query_error
    record_update_success record_update_error
step (started query) m = (start_query m).1
step (started update) m = (start_update m).1
step (dropped kind) m = drop_guard kind m
step (query_success clock sql duration rows bytes) m =
    record_query_success clock sql duration rows bytes m
step (query_error clock sql duration message) m = record_query_error clock sql duration message m
step (update_success clock sql duration rows) m = record_update_success clock sql duration rows m
step (update_error clock sql duration message) m = record_update_error clock sql duration message m

unfoldable pub replay : List Event → Metrics → Metrics
unfolding step
replay [] m = m
replay (e ∷ es) m = replay es (step e m)

-- The entries that an event leaves in each history, of which there is one at most.
abbrev pub query_latencies_of : Event → List ℕ
query_latencies_of (query_success clock sql duration rows bytes) = as_millis duration ∷ []
query_latencies_of (query_error clock sql duration message) = as_millis duration ∷ []
query_latencies_of _ = []

abbrev pub update_latencies_of : Event → List ℕ
update_latencies_of (update_success clock sql duration rows) = as_millis duration ∷ []
update_latencies_of (update_error clock sql duration message) = as_millis duration ∷ []
update_latencies_of _ = []

abbrev pub if_slow : ℕ → ℕ → SlowQuery → List SlowQuery
if_slow threshold duration entry = if leb threshold duration then entry ∷ [] else []

abbrev pub slow_queries_of : ℕ → Event → List SlowQuery
slow_queries_of t (query_success clock sql duration rows bytes) =
    if_slow t duration
      (slow_query clock.1 (compact_sql sql) duration (some rows) (some bytes) true false t)
slow_queries_of t (query_error clock sql duration message) =
    if_slow t duration (slow_query clock.1 (compact_sql sql) duration none none true true t)
slow_queries_of t (update_success clock sql duration rows) =
    if_slow t duration
      (slow_query clock.1 (compact_sql sql) duration (non_negative rows) none false false t)
slow_queries_of t (update_error clock sql duration message) =
    if_slow t duration (slow_query clock.1 (compact_sql sql) duration none none false true t)
slow_queries_of t _ = []

abbrev pub failure : ℕ × ℕ → Chars → Chars → ErrorEvent
failure clock sql message = record {
  timestamp_ms = clock.0;
  message = message;
  sql = some (compact_sql sql);
  context = codes "execution";
}

abbrev pub errors_of : Event → List ErrorEvent
errors_of (query_error clock sql duration message) = failure clock sql message ∷ []
errors_of (update_error clock sql duration message) = failure clock sql message ∷ []
errors_of _ = []

abbrev pub starts_of : InFlightKind → Event → List (Unit {0})
starts_of query (started query) = tt ∷ []
starts_of update (started update) = tt ∷ []
starts_of _ _ = []

abbrev pub drops_of : InFlightKind → Event → List (Unit {0})
drops_of query (dropped query) = tt ∷ []
drops_of update (dropped update) = tt ∷ []
drops_of _ _ = []

-- All entries of a log, the oldest first.
abbrev pub entries {ℓ} : {A : Type ℓ} → (Event → List A) → List Event → List A
entries f [] = []
entries f (e ∷ es) = f e ++ entries f es

-- The metrics show the log `es`: each history is its last entries, as many as it may hold, and each
-- counter is a number of entries, up to the wrap-around.
pub record Shows (threshold size : ℕ) (es : List Event) (m : Metrics) : Type 0 where
  pub slow_query_threshold : m.slow_query_threshold ≡ threshold
  pub history_size : m.history_size ≡ size
  pub query_latencies : m.query_latencies ≡ last_of size (entries query_latencies_of es)
  pub update_latencies : m.update_latencies ≡ last_of size (entries update_latencies_of es)
  pub slow_queries : m.slow_queries ≡ last_of size (entries (slow_queries_of threshold) es)
  pub recent_errors : m.recent_errors ≡ last_of size (entries errors_of es)
  pub total_queries : m.total_queries ≡ length (entries query_latencies_of es) % 2 ^ 64
  pub total_updates : m.total_updates ≡ length (entries update_latencies_of es) % 2 ^ 64
  pub total_slow_queries :
      m.total_slow_queries ≡ length (entries (slow_queries_of threshold) es) % 2 ^ 64
  pub total_errors : m.total_errors ≡ length (entries errors_of es) % 2 ^ 64
  pub in_flight_queries :
      (m.in_flight_queries + length (entries (drops_of query) es)) % 2 ^ 64
      ≡ length (entries (starts_of query) es) % 2 ^ 64
  pub in_flight_updates :
      (m.in_flight_updates + length (entries (drops_of update) es)) % 2 ^ 64
      ≡ length (entries (starts_of update) es) % 2 ^ 64
