-- ===== src/Metrics/Replay.antt =====
-- metrics.rs: a replay of any log shows that log.
use swanlake.Prelude.{
  ℕ, ◌+◌, ◌%◌, ◌^◌, ◌<◌, ◌≡◌, refl, ap, sym, ◌∙◌, subst, List, [], ◌∷◌, ◌++◌, append_assoc,
  append-nil, length, arith,
}
use swanlake.Metrics.State.{
  Metrics, new_metrics, query, update, from_millis, unless_zero, default_history_size,
  default_slow_query_threshold_ms,
}
use swanlake.Metrics.Rings.{last_of, last_of-nil}
use swanlake.Metrics.Log.{
  Event, step, replay, query_latencies_of, update_latencies_of, slow_queries_of, errors_of,
  starts_of, drops_of, entries, Shows,
}
use swanlake.Metrics.Refines.{
  pushed_once, counted, uncounted, Single, entries-snoc, pushed_once-last_of, counted-length,
  counted-uncounted, step-Steps, Event-Singles,
}

module _ (t size : ℕ) (some_room : 0 < size) (es : List Event) (e : Event) where
  module _ {ℓ} {A : Type ℓ} (f : Event → List A) (single : Single (f e)) where
    ring_step :
        (ring after : List A) (held : ℕ)
        → held ≡ size
        → ring ≡ last_of size (entries f es)
        → after ≡ pushed_once (f e) ring held
        → after ≡ last_of size (entries f (es ++ e ∷ []))
    ring_step ring after held h r a =
        a
        ∙ ap (pushed_once (f e) ring) h
        ∙ pushed_once-last_of size (f e) ring (entries f es) some_room single r
        ∙ ap (last_of size) (sym (entries-snoc f es e))

    count_step :
        (n after : ℕ)
        → n ≡ length (entries f es) % 2 ^ 64
        → after ≡ counted (f e) n
        → after ≡ length (entries f (es ++ e ∷ [])) % 2 ^ 64
    count_step n after c a =
        a
        ∙ counted-length (f e) (entries f es) n single c
        ∙ ap (λ (l : List A). length l % 2 ^ 64) (sym (entries-snoc f es e))

  module _ (starts drops : Event → List (Unit {0})) (one : Single (starts e))
      (other : Single (drops e)) where
    flight_step :
        (n after : ℕ)
        → (n + length (entries drops es)) % 2 ^ 64 ≡ length (entries starts es) % 2 ^ 64
        → after ≡ counted (starts e) (uncounted (drops e) n)
        → (after + length (entries drops (es ++ e ∷ []))) % 2 ^ 64
          ≡ length (entries starts (es ++ e ∷ [])) % 2 ^ 64
    flight_step n after c a =
        rw (a, entries-snoc starts es e, entries-snoc drops es e)
          (counted-uncounted (starts e) (drops e) (entries starts es) (entries drops es) n one other
            c)

  Shows-step : (m : Metrics) → Shows t size es m → Shows t size (es ++ e ∷ []) (step e m)
  Shows-step m s =
      let (d1, d2, d3, d4, d5, d6, d7, d8, d9, d10, d11, d12) = step-Steps e m in
      let (o1, o2, o3, o4, o5, o6, o7, o8) = Event-Singles t e in
      let slow5 : (step e m).slow_queries
          ≡ pushed_once (slow_queries_of t e) m.slow_queries m.history_size =
        d5
        ∙ ap (λ u. pushed_once (slow_queries_of u e) m.slow_queries m.history_size)
            s.slow_query_threshold in
      let slow9 : (step e m).total_slow_queries
          ≡ counted (slow_queries_of t e) m.total_slow_queries =
        d9 ∙ ap (λ u. counted (slow_queries_of u e) m.total_slow_queries) s.slow_query_threshold in
      record {
        slow_query_threshold = d1 ∙ s.slow_query_threshold;
        history_size = d2 ∙ s.history_size;
        query_latencies =
            ring_step query_latencies_of o1 m.query_latencies _ m.history_size s.history_size
              s.query_latencies d3;
        update_latencies =
            ring_step update_latencies_of o2 m.update_latencies _ m.history_size s.history_size
              s.update_latencies d4;
        slow_queries =
            ring_step (slow_queries_of t) o3 m.slow_queries _ m.history_size s.history_size
              s.slow_queries slow5;
        recent_errors =
            ring_step errors_of o4 m.recent_errors _ m.history_size s.history_size s.recent_errors
              d6;
        total_queries = count_step query_latencies_of o1 m.total_queries _ s.total_queries d7;
        total_updates = count_step update_latencies_of o2 m.total_updates _ s.total_updates d8;
        total_slow_queries =
            count_step (slow_queries_of t) o3 m.total_slow_queries _ s.total_slow_queries slow9;
        total_errors = count_step errors_of o4 m.total_errors _ s.total_errors d10;
        in_flight_queries =
            flight_step (starts_of query) (drops_of query) o5 o7 m.in_flight_queries _
              s.in_flight_queries d11;
        in_flight_updates =
            flight_step (starts_of update) (drops_of update) o6 o8 m.in_flight_updates _
              s.in_flight_updates d12;
      }

Shows-replay :
    (t size : ℕ) (past es : List Event) (m : Metrics)
    → 0 < size
    → Shows t size past m
    → Shows t size (past ++ es) (replay es m)
unfolding replay
Shows-replay t size past [] m h s = subst (λ l. Shows t size l m) (sym (append-nil past)) s
Shows-replay t size past (e ∷ es) m h s =
    subst (λ l. Shows t size l (replay es (step e m))) (append_assoc past (e ∷ []) es)
      (Shows-replay t size (past ++ e ∷ []) es (step e m) h (Shows-step t size h past e m s))

new_metrics-Shows :
    (now now_millis threshold_ms history : ℕ)
    → Shows
        (from_millis (unless_zero default_slow_query_threshold_ms threshold_ms))
        (unless_zero default_history_size history)
        []
        (new_metrics now now_millis threshold_ms history)
unfolding new_metrics
new_metrics-Shows now now_millis threshold_ms history = record {
  slow_query_threshold = refl;
  history_size = refl;
  query_latencies = last_of-nil (unless_zero default_history_size history);
  update_latencies = last_of-nil (unless_zero default_history_size history);
  slow_queries = last_of-nil (unless_zero default_history_size history);
  recent_errors = last_of-nil (unless_zero default_history_size history);
  total_queries = refl;
  total_updates = refl;
  total_slow_queries = refl;
  total_errors = refl;
  in_flight_queries = refl;
  in_flight_updates = refl;
}

-- From a new `Metrics`, with any threshold and any size of the histories, and after any sequence of
-- recordings, starts and drops: each history is what the log of all of it has last, as many entries
-- as the size says (200 for a size of zero), each counter is the number of such entries in the whole
-- log modulo 2 ^ 64, and each number in flight is the starts less the drops, modulo 2 ^ 64.
pub replay-Shows :
    (now now_millis threshold_ms history : ℕ) (es : List Event)
    → Shows
        (from_millis (unless_zero default_slow_query_threshold_ms threshold_ms))
        (unless_zero default_history_size history)
        es
        (replay es (new_metrics now now_millis threshold_ms history))
replay-Shows now now_millis threshold_ms history es =
    Shows-replay (from_millis (unless_zero default_slow_query_threshold_ms threshold_ms))
      (unless_zero default_history_size history) [] es
      (new_metrics now now_millis threshold_ms history) (ground arith)
      (new_metrics-Shows now now_millis threshold_ms history)
