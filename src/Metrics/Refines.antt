-- ===== src/Metrics/Refines.antt =====
-- metrics.rs: whatever is recorded in whatever order, the metrics show the log of it.
use swanlake.Prelude.{
  ℕ, ◌+◌, ◌%◌, ◌^◌, ◌<◌, ◌≤◌, ◌≡◌, refl, ap, sym, ◌∙◌, List, [], ◌∷◌, ◌++◌, append_assoc,
  append-nil, leb, length, length-append, arith, Bool-cases, inl, inr,
}
use swanlake.Metrics.Latency.{push_ring}
use swanlake.Metrics.State.{Metrics, incremented, decremented, query, update}
use swanlake.Metrics.Rings.{last_of, push_ring-last_of}
use swanlake.Metrics.Log.{
  Event, started, dropped, query_success, query_error, update_success, update_error, step,
  query_latencies_of, update_latencies_of, slow_queries_of, errors_of, starts_of, drops_of, entries,
}

-- At most one entry is pushed.
abbrev pub pushed_once {ℓ} : {A : Type ℓ} → List A → List A → ℕ → List A
pushed_once [] ring size = ring
pushed_once (x ∷ xs) ring size = push_ring ring x size

abbrev pub counted {ℓ} : {A : Type ℓ} → List A → ℕ → ℕ
counted [] n = n
counted (x ∷ xs) n = incremented n

abbrev pub uncounted {ℓ} : {A : Type ℓ} → List A → ℕ → ℕ
uncounted [] n = n
uncounted (x ∷ xs) n = decremented n

abbrev pub Single {ℓ} : {A : Type ℓ} → List A → Type 0
Single xs = length xs ≤ 1

pub entries-snoc {ℓ} :
    {A : Type ℓ} (f : Event → List A) (es : List Event) (e : Event)
    → entries f (es ++ e ∷ []) ≡ entries f es ++ f e
entries-snoc f [] e = append-nil (f e)
entries-snoc f (d ∷ es) e =
    ap (λ xs. f d ++ xs) (entries-snoc f es e) ∙ sym (append_assoc (f d) (entries f es) (f e))

pub pushed_once-last_of {ℓ} :
    {A : Type ℓ} (size : ℕ) (xs ring es : List A)
    → 0 < size
    → Single xs
    → ring ≡ last_of size es
    → pushed_once xs ring size ≡ last_of size (es ++ xs)
pushed_once-last_of size [] ring es h s e = e ∙ ap (last_of size) (sym (append-nil es))
pushed_once-last_of size (x ∷ []) ring es h s e = rw e (push_ring-last_of size es x h)
pushed_once-last_of size (x ∷ y ∷ xs) ring es h s e = absurd (omega arith)

pub counted-length {ℓ} :
    {A : Type ℓ} (xs es : List A) (n : ℕ)
    → Single xs
    → n ≡ length es % 2 ^ 64
    → counted xs n ≡ length (es ++ xs) % 2 ^ 64
counted-length [] es n s e = omega (arith, length-append es [])
counted-length (x ∷ []) es n s e = omega (arith, length-append es (x ∷ []))
counted-length (x ∷ y ∷ xs) es n s e = absurd (omega arith)

-- What one event does to each field.
abbrev pub Steps : Event → Metrics → Metrics → Type 0
Steps e m m' =
    (m'.slow_query_threshold ≡ m.slow_query_threshold)
    × (m'.history_size ≡ m.history_size)
    × (m'.query_latencies ≡ pushed_once (query_latencies_of e) m.query_latencies m.history_size)
    × (m'.update_latencies ≡ pushed_once (update_latencies_of e) m.update_latencies m.history_size)
    × (m'.slow_queries
        ≡ pushed_once (slow_queries_of m.slow_query_threshold e) m.slow_queries m.history_size)
    × (m'.recent_errors ≡ pushed_once (errors_of e) m.recent_errors m.history_size)
    × (m'.total_queries ≡ counted (query_latencies_of e) m.total_queries)
    × (m'.total_updates ≡ counted (update_latencies_of e) m.total_updates)
    × (m'.total_slow_queries
        ≡ counted (slow_queries_of m.slow_query_threshold e) m.total_slow_queries)
    × (m'.total_errors ≡ counted (errors_of e) m.total_errors)
    × (m'.in_flight_queries
        ≡ counted (starts_of query e) (uncounted (drops_of query e) m.in_flight_queries))
    × (m'.in_flight_updates
        ≡ counted (starts_of update e) (uncounted (drops_of update e) m.in_flight_updates))

pub step-Steps : (e : Event) (m : Metrics) → Steps e m (step e m)
unfolding step
step-Steps (started query) m =
    (refl, refl, refl, refl, refl, refl, refl, refl, refl, refl, refl, refl)
step-Steps (started update) m =
    (refl, refl, refl, refl, refl, refl, refl, refl, refl, refl, refl, refl)
step-Steps (dropped query) m =
    (refl, refl, refl, refl, refl, refl, refl, refl, refl, refl, refl, refl)
step-Steps (dropped update) m =
    (refl, refl, refl, refl, refl, refl, refl, refl, refl, refl, refl, refl)
step-Steps (query_success clock sql duration rows bytes) m =
    elim (Bool-cases (leb m.slow_query_threshold duration)) [
      | inl h ↦ rw h (refl, refl, refl, refl, refl, refl, refl, refl, refl, refl, refl, refl)
      | inr h ↦ rw h (refl, refl, refl, refl, refl, refl, refl, refl, refl, refl, refl, refl)
    ]
step-Steps (query_error clock sql duration message) m =
    elim (Bool-cases (leb m.slow_query_threshold duration)) [
      | inl h ↦ rw h (refl, refl, refl, refl, refl, refl, refl, refl, refl, refl, refl, refl)
      | inr h ↦ rw h (refl, refl, refl, refl, refl, refl, refl, refl, refl, refl, refl, refl)
    ]
step-Steps (update_success clock sql duration rows) m =
    elim (Bool-cases (leb m.slow_query_threshold duration)) [
      | inl h ↦ rw h (refl, refl, refl, refl, refl, refl, refl, refl, refl, refl, refl, refl)
      | inr h ↦ rw h (refl, refl, refl, refl, refl, refl, refl, refl, refl, refl, refl, refl)
    ]
step-Steps (update_error clock sql duration message) m =
    elim (Bool-cases (leb m.slow_query_threshold duration)) [
      | inl h ↦ rw h (refl, refl, refl, refl, refl, refl, refl, refl, refl, refl, refl, refl)
      | inr h ↦ rw h (refl, refl, refl, refl, refl, refl, refl, refl, refl, refl, refl, refl)
    ]

pub counted-uncounted :
    (starts drops before_starts before_drops : List (Unit {0})) (n : ℕ)
    → Single starts
    → Single drops
    → (n + length before_drops) % 2 ^ 64 ≡ length before_starts % 2 ^ 64
    → (counted starts (uncounted drops n) + length (before_drops ++ drops)) % 2 ^ 64
      ≡ length (before_starts ++ starts) % 2 ^ 64
counted-uncounted [] [] s d n hs hd e = omega (arith, length-append s [], length-append d [])
counted-uncounted (x ∷ []) [] s d n hs hd e =
    omega (arith, length-append s (x ∷ []), length-append d [])
counted-uncounted [] (y ∷ []) s d n hs hd e =
    omega (arith, length-append s [], length-append d (y ∷ []))
counted-uncounted (x ∷ []) (y ∷ []) s d n hs hd e =
    omega (arith, length-append s (x ∷ []), length-append d (y ∷ []))
counted-uncounted (x ∷ x' ∷ xs) drops s d n hs hd e = absurd (omega arith)
counted-uncounted starts (y ∷ y' ∷ ys) s d n hs hd e = absurd (omega arith)

-- An event leaves one entry in each history at most.
abbrev pub Singles : ℕ → Event → Type 0
Singles t e =
    Single (query_latencies_of e)
    × Single (update_latencies_of e)
    × Single (slow_queries_of t e)
    × Single (errors_of e)
    × Single (starts_of query e)
    × Single (starts_of update e)
    × Single (drops_of query e)
    × Single (drops_of update e)

pub Event-Singles : (t : ℕ) (e : Event) → Singles t e
Event-Singles t (started query) = ground arith
Event-Singles t (started update) = ground arith
Event-Singles t (dropped query) = ground arith
Event-Singles t (dropped update) = ground arith
Event-Singles t (query_success clock sql duration rows bytes) = ground arith
Event-Singles t (query_error clock sql duration message) = ground arith
Event-Singles t (update_success clock sql duration rows) = ground arith
Event-Singles t (update_error clock sql duration message) = ground arith
