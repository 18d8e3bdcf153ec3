-- ===== src/Metrics/Latency.antt =====
-- metrics.rs: the ring of a history, and the summary of a history of latencies.
use swanlake.Prelude.{
  ℕ, zero, suc, ◌+◌, ◌*◌, ◌/◌, ◌%◌, ◌^◌, List, [], ◌∷◌, ◌++◌, leb, if◌then◌else◌, length, is_empty,
  min,
}

module _ {ℓ} {A : Type ℓ} where
  -- `pop_front`
  abbrev pub behind_front : List A → List A
  behind_front [] = []
  behind_front (x ∷ xs) = xs

  unfoldable pub push_ring : List A → A → ℕ → List A
  push_ring target value max =
      (if leb max (length target) then behind_front target else target) ++ (value ∷ [])

abbrev pub sum : List ℕ → ℕ
sum [] = 0
sum (x ∷ xs) = x + sum xs

-- `sort_unstable` on numbers, whose result does not depend on the method.
abbrev pub insert_sorted : ℕ → List ℕ → List ℕ
insert_sorted x [] = x ∷ []
insert_sorted x (y ∷ ys) = if leb x y then x ∷ y ∷ ys else y ∷ insert_sorted x ys

abbrev pub sorted : List ℕ → List ℕ
sorted [] = []
sorted (x ∷ xs) = insert_sorted x (sorted xs)

abbrev pub nth_or : ℕ → List ℕ → ℕ → ℕ
nth_or d [] i = d
nth_or d (x ∷ xs) zero = x
nth_or d (x ∷ xs) (suc i) = nth_or d xs i

-- `(quantile * (len - 1)).round()` for a quantile of whole percents: half of one is rounded up. In
-- `f64` the products for 0.50, 0.95 and 0.99 round alike, as long as the length is below 2 ^ 40.
unfoldable pub rank_of : ℕ → ℕ → ℕ
rank_of percent last = (2 * percent * last + 100) / 200

unfoldable pub percentile : List ℕ → ℕ → ℕ
unfolding rank_of
percentile [] percent = 0
percentile (x ∷ xs) percent = nth_or 0 (x ∷ xs) (min (rank_of percent (length xs)) (length xs))

pub record LatencySummarySnapshot : Type 0 where
  pub count : ℕ
  pub avg_ms : ℕ
  pub p50_ms : ℕ
  pub p95_ms : ℕ
  pub p99_ms : ℕ
  pub max_ms : ℕ

abbrev pub empty_summary : LatencySummarySnapshot
empty_summary = record { count = 0; avg_ms = 0; p50_ms = 0; p95_ms = 0; p99_ms = 0; max_ms = 0 }

abbrev pub last_or : ℕ → List ℕ → ℕ
last_or d [] = d
last_or d (x ∷ []) = x
last_or d (x ∷ y ∷ ys) = last_or d (y ∷ ys)

-- The sum is one of `u64`.
unfoldable pub summarize_latencies : List ℕ → LatencySummarySnapshot
unfolding percentile
summarize_latencies values = if is_empty values then empty_summary else record {
  count = length values;
  avg_ms = (sum values % 2 ^ 64) / length values;
  p50_ms = percentile (sorted values) 50;
  p95_ms = percentile (sorted values) 95;
  p99_ms = percentile (sorted values) 99;
  max_ms = last_or 0 (sorted values);
}
