-- ===== src/Metrics/Quantiles.antt =====
-- metrics.rs: the percentiles and the maximum as counts over the latencies, in any order.
use swanlake.Prelude.{
  ℕ, zero, suc, ◌+◌, ◌*◌, ◌/◌, ◌^◌, ◌≤◌, ◌<◌, ◌≡◌, refl, ap, ◌∙◌, sym, subst, Bool, List, [], ◌∷◌,
  length, arith, leb, if◌then◌else◌, All, Bool-cases, inl, inr,
}
use swanlake.Metrics.Latency.{
  sum, insert_sorted, sorted, nth_or, rank_of, percentile, last_or, LatencySummarySnapshot,
  summarize_latencies,
}
use swanlake.Metrics.Order.{
  Rises, sorted-Rises, length-sorted, All-nth_or, last-nth_or, InOrder, summarize_latencies-InOrder,
}

-- How many have the property.
abbrev pub count : (ℕ → Bool) → List ℕ → ℕ
count p [] = 0
count p (x ∷ xs) = if p x then suc (count p xs) else count p xs

count-insert_sorted :
    (p : ℕ → Bool) (x : ℕ) (xs : List ℕ) → count p (insert_sorted x xs) ≡ count p (x ∷ xs)
count-insert_sorted p x [] = refl
count-insert_sorted p x (y ∷ ys) = elim (Bool-cases (leb x y)) [
  | inl e ↦ rw e refl
  | inr n ↦ rw n (let ih = count-insert_sorted p x ys in ground arith)
]

count-sorted : (p : ℕ → Bool) (xs : List ℕ) → count p (sorted xs) ≡ count p xs
count-sorted p [] = refl
count-sorted p (x ∷ xs) =
    let ih = count-sorted p xs in count-insert_sorted p x (sorted xs) ∙ ground arith

count_total : (v : ℕ) (xs : List ℕ) → All (λ y. v ≤ y) xs → count (λ y. leb v y) xs ≡ length xs
count_total v [] h = refl
count_total v (x ∷ xs) h = let ih = count_total v xs h.1 in ground (arith, h.0)

-- Of rising figures, those up to the `i`th and those from it on.
below-nth_or :
    (xs : List ℕ) (i : ℕ) → Rises xs → i < length xs → i < count (λ y. leb y (nth_or 0 xs i)) xs
below-nth_or [] i h l = absurd (omega arith)
below-nth_or (x ∷ xs) zero h l = ground arith
below-nth_or (x ∷ xs) (suc i) h l =
    let ih = below-nth_or xs i h.1 (omega arith) in
    let first = All-nth_or (λ y. x ≤ y) xs i h.0 (omega arith) in ground arith

above-nth_or :
    (xs : List ℕ) (i : ℕ)
    → Rises xs
    → i < length xs
    → length xs ≤ i + count (λ y. leb (nth_or 0 xs i) y) xs
above-nth_or [] i h l = absurd (omega arith)
above-nth_or (x ∷ xs) zero h l = let all = count_total x xs h.0 in ground arith
above-nth_or (x ∷ xs) (suc i) h l = let ih = above-nth_or xs i h.1 (omega arith) in ground arith

-- The figure of rank `k` from below: more than `k` are no larger, and all but `k` are no smaller.
abbrev pub HasRank : ℕ → List ℕ → ℕ → Type 0
HasRank k values v =
    (k < count (λ y. leb y v) values) × (length values ≤ k + count (λ y. leb v y) values)

-- The quantile of whole percents, by the nearest rank, a half rounded up.
abbrev pub IsQuantile : ℕ → List ℕ → ℕ → Type 0
IsQuantile percent [] v = v ≡ 0
IsQuantile percent (x ∷ xs) v =
    (k : ℕ) × (200 * k ≤ 2 * percent * length xs + 100)
    × (2 * percent * length xs + 100 < 200 * k + 200)
    × HasRank k (x ∷ xs) v

-- The maximum: none is larger, and one is as large.
abbrev pub IsMaximum : List ℕ → ℕ → Type 0
IsMaximum [] v = v ≡ 0
IsMaximum (x ∷ xs) v = HasRank (length xs) (x ∷ xs) v

nth_or-HasRank :
    (values : List ℕ) (i : ℕ) → i < length values → HasRank i values (nth_or 0 (sorted values) i)
nth_or-HasRank values i l =
    let v = nth_or 0 (sorted values) i in
    let inside : i < length (sorted values) = omega (arith, l, length-sorted values) in
    let below = below-nth_or (sorted values) i (sorted-Rises values) inside in
    let above = above-nth_or (sorted values) i (sorted-Rises values) inside in
    (
      omega (arith, below, count-sorted (λ y. leb y v) values),
      omega (arith, above, count-sorted (λ y. leb v y) values, length-sorted values),
    )

percentile-nth_or :
    (ys : List ℕ) (percent n : ℕ)
    → length ys ≡ suc n
    → rank_of percent n ≤ n
    → percentile ys percent ≡ nth_or 0 ys (rank_of percent n)
unfolding percentile
percentile-nth_or [] percent n e h = absurd (omega (arith, e))
percentile-nth_or (y ∷ ys) percent n e h =
    let same : length ys ≡ n = omega (arith, e) in
    rw same (ap (nth_or 0 (y ∷ ys)) (omega (arith, h)))

pub percentile-IsQuantile :
    (values : List ℕ) (percent : ℕ)
    → ((n : ℕ) → rank_of percent n ≤ n)
    → IsQuantile percent values (percentile (sorted values) percent)
unfolding rank_of percentile
percentile-IsQuantile [] percent h = refl
percentile-IsQuantile (x ∷ xs) percent h =
    let k = rank_of percent (length xs) in
    (
      k,
      omega arith,
      omega arith,
      subst (HasRank k (x ∷ xs))
          (sym (
            percentile-nth_or (sorted (x ∷ xs)) percent (length xs) (length-sorted (x ∷ xs))
              (h (length xs))))
          (nth_or-HasRank (x ∷ xs) k (omega (arith, h (length xs)))),
    )

last_or-nth_or : (ys : List ℕ) (n : ℕ) → length ys ≡ suc n → last_or 0 ys ≡ nth_or 0 ys n
last_or-nth_or [] n e = absurd (omega (arith, e))
last_or-nth_or (y ∷ ys) n e = last-nth_or y ys ∙ ap (nth_or 0 (y ∷ ys)) (omega (arith, e))

pub last_or-IsMaximum : (values : List ℕ) → IsMaximum values (last_or 0 (sorted values))
last_or-IsMaximum [] = refl
last_or-IsMaximum (x ∷ xs) =
    subst (HasRank (length xs) (x ∷ xs))
      (sym (last_or-nth_or (sorted (x ∷ xs)) (length xs) (length-sorted (x ∷ xs))))
      (nth_or-HasRank (x ∷ xs) (length xs) (omega arith))

abbrev pub IsAverage : List ℕ → ℕ → Type 0
IsAverage [] v = v ≡ 0
IsAverage (x ∷ xs) v = v ≡ sum (x ∷ xs) / suc (length xs)

-- What a reader expects of a summary of these latencies.
abbrev pub IsSummary : List ℕ → LatencySummarySnapshot → Type 0
IsSummary values s =
    InOrder values s
    × IsAverage values s.avg_ms
    × IsQuantile 50 values s.p50_ms
    × IsQuantile 95 values s.p95_ms
    × IsQuantile 99 values s.p99_ms
    × IsMaximum values s.max_ms

rank_50 : (n : ℕ) → rank_of 50 n ≤ n
unfolding rank_of
rank_50 n = omega arith

rank_95 : (n : ℕ) → rank_of 95 n ≤ n
unfolding rank_of
rank_95 n = omega arith

rank_99 : (n : ℕ) → rank_of 99 n ≤ n
unfolding rank_of
rank_99 n = omega arith

-- A summary of latencies whose sum fits 64 bits counts them all and has their average, rounded down.
-- Its percentiles are the ones of the nearest rank: for the rank `k` nearest to that share of the
-- other latencies, a half rounded up, more than `k` latencies are no larger, and all but `k` are no
-- smaller. Its maximum is a latency, and none is larger; percentiles and average are no more than it.
pub summarize_latencies-IsSummary :
    (values : List ℕ) → sum values < 2 ^ 64 → IsSummary values (summarize_latencies values)
unfolding summarize_latencies
summarize_latencies-IsSummary [] h =
    (summarize_latencies-InOrder [] h, refl, refl, refl, refl, refl)
summarize_latencies-IsSummary (x ∷ xs) h = (
  summarize_latencies-InOrder (x ∷ xs) h,
  ap (λ t. t / suc (length xs)) (omega (arith, h)),
  percentile-IsQuantile (x ∷ xs) 50 rank_50,
  percentile-IsQuantile (x ∷ xs) 95 rank_95,
  percentile-IsQuantile (x ∷ xs) 99 rank_99,
  last_or-IsMaximum (x ∷ xs),
)
