-- ===== src/Metrics/Order.antt =====
-- metrics.rs: the order of the figures in a summary of latencies.
use native.Mathlib.Nat.{div-lt_iff_lt-mul, mul_comm}
use swanlake.Prelude.{
  ℕ, zero, suc, ◌+◌, ◌*◌, ◌/◌, ◌%◌, ◌^◌, ◌≤◌, ◌<◌, ◌≡◌, refl, Bool, true, false, List, [], ◌∷◌,
  length, arith, leb, if◌then◌else◌, min, All, All-map, Bool-cases, inl, inr, ap, subst, sym,
}
use swanlake.Metrics.Latency.{
  sum, insert_sorted, sorted, nth_or, rank_of, percentile, last_or, LatencySummarySnapshot,
  summarize_latencies,
}

-- In rising order.
abbrev pub Rises : List ℕ → Type 0
Rises [] = Unit
Rises (x ∷ xs) = All (λ y. x ≤ y) xs × Rises xs

All-insert_sorted :
    (P : ℕ → Type 0) (x : ℕ) (xs : List ℕ) → P x → All P xs → All P (insert_sorted x xs)
All-insert_sorted P x [] p h = (p, tt)
All-insert_sorted P x (y ∷ ys) p h = elim (Bool-cases (leb x y)) [
  | inl e ↦ rw e (p, h)
  | inr n ↦ rw n (h.0, All-insert_sorted P x ys p h.1)
]

insert_sorted-Rises : (x : ℕ) (xs : List ℕ) → Rises xs → Rises (insert_sorted x xs)
insert_sorted-Rises x [] h = (tt, tt)
insert_sorted-Rises x (y ∷ ys) h = elim (Bool-cases (leb x y)) [
  | inl e ↦
      let le : x ≤ y = ground arith in
      rw e ((le, All-map (λ (z : ℕ) (k : y ≤ z). omega arith) ys h.0), h)
  | inr n ↦
      rw n (All-insert_sorted (λ z. y ≤ z) x ys (ground arith) h.0, insert_sorted-Rises x ys h.1)
]

pub sorted-Rises : (xs : List ℕ) → Rises (sorted xs)
sorted-Rises [] = tt
sorted-Rises (x ∷ xs) = insert_sorted-Rises x (sorted xs) (sorted-Rises xs)

length-insert_sorted : (x : ℕ) (xs : List ℕ) → length (insert_sorted x xs) ≡ suc (length xs)
length-insert_sorted x [] = refl
length-insert_sorted x (y ∷ ys) = elim (Bool-cases (leb x y)) [
  | inl e ↦ rw e refl
  | inr n ↦ rw n (omega (arith, length-insert_sorted x ys))
]

pub length-sorted : (xs : List ℕ) → length (sorted xs) ≡ length xs
length-sorted [] = refl
length-sorted (x ∷ xs) = omega (arith, length-insert_sorted x (sorted xs), length-sorted xs)

sum-insert_sorted : (x : ℕ) (xs : List ℕ) → sum (insert_sorted x xs) ≡ x + sum xs
sum-insert_sorted x [] = refl
sum-insert_sorted x (y ∷ ys) = elim (Bool-cases (leb x y)) [
  | inl e ↦ rw e refl
  | inr n ↦ rw n (omega (arith, sum-insert_sorted x ys))
]

sum-sorted : (xs : List ℕ) → sum (sorted xs) ≡ sum xs
sum-sorted [] = refl
sum-sorted (x ∷ xs) = omega (arith, sum-insert_sorted x (sorted xs), sum-sorted xs)

pub All-nth_or :
    (P : ℕ → Type 0) (xs : List ℕ) (i : ℕ) → All P xs → i < length xs → P (nth_or 0 xs i)
All-nth_or P [] i h l = absurd (omega arith)
All-nth_or P (x ∷ xs) zero h l = h.0
All-nth_or P (x ∷ xs) (suc i) h l = All-nth_or P xs i h.1 (omega arith)

nth_or_mono :
    (xs : List ℕ) (i j : ℕ) → Rises xs → i ≤ j → j < length xs → nth_or 0 xs i ≤ nth_or 0 xs j
nth_or_mono [] i j h l m = absurd (omega arith)
nth_or_mono (x ∷ xs) zero zero h l m = omega arith
nth_or_mono (x ∷ xs) zero (suc j) h l m = All-nth_or (λ y. x ≤ y) xs j h.0 (omega arith)
nth_or_mono (x ∷ xs) (suc i) zero h l m = absurd (omega arith)
nth_or_mono (x ∷ xs) (suc i) (suc j) h l m = nth_or_mono xs i j h.1 (omega arith) (omega arith)

pub last-nth_or : (x : ℕ) (xs : List ℕ) → last_or 0 (x ∷ xs) ≡ nth_or 0 (x ∷ xs) (length xs)
last-nth_or x [] = refl
last-nth_or x (y ∷ ys) = last-nth_or y ys

rank_mono : (p q n : ℕ) → p ≤ q → min (rank_of p n) n ≤ min (rank_of q n) n
unfolding rank_of
rank_mono p q n h = grind arith

-- A larger quantile has the larger figure, and the last one bounds them all.
percentile_mono : (xs : List ℕ) (p q : ℕ) → Rises xs → p ≤ q → percentile xs p ≤ percentile xs q
unfolding percentile rank_of
percentile_mono [] p q h l = omega arith
percentile_mono (x ∷ xs) p q h l =
    nth_or_mono (x ∷ xs) (min (rank_of p (length xs)) (length xs))
      (min (rank_of q (length xs)) (length xs)) h (rank_mono p q (length xs) l) (omega arith)

All-last : (x : ℕ) (xs : List ℕ) → Rises (x ∷ xs) → All (λ y. y ≤ last_or 0 (x ∷ xs)) (x ∷ xs)
All-last x [] h = (omega arith, tt)
All-last x (y ∷ ys) h = let rest = All-last y ys h.1 in (omega (arith, rest.0, h.0.0), rest)

sum-le : (bound : ℕ) (xs : List ℕ) → All (λ y. y ≤ bound) xs → sum xs ≤ length xs * bound
sum-le bound [] h = omega arith
sum-le bound (x ∷ xs) h = grind (arith, sum-le bound xs h.1, h.0)

All-taken : (P : ℕ → Type 0) (x : ℕ) (xs : List ℕ) → All P (insert_sorted x xs) → P x × All P xs
All-taken P x [] h = h
All-taken P x (y ∷ ys) h = either (leb x y) (λ k. All-taken P x ys k) h
  where
    either :
        (b : Bool)
        → (All P (insert_sorted x ys) → P x × All P ys)
        → All P (if b then x ∷ y ∷ ys else y ∷ insert_sorted x ys)
        → P x × All P (y ∷ ys)
    either true ih h = (h.0, h.1)
    either false ih h = let (first, rest) = ih h.1 in (first, (h.0, rest))

All-unsorted : (P : ℕ → Type 0) (xs : List ℕ) → All P (sorted xs) → All P xs
All-unsorted P [] h = tt
All-unsorted P (x ∷ xs) h =
    let (first, rest) = All-taken P x (sorted xs) h in (first, All-unsorted P xs rest)

div_bound : (n total bound : ℕ) → total ≤ suc n * bound → total / suc n ≤ bound
div_bound n total bound h = ground (
  arith,
  (div-lt_iff_lt-mul {k = suc n} {x = total} {y = suc bound} (omega arith)).1
      (ground (arith, mul_comm (suc n) bound)),
)

-- What a reader expects of a summary of these latencies.
abbrev pub InOrder : List ℕ → LatencySummarySnapshot → Type 0
InOrder values s =
    (s.count ≡ length values)
    × (s.p50_ms ≤ s.p95_ms)
    × (s.p95_ms ≤ s.p99_ms)
    × (s.p99_ms ≤ s.max_ms)
    × (s.avg_ms ≤ s.max_ms)
    × All (λ v. v ≤ s.max_ms) values

module _ (x : ℕ) (xs : List ℕ) (rises : Rises (x ∷ xs)) where
  percentile-le : (p : ℕ) → percentile (x ∷ xs) p ≤ last_or 0 (x ∷ xs)
  unfolding percentile
  percentile-le p =
      All-nth_or (λ y. y ≤ last_or 0 (x ∷ xs)) (x ∷ xs) _ (All-last x xs rises) (omega arith)

sorted-InOrder :
    (values ys : List ℕ)
    → ys ≡ sorted values
    → 0 < length values
    → sum values < 2 ^ 64
    → (percentile ys 50 ≤ percentile ys 95)
      × (percentile ys 95 ≤ percentile ys 99)
      × (percentile ys 99 ≤ last_or 0 ys)
      × ((sum values % 2 ^ 64) / length values ≤ last_or 0 ys)
      × All (λ v. v ≤ last_or 0 ys) values
sorted-InOrder values [] e n h = absurd (omega (arith, ap length e, length-sorted values))
sorted-InOrder [] (y ∷ ys) e n h = absurd (omega arith)
sorted-InOrder (v ∷ vs) (y ∷ ys) e n h =
    let rises : Rises (y ∷ ys) = subst Rises (sym e) (sorted-Rises (v ∷ vs)) in
    let below : All (λ v. v ≤ last_or 0 (y ∷ ys)) (v ∷ vs) =
      All-unsorted (λ v. v ≤ last_or 0 (y ∷ ys)) (v ∷ vs)
        (subst (All (λ v. v ≤ last_or 0 (y ∷ ys))) e (All-last y ys rises)) in
    (
      percentile_mono (y ∷ ys) 50 95 rises (omega arith),
      percentile_mono (y ∷ ys) 95 99 rises (omega arith),
      percentile-le y ys rises 99,
      div_bound (length vs) (sum (v ∷ vs) % 2 ^ 64) (last_or 0 (y ∷ ys))
          (omega (arith, sum-le (last_or 0 (y ∷ ys)) (v ∷ vs) below)),
      below,
    )

-- A summary of latencies whose sum fits 64 bits is in order: it counts them all, its percentiles rise
-- with their quantiles and end at the maximum, the average is no more than the maximum, and no
-- latency is above it.
pub summarize_latencies-InOrder :
    (values : List ℕ) → sum values < 2 ^ 64 → InOrder values (summarize_latencies values)
unfolding summarize_latencies
summarize_latencies-InOrder [] h = ground arith
summarize_latencies-InOrder (v ∷ vs) h =
    let (a, b, c, d, e) = sorted-InOrder (v ∷ vs) (sorted (v ∷ vs)) refl (omega arith) h in
    (refl, a, b, c, d, e)
