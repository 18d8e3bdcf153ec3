-- ===== src/Metrics/Tallies.antt =====
-- metrics.rs: a group of slow statements tallies the statements with its text and kind.
use swanlake.Prelude.{
  ℕ, zero, suc, ◌+◌, ◌-◌, ◌^◌, ◌≡◌, refl, sym, ◌∙◌, subst, Bool, true, false, List, [], ◌∷◌, ◌++◌,
  append_assoc, append-nil, Option, none, some, if◌then◌else◌, min, arith, Bool-cases, inl, inr,
}
use swanlake.Dict.{lookup, insert, lookup-insert}
use swanlake.Metrics.Groups.{
  SlowQuery, SlowQueryGroup, Key, key_beq, key_beq_iff, group_key, larger, key_of, entry_or_new,
  grown_by, grouped,
}

abbrev pub u64_max : ℕ
u64_max = 2 ^ 64 - 1

-- Whether the statement is one of the group's.
abbrev pub belongs : Key → SlowQuery → Bool
belongs k q = key_beq k (key_of q)

larger_zero : (n : ℕ) → larger n 0 ≡ larger 0 n
larger_zero n = ground arith

larger_assoc : (a b c : ℕ) → larger a (larger b c) ≡ larger (larger a b) c
larger_assoc a b c = ground arith

module _ (w : SlowQuery → ℕ) where
  abbrev pub sum_of : List SlowQuery → ℕ
  sum_of [] = 0
  sum_of (q ∷ qs) = w q + sum_of qs

  abbrev pub largest_of : List SlowQuery → ℕ
  largest_of [] = 0
  largest_of (q ∷ qs) = larger (w q) (largest_of qs)

  sum_of-snoc : (qs : List SlowQuery) (q : SlowQuery) → sum_of (qs ++ q ∷ []) ≡ sum_of qs + w q
  sum_of-snoc [] q = omega arith
  sum_of-snoc (p ∷ qs) q = omega (arith, sum_of-snoc qs q)

  largest_of-snoc :
      (qs : List SlowQuery) (q : SlowQuery)
      → largest_of (qs ++ q ∷ []) ≡ larger (largest_of qs) (w q)
  largest_of-snoc [] q = larger_zero (w q)
  largest_of-snoc (p ∷ qs) q = rw (largest_of-snoc qs q) (larger_assoc (w p) (largest_of qs) (w q))

-- A group of these figures, before its average is taken; its sums stop at the largest `u64`.
abbrev pub figures : Key → ℕ → ℕ → ℕ → ℕ → Option SlowQueryGroup
figures k zero total longest latest = none
figures k (suc n) total longest latest = some record {
  sql = k.1;
  is_query = k.0;
  count = min (suc n) u64_max;
  total_ms = min total u64_max;
  avg_ms = 0;
  max_ms = longest;
  latest_timestamp_ms = latest;
}

module _ (k : Key) where
  -- A figure of the statement, if it is one of the group's.
  abbrev pub of_group : (SlowQuery → ℕ) → SlowQuery → ℕ
  of_group w q = if belongs k q then w q else 0

  abbrev pub count_of : List SlowQuery → ℕ
  count_of = sum_of (of_group (λ q. 1))

  abbrev pub total_of : List SlowQuery → ℕ
  total_of = sum_of (of_group (λ q. q.duration_ms))

  abbrev pub longest_of : List SlowQuery → ℕ
  longest_of = largest_of (of_group (λ q. q.duration_ms))

  abbrev pub latest_of : List SlowQuery → ℕ
  latest_of = largest_of (of_group (λ q. q.timestamp_ms))

  -- The statements of the group, counted and added up; nothing where it has none.
  abbrev pub tally : List SlowQuery → Option SlowQueryGroup
  tally qs = figures k (count_of qs) (total_of qs) (longest_of qs) (latest_of qs)

figures_grow :
    (q : SlowQuery) (count total longest latest : ℕ)
    → (count ≡ 0 → (total ≡ 0) × (longest ≡ 0) × (latest ≡ 0))
    → figures
        (key_of q)
        (suc count)
        (total + q.duration_ms)
        (larger longest q.duration_ms)
        (larger latest q.timestamp_ms)
      ≡ some (grown_by q (entry_or_new q (figures (key_of q) count total longest latest)))
figures_grow q zero total longest latest h = let (t, l, s) = h refl in rw (t, l, s) (ground arith)
figures_grow q (suc n) total longest latest h = ground arith

none_counted :
    (k : Key) (qs : List SlowQuery)
    → count_of k qs ≡ 0
    → (total_of k qs ≡ 0) × (longest_of k qs ≡ 0) × (latest_of k qs ≡ 0)
none_counted k [] h = (refl, refl, refl)
none_counted k (q ∷ qs) h = elim (Bool-cases (belongs k q)) [
  | inl mine ↦ absurd (ground arith)
  | inr other ↦
      let ih = none_counted k qs (ground arith) in
      rw other (omega (arith, ih), ground (arith, ih), ground (arith, ih))
]

figures_cong :
    (k : Key) {c c' t t' l l' s s' : ℕ}
    → c ≡ c'
    → t ≡ t'
    → l ≡ l'
    → s ≡ s'
    → figures k c t l s ≡ figures k c' t' l' s'
figures_cong k hc ht hl hs = cc

module _ (k : Key) (past : List SlowQuery) (q : SlowQuery) (w : SlowQuery → ℕ) where
  sum_joined :
      belongs k q ≡ true → sum_of (of_group k w) (past ++ q ∷ []) ≡ sum_of (of_group k w) past + w q
  sum_joined mine = sum_of-snoc (of_group k w) past q ∙ rw mine refl

  largest_joined :
      belongs k q ≡ true
      → largest_of (of_group k w) (past ++ q ∷ []) ≡ larger (largest_of (of_group k w) past) (w q)
  largest_joined mine = largest_of-snoc (of_group k w) past q ∙ rw mine refl

  sum_other :
      belongs k q ≡ false → sum_of (of_group k w) (past ++ q ∷ []) ≡ sum_of (of_group k w) past
  sum_other other = sum_of-snoc (of_group k w) past q ∙ rw other (omega arith)

  largest_other :
      belongs k q ≡ false
      → largest_of (of_group k w) (past ++ q ∷ []) ≡ largest_of (of_group k w) past
  largest_other other = largest_of-snoc (of_group k w) past q ∙ rw other (ground arith)

-- One more statement, in the group and out of it.
tally_joined :
    (past : List SlowQuery) (q : SlowQuery)
    → tally (key_of q) (past ++ q ∷ []) ≡ some (grown_by q (entry_or_new q (tally (key_of q) past)))
tally_joined past q =
    let k : Key = key_of q in
    let mine : belongs k q ≡ true = (key_beq_iff k k).1 refl in
    let counted : count_of k (past ++ q ∷ []) ≡ suc (count_of k past) =
      sum_joined k past q (λ p. 1) mine ∙ omega arith in
    figures_cong k counted (sum_joined k past q (λ p. p.duration_ms) mine)
      (largest_joined k past q (λ p. p.duration_ms) mine)
      (largest_joined k past q (λ p. p.timestamp_ms) mine)
    ∙ figures_grow q (count_of k past) (total_of k past) (longest_of k past) (latest_of k past)
        (none_counted k past)

tally_other :
    (k : Key) (past : List SlowQuery) (q : SlowQuery)
    → belongs k q ≡ false
    → tally k (past ++ q ∷ []) ≡ tally k past
tally_other k past q other =
    figures_cong k (sum_other k past q (λ p. 1) other)
      (sum_other k past q (λ p. p.duration_ms) other)
      (largest_other k past q (λ p. p.duration_ms) other)
      (largest_other k past q (λ p. p.timestamp_ms) other)

abbrev Tallies : List SlowQuery → List (Key × SlowQueryGroup) → Type 0
Tallies past groups = (k : Key) → lookup k groups ≡ tally k past

Tallies-insert :
    (past : List SlowQuery) (q : SlowQuery) (groups : List (Key × SlowQueryGroup))
    → Tallies past groups
    → Tallies
        (past ++ q ∷ [])
        (insert (key_of q) (grown_by q (entry_or_new q (lookup (key_of q) groups))) groups)
Tallies-insert past q groups h k =
    lookup-insert (key_of q) k (grown_by q (entry_or_new q (lookup (key_of q) groups))) groups
    ∙ either (key_beq k (key_of q)) refl
  where
    either :
        (b : Bool)
        → b ≡ key_beq k (key_of q)
        → (if b
            then some (grown_by q (entry_or_new q (lookup (key_of q) groups)))
            else lookup k groups)
          ≡ tally k (past ++ q ∷ [])
    either true e =
        let same : k ≡ key_of q = (key_beq_iff k (key_of q)).0 (sym e) in
        rw (same, h (key_of q)) (sym (tally_joined past q))
    either false e = h k ∙ sym (tally_other k past q (sym e))

Tallies-grouped :
    (past qs : List SlowQuery) (groups : List (Key × SlowQueryGroup))
    → Tallies past groups
    → Tallies (past ++ qs) (grouped qs groups)
unfolding grouped
Tallies-grouped past [] groups h = subst (λ l. Tallies l groups) (sym (append-nil past)) h
Tallies-grouped past (q ∷ qs) groups h =
    subst
      (λ l. Tallies l (
        grouped qs
          (insert (key_of q) (grown_by q (entry_or_new q (lookup (key_of q) groups))) groups)))
      (append_assoc past (q ∷ []) qs)
      (Tallies-grouped (past ++ q ∷ []) qs _ (Tallies-insert past q groups h))

-- The loop that groups the slow statements gives to each text and kind of statement the group that
-- the list has for it: how many there are, the sum of their durations, the longest of them and the
-- latest time, the sums stopping at the largest `u64`; and no group where the list has none.
pub lookup-grouped : (qs : List SlowQuery) (k : Key) → lookup k (grouped qs []) ≡ tally k qs
unfolding lookup
lookup-grouped qs k = Tallies-grouped [] qs [] (λ j. refl) k
