-- ===== src/Metrics/Groups.antt =====
-- metrics.rs: the slow statements, and their summary by text and kind.
use swanlake.Prelude.{
  ℕ, zero, suc, ◌+◌, ◌-◌, ◌/◌, ◌^◌, ◌≡◌, ◌↔◌, Bool, true, false, ◌&&◌, ◌||◌, List, [], ◌∷◌, Option,
  none, some, ◌==◌, leb, ltb, if◌then◌else◌, min, arith, map,
}
use swanlake.Text.{bytes_eq, bytes_eq_iff}
use swanlake.Dict.{Eq, lookup, insert}
use swanlake.Metrics.Texts.{Chars, Reason}

pub record SlowQuery : Type 0 where
  pub timestamp_ms : ℕ
  pub duration_ms : ℕ
  pub sql : Chars
  pub rows : Option ℕ
  pub bytes : Option ℕ
  pub is_query : Bool
  pub reasons : List Reason

pub record SlowQueryGroup : Type 0 where
  pub sql : Chars
  pub is_query : Bool
  pub count : ℕ
  pub total_ms : ℕ
  pub avg_ms : ℕ
  pub max_ms : ℕ
  pub latest_timestamp_ms : ℕ

abbrev pub Key : Type 0
Key = Bool × Chars

abbrev pub same_flag : Bool → Bool → Bool
same_flag true b = b
same_flag false true = false
same_flag false false = true

unfoldable pub key_beq : Key → Key → Bool
unfolding bytes_eq
key_beq a b = same_flag a.0 b.0 && bytes_eq a.1 b.1

pub key_beq_iff : (a b : Key) → (key_beq a b ≡ true) ↔ (a ≡ b)
unfolding key_beq
key_beq_iff (true, s) (true, t) = ground (arith, bytes_eq_iff s t)
key_beq_iff (true, s) (false, t) = ground arith
key_beq_iff (false, s) (true, t) = ground arith
key_beq_iff (false, s) (false, t) = ground (arith, bytes_eq_iff s t)

instance abbrev pub group_key : Eq Key
group_key = record { beq = key_beq; beq_iff = key_beq_iff }

-- `saturating_add` on `u64`
abbrev pub saturating_add : ℕ → ℕ → ℕ
saturating_add a b = min (a + b) (2 ^ 64 - 1)

abbrev pub larger : ℕ → ℕ → ℕ
larger a b = if ltb a b then b else a

abbrev pub key_of : SlowQuery → Key
key_of query = (query.is_query, query.sql)

abbrev pub new_group : SlowQuery → SlowQueryGroup
new_group query = record {
  sql = query.sql;
  is_query = query.is_query;
  count = 0;
  total_ms = 0;
  avg_ms = 0;
  max_ms = 0;
  latest_timestamp_ms = query.timestamp_ms;
}

abbrev pub entry_or_new : SlowQuery → Option SlowQueryGroup → SlowQueryGroup
entry_or_new query none = new_group query
entry_or_new query (some group) = group

abbrev pub grown_by : SlowQuery → SlowQueryGroup → SlowQueryGroup
grown_by query group = record group {
  count = saturating_add group.count 1;
  total_ms = saturating_add group.total_ms query.duration_ms;
  max_ms = larger group.max_ms query.duration_ms;
  latest_timestamp_ms = larger group.latest_timestamp_ms query.timestamp_ms;
}

-- The loop over the statements.
unfoldable pub grouped : List SlowQuery → List (Key × SlowQueryGroup) → List (Key × SlowQueryGroup)
unfolding lookup insert
grouped [] groups = groups
grouped (query ∷ queries) groups = grouped queries (
    insert (key_of query) (grown_by query (entry_or_new query (lookup (key_of query) groups)))
      groups)

abbrev pub averaged : Key × SlowQueryGroup → SlowQueryGroup
averaged (k, group) =
    if ltb 0 group.count then record group { avg_ms = group.total_ms / group.count } else group

-- Before: by the total, then by the longest, then by the count, the largest first.
abbrev pub goes_before : SlowQueryGroup → SlowQueryGroup → Bool
goes_before a b =
    ltb b.total_ms a.total_ms
    || (a.total_ms == b.total_ms
        && (ltb b.max_ms a.max_ms || (a.max_ms == b.max_ms && leb b.count a.count)))

abbrev pub place : SlowQueryGroup → List SlowQueryGroup → List SlowQueryGroup
place g [] = g ∷ []
place g (h ∷ rest) = if goes_before g h then g ∷ h ∷ rest else h ∷ place g rest

-- `sort_unstable_by`: groups that compare equal may come in any order in the source.
abbrev pub ranked : List SlowQueryGroup → List SlowQueryGroup
ranked [] = []
ranked (g ∷ groups) = place g (ranked groups)

abbrev pub first_groups : ℕ → List SlowQueryGroup → List SlowQueryGroup
first_groups n [] = []
first_groups zero (g ∷ groups) = []
first_groups (suc n) (g ∷ groups) = g ∷ first_groups n groups

unfoldable pub summarize_slow_query_groups : List SlowQuery → ℕ → List SlowQueryGroup
unfolding grouped
summarize_slow_query_groups slow_queries limit =
    first_groups limit (ranked (map averaged (grouped slow_queries [])))
