-- ===== src/Metrics/Texts.antt =====
-- swanlake-core/src/metrics.rs: the texts of the metrics, `compact_sql` and `infer_reasons`. A text is
-- the list of its characters here, since `compact_sql` counts those.
use swanlake.Prelude.{
  ℕ, zero, suc, ◌-◌, ◌*◌, ◌^◌, Bool, true, false, ◌&&◌, ◌||◌, not, List, [], ◌∷◌, ◌++◌, Option,
  none, some, ◌==◌, leb, ltb, if◌then◌else◌, length, min,
}
use swanlake.Text.{codes, to_ascii_lowercase, contains}

abbrev pub Chars : Type 0
Chars = List ℕ

abbrev pub max_sql_len : ℕ
max_sql_len = 2048

-- `char::is_whitespace`: the property White_Space of Unicode.
unfoldable pub is_white_space : ℕ → Bool
is_white_space c =
    (leb 9 c && leb c 13)
    || c == 32
    || c == 133
    || c == 160
    || c == 5760
    || (leb 8192 c && leb c 8202)
    || c == 8232
    || c == 8233
    || c == 8239
    || c == 8287
    || c == 12288

-- The word that the text begins with goes on to the left by `c`.
abbrev pub grow : ℕ → Bool → List Chars → List Chars
grow c true words = (c ∷ []) ∷ words
grow c false [] = (c ∷ []) ∷ []
grow c false (word ∷ words) = (c ∷ word) ∷ words

abbrev pub ends_word : Chars → Bool
ends_word [] = true
ends_word (c ∷ s) = is_white_space c

-- `split_whitespace`
unfoldable pub split_whitespace : Chars → List Chars
unfolding is_white_space
split_whitespace [] = []
split_whitespace (c ∷ s) =
    let words = split_whitespace s in if is_white_space c then words else grow c (ends_word s) words

-- `join(" ")`
abbrev pub joined : List Chars → Chars
joined [] = []
joined (word ∷ []) = word
joined (word ∷ next ∷ words) = word ++ (32 ∷ joined (next ∷ words))

abbrev pub take : ℕ → Chars → Chars
take zero s = []
take (suc n) [] = []
take (suc n) (c ∷ s) = c ∷ take n s

unfoldable pub truncate_ascii_like : Chars → ℕ → Chars
truncate_ascii_like value max_len =
    if ltb max_len (length value) then take max_len value ++ codes "..." else take max_len value

unfoldable pub compact_sql : Chars → Chars
unfolding split_whitespace truncate_ascii_like
compact_sql sql = truncate_ascii_like (joined (split_whitespace sql)) max_sql_len

-- The messages of `infer_reasons`.
pub data Reason : Type 0 where
  large_result_set : Reason
  large_payload : Reason
  join_aggregation_sort : Reason
  wide_select : Reason
  leading_wildcard_match : Reason
  write_heavy_statement : Reason
  very_long_running : Reason
  errored_before_completion : Reason

abbrev pub reason_text : Reason → Chars
reason_text large_result_set = codes "Large result set"
reason_text large_payload = codes "Large payload"
reason_text join_aggregation_sort = codes "Join/aggregation/sort"
reason_text wide_select = codes "Wide select"
reason_text leading_wildcard_match = codes "Leading wildcard match"
reason_text write_heavy_statement = codes "Write-heavy statement"
reason_text very_long_running = codes "Very long-running"
reason_text errored_before_completion = codes "Errored before completion"

abbrev pub at_least : ℕ → Option ℕ → Bool
at_least bound none = false
at_least bound (some n) = leb bound n

abbrev pub pushed_if : Bool → Reason → List Reason → List Reason
pushed_if true r reasons = r ∷ reasons
pushed_if false r reasons = reasons

-- `saturating_mul` on `u64`
abbrev pub saturating_mul : ℕ → ℕ → ℕ
saturating_mul a b = min (a * b) (2 ^ 64 - 1)

-- The text is in lower case.
unfoldable pub sorts_or_joins : Chars → Bool
unfolding contains
sorts_or_joins lower =
    contains lower (codes " join ")
    || contains lower (codes " group by ")
    || contains lower (codes " order by ")
    || contains lower (codes " distinct ")
    || contains lower (codes " union ")
    || contains lower (codes " window ")

unfoldable pub leads_with_wildcard : Chars → Bool
unfolding contains
leads_with_wildcard lower = contains lower (codes " like '%") || contains lower (codes " ilike '%")

unfoldable pub infer_reasons : Chars → Bool → Option ℕ → Option ℕ → ℕ → ℕ → Bool → List Reason
unfolding sorts_or_joins leads_with_wildcard to_ascii_lowercase
infer_reasons sql is_query rows bytes duration_ms slow_threshold_ms had_error =
    let lower = to_ascii_lowercase sql in
    pushed_if (at_least 100000 rows) large_result_set (
      pushed_if (at_least (50 * 1024 * 1024) bytes) large_payload (
        pushed_if (sorts_or_joins lower) join_aggregation_sort (
          pushed_if (contains lower (codes "select *")) wide_select (
            pushed_if (leads_with_wildcard lower) leading_wildcard_match (
              pushed_if (not is_query) write_heavy_statement (
                pushed_if (leb (saturating_mul slow_threshold_ms 3) duration_ms) very_long_running
                  (pushed_if had_error errored_before_completion [])))))))
