-- ===== src/Service/Filters/Tables.antt =====
-- service/handlers/action.rs: the words and literals of the code are those of the reference.
use swanlake.Prelude.{
  ℕ, ◌≡◌, refl, sym, ap, subst, Bool, true, false, ◌||◌, [], ◌∷◌, ◌++◌, Option, none, some, ◌==◌,
  if◌then◌else◌, Bool-cases, inl, inr, arith,
}
use swanlake.Text.{Bytes, codes, bytes_eq, bytes_eq_iff, to_uppercase}
use swanlake.Sql.Quoting.{doubled, escape_sql_literal}
use swanlake.Service.Filters.{
  DuckDbValue, arm, comparison_op, conjunction_op, OperatorKind, suffixed, listed, negated,
  unsupported, operator_of, like_word, to_lowercase, constant_sql, column_sql,
}
use swanlake.Service.Filters.Spelled.{
  sign_of, connective_of, Spelling, behind, with_list, in_front, spelling_of, infix_of, twice,
  enclosed, text_literal, literal, is_literal, is_column,
}

pub comparison_op-sign_of : (t : Bytes) → comparison_op t ≡ sign_of t
unfolding comparison_op sign_of arm
comparison_op-sign_of t = refl

pub conjunction_op-connective_of : (t : Bytes) → conjunction_op t ≡ connective_of t
unfolding conjunction_op connective_of arm
conjunction_op-connective_of t = refl

-- The operator that the code takes for a spelling.
abbrev pub kind_of : Option Spelling → OperatorKind
kind_of (some (behind word)) = suffixed word
kind_of (some (with_list word)) = listed (word ++ codes "(")
kind_of (some in_front) = negated
kind_of none = unsupported

pub operator_of-kind_of : (t : Bytes) → operator_of t ≡ kind_of (spelling_of t)
unfolding operator_of spelling_of arm
operator_of-kind_of t = ground arith

same_name : (name word : Bytes) → bytes_eq name word ≡ true → (P : Bytes → Type 0) → P word → P name
same_name name word e P p = subst P (sym ((bytes_eq_iff name word).0 e)) p

-- The reference's names are among the code's.
abbrev IsLikeWord : Bytes → Bytes → Type 0
IsLikeWord word name = infix_of name ≡ some word → like_word name ≡ some word

like-IsLikeWord : (word : Bytes) → IsLikeWord word (codes "~~")
unfolding infix_of like_word arm to_lowercase bytes_eq
like-IsLikeWord word h = h

not_like-IsLikeWord : (word : Bytes) → IsLikeWord word (codes "!~~")
unfolding infix_of like_word arm to_lowercase bytes_eq
not_like-IsLikeWord word h = h

ilike-IsLikeWord : (word : Bytes) → IsLikeWord word (codes "~~~")
unfolding infix_of like_word arm to_lowercase bytes_eq
ilike-IsLikeWord word h = h

no_infix :
    (name word : Bytes)
    → bytes_eq name (codes "~~") ≡ false
    → bytes_eq name (codes "!~~") ≡ false
    → bytes_eq name (codes "~~~") ≡ false
    → IsLikeWord word name
unfolding infix_of
no_infix name word n m k h = absurd (cc (rw (n, m, k) at h))

pub IsLikeWord-infix : (name word : Bytes) → IsLikeWord word name
IsLikeWord-infix name word = elim (Bool-cases (bytes_eq name (codes "~~"))) [
  | inl e ↦ same_name name (codes "~~") e (IsLikeWord word) (like-IsLikeWord word)
  | inr n ↦ elim (Bool-cases (bytes_eq name (codes "!~~"))) [
    | inl e ↦ same_name name (codes "!~~") e (IsLikeWord word) (not_like-IsLikeWord word)
    | inr m ↦ elim (Bool-cases (bytes_eq name (codes "~~~"))) [
      | inl e ↦ same_name name (codes "~~~") e (IsLikeWord word) (ilike-IsLikeWord word)
      | inr k ↦ no_infix name word n m k
    ]
  ]
]

doubled-twice : (q : ℕ) (s : Bytes) → doubled q s ≡ twice q s
unfolding doubled twice
doubled-twice q [] = refl
doubled-twice q (c ∷ s) = rw (doubled-twice q s) refl

twice-none : (alias : Bytes) → is_column alias ≡ true → twice 34 alias ≡ alias
unfolding twice
twice-none [] h = refl
twice-none (c ∷ s) h = elim (Bool-cases (c == 34)) [
  | inl e ↦ absurd (cc (rw e at h))
  | inr n ↦ rw n (ap (λ t. c ∷ t) (twice-none s (rw n at h)))
]

pub column-Exact : (alias : Bytes) → is_column alias ≡ true → column_sql alias ≡ enclosed 34 alias
column-Exact alias h = rw (twice-none alias h) refl

truth-Exact :
    (x : Bytes)
    → (bytes_eq x (codes "true") || bytes_eq x (codes "false")) ≡ true
    → to_uppercase x ≡ (if bytes_eq x (codes "true") then codes "TRUE" else codes "FALSE")
unfolding to_uppercase
truth-Exact x h = elim (Bool-cases (bytes_eq x (codes "true"))) [
  | inl e ↦ rw (e, (bytes_eq_iff x (codes "true")).0 e) refl
  | inr n ↦ rw (n, (bytes_eq_iff x (codes "false")).0 (rw n at h)) refl
]

string-Exact :
    (o : Option Bytes) (x : Bytes)
    → (elim o as (λ y. Bool) [ none ↦ false | some s ↦ true ]) ≡ true
    → elim o as (λ y. Bytes) [
      | some s ↦ codes "'" ++ (escape_sql_literal s ++ codes "'")
      | none ↦ codes "'" ++ (x ++ codes "'")
    ]
      ≡ text_literal o
unfolding escape_sql_literal
string-Exact none x h = absurd (cc h)
string-Exact (some s) x h = rw (doubled-twice 39 s) refl

pub constant-Exact : (v : DuckDbValue) → is_literal v ≡ true → constant_sql v ≡ literal v
unfolding constant_sql is_literal literal arm
constant-Exact v h = elim (Bool-cases v.is_null) [
  | inl e ↦ rw e refl
  | inr n ↦ elim (Bool-cases (bytes_eq v.value_type (codes "VARCHAR"))) [
    | inl e ↦ rw (n, e) (string-Exact v.as_str v.value (rw (n, e) at h))
    | inr a ↦ elim (Bool-cases (bytes_eq v.value_type (codes "TEXT"))) [
      | inl e ↦ rw (n, a, e) (string-Exact v.as_str v.value (rw (n, a, e) at h))
      | inr b ↦ elim (Bool-cases (bytes_eq v.value_type (codes "BOOLEAN"))) [
        | inl e ↦ rw (n, a, b, e) (truth-Exact v.value (rw (n, a, b, e) at h))
        | inr c ↦ rw (n, a, b, c) refl
      ]
    ]
  ]
]
