-- ===== src/Service/Filters.antt =====
-- service/handlers/action.rs: the filters of a scan, as DuckDB's Airport extension sends them, and
-- the SQL that they become.
pub mod Spelled
pub mod Tables
pub mod Whole
pub mod Kept
mod Tests
use swanlake.Prelude.{
  ℕ, ◌≡◌, Bool, true, false, ◌&&◌, ◌||◌, List, [], ◌∷◌, ◌++◌, Option, none, some, ◌==◌,
  if◌then◌else◌, is_empty,
}
use swanlake.Text.{Bytes, codes, bytes_eq, to_ascii_lower, to_uppercase}
use swanlake.Sql.Quoting.{escape_sql_literal, join}

-- `DuckDBValue`. The JSON value is what the code reads of it: its text, and its string if it is one.
pub record DuckDbValue : Type 0 where
  pub value_type : Bytes
  pub is_null : Bool
  pub value : Bytes
  pub as_str : Option Bytes

mutual
  pub data Expression : Type 0 where
    comparison : Bytes → Expression → Expression → Expression
    column_ref : Bytes → Expression
    constant : DuckDbValue → Expression
    conjunction : Bytes → Expressions → Expression
    operator : Bytes → Expressions → Expression
    between : Expression → Expression → Expression → Expression
    function : Bytes → Expressions → Expression
    cast : Expression → Expression
    unknown : Expression

  pub data Expressions : Type 0 where
    nil : Expressions
    cons : Expression → Expressions → Expressions

infixl 5 ◌>>=◌
abbrev pub ◌>>=◌ {ℓ κ} : {A : Type ℓ} {B : Type κ} → Option A → (A → Option B) → Option B
none >>= f = none
some a >>= f = f a

-- The arms of a match on texts: the value of the first that is equal.
unfoldable pub arm {ℓ} : {A : Type ℓ} → Bytes → List (Bytes × A) → A → A
unfolding bytes_eq
arm s [] other = other
arm s ((t, a) ∷ arms) other = let rest = arm s arms other in if bytes_eq s t then a else rest

unfoldable pub comparison_op : Bytes → Option Bytes
unfolding arm
comparison_op t =
    arm t
      ((codes "COMPARE_EQUAL", some (codes "="))
        ∷ (codes "COMPARE_NOTEQUAL", some (codes "!="))
        ∷ (codes "COMPARE_LESSTHAN", some (codes "<"))
        ∷ (codes "COMPARE_GREATERTHAN", some (codes ">"))
        ∷ (codes "COMPARE_LESSTHANOREQUALTO", some (codes "<="))
        ∷ (codes "COMPARE_GREATERTHANOREQUALTO", some (codes ">="))
        ∷ [])
      none

unfoldable pub conjunction_op : Bytes → Option Bytes
unfolding arm
conjunction_op t =
    arm t
      ((codes "CONJUNCTION_AND", some (codes " AND "))
        ∷ (codes "CONJUNCTION_OR", some (codes " OR "))
        ∷ [])
      none

-- What an operator's SQL has behind, between or in front of its children.
pub data OperatorKind : Type 0 where
  suffixed : Bytes → OperatorKind
  listed : Bytes → OperatorKind
  negated : OperatorKind
  unsupported : OperatorKind

unfoldable pub operator_of : Bytes → OperatorKind
unfolding arm
operator_of t =
    arm t
      ((codes "OPERATOR_IS_NULL", suffixed (codes " IS NULL"))
        ∷ (codes "OPERATOR_IS_NOT_NULL", suffixed (codes " IS NOT NULL"))
        ∷ (codes "COMPARE_IN", listed (codes " IN ("))
        ∷ (codes "COMPARE_NOT_IN", listed (codes " NOT IN ("))
        ∷ (codes "OPERATOR_NOT", negated)
        ∷ [])
      unsupported

-- `str::to_lowercase`, as far as a comparison with an ASCII text can tell: the Kelvin sign has an
-- ASCII lower case too.
unfoldable pub to_lowercase : Bytes → Bytes
unfolding to_ascii_lower
to_lowercase [] = []
to_lowercase (c ∷ []) = to_ascii_lower c ∷ []
to_lowercase (c ∷ d ∷ []) = to_ascii_lower c ∷ to_ascii_lower d ∷ []
to_lowercase (c ∷ d ∷ e ∷ s) =
    let one = to_lowercase (d ∷ e ∷ s) in
    let three = to_lowercase s in
    if c == 226 && d == 132 && e == 170 then 107 ∷ three else to_ascii_lower c ∷ one

-- The word of a function that is an operator in SQL.
unfoldable pub like_word : Bytes → Option Bytes
unfolding arm to_lowercase
like_word name =
    arm (to_lowercase name)
      ((codes "~~", some (codes " LIKE "))
        ∷ (codes "like", some (codes " LIKE "))
        ∷ (codes "!~~", some (codes " NOT LIKE "))
        ∷ (codes "not_like", some (codes " NOT LIKE "))
        ∷ (codes "~~~", some (codes " ILIKE "))
        ∷ (codes "ilike", some (codes " ILIKE "))
        ∷ [])
      none

abbrev quoted : Bytes → Bytes
quoted s = codes "'" ++ (s ++ codes "'")

abbrev string_sql : DuckDbValue → Bytes
string_sql v = elim v.as_str [ some s ↦ quoted (escape_sql_literal s) | none ↦ quoted v.value ]

unfoldable pub constant_sql : DuckDbValue → Bytes
unfolding arm escape_sql_literal to_uppercase
constant_sql v =
    if v.is_null
    then codes "NULL"
    else arm v.value_type
        ((codes "VARCHAR", string_sql v)
          ∷ (codes "TEXT", string_sql v)
          ∷ (codes "BOOLEAN", to_uppercase v.value)
          ∷ [])
        v.value

-- The column is quoted as it is.
abbrev pub column_sql : Bytes → Bytes
column_sql alias = codes "\"" ++ (alias ++ codes "\"")

-- `children.iter().filter_map(expression_to_sql)`, on the results for the children.
abbrev pub translated : List (Option Bytes) → List Bytes
translated [] = []
translated (none ∷ os) = translated os
translated (some s ∷ os) = s ∷ translated os

abbrev pub first_of : List (Option Bytes) → Option Bytes
first_of [] = none
first_of (o ∷ os) = o

abbrev pub skip_one {ℓ} : {A : Type ℓ} → List A → List A
skip_one [] = []
skip_one (x ∷ xs) = xs

abbrev pub non_empty_list : List Bytes → Option (List Bytes)
non_empty_list [] = none
non_empty_list (s ∷ ss) = some (s ∷ ss)

abbrev pub comparison_sql : Bytes → Option Bytes → Option Bytes → Option Bytes
comparison_sql t left right = do
  l ← left
  r ← right
  op ← comparison_op t
  some (l ++ (codes " " ++ (op ++ (codes " " ++ r))))

abbrev pub conjunction_sql : Bytes → List (Option Bytes) → Option Bytes
conjunction_sql t children = do
  parts ← non_empty_list (translated children)
  op ← conjunction_op t
  some (codes "(" ++ (join op parts ++ codes ")"))

abbrev pub operator_sql : OperatorKind → List (Option Bytes) → Option Bytes
operator_sql (suffixed word) children = do child ← first_of children; some (child ++ word)
operator_sql (listed word) children = do
  column ← first_of children
  values ← non_empty_list (translated (skip_one children))
  some (column ++ (word ++ (join (codes ", ") values ++ codes ")")))
operator_sql negated children = do
  child ← first_of children
  some (codes "NOT (" ++ (child ++ codes ")"))
operator_sql unsupported children = none

abbrev pub between_sql : Option Bytes → Option Bytes → Option Bytes → Option Bytes
between_sql input lower upper = do
  i ← input
  l ← lower
  u ← upper
  some (i ++ (codes " BETWEEN " ++ (l ++ (codes " AND " ++ u))))

abbrev pub like_sql : Bytes → List (Option Bytes) → Option Bytes
like_sql word [] = none
like_sql word (o ∷ []) = none
like_sql word (o ∷ o' ∷ os) = do
  column ← o
  pattern_text ← o'
  some (column ++ (word ++ pattern_text))

abbrev call_sql : Bytes → List Bytes → Bytes
call_sql name args = name ++ (codes "(" ++ (join (codes ", ") args ++ codes ")"))

-- No argument is left of some.
abbrev pub all_lost : List (Option Bytes) → Bool
all_lost children = is_empty (translated children) && (if is_empty children then false else true)

abbrev pub function_sql : Bytes → List (Option Bytes) → Option Bytes
function_sql name children = elim (like_word name) [
  | some word ↦ like_sql word children
  | none ↦ if all_lost children then none else some (call_sql name (translated children))
]

unfoldable mutual
  unfolding comparison_op conjunction_op operator_of like_word constant_sql join

  pub expression_to_sql : Expression → Option Bytes
  expression_to_sql (comparison t left right) =
      comparison_sql t (expression_to_sql left) (expression_to_sql right)
  expression_to_sql (column_ref alias) = some (column_sql alias)
  expression_to_sql (constant v) = some (constant_sql v)
  expression_to_sql (conjunction t children) = conjunction_sql t (children_sql children)
  expression_to_sql (operator t children) = operator_sql (operator_of t) (children_sql children)
  expression_to_sql (between input lower upper) =
      between_sql (expression_to_sql input) (expression_to_sql lower) (expression_to_sql upper)
  expression_to_sql (function name children) = function_sql name (children_sql children)
  expression_to_sql (cast child) = expression_to_sql child
  expression_to_sql unknown = none

  pub children_sql : Expressions → List (Option Bytes)
  children_sql nil = []
  children_sql (cons e es) = expression_to_sql e ∷ children_sql es

-- `parse` is `serde_json::from_str`.
unfoldable pub parse_filters_to_where_clause : (Bytes → Option Expressions) → Bytes → Option Bytes
unfolding expression_to_sql join
parse_filters_to_where_clause parse json_filters = if is_empty json_filters then none else (do
  filters ← parse json_filters
  conditions ← non_empty_list (translated (children_sql filters))
  some (join (codes " AND ") conditions))

-- The text of the query of a scan.
unfoldable pub scan_sql : Bytes → Option Bytes → Bytes
scan_sql table none = codes "SELECT * FROM " ++ table
scan_sql table (some conditions) =
    codes "SELECT * FROM " ++ (table ++ (codes " WHERE " ++ conditions))
