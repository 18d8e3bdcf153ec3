-- ===== src/Sql/Syntax.antt =====
-- sql/parser.rs: `ParsedStatement`. The parser and its syntax trees are the crate sqlparser's; the
-- trees here are what the code matches on, with the other forms as one. A name's part is its text.
pub mod Parameters
pub mod Attributed
pub mod Named
pub mod Statements
pub mod Shape
mod Tests
use swanlake.Prelude.{
  ℕ, ◌≡◌, Bool, true, false, ◌&&◌, ◌||◌, not, List, [], ◌∷◌, ◌++◌, map, Option, none, some, ◌==◌,
  if◌then◌else◌, is_empty, any, all, length,
}
use swanlake.Text.{Bytes}

-- `ObjectName`
abbrev pub ObjectName : Type 0
ObjectName = List Bytes

mutual
  pub data Expr : Type 0 where
    identifier : Bytes → Expr
    compound_identifier : List Bytes → Expr
    placeholder : Expr
    nested : Expr → Expr
    cast : Expr → Expr
    binary_op : Expr → Expr → Expr
    between : Expr → Expr → Expr → Expr
    in_list : Expr → Exprs → Expr
    -- LIKE, NOT, IS, a function, a subquery and so on, with the expressions inside
    other : Exprs → Expr

  pub data Exprs : Type 0 where
    nil : Exprs
    cons : Expr → Exprs → Exprs

-- `TableFactor`: the name of a table, or a relation of another form.
abbrev pub TableFactor : Type 0
TableFactor = Option ObjectName

pub data SetExpr : Type 0 where
  select : List TableFactor → Option Expr → SetExpr
  values : List (List Expr) → SetExpr
  other : SetExpr

-- `text` is its `Display`.
pub record Query : Type 0 where
  pub body : SetExpr
  pub text : Bytes

pub data AssignmentTarget : Type 0 where
  column_target : ObjectName → AssignmentTarget
  tuple_target : List ObjectName → AssignmentTarget

-- `show_or_explain` stands for the other statements that return rows.
pub data Statement : Type 0 where
  insert : TableFactor → List Bytes → Option Query → Statement
  update : TableFactor → List (AssignmentTarget × Expr) → Option Expr → Statement
  delete : List TableFactor → Option Expr → Statement
  query : Query → Statement
  show_or_explain : Statement
  other : Statement

abbrev pub statement_returns_rows : Statement → Bool
statement_returns_rows (query q) = true
statement_returns_rows show_or_explain = true
statement_returns_rows (insert t columns source) = false
statement_returns_rows (update t assignments selection) = false
statement_returns_rows (delete from selection) = false
statement_returns_rows Statement.other = false

abbrev pub last {ℓ} : {A : Type ℓ} → List A → Option A
last [] = none
last (x ∷ []) = some x
last (x ∷ y ∷ xs) = last (y ∷ xs)

abbrev then_some {ℓ κ} : {A : Type ℓ} {B : Type κ} → (A → B) → Option A → Option B
then_some f none = none
then_some f (some a) = some (f a)

-- `ParsedStatement::parse`, behind `Parser::parse_sql`.
abbrev pub parse : Option (List Statement) → Option Statement
parse none = none
parse (some statements) = last statements

abbrev pub statement_count : Option (List Statement) → Option ℕ
statement_count = then_some length

abbrev pub contains_query : Option (List Statement) → Option Bool
contains_query = then_some (any statement_returns_rows)

abbrev pub is_insert : Statement → Bool
is_insert (insert t columns source) = true
is_insert (update t assignments selection) = false
is_insert (delete from selection) = false
is_insert (query q) = false
is_insert show_or_explain = false
is_insert Statement.other = false

-- `table_from_select`, `table_from_from_table`
abbrev pub only_table : List TableFactor → Option ObjectName
only_table [] = none
only_table (t ∷ []) = t
only_table (t ∷ t' ∷ ts) = none

abbrev pub table_from_query : Query → Option ObjectName
table_from_query q = elim q.body [
  | select from selection ↦ only_table from
  | values rows ↦ none
  | SetExpr.other ↦ none
]

abbrev pub get_statement_table : Statement → Option ObjectName
get_statement_table (insert t columns source) = t
get_statement_table (update t assignments selection) = t
get_statement_table (delete from selection) = only_table from
get_statement_table (query q) = table_from_query q
get_statement_table show_or_explain = none
get_statement_table Statement.other = none

abbrev pub get_insert_table : Statement → Option ObjectName
get_insert_table (insert t columns source) = t
get_insert_table (update t assignments selection) = none
get_insert_table (delete from selection) = none
get_insert_table (query q) = none
get_insert_table show_or_explain = none
get_insert_table Statement.other = none

abbrev source_of : Statement → Option Query
source_of (insert t columns source) = source
source_of (update t assignments selection) = none
source_of (delete from selection) = none
source_of (query q) = none
source_of show_or_explain = none
source_of Statement.other = none

abbrev pub insert_source_sql : Statement → Option Bytes
insert_source_sql s = then_some (λ q. q.text) (source_of s)

abbrev pub get_insert_columns : Statement → Option (List Bytes)
get_insert_columns (insert t [] source) = none
get_insert_columns (insert t (c ∷ columns) source) = some (c ∷ columns)
get_insert_columns (update t assignments selection) = none
get_insert_columns (delete from selection) = none
get_insert_columns (query q) = none
get_insert_columns show_or_explain = none
get_insert_columns Statement.other = none

abbrev pub is_placeholder : Expr → Bool
is_placeholder placeholder = true
is_placeholder (identifier x) = false
is_placeholder (compound_identifier xs) = false
is_placeholder (nested e) = false
is_placeholder (cast e) = false
is_placeholder (binary_op left right) = false
is_placeholder (between e low high) = false
is_placeholder (in_list e es) = false
is_placeholder (Expr.other es) = false

-- The rows of `INSERT … VALUES`.
abbrev rows_of : Option Query → Option (List (List Expr))
rows_of none = none
rows_of (some q) = elim q.body [
  | values rows ↦ some rows
  | select from selection ↦ none
  | SetExpr.other ↦ none
]

abbrev pub insert_rows : Statement → Option (List (List Expr))
insert_rows s = rows_of (source_of s)

abbrev all_placeholders : Option (List (List Expr)) → Bool
all_placeholders none = false
all_placeholders (some rows) = all (all is_placeholder) rows

abbrev pub insert_values_all_placeholders : Statement → Bool
insert_values_all_placeholders s = all_placeholders (insert_rows s)

-- The rows may not be ragged, nor empty.
abbrev pub shape_of : List (List Expr) → Option (ℕ × ℕ)
shape_of [] = none
shape_of (row ∷ rows) =
    if length row == 0
    then none
    else if any (λ r. not (length r == length row)) rows
    then none
    else some (length (row ∷ rows), length row)

abbrev pub shaped : Option (List (List Expr)) → Option (ℕ × ℕ)
shaped none = none
shaped (some rows) = shape_of rows

unfoldable pub insert_values_shape : Statement → Option (ℕ × ℕ)
insert_values_shape s = shaped (insert_rows s)
