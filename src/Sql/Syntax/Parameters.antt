-- ===== src/Sql/Syntax/Parameters.antt =====
-- sql/parser.rs: `parameter_columns`. `out` is the vector that the calls push to.
use swanlake.Prelude.{List, [], ◌∷◌, ◌++◌, Option, none, some, ◌==◌, if◌then◌else◌, length}
use swanlake.Text.{Bytes}
use swanlake.Sql.Syntax.{
  Expr, identifier, compound_identifier, placeholder, nested, cast, binary_op, between, in_list,
  Exprs, nil, cons, SetExpr, select, values, Query, AssignmentTarget, column_target, tuple_target,
  Statement, insert, update, delete, query, show_or_explain, last,
}

abbrev pub Columns : Type 0
Columns = List (Option Bytes)

abbrev pub column_name : Expr → Option Bytes
column_name (identifier x) = some x
column_name (compound_identifier xs) = last xs
column_name placeholder = none
column_name (nested e) = none
column_name (cast e) = none
column_name (binary_op left right) = none
column_name (between e low high) = none
column_name (in_list e es) = none
column_name (Expr.other es) = none

-- `object_name_last_part`
abbrev pub column_from_assignment_target : AssignmentTarget → Option Bytes
column_from_assignment_target (column_target name) = last name
column_from_assignment_target (tuple_target []) = none
column_from_assignment_target (tuple_target (name ∷ names)) = last name

unfoldable mutual
  pub collect_placeholders_with_column : Expr → Option Bytes → Columns → Columns
  collect_placeholders_with_column placeholder column out = out ++ (column ∷ [])
  collect_placeholders_with_column (nested e) column out =
      collect_placeholders_with_column e column out
  collect_placeholders_with_column (cast e) column out =
      collect_placeholders_with_column e column out
  collect_placeholders_with_column (binary_op left right) column out =
      collect_placeholders_with_column right column
        (collect_placeholders_with_column left column out)
  collect_placeholders_with_column (between e low high) column out =
      collect_placeholders_with_column high column (collect_placeholders_with_column low column out)
  collect_placeholders_with_column (in_list e es) column out =
      collect_items_with_column es column out
  collect_placeholders_with_column (identifier x) column out = out
  collect_placeholders_with_column (compound_identifier xs) column out = out
  collect_placeholders_with_column (Expr.other es) column out = out

  pub collect_items_with_column : Exprs → Option Bytes → Columns → Columns
  collect_items_with_column nil column out = out
  collect_items_with_column (cons e es) column out =
      collect_items_with_column es column (collect_placeholders_with_column e column out)

-- The placeholders beside a column, if there is one.
abbrev pub beside : Option Bytes → Expr → Columns → Columns
beside none e out = out
beside (some col) e out = collect_placeholders_with_column e (some col) out

-- `next` is taken where nothing was pushed.
abbrev pub unless_longer : Columns → Columns → Columns → Columns
unless_longer out pushed next = if length pushed == length out then next else pushed

unfoldable mutual
  unfolding collect_placeholders_with_column

  pub collect_params_from_expr : Expr → Columns → Columns
  collect_params_from_expr (binary_op left right) out =
      let both = collect_params_from_expr right (collect_params_from_expr left out) in
      unless_longer out (beside (column_name left) right out)
        (unless_longer out (beside (column_name right) left out) both)
  collect_params_from_expr (between e low high) out =
      let rest =
        collect_params_from_expr high
          (collect_params_from_expr low (collect_params_from_expr e out)) in
      elim (column_name e) [
        | some col ↦
            collect_placeholders_with_column high (some col)
              (collect_placeholders_with_column low (some col) out)
        | none ↦ rest
      ]
  collect_params_from_expr (in_list e es) out =
      let rest = collect_params_from_items es (collect_params_from_expr e out) in
      elim (column_name e) [ some col ↦ collect_items_with_column es (some col) out | none ↦ rest ]
  collect_params_from_expr (nested e) out = collect_params_from_expr e out
  collect_params_from_expr (cast e) out = collect_params_from_expr e out
  collect_params_from_expr placeholder out = out ++ (none ∷ [])
  collect_params_from_expr (identifier x) out = out
  collect_params_from_expr (compound_identifier xs) out = out
  collect_params_from_expr (Expr.other es) out = out

  pub collect_params_from_items : Exprs → Columns → Columns
  collect_params_from_items nil out = out
  collect_params_from_items (cons e es) out =
      collect_params_from_items es (collect_params_from_expr e out)

abbrev pub collect_selection : Option Expr → Columns → Columns
collect_selection none out = out
collect_selection (some e) out = collect_params_from_expr e out

unfoldable pub collect_assignments : List (AssignmentTarget × Expr) → Columns → Columns
unfolding collect_placeholders_with_column
collect_assignments [] out = out
collect_assignments ((target, value) ∷ assignments) out =
    collect_assignments assignments
      (collect_placeholders_with_column value (column_from_assignment_target target) out)

abbrev pub selection_from_query : Query → Option Expr
selection_from_query q = elim q.body [
  | select from selection ↦ selection
  | values rows ↦ none
  | SetExpr.other ↦ none
]

-- All of the columns, if none is missing.
abbrev pub all_named : Columns → Option (List Bytes)
all_named [] = some []
all_named (none ∷ cs) = none
all_named (some c ∷ cs) = elim (all_named cs) [ none ↦ none | some names ↦ some (c ∷ names) ]

unfoldable pub parameter_columns : Statement → Option (List Bytes)
unfolding collect_assignments collect_params_from_expr
parameter_columns (update t assignments selection) =
    all_named (collect_selection selection (collect_assignments assignments []))
parameter_columns (delete from selection) = all_named (collect_selection selection [])
parameter_columns (query q) = all_named (collect_selection (selection_from_query q) [])
parameter_columns (insert t columns source) = none
parameter_columns show_or_explain = none
parameter_columns Statement.other = none
