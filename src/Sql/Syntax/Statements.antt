-- ===== src/Sql/Syntax/Statements.antt =====
-- sql/parser.rs: `parameter_columns` names the column of each parameter of a statement.
use swanlake.Prelude.{◌≡◌, true, false, List, [], ◌∷◌, ◌++◌, Option, none, some}
use swanlake.Text.{Bytes}
use swanlake.Sql.Syntax.{
  Expr, AssignmentTarget, Statement, insert, update, delete, query, show_or_explain,
}
use swanlake.Sql.Syntax.Parameters.{Columns, column_from_assignment_target, selection_from_query}
use swanlake.Sql.Syntax.Attributed.{attributed, HasFreeSubjects, IsPlain}

-- The reference for a statement: its assignments, each with the column it sets, and its condition.
abbrev attributed_selection : Option Expr → Columns
attributed_selection none = []
attributed_selection (some e) = attributed none e

unfoldable pub attributed_assignments : List (AssignmentTarget × Expr) → Columns
unfolding attributed
attributed_assignments [] = []
attributed_assignments ((target, value) ∷ assignments) =
    attributed (column_from_assignment_target target) value ++ attributed_assignments assignments

unfoldable pub statement_attributed : Statement → Columns
unfolding attributed attributed_assignments
statement_attributed (update t assignments selection) =
    attributed_assignments assignments ++ attributed_selection selection
statement_attributed (delete from selection) = attributed_selection selection
statement_attributed (query q) = attributed_selection (selection_from_query q)
statement_attributed (insert t columns source) = []
statement_attributed show_or_explain = []
statement_attributed Statement.other = []

abbrev IsPlainSelection : Option Expr → Type 0
IsPlainSelection none = Unit
IsPlainSelection (some e) = IsPlain e

abbrev HasColumn : Option Bytes → Type 0
HasColumn none = true ≡ false
HasColumn (some col) = Unit

-- Each assignment sets a column, and no placeholder is a subject in its value.
abbrev ArePlainAssignments : List (AssignmentTarget × Expr) → Type 0
ArePlainAssignments [] = Unit
ArePlainAssignments ((target, value) ∷ assignments) =
    HasColumn (column_from_assignment_target target)
    × HasFreeSubjects value
    × ArePlainAssignments assignments

unfoldable pub IsPlainStatement : Statement → Type 0
unfolding IsPlain HasFreeSubjects
IsPlainStatement (update t assignments selection) =
    ArePlainAssignments assignments × IsPlainSelection selection
IsPlainStatement (delete from selection) = IsPlainSelection selection
IsPlainStatement (query q) = IsPlainSelection (selection_from_query q)
IsPlainStatement (insert t columns source) = Unit
IsPlainStatement show_or_explain = Unit
IsPlainStatement Statement.other = Unit
