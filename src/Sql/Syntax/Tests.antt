-- ===== src/Sql/Syntax/Tests.antt =====
-- Trees of statements with placeholders.
use swanlake.Prelude.{◌≡◌, refl, List, [], ◌∷◌, some}
use swanlake.Text.{Bytes, codes}
use swanlake.Sql.Syntax.{
  Expr, identifier, compound_identifier, placeholder, nested, cast, binary_op, between, in_list,
  nil, cons, values, column_target, Statement, insert, update, delete, insert_values_shape,
}
use swanlake.Sql.Syntax.Parameters.{
  parameter_columns, collect_params_from_expr, collect_placeholders_with_column,
}

-- `UPDATE t SET a = ? + 1 WHERE (? < u.b) AND c BETWEEN ? AND ? AND d IN (?, 2)`
abbrev condition : Expr
condition =
    binary_op
      (binary_op (nested (binary_op placeholder (compound_identifier (codes "u" ∷ codes "b" ∷ []))))
        (between (identifier (codes "c")) placeholder (cast placeholder)))
      (in_list (identifier (codes "d")) (cons placeholder (cons (Expr.other nil) nil)))

abbrev updating : Statement
updating =
    update (some (codes "t" ∷ []))
      ((column_target (codes "a" ∷ []), binary_op placeholder (Expr.other nil)) ∷ [])
      (some condition)

abbrev names : List Bytes
names = codes "a" ∷ codes "b" ∷ codes "c" ∷ codes "c" ∷ codes "d" ∷ []

-- `a = (? BETWEEN ? AND 2)`: the tested placeholder is passed over.
missed :
    parameter_columns (
      delete (some (codes "t" ∷ []) ∷ []) (
        some (
          binary_op
            (identifier (codes "a"))
            (nested (between placeholder placeholder (Expr.other nil))))))
    ≡ some (codes "a" ∷ [])
unfolding parameter_columns collect_params_from_expr collect_placeholders_with_column
missed = refl

-- `a = ? AND b LIKE ?`: of the two placeholders the second is passed over.
like_missed :
    parameter_columns (
      delete (some (codes "t" ∷ []) ∷ []) (
        some (
          binary_op
            (binary_op (identifier (codes "a")) placeholder)
            (Expr.other (cons (identifier (codes "b")) (cons placeholder nil))))))
    ≡ some (codes "a" ∷ [])
unfolding parameter_columns collect_params_from_expr collect_placeholders_with_column
like_missed = refl

abbrev inserting : Statement
inserting = insert (some (codes "t" ∷ [])) [] (
    some (record {
      body = values ((placeholder ∷ placeholder ∷ []) ∷ (placeholder ∷ (Expr.other nil) ∷ []) ∷ []);
      text = [];
    }))

two_by_two : insert_values_shape inserting ≡ some (2, 2)
unfolding insert_values_shape
two_by_two = refl
