-- ===== src/Service/Filters/Tests.antt =====
-- The filter `a = 1 AND (unsupported)`, and its parts below an `OR`.
use swanlake.Prelude.{◌≡◌, refl, Bool, true, false, Option, none, some, inl, inr}
use swanlake.Text.{Bytes, codes, bytes_eq}
use swanlake.Sql.Quoting.{join, escape_sql_literal}
use swanlake.Service.Filters.{
  Expression, comparison, column_ref, constant, conjunction, operator, function, unknown,
  Expressions, nil, cons, expression_to_sql, parse_filters_to_where_clause, scan_sql, arm,
  comparison_op, conjunction_op, operator_of, like_word, to_lowercase, constant_sql,
}
use swanlake.Service.Filters.Spelled.{
  print, prints, supported, sign_of, connective_of, spelling_of, is_operand, is_literal,
  all_supported, all_true,
}
use swanlake.Service.Filters.Whole.{expression_to_sql-print}
use swanlake.Service.Filters.Kept.{meets_all, IsSafe, AreSafe, parse_filters_to_where_clause_keeps}

abbrev number : Bytes → Expression
number text =
    constant (record { value_type = codes "INTEGER"; is_null = false; value = text; as_str = none })

abbrev string : Bytes → Expression
string text =
    constant
      (record { value_type = codes "VARCHAR"; is_null = false; value = text; as_str = some text })

abbrev is_one : Expression
is_one = comparison (codes "COMPARE_EQUAL") (column_ref (codes "a")) (number (codes "1"))

abbrev is_named : Expression
is_named =
    operator (codes "COMPARE_IN")
      (cons (column_ref (codes "b")) (cons (string (codes "o'k")) (cons (number (codes "2")) nil)))

abbrev filters : Expressions
filters =
    cons (conjunction (codes "CONJUNCTION_AND") (cons is_one (cons unknown nil)))
      (cons is_named nil)

abbrev where_text : Bytes
where_text = codes "(\"a\" = 1) AND \"b\" IN ('o''k', 2)"

abbrev parsed : Bytes → Option Expressions
parsed json = some filters

where_clause : parse_filters_to_where_clause parsed (codes "{}") ≡ some where_text
unfolding parse_filters_to_where_clause expression_to_sql arm bytes_eq join constant_sql
    comparison_op conjunction_op operator_of escape_sql_literal
where_clause = refl

whole : supported is_named ≡ true
unfolding supported spelling_of is_operand is_literal bytes_eq
whole = refl

safe : AreSafe filters
unfolding IsSafe supported sign_of connective_of spelling_of is_operand is_literal bytes_eq
    expression_to_sql
safe = ((inl refl, (inr refl, tt)), (inl refl, tt))

-- Below an `OR` a part that has no SQL is left away as well, so rows are lost.
or_loses :
    expression_to_sql (conjunction (codes "CONJUNCTION_OR") (cons is_one (cons unknown nil)))
    ≡ some (codes "(\"a\" = 1)")
unfolding expression_to_sql arm bytes_eq join constant_sql comparison_op conjunction_op
or_loses = refl

in_loses :
    expression_to_sql (
      operator
        (codes "COMPARE_IN")
        (cons (column_ref (codes "b")) (cons unknown (cons (number (codes "2")) nil))))
    ≡ some (codes "\"b\" IN (2)")
unfolding expression_to_sql arm bytes_eq join constant_sql operator_of
in_loses = refl

-- The operands of a comparison get no parentheses: SQL reads `("a" = "b") IS NULL`.
no_parentheses :
    expression_to_sql (
      comparison
        (codes "COMPARE_EQUAL")
        (column_ref (codes "a"))
        (operator (codes "OPERATOR_IS_NULL") (cons (column_ref (codes "b")) nil)))
    ≡ some (codes "\"a\" = \"b\" IS NULL")
unfolding expression_to_sql arm bytes_eq comparison_op operator_of
no_parentheses = refl

-- A date comes as a JSON string, and its text has double quotes.
date_text :
    expression_to_sql (
      constant (record {
        value_type = codes "DATE";
        is_null = false;
        value = codes "\"2024-01-01\"";
        as_str = some (codes "2024-01-01");
      }))
    ≡ some (codes "\"2024-01-01\"")
unfolding expression_to_sql arm bytes_eq constant_sql
date_text = refl

likes :
    expression_to_sql
      (function (codes "LIKE") (cons (column_ref (codes "b")) (cons (string (codes "x%")) nil)))
    ≡ some (codes "\"b\" LIKE 'x%'")
unfolding expression_to_sql arm bytes_eq constant_sql like_word to_lowercase escape_sql_literal
likes = refl

scans : scan_sql (codes "t") (some (codes "x")) ≡ codes "SELECT * FROM t WHERE x"
unfolding scan_sql
scans = refl

expression_to_sql-print_example : expression_to_sql is_named ≡ some (print is_named)
expression_to_sql-print_example = expression_to_sql-print is_named whole

parse_filters_to_where_clause_keeps_example :
    (pushed : Expressions) × (join (codes " AND ") (prints pushed) ≡ where_text)
    × (all_true (all_supported pushed) ≡ true)
    × ((row : Expression → Bool) → meets_all row filters ≡ true → meets_all row pushed ≡ true)
parse_filters_to_where_clause_keeps_example =
    parse_filters_to_where_clause_keeps parsed (codes "{}") filters where_text refl safe
      where_clause
