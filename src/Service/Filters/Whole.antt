-- ===== src/Service/Filters/Whole.antt =====
-- service/handlers/action.rs: the SQL of an expression that the reference covers.
use swanlake.Prelude.{
  ◌≡◌, refl, ap, ◌∙◌, Bool, true, false, ◌&&◌, not, List, ◌++◌, append_assoc, Option, none, some,
  if◌then◌else◌, is_empty,
}
use swanlake.Text.{Bytes, codes}
use swanlake.Sql.Quoting.{join}
use swanlake.Service.Filters.{
  Expression, comparison, column_ref, constant, conjunction, operator, between, function, cast,
  unknown, Expressions, nil, cons, comparison_op, conjunction_op, listed, like_word, call_sql,
  translated, first_of, non_empty_list, comparison_sql, conjunction_sql, operator_sql, like_sql,
  function_sql, all_lost, expression_to_sql, children_sql,
}
use swanlake.Service.Filters.Spelled.{
  sign_of, connective_of, Spelling, behind, with_list, in_front, spelling_of, infix_of,
  is_function_name, is_translated, is_operand, sign_text, first_text, rest_of, operator_text,
  function_text, in_parentheses, print, prints, operands, all_true, first_true, operator_supported,
  is_call, function_supported, supported, all_supported, all_operands,
}
use swanlake.Service.Filters.Tables.{
  comparison_op-sign_of, conjunction_op-connective_of, kind_of, operator_of-kind_of,
  IsLikeWord-infix, column-Exact, constant-Exact,
}

-- The SQL of a supported expression is its text.
abbrev pub Exact : Expression → Type 0
Exact e = supported e ≡ true → expression_to_sql e ≡ some (print e)

abbrev Exacts : Expressions → Type 0
Exacts nil = Unit
Exacts (cons e es) = Exact e × Exacts es

-- As an operand.
abbrev operand : Expression → Bytes
operand e = in_parentheses (is_operand e) (print e)

both : (a b : Bool) → a && b ≡ true → (a ≡ true) × (b ≡ true)
both true b h = (refl, h)
both false b h = absurd (cc h)

operand-Exact :
    (e : Expression)
    → Exact e
    → (is_operand e && supported e) ≡ true
    → expression_to_sql e ≡ some (operand e)
operand-Exact e f h = let (simple, fine) = both (is_operand e) (supported e) h in rw simple (f fine)

translated-Exacts :
    (es : Expressions)
    → Exacts es
    → all_true (all_supported es) ≡ true
    → translated (children_sql es) ≡ prints es
unfolding expression_to_sql supported print
translated-Exacts nil x h = refl
translated-Exacts (cons e es) (f, x) h =
    let (h1, h2) = both (supported e) (all_true (all_supported es)) h in
    rw (f h1, translated-Exacts es x h2) refl

first_of-Exacts :
    (es : Expressions)
    → Exacts es
    → first_true (all_supported es) ≡ true
    → first_of (children_sql es) ≡ some (first_text (prints es))
unfolding expression_to_sql supported print
first_of-Exacts nil x h = absurd (cc h)
first_of-Exacts (cons e es) (f, x) h = f h

first_operand-Exacts :
    (es : Expressions)
    → Exacts es
    → first_true (all_operands es) ≡ true
    → first_of (children_sql es) ≡ some (first_text (operands es))
unfolding expression_to_sql supported print
first_operand-Exacts nil x h = absurd (cc h)
first_operand-Exacts (cons e es) (f, x) h = operand-Exact e f h

comparison_with :
    (t l r : Bytes) (o : Option Bytes)
    → comparison_op t ≡ o
    → is_translated o ≡ true
    → comparison_sql t (some l) (some r)
      ≡ some (l ++ (codes " " ++ (sign_text o ++ (codes " " ++ r))))
comparison_with t l r none e h = absurd (cc h)
comparison_with t l r (some op) e h = rw e refl

conjunction_with :
    (t : Bytes) (os : List (Option Bytes)) (ss : List Bytes) (o : Option Bytes)
    → conjunction_op t ≡ o
    → is_translated o ≡ true
    → non_empty_list (translated os) ≡ some ss
    → conjunction_sql t os ≡ some (codes "(" ++ (join (sign_text o) ss ++ codes ")"))
conjunction_with t os ss none e h f = absurd (cc h)
conjunction_with t os ss (some op) e h f = rw (f, e) refl

non_empty-prints :
    (es : Expressions)
    → not (is_empty (all_supported es)) ≡ true
    → non_empty_list (prints es) ≡ some (prints es)
unfolding supported print
non_empty-prints nil h = absurd (cc h)
non_empty-prints (cons e es) h = refl

comparison-Exact :
    (t : Bytes) (left right : Expression)
    → Exact left
    → Exact right
    → Exact (comparison t left right)
unfolding expression_to_sql supported print
comparison-Exact t left right f g h =
    let (h1, h') =
      both (is_translated (sign_of t))
        ((is_operand left && supported left) && (is_operand right && supported right)) h in
    let (h2, h3) =
      both (is_operand left && supported left) (is_operand right && supported right) h' in
    rw (operand-Exact left f h2, operand-Exact right g h3)
      (comparison_with t (operand left) (operand right) (sign_of t) (comparison_op-sign_of t) h1)

conjunction-Exact : (t : Bytes) (es : Expressions) → Exacts es → Exact (conjunction t es)
unfolding expression_to_sql supported print
conjunction-Exact t es x h =
    let (h1, h') =
      both (is_translated (connective_of t))
        (all_true (all_supported es) && not (is_empty (all_supported es))) h in
    let (h2, h3) = both (all_true (all_supported es)) (not (is_empty (all_supported es))) h' in
    conjunction_with t (children_sql es) (prints es) (connective_of t)
      (conjunction_op-connective_of t) h1
      (ap non_empty_list (translated-Exacts es x h2) ∙ non_empty-prints es h3)

-- A list operator has its column first.
with_list-Exacts :
    (word : Bytes) (es : Expressions)
    → Exacts es
    → operator_supported (some (with_list word)) (all_supported es) (all_operands es) ≡ true
    → operator_sql (listed (word ++ codes "(")) (children_sql es)
      ≡ some (operator_text (some (with_list word)) (prints es) (operands es))
unfolding expression_to_sql supported print
with_list-Exacts word nil x h = absurd (cc h)
with_list-Exacts word (cons e es) (f, x) h =
    let (h1, h') =
      both (is_operand e && supported e)
        (all_true (all_supported es) && not (is_empty (all_supported es))) h in
    let (h2, h3) = both (all_true (all_supported es)) (not (is_empty (all_supported es))) h' in
    rw (operand-Exact e f h1, translated-Exacts es x h2, non_empty-prints es h3)
      (ap (λ t. some (operand e ++ t)) (append_assoc word (codes "(") _))

operator-Exacts :
    (spelling : Option Spelling) (es : Expressions)
    → Exacts es
    → operator_supported spelling (all_supported es) (all_operands es) ≡ true
    → operator_sql (kind_of spelling) (children_sql es)
      ≡ some (operator_text spelling (prints es) (operands es))
operator-Exacts (some (behind word)) es x h = rw (first_operand-Exacts es x h) refl
operator-Exacts (some (with_list word)) es x h = with_list-Exacts word es x h
operator-Exacts (some in_front) es x h = rw (first_of-Exacts es x h) refl
operator-Exacts none es x h = absurd (cc h)

operator-Exact : (t : Bytes) (es : Expressions) → Exacts es → Exact (operator t es)
unfolding expression_to_sql supported print
operator-Exact t es x h =
    ap (λ k. operator_sql k (children_sql es)) (operator_of-kind_of t)
    ∙ operator-Exacts (spelling_of t) es x h

between-Exact : (i l u : Expression) → Exact i → Exact l → Exact u → Exact (between i l u)
unfolding expression_to_sql supported print
between-Exact i l u f g k h =
    let (h1, h') =
      both (is_operand i && supported i)
        ((is_operand l && supported l) && (is_operand u && supported u)) h in
    let (h2, h3) = both (is_operand l && supported l) (is_operand u && supported u) h' in
    rw (operand-Exact i f h1, operand-Exact l g h2, operand-Exact u k h3) refl

like-Exacts :
    (word : Bytes) (es : Expressions)
    → Exacts es
    → first_true (all_operands es) && first_true (rest_of (all_operands es)) ≡ true
    → like_sql word (children_sql es)
      ≡ some (first_text (operands es) ++ (word ++ first_text (rest_of (operands es))))
unfolding expression_to_sql supported print
like-Exacts word nil x h = absurd (cc h)
like-Exacts word (cons e nil) x h = absurd (cc (both (is_operand e && supported e) false h).1)
like-Exacts word (cons e (cons e' es)) (f, (g, x)) h =
    let (h1, h2) = both (is_operand e && supported e) (is_operand e' && supported e') h in
    rw (operand-Exact e f h1, operand-Exact e' g h2) refl

call-Exacts :
    (name : Bytes) (es : Expressions)
    → Exacts es
    → all_true (all_supported es) ≡ true
    → (if all_lost (children_sql es)
        then none
        else some (call_sql name (translated (children_sql es))))
      ≡ some (call_sql name (prints es))
unfolding expression_to_sql supported print
call-Exacts name nil x h = refl
call-Exacts name (cons e es) (f, x) h =
    let (h1, h2) = both (supported e) (all_true (all_supported es)) h in
    rw (f h1, translated-Exacts es x h2) refl

is_call-like_word : (name : Bytes) → is_call name ≡ true → like_word name ≡ none
unfolding is_call
is_call-like_word name h = of (like_word name) h
  where
    of : (o : Option Bytes) → (not (is_translated o) && is_function_name name) ≡ true → o ≡ none
    of none h = refl
    of (some w) h = absurd (cc h)

function-Exacts :
    (name : Bytes) (o : Option Bytes) (es : Expressions)
    → infix_of name ≡ o
    → Exacts es
    → function_supported name o (all_supported es) (all_operands es) ≡ true
    → function_sql name (children_sql es) ≡ some (function_text name o (prints es) (operands es))
function-Exacts name (some word) es e x h =
    rw (IsLikeWord-infix name word e, function_sql) (like-Exacts word es x h)
function-Exacts name none es e x h =
    let (h1, h2) = both (is_call name) (all_true (all_supported es)) h in
    rw (is_call-like_word name h1, function_sql) (call-Exacts name es x h2)

function-Exact : (name : Bytes) (es : Expressions) → Exacts es → Exact (function name es)
unfolding expression_to_sql supported print
function-Exact name es x h = function-Exacts name (infix_of name) es refl x h

mutual
  unfolding expression_to_sql supported print

  every-Exact : (e : Expression) → Exact e
  every-Exact (comparison t left right) =
      comparison-Exact t left right (every-Exact left) (every-Exact right)
  every-Exact (column_ref alias) = λ h. ap some (column-Exact alias h)
  every-Exact (constant v) = λ h. ap some (constant-Exact v h)
  every-Exact (conjunction t es) = conjunction-Exact t es (every-Exacts es)
  every-Exact (operator t es) = operator-Exact t es (every-Exacts es)
  every-Exact (between i l u) = between-Exact i l u (every-Exact i) (every-Exact l) (every-Exact u)
  every-Exact (function name es) = function-Exact name es (every-Exacts es)
  every-Exact (cast e) = λ h. absurd (cc h)
  every-Exact unknown = λ h. absurd (cc h)

  every-Exacts : (es : Expressions) → Exacts es
  every-Exacts nil = tt
  every-Exacts (cons e es) = (every-Exact e, every-Exacts es)

-- The SQL of an expression that the reference covers is the one that the reference gives: the signs
-- and names of its types, its literals and columns in quotes that are doubled inside, and all of its
-- children, with no operand that would need parentheses. A cast is not covered, nor is a constant
-- that is no literal, or a part with too few children.
pub expression_to_sql-print :
    (e : Expression) → supported e ≡ true → expression_to_sql e ≡ some (print e)
expression_to_sql-print = every-Exact
