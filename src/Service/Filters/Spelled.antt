-- ===== src/Service/Filters/Spelled.antt =====
-- How SQL writes DuckDB's filter expressions: a reference, with tables of its own, and the expressions
-- that it covers.
use swanlake.Prelude.{
  ℕ, Bool, true, false, ◌&&◌, ◌||◌, not, List, [], ◌∷◌, ◌++◌, Option, none, some, ◌==◌,
  if◌then◌else◌, is_empty, all,
}
use swanlake.Text.{Bytes, codes, bytes_eq, is_ascii_alphanumeric}
use swanlake.Sql.Quoting.{join}
use swanlake.Service.Filters.{
  DuckDbValue, Expression, comparison, column_ref, constant, conjunction, operator, between,
  function, cast, unknown, Expressions, nil, cons, like_word,
}

-- The reference: SQL's own signs for the types of DuckDB's expressions, and the SQL of every part,
-- with no part left away.
unfoldable pub sign_of : Bytes → Option Bytes
unfolding bytes_eq
sign_of t =
    if bytes_eq t (codes "COMPARE_EQUAL")
    then some (codes "=")
    else if bytes_eq t (codes "COMPARE_NOTEQUAL")
    then some (codes "!=")
    else if bytes_eq t (codes "COMPARE_LESSTHAN")
    then some (codes "<")
    else if bytes_eq t (codes "COMPARE_GREATERTHAN")
    then some (codes ">")
    else if bytes_eq t (codes "COMPARE_LESSTHANOREQUALTO")
    then some (codes "<=")
    else if bytes_eq t (codes "COMPARE_GREATERTHANOREQUALTO")
    then some (codes ">=")
    else none

unfoldable pub connective_of : Bytes → Option Bytes
unfolding bytes_eq
connective_of t =
    if bytes_eq t (codes "CONJUNCTION_AND")
    then some (codes " AND ")
    else if bytes_eq t (codes "CONJUNCTION_OR")
    then some (codes " OR ")
    else none

-- How SQL writes an operator: behind its operand, with a list, or in front.
pub data Spelling : Type 0 where
  behind : Bytes → Spelling
  with_list : Bytes → Spelling
  in_front : Spelling

unfoldable pub spelling_of : Bytes → Option Spelling
unfolding bytes_eq
spelling_of t =
    if bytes_eq t (codes "OPERATOR_IS_NULL")
    then some (behind (codes " IS NULL"))
    else if bytes_eq t (codes "OPERATOR_IS_NOT_NULL")
    then some (behind (codes " IS NOT NULL"))
    else if bytes_eq t (codes "COMPARE_IN")
    then some (with_list (codes " IN "))
    else if bytes_eq t (codes "COMPARE_NOT_IN")
    then some (with_list (codes " NOT IN "))
    else if bytes_eq t (codes "OPERATOR_NOT")
    then some in_front
    else none

-- DuckDB's names of the functions that SQL writes between their operands.
unfoldable pub infix_of : Bytes → Option Bytes
unfolding bytes_eq
infix_of name =
    if bytes_eq name (codes "~~")
    then some (codes " LIKE ")
    else if bytes_eq name (codes "!~~")
    then some (codes " NOT LIKE ")
    else if bytes_eq name (codes "~~~")
    then some (codes " ILIKE ")
    else none

-- A text between two quotes, each quote in it written twice.
unfoldable pub twice : ℕ → Bytes → Bytes
twice q [] = []
twice q (c ∷ s) = if c == q then q ∷ q ∷ twice q s else c ∷ twice q s

abbrev pub enclosed : ℕ → Bytes → Bytes
enclosed q s = q ∷ twice q s ++ q ∷ []

abbrev pub is_numeric : Bytes → Bool
is_numeric t =
    bytes_eq t (codes "INTEGER")
    || bytes_eq t (codes "BIGINT")
    || bytes_eq t (codes "SMALLINT")
    || bytes_eq t (codes "TINYINT")
    || bytes_eq t (codes "DOUBLE")
    || bytes_eq t (codes "FLOAT")

-- A constant: NULL, a text, a truth value, or a number as it is.
abbrev pub is_text_type : Bytes → Bool
is_text_type t = bytes_eq t (codes "VARCHAR") || bytes_eq t (codes "TEXT")

abbrev pub text_literal : Option Bytes → Bytes
text_literal none = []
text_literal (some s) = enclosed 39 s

unfoldable pub literal : DuckDbValue → Bytes
unfolding bytes_eq twice
literal v =
    if v.is_null
    then codes "NULL"
    else if is_text_type v.value_type
    then text_literal v.as_str
    else if bytes_eq v.value_type (codes "BOOLEAN")
    then (if bytes_eq v.value (codes "true") then codes "TRUE" else codes "FALSE")
    else v.value

abbrev pub has_string : DuckDbValue → Bool
has_string v = elim v.as_str [ none ↦ false | some s ↦ true ]

-- NULL, a text that is a JSON string, a truth value, and a number that is none.
unfoldable pub is_literal : DuckDbValue → Bool
unfolding bytes_eq
is_literal v =
    if v.is_null
    then true
    else if is_text_type v.value_type
    then has_string v
    else if bytes_eq v.value_type (codes "BOOLEAN")
    then bytes_eq v.value (codes "true") || bytes_eq v.value (codes "false")
    else is_numeric v.value_type && not (has_string v)

abbrev pub is_column : Bytes → Bool
is_column alias = all (λ c. not (c == 34)) alias

-- A name that may stand in front of arguments.
abbrev pub is_function_name : Bytes → Bool
is_function_name name = not (is_empty name) && all (λ c. is_ascii_alphanumeric c || c == b'_') name

abbrev pub is_translated {ℓ} : {A : Type ℓ} → Option A → Bool
is_translated none = false
is_translated (some a) = true

-- What needs no parentheses as an operand.
unfoldable pub is_operand : Expression → Bool
unfolding infix_of
is_operand (column_ref alias) = true
is_operand (constant v) = true
is_operand (conjunction t children) = true
is_operand (function name children) = not (is_translated (infix_of name))
is_operand (comparison t left right) = false
is_operand (operator t children) = false
is_operand (between input low high) = false
is_operand (cast child) = false
is_operand unknown = false

abbrev pub sign_text : Option Bytes → Bytes
sign_text none = []
sign_text (some s) = s

abbrev pub first_text : List Bytes → Bytes
first_text [] = []
first_text (s ∷ ss) = s

abbrev pub rest_of {ℓ} : {A : Type ℓ} → List A → List A
rest_of [] = []
rest_of (x ∷ xs) = xs

-- `texts` are the children's own texts, `operands` the ones with parentheses where they are needed.
abbrev pub operator_text : Option Spelling → List Bytes → List Bytes → Bytes
operator_text (some (behind word)) texts operands = first_text operands ++ word
operator_text (some (with_list word)) texts operands =
    first_text operands ++ (word ++ (codes "(" ++ (join (codes ", ") (rest_of texts) ++ codes ")")))
operator_text (some in_front) texts operands = codes "NOT (" ++ (first_text texts ++ codes ")")
operator_text none texts operands = []

abbrev pub function_text : Bytes → Option Bytes → List Bytes → List Bytes → Bytes
function_text name (some word) texts operands =
    first_text operands ++ (word ++ first_text (rest_of operands))
function_text name none texts operands =
    name ++ (codes "(" ++ (join (codes ", ") texts ++ codes ")"))

abbrev pub in_parentheses : Bool → Bytes → Bytes
in_parentheses simple s = if simple then s else codes "(" ++ (s ++ codes ")")

unfoldable mutual
  unfolding sign_of connective_of spelling_of infix_of literal twice is_operand join

  pub print : Expression → Bytes
  print (comparison t left right) =
      in_parentheses (is_operand left) (print left)
      ++ (codes " "
          ++ (sign_text (sign_of t)
              ++ (codes " " ++ in_parentheses (is_operand right) (print right))))
  print (column_ref alias) = enclosed 34 alias
  print (constant v) = literal v
  print (conjunction t children) =
      codes "(" ++ (join (sign_text (connective_of t)) (prints children) ++ codes ")")
  print (operator t children) = operator_text (spelling_of t) (prints children) (operands children)
  print (between input low high) =
      in_parentheses (is_operand input) (print input)
      ++ (codes " BETWEEN "
          ++ (in_parentheses (is_operand low) (print low)
              ++ (codes " AND " ++ in_parentheses (is_operand high) (print high))))
  print (function name children) =
      function_text name (infix_of name) (prints children) (operands children)
  print (cast child) = []
  print unknown = []

  pub prints : Expressions → List Bytes
  prints nil = []
  prints (cons e es) = print e ∷ prints es

  pub operands : Expressions → List Bytes
  operands nil = []
  operands (cons e es) = in_parentheses (is_operand e) (print e) ∷ operands es

-- What is covered.
abbrev pub all_true : List Bool → Bool
all_true [] = true
all_true (b ∷ bs) = b && all_true bs

abbrev pub first_true : List Bool → Bool
first_true [] = false
first_true (b ∷ bs) = b

-- Of the children, which are supported, and which may be operands too.
abbrev pub operator_supported : Option Spelling → List Bool → List Bool → Bool
operator_supported (some (behind word)) fine simple = first_true simple
operator_supported (some (with_list word)) fine simple =
    first_true simple && (all_true (rest_of fine) && not (is_empty (rest_of fine)))
operator_supported (some in_front) fine simple = first_true fine
operator_supported none fine simple = false

unfoldable pub is_call : Bytes → Bool
unfolding like_word is_ascii_alphanumeric
is_call name = not (is_translated (like_word name)) && is_function_name name

abbrev pub function_supported : Bytes → Option Bytes → List Bool → List Bool → Bool
function_supported name (some word) fine simple = first_true simple && first_true (rest_of simple)
function_supported name none fine simple = is_call name && all_true fine

-- Neither a cast nor a part that needs parentheses and is given none is covered.
unfoldable mutual
  unfolding sign_of connective_of spelling_of infix_of is_literal is_operand is_call

  pub supported : Expression → Bool
  supported (comparison t left right) =
      is_translated (sign_of t)
      && ((is_operand left && supported left) && (is_operand right && supported right))
  supported (column_ref alias) = is_column alias
  supported (constant v) = is_literal v
  supported (conjunction t children) =
      is_translated (connective_of t)
      && (all_true (all_supported children) && not (is_empty (all_supported children)))
  supported (operator t children) =
      operator_supported (spelling_of t) (all_supported children) (all_operands children)
  supported (between input low high) =
      (is_operand input && supported input)
      && ((is_operand low && supported low) && (is_operand high && supported high))
  supported (function name children) =
      function_supported name (infix_of name) (all_supported children) (all_operands children)
  supported (cast child) = false
  supported unknown = false

  pub all_supported : Expressions → List Bool
  all_supported nil = []
  all_supported (cons e es) = supported e ∷ all_supported es

  pub all_operands : Expressions → List Bool
  all_operands nil = []
  all_operands (cons e es) = (is_operand e && supported e) ∷ all_operands es
