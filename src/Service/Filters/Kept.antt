-- ===== src/Service/Filters/Kept.antt =====
-- service/handlers/action.rs: what a scan keeps. A conjunction leaves away the parts that have no SQL.
use swanlake.Prelude.{
  ◌≡◌, refl, sym, ◌∙◌, ap, Bool, true, false, ◌&&◌, List, [], ◌∷◌, ◌++◌, Option, none, some, ◌⊎◌,
  inl, inr, if◌then◌else◌, is_empty, Bool-cases, Option-cases,
}
use swanlake.Text.{Bytes, codes, bytes_eq, bytes_eq_iff}
use swanlake.Sql.Quoting.{join}
use swanlake.Service.Filters.{
  Expression, comparison, column_ref, constant, conjunction, operator, between, function, cast,
  unknown, Expressions, nil, cons, ◌>>=◌, conjunction_op, translated, non_empty_list,
  conjunction_sql, expression_to_sql, children_sql, parse_filters_to_where_clause,
}
use swanlake.Service.Filters.Spelled.{print, prints, supported, all_supported, all_true}
use swanlake.Service.Filters.Tables.{conjunction_op-connective_of}
use swanlake.Service.Filters.Whole.{expression_to_sql-print}

abbrev pub is_and : Expression → Bool
is_and (conjunction t es) = bytes_eq t (codes "CONJUNCTION_AND")
is_and e = false

-- Whether a row meets an expression, with what it makes of the expressions that are no `AND`.
unfoldable mutual
  unfolding bytes_eq

  pub meets : (Expression → Bool) → Expression → Bool
  meets row (conjunction t es) =
      if bytes_eq t (codes "CONJUNCTION_AND") then meets_all row es else row (conjunction t es)
  meets row (comparison t left right) = row (comparison t left right)
  meets row (column_ref alias) = row (column_ref alias)
  meets row (constant v) = row (constant v)
  meets row (operator t es) = row (operator t es)
  meets row (between i l u) = row (between i l u)
  meets row (function name es) = row (function name es)
  meets row (cast e) = row (cast e)
  meets row unknown = row unknown

  pub meets_all : (Expression → Bool) → Expressions → Bool
  meets_all row nil = true
  meets_all row (cons e es) = meets row e && meets_all row es

-- An expression has SQL for all of it, or none, unless it is an `AND` of such expressions.
abbrev pub IsWholeOrNone : Expression → Type 0
IsWholeOrNone e = (supported e ≡ true) ⊎ (expression_to_sql e ≡ none)

unfoldable mutual
  unfolding bytes_eq expression_to_sql supported

  pub IsSafe : Expression → Type 0
  IsSafe (conjunction t es) =
      if bytes_eq t (codes "CONJUNCTION_AND") then AreSafe es else IsWholeOrNone (conjunction t es)
  IsSafe (comparison t left right) = IsWholeOrNone (comparison t left right)
  IsSafe (column_ref alias) = IsWholeOrNone (column_ref alias)
  IsSafe (constant v) = IsWholeOrNone (constant v)
  IsSafe (operator t es) = IsWholeOrNone (operator t es)
  IsSafe (between i l u) = IsWholeOrNone (between i l u)
  IsSafe (function name es) = IsWholeOrNone (function name es)
  IsSafe (cast e) = IsWholeOrNone (cast e)
  IsSafe unknown = IsWholeOrNone unknown

  pub AreSafe : Expressions → Type 0
  AreSafe nil = Unit
  AreSafe (cons e es) = IsSafe e × AreSafe es

-- What the SQL of one expression, or of several, stands for: no row that meets them is lost.
abbrev Weaker : Expression → Bytes → Type 0
Weaker e s =
    (e' : Expression) × (print e' ≡ s)
    × (supported e' ≡ true)
    × ((row : Expression → Bool) → meets row e ≡ true → meets row e' ≡ true)

abbrev AllWeaker : Expressions → Type 0
AllWeaker es =
    (es' : Expressions) × (prints es' ≡ translated (children_sql es))
    × (all_true (all_supported es') ≡ true)
    × ((row : Expression → Bool) → meets_all row es ≡ true → meets_all row es' ≡ true)

Weaker-whole :
    (e : Expression) (s : Bytes) → IsWholeOrNone e → expression_to_sql e ≡ some s → Weaker e s
Weaker-whole e s (inl h) r = (e, cc (expression_to_sql-print e h, r), h, λ row m. m)
Weaker-whole e s (inr h) r = absurd (cc (h, r))

both : (a b : Bool) → a && b ≡ true → (a ≡ true) × (b ≡ true)
both true b h = (refl, h)
both false b h = absurd (cc h)

conjunction_op-and :
    (t : Bytes)
    → bytes_eq t (codes "CONJUNCTION_AND") ≡ true
    → conjunction_op t ≡ some (codes " AND ")
unfolding conjunction_op bytes_eq
conjunction_op-and t a =
    ap conjunction_op {y = codes "CONJUNCTION_AND"} ((bytes_eq_iff t (codes "CONJUNCTION_AND")).0 a)

non_empty-translated :
    (ss : List Bytes) (f : List Bytes → Option Bytes) (s : Bytes)
    → (non_empty_list ss >>= f) ≡ some s
    → f ss ≡ some s
non_empty-translated [] f s h = absurd (cc h)
non_empty-translated (t ∷ ss) f s h = h

non_empty-is_empty :
    (ss : List Bytes) (f : List Bytes → Option Bytes) (s : Bytes)
    → (non_empty_list ss >>= f) ≡ some s
    → is_empty ss ≡ false
non_empty-is_empty [] f s h = absurd (cc h)
non_empty-is_empty (t ∷ ss) f s h = refl

is_empty-prints : (es : Expressions) → is_empty (prints es) ≡ is_empty (all_supported es)
unfolding print supported
is_empty-prints nil = refl
is_empty-prints (cons e es) = refl

-- The SQL of an `AND`, if it has one.
and-conjunction_sql :
    (t : Bytes) (os : List (Option Bytes)) (s : Bytes)
    → conjunction_op t ≡ some (codes " AND ")
    → conjunction_sql t os ≡ some s
    → codes "(" ++ (join (codes " AND ") (translated os) ++ codes ")") ≡ s
and-conjunction_sql t os s e h = cc (rw e at (non_empty-translated (translated os) _ s h))

Weaker-and :
    (t : Bytes) (es : Expressions) (s : Bytes)
    → bytes_eq t (codes "CONJUNCTION_AND") ≡ true
    → AllWeaker es
    → conjunction_sql t (children_sql es) ≡ some s
    → Weaker (conjunction t es) s
unfolding print supported meets
Weaker-and t es s a (es', texts, fine, less) h =
    let e = conjunction_op-and t a in
    let some_part =
      sym (is_empty-prints es')
      ∙ ap is_empty texts
      ∙ non_empty-is_empty (translated (children_sql es)) _ s h in
    (
      conjunction t es',
      rw (sym (conjunction_op-connective_of t) ∙ e, texts)
          (and-conjunction_sql t (children_sql es) s e h),
      rw (sym (conjunction_op-connective_of t) ∙ e, fine, some_part) refl,
      λ row m. rw a (less row (rw a at m)),
    )

AllWeaker-cons :
    (e : Expression) (es : Expressions)
    → ((s : Bytes) → expression_to_sql e ≡ some s → Weaker e s)
    → AllWeaker es
    → AllWeaker (cons e es)
unfolding expression_to_sql print supported meets
AllWeaker-cons e es f (es', texts, fine, less) = elim (Option-cases (expression_to_sql e)) [
  | inl lost ↦
      (es', rw lost texts, fine, λ row m. less row (both (meets row e) (meets_all row es) m).1)
  | inr (s, found) ↦
      let (e', text, whole, weak) = f s found in
      (
        cons e' es',
        rw (found, text) (ap (λ ss. s ∷ ss) texts),
        rw (whole, fine) refl,
        λ row m.
            let (m1, m2) = both (meets row e) (meets_all row es) m in
            rw (weak row m1) (less row m2),
      )
]

then_of : (b : Bool) (A B : Type 0) → b ≡ true → (if b then A else B) → A
then_of true A B e x = x
then_of false A B e x = absurd (cc e)

else_of : (b : Bool) (A B : Type 0) → b ≡ false → (if b then A else B) → B
else_of true A B e x = absurd (cc e)
else_of false A B e x = x

mutual
  unfolding expression_to_sql meets IsSafe print supported

  Safe-Weaker :
      (e : Expression) → IsSafe e → (s : Bytes) → expression_to_sql e ≡ some s → Weaker e s
  Safe-Weaker (conjunction t es) h s r = elim (Bool-cases (bytes_eq t (codes "CONJUNCTION_AND"))) [
    | inl a ↦ Weaker-and t es s a (Safe-AllWeaker es (then_of _ _ _ a h)) r
    | inr o ↦ Weaker-whole (conjunction t es) s (else_of _ _ _ o h) r
  ]
  Safe-Weaker (comparison t left right) h s r = Weaker-whole (comparison t left right) s h r
  Safe-Weaker (column_ref alias) h s r = Weaker-whole (column_ref alias) s h r
  Safe-Weaker (constant v) h s r = Weaker-whole (constant v) s h r
  Safe-Weaker (operator t es) h s r = Weaker-whole (operator t es) s h r
  Safe-Weaker (between i l u) h s r = Weaker-whole (between i l u) s h r
  Safe-Weaker (function name es) h s r = Weaker-whole (function name es) s h r
  Safe-Weaker (cast e) h s r = Weaker-whole (cast e) s h r
  Safe-Weaker unknown h s r = Weaker-whole unknown s h r

  Safe-AllWeaker : (es : Expressions) → AreSafe es → AllWeaker es
  Safe-AllWeaker nil h = (nil, refl, refl, λ row m. m)
  Safe-AllWeaker (cons e es) h = AllWeaker-cons e es (Safe-Weaker e h.0) (Safe-AllWeaker es h.1)

-- Each filter of a scan is one that the reference covers, or has no SQL, or is an `AND` of such ones.
-- Then the text behind the `WHERE` is the reference's SQL of some expressions that it covers, joined
-- by `AND`, and every row that meets the filters meets these, whatever a row makes of expressions
-- that are no `AND`, so long as it meets an `AND` exactly if it meets all of its parts. The condition
-- leaves out a cast that has SQL, and an `OR` that has SQL while one of its parts has none.
pub parse_filters_to_where_clause_keeps :
    (parse : Bytes → Option Expressions) (json_filters : Bytes) (filters : Expressions) (s : Bytes)
    → parse json_filters ≡ some filters
    → AreSafe filters
    → parse_filters_to_where_clause parse json_filters ≡ some s
    → (pushed : Expressions) × (join (codes " AND ") (prints pushed) ≡ s)
      × (all_true (all_supported pushed) ≡ true)
      × ((row : Expression → Bool) → meets_all row filters ≡ true → meets_all row pushed ≡ true)
unfolding parse_filters_to_where_clause
parse_filters_to_where_clause_keeps parse json_filters filters s read safe h =
    let (pushed, texts, fine, weak) = Safe-AllWeaker filters safe in
    (pushed, rw texts (joined (is_empty json_filters) h), fine, weak)
  where
    joined :
        (b : Bool)
        → (if b
            then none
            else (parse json_filters >>= λ fs.
                non_empty_list (translated (children_sql fs)) >>= λ conditions.
                some (join (codes " AND ") conditions)))
          ≡ some s
        → join (codes " AND ") (translated (children_sql filters)) ≡ s
    joined true h = absurd (cc h)
    joined false h =
        cc (non_empty-translated (translated (children_sql filters)) _ s (rw read at h))
