-- ===== src/Sql/Syntax/Attributed.antt =====
-- sql/parser.rs: `parameter_columns` names, for each placeholder, the column that it stands beside.
use swanlake.Prelude.{
  ℕ, ◌+◌, ◌≡◌, refl, sym, ap₂, ◌∙◌, List, [], ◌∷◌, ◌++◌, append_assoc, append-nil, Option, none,
  some, length, length-append, arith,
}
use swanlake.Text.{Bytes}
use swanlake.Sql.Syntax.{
  Expr, identifier, compound_identifier, placeholder, nested, cast, binary_op, between, in_list,
  Exprs, nil, cons,
}
use swanlake.Sql.Syntax.Parameters.{
  Columns, column_name, collect_placeholders_with_column, collect_items_with_column,
}

-- The column of an outer comparison, or else the one of this.
abbrev pub outer : Option Bytes → Option Bytes → Option Bytes
outer none here = here
outer (some col) here = some col

-- The reference: a walk over the whole tree from left to right, with the column that it is beside.
unfoldable mutual
  pub attributed : Option Bytes → Expr → Columns
  attributed ctx placeholder = ctx ∷ []
  attributed ctx (nested e) = attributed ctx e
  attributed ctx (cast e) = attributed ctx e
  attributed ctx (binary_op left right) =
      attributed (outer ctx (column_name right)) left
      ++ attributed (outer ctx (column_name left)) right
  attributed ctx (between e low high) =
      attributed ctx e
      ++ (attributed (outer ctx (column_name e)) low ++ attributed (outer ctx (column_name e)) high)
  attributed ctx (in_list e es) = attributed ctx e ++ all_attributed (outer ctx (column_name e)) es
  attributed ctx (identifier x) = []
  attributed ctx (compound_identifier xs) = []
  attributed ctx (Expr.other es) = all_attributed ctx es

  pub all_attributed : Option Bytes → Exprs → Columns
  all_attributed ctx nil = []
  all_attributed ctx (cons e es) = attributed ctx e ++ all_attributed ctx es

unfoldable mutual
  pub placeholders : Expr → ℕ
  placeholders placeholder = 1
  placeholders (nested e) = placeholders e
  placeholders (cast e) = placeholders e
  placeholders (binary_op left right) = placeholders left + placeholders right
  placeholders (between e low high) = placeholders e + (placeholders low + placeholders high)
  placeholders (in_list e es) = placeholders e + all_placeholders es
  placeholders (identifier x) = 0
  placeholders (compound_identifier xs) = 0
  placeholders (Expr.other es) = all_placeholders es

  pub all_placeholders : Exprs → ℕ
  all_placeholders nil = 0
  all_placeholders (cons e es) = placeholders e + all_placeholders es

-- No placeholder is in the tested value of a `BETWEEN` or an `IN`, or in an expression of another form.
unfoldable mutual
  unfolding placeholders

  pub HasFreeSubjects : Expr → Type 0
  HasFreeSubjects placeholder = Unit
  HasFreeSubjects (nested e) = HasFreeSubjects e
  HasFreeSubjects (cast e) = HasFreeSubjects e
  HasFreeSubjects (binary_op left right) = HasFreeSubjects left × HasFreeSubjects right
  HasFreeSubjects (between e low high) =
      (placeholders e ≡ 0) × HasFreeSubjects low × HasFreeSubjects high
  HasFreeSubjects (in_list e es) = (placeholders e ≡ 0) × AllHaveFreeSubjects es
  HasFreeSubjects (identifier x) = Unit
  HasFreeSubjects (compound_identifier xs) = Unit
  HasFreeSubjects (Expr.other es) = all_placeholders es ≡ 0

  pub AllHaveFreeSubjects : Exprs → Type 0
  AllHaveFreeSubjects nil = Unit
  AllHaveFreeSubjects (cons e es) = HasFreeSubjects e × AllHaveFreeSubjects es

-- What stands beside a column has free subjects.
abbrev pub IsFreeBeside : Option Bytes → Expr → Type 0
IsFreeBeside none e = Unit
IsFreeBeside (some col) e = HasFreeSubjects e

abbrev pub AllFreeBeside : Option Bytes → Exprs → Type 0
AllFreeBeside none es = Unit
AllFreeBeside (some col) es = AllHaveFreeSubjects es

unfoldable mutual
  unfolding HasFreeSubjects

  pub IsPlain : Expr → Type 0
  IsPlain placeholder = Unit
  IsPlain (nested e) = IsPlain e
  IsPlain (cast e) = IsPlain e
  IsPlain (binary_op left right) =
      IsFreeBeside (column_name left) right
      × IsFreeBeside (column_name right) left
      × IsPlain left
      × IsPlain right
  IsPlain (between e low high) =
      IsFreeBeside (column_name e) low
      × IsFreeBeside (column_name e) high
      × IsPlain e
      × IsPlain low
      × IsPlain high
  IsPlain (in_list e es) = AllFreeBeside (column_name e) es × IsPlain e × ArePlain es
  IsPlain (identifier x) = Unit
  IsPlain (compound_identifier xs) = Unit
  IsPlain (Expr.other es) = all_placeholders es ≡ 0

  pub ArePlain : Exprs → Type 0
  ArePlain nil = Unit
  ArePlain (cons e es) = IsPlain e × ArePlain es

-- Each placeholder is met once, whatever it stands beside.
mutual
  unfolding attributed placeholders

  pub length-attributed :
      (ctx : Option Bytes) (e : Expr) → length (attributed ctx e) ≡ placeholders e
  length-attributed ctx placeholder = refl
  length-attributed ctx (nested e) = length-attributed ctx e
  length-attributed ctx (cast e) = length-attributed ctx e
  length-attributed ctx (binary_op left right) =
      length-append (attributed (outer ctx (column_name right)) left)
        (attributed (outer ctx (column_name left)) right)
      ∙ ap₂ (λ m n. m + n) (length-attributed _ left) (length-attributed _ right)
  length-attributed ctx (between e low high) =
      length-append (attributed ctx e) _
      ∙ ap₂ (λ m n. m + n) (length-attributed ctx e)
          (length-append (attributed (outer ctx (column_name e)) low) _
            ∙ ap₂ (λ m n. m + n) (length-attributed _ low) (length-attributed _ high))
  length-attributed ctx (in_list e es) =
      length-append (attributed ctx e) _
      ∙ ap₂ (λ m n. m + n) (length-attributed ctx e) (length-all_attributed _ es)
  length-attributed ctx (identifier x) = refl
  length-attributed ctx (compound_identifier xs) = refl
  length-attributed ctx (Expr.other es) = length-all_attributed ctx es

  length-all_attributed :
      (ctx : Option Bytes) (es : Exprs) → length (all_attributed ctx es) ≡ all_placeholders es
  length-all_attributed ctx nil = refl
  length-all_attributed ctx (cons e es) =
      length-append (attributed ctx e) _
      ∙ ap₂ (λ m n. m + n) (length-attributed ctx e) (length-all_attributed ctx es)

pub empty-length {ℓ} : {A : Type ℓ} (xs : List A) → length xs ≡ 0 → xs ≡ []
empty-length [] h = refl
empty-length (x ∷ xs) h = absurd (omega (arith, h))

pub no-placeholders : (ctx : Option Bytes) (e : Expr) → placeholders e ≡ 0 → attributed ctx e ≡ []
no-placeholders ctx e h = empty-length (attributed ctx e) (length-attributed ctx e ∙ h)

pub none-attributed :
    (ctx : Option Bytes) (es : Exprs) → all_placeholders es ≡ 0 → all_attributed ctx es ≡ []
none-attributed ctx es h = empty-length (all_attributed ctx es) (length-all_attributed ctx es ∙ h)

-- What is pushed beside a column.
mutual
  unfolding collect_placeholders_with_column attributed HasFreeSubjects

  pub collect_placeholders-attributed :
      (e : Expr) (col : Bytes) (out : Columns)
      → HasFreeSubjects e
      → collect_placeholders_with_column e (some col) out ≡ out ++ attributed (some col) e
  collect_placeholders-attributed placeholder col out h = refl
  collect_placeholders-attributed (nested e) col out h = collect_placeholders-attributed e col out h
  collect_placeholders-attributed (cast e) col out h = collect_placeholders-attributed e col out h
  collect_placeholders-attributed (binary_op left right) col out h =
      rw
        (
          collect_placeholders-attributed left col out h.0,
          collect_placeholders-attributed right col (out ++ attributed (some col) left) h.1,
        )
        (append_assoc out (attributed (some col) left) (attributed (some col) right))
  collect_placeholders-attributed (between e low high) col out h =
      rw
        (
          no-placeholders (some col) e h.0,
          collect_placeholders-attributed low col out h.1,
          collect_placeholders-attributed high col (out ++ attributed (some col) low) h.2,
        )
        (append_assoc out (attributed (some col) low) (attributed (some col) high))
  collect_placeholders-attributed (in_list e es) col out h =
      rw (no-placeholders (some col) e h.0) (collect_items-attributed es col out h.1)
  collect_placeholders-attributed (identifier x) col out h = sym (append-nil out)
  collect_placeholders-attributed (compound_identifier xs) col out h = sym (append-nil out)
  collect_placeholders-attributed (Expr.other es) col out h =
      rw (none-attributed (some col) es h) (sym (append-nil out))

  pub collect_items-attributed :
      (es : Exprs) (col : Bytes) (out : Columns)
      → AllHaveFreeSubjects es
      → collect_items_with_column es (some col) out ≡ out ++ all_attributed (some col) es
  collect_items-attributed nil col out h = sym (append-nil out)
  collect_items-attributed (cons e es) col out h =
      rw
        (
          collect_placeholders-attributed e col out h.0,
          collect_items-attributed es col (out ++ attributed (some col) e) h.1,
        )
        (append_assoc out (attributed (some col) e) (all_attributed (some col) es))
