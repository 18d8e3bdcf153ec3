-- ===== src/Sql/Syntax/Named.antt =====
-- sql/parser.rs: `parameter_columns` against the walk over the tree.
use swanlake.Prelude.{
  ◌≡◌, refl, sym, ap, ◌∙◌, [], ◌∷◌, ◌++◌, append_assoc, append-nil, Option, none, some, ◌==◌,
  if◌then◌else◌, length, length-append, arith,
}
use swanlake.Text.{Bytes}
use swanlake.Sql.Syntax.{
  Expr, identifier, compound_identifier, placeholder, nested, cast, binary_op, between, in_list,
  Exprs, nil, cons,
}
use swanlake.Sql.Syntax.Parameters.{
  Columns, column_name, collect_placeholders_with_column, collect_items_with_column, beside,
  unless_longer, collect_params_from_expr, collect_params_from_items,
}
use swanlake.Sql.Syntax.Attributed.{
  attributed, all_attributed, placeholders, IsFreeBeside, AllFreeBeside, IsPlain, ArePlain,
  no-placeholders, none-attributed, length-attributed, collect_placeholders-attributed,
  collect_items-attributed,
}

unless_longer-append :
    (out ys next : Columns)
    → (ys ≡ [] → next ≡ out)
    → unless_longer out (out ++ ys) next ≡ out ++ ys
unless_longer-append out [] next h = rw (append-nil out, h refl) (same out)
  where
    same : (out : Columns) → (if length out == length out then out else out) ≡ out
    same out = ground arith
unless_longer-append out (y ∷ ys) next h = let l = length-append out (y ∷ ys) in ground (arith, l)

unless_longer-none : (out next : Columns) → unless_longer out out next ≡ next
unless_longer-none out next = ground arith

column-free : (e : Expr) (col : Bytes) → column_name e ≡ some col → placeholders e ≡ 0
unfolding placeholders
column-free (identifier x) col h = refl
column-free (compound_identifier xs) col h = refl
column-free placeholder col h = absurd (cc h)
column-free (nested e) col h = absurd (cc h)
column-free (cast e) col h = absurd (cc h)
column-free (binary_op left right) col h = absurd (cc h)
column-free (between e low high) col h = absurd (cc h)
column-free (in_list e es) col h = absurd (cc h)
column-free (Expr.other es) col h = absurd (cc h)

beside-nothing :
    (c : Option Bytes) (e : Expr) (out : Columns)
    → IsFreeBeside c e
    → placeholders e ≡ 0
    → beside c e out ≡ out
beside-nothing none e out f h = refl
beside-nothing (some col) e out f h =
    collect_placeholders-attributed e col out f
    ∙ ap (out ++◌) (no-placeholders (some col) e h)
    ∙ append-nil out

nothing-attributed : (col : Bytes) (e : Expr) → attributed (some col) e ≡ [] → placeholders e ≡ 0
nothing-attributed col e h = sym (length-attributed (some col) e) ∙ ap length h

-- `both` is what a comparison pushes if no side of it is a column.
binary-attributed :
    (l r : Option Bytes) (left right : Expr) (out both : Columns)
    → (l ≡ column_name left)
    → (r ≡ column_name right)
    → IsFreeBeside l right
    → IsFreeBeside r left
    → both ≡ (out ++ attributed none left) ++ attributed none right
    → unless_longer out (beside l right out) (unless_longer out (beside r left out) both)
      ≡ out ++ (attributed r left ++ attributed l right)
binary-attributed none none left right out both el er fl fr h =
    rw (unless_longer-none out both, unless_longer-none out both) (h ∙ append_assoc out _ _)
binary-attributed none (some c) left right out both el er fl fr h =
    let free = column-free right c (sym er) in
    rw
      (
        unless_longer-none out (unless_longer out (beside (some c) left out) both),
        collect_placeholders-attributed left c out fr,
        no-placeholders none right free,
        append-nil (attributed (some c) left),
      )
      (unless_longer-append out (attributed (some c) left) both (λ e.
        h
        ∙ cc (
          no-placeholders none left (nothing-attributed c left e),
          no-placeholders none right free,
          append-nil out,
        )))
binary-attributed (some c) r left right out both el er fl fr h =
    let free = column-free left c (sym el) in
    rw (collect_placeholders-attributed right c out fl, no-placeholders r left free)
      (unless_longer-append out (attributed (some c) right)
        (unless_longer out (beside r left out) both)
        (λ e. rw (beside-nothing r left out fr free) (
          unless_longer-none out both
          ∙ h
          ∙ cc (
            no-placeholders none right (nothing-attributed c right e),
            no-placeholders none left free,
            append-nil out,
          ))))

-- `rest` is what a `BETWEEN` pushes if it does not test a column.
between-attributed :
    (c : Option Bytes) (e low high : Expr) (out rest : Columns)
    → c ≡ column_name e
    → IsFreeBeside c low
    → IsFreeBeside c high
    → rest ≡ ((out ++ attributed none e) ++ attributed none low) ++ attributed none high
    → elim c as (λ x. Columns) [
      | some col ↦
          collect_placeholders_with_column high
            (some col)
            (collect_placeholders_with_column low (some col) out)
      | none ↦ rest
    ]
      ≡ out ++ (attributed none e ++ (attributed c low ++ attributed c high))
between-attributed none e low high out rest ec fl fh h =
    h
    ∙ append_assoc (out ++ attributed none e) (attributed none low) (attributed none high)
    ∙ append_assoc out (attributed none e) (attributed none low ++ attributed none high)
between-attributed (some col) e low high out rest ec fl fh h =
    rw
      (
        no-placeholders none e (column-free e col (sym ec)),
        collect_placeholders-attributed low col out fl,
        collect_placeholders-attributed high col (out ++ attributed (some col) low) fh,
      )
      (append_assoc out (attributed (some col) low) (attributed (some col) high))

in_list-attributed :
    (c : Option Bytes) (e : Expr) (es : Exprs) (out rest : Columns)
    → c ≡ column_name e
    → AllFreeBeside c es
    → rest ≡ (out ++ attributed none e) ++ all_attributed none es
    → elim c as (λ x. Columns) [
      | some col ↦ collect_items_with_column es (some col) out
      | none ↦ rest
    ]
      ≡ out ++ (attributed none e ++ all_attributed c es)
in_list-attributed none e es out rest ec f h =
    h ∙ append_assoc out (attributed none e) (all_attributed none es)
in_list-attributed (some col) e es out rest ec f h =
    rw (no-placeholders none e (column-free e col (sym ec))) (collect_items-attributed es col out f)

mutual
  unfolding collect_params_from_expr attributed IsPlain

  pub collect_params-attributed :
      (e : Expr) (out : Columns)
      → IsPlain e
      → collect_params_from_expr e out ≡ out ++ attributed none e
  collect_params-attributed placeholder out h = refl
  collect_params-attributed (nested e) out h = collect_params-attributed e out h
  collect_params-attributed (cast e) out h = collect_params-attributed e out h
  collect_params-attributed (binary_op left right) out (fl, fr, pl, pr) =
      binary-attributed (column_name left) (column_name right) left right out _ refl refl fl fr (
        collect_params-attributed right (collect_params_from_expr left out) pr
        ∙ ap (λ o. o ++ attributed none right) (collect_params-attributed left out pl))
  collect_params-attributed (between e low high) out (fl, fh, pe, pl, ph) =
      between-attributed (column_name e) e low high out _ refl fl fh (
        collect_params-attributed high
          (collect_params_from_expr low (collect_params_from_expr e out)) ph
        ∙ ap (λ o. o ++ attributed none high)
            (collect_params-attributed low (collect_params_from_expr e out) pl
              ∙ ap (λ o. o ++ attributed none low) (collect_params-attributed e out pe)))
  collect_params-attributed (in_list e es) out (f, pe, ps) =
      in_list-attributed (column_name e) e es out _ refl f (
        collect_items-none es (collect_params_from_expr e out) ps
        ∙ ap (λ o. o ++ all_attributed none es) (collect_params-attributed e out pe))
  collect_params-attributed (identifier x) out h = sym (append-nil out)
  collect_params-attributed (compound_identifier xs) out h = sym (append-nil out)
  collect_params-attributed (Expr.other es) out h =
      rw (none-attributed none es h) (sym (append-nil out))

  collect_items-none :
      (es : Exprs) (out : Columns)
      → ArePlain es
      → collect_params_from_items es out ≡ out ++ all_attributed none es
  collect_items-none nil out h = sym (append-nil out)
  collect_items-none (cons e es) out h =
      collect_items-none es (collect_params_from_expr e out) h.1
      ∙ ap (λ o. o ++ all_attributed none es) (collect_params-attributed e out h.0)
      ∙ append_assoc out (attributed none e) (all_attributed none es)
