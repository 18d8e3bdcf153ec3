-- ===== src/Sql/Syntax/Shape.antt =====
-- sql/parser.rs: the shape of the rows of `INSERT … VALUES`.
use swanlake.Prelude.{
  ℕ, ◌≡◌, refl, sym, subst, true, false, not, List, [], ◌∷◌, Option, none, some, ◌==◌, ◌↔◌, ◌<◌,
  any, All, length, arith, Bool-cases, inl, inr,
}
use swanlake.Sql.Syntax.{Expr, Statement, insert_rows, shape_of, shaped, insert_values_shape}

abbrev Row : Type 0
Row = List Expr

-- Rows that are all of one width.
abbrev AllWide : ℕ → List Row → Type 0
AllWide w = All (λ r. length r ≡ w)

none-ragged :
    (w : ℕ) (rows : List Row) → any (λ r. not (length r == w)) rows ≡ false → AllWide w rows
none-ragged w [] h = tt
none-ragged w (r ∷ rows) h = (ground arith, none-ragged w rows (ground arith))

AllWide-any :
    (w : ℕ) (rows : List Row) → AllWide w rows → any (λ r. not (length r == w)) rows ≡ false
AllWide-any w [] h = refl
AllWide-any w (r ∷ rows) (e, h) = let rest = AllWide-any w rows h in ground arith

-- What the shape of some rows says.
abbrev pub HasShape : ℕ → ℕ → Option (List Row) → Type 0
HasShape n w none = true ≡ false
HasShape n w (some rows) = (0 < n) × (0 < w) × (length rows ≡ n) × AllWide w rows

pair-eq : (a b n w : ℕ) → ◌≡◌ {A = Option (ℕ × ℕ)} (some (a, b)) (some (n, w)) → (a ≡ n) × (b ≡ w)
pair-eq a b n w h = (cc h, cc h)

shape_of-HasShape :
    (rows : List Row) (n w : ℕ) → shape_of rows ≡ some (n, w) → HasShape n w (some rows)
shape_of-HasShape [] n w h = absurd (cc h)
shape_of-HasShape (row ∷ rows) n w h = elim (Bool-cases (length row == 0)) [
  | inl e ↦ absurd (cc (rw e at h))
  | inr e ↦ elim (Bool-cases (any (λ r. not (length r == length row)) rows)) [
    | inl bad ↦ absurd (cc (rw (e, bad) at h))
    | inr good ↦
        let (count, width) = pair-eq (length (row ∷ rows)) (length row) n w (rw (e, good) at h) in
        let wide : 0 < length row = ground (arith, e) in
        subst (λ v. HasShape v w (some (row ∷ rows))) count
          (subst (λ v. HasShape (length (row ∷ rows)) v (some (row ∷ rows))) width
            (omega arith, wide, refl, (refl, none-ragged (length row) rows good)))
  ]
]

same_width :
    (row : Row) (rows : List Row)
    → 0 < length row
    → AllWide (length row) rows
    → shape_of (row ∷ rows) ≡ some (length (row ∷ rows), length row)
same_width row rows wide all =
    let not_empty : length row == 0 ≡ false = ground (arith, wide) in
    rw (not_empty, AllWide-any (length row) rows all) refl

HasShape-shape_of :
    (rows : List Row) (n w : ℕ) → HasShape n w (some rows) → shape_of rows ≡ some (n, w)
HasShape-shape_of [] n w (pos, wide, count, all) = absurd (omega (arith, pos, count))
HasShape-shape_of (row ∷ rows) n w (pos, wide, count, (e, all)) =
    let found =
      same_width row rows (omega (arith, wide, e)) (subst (λ v. AllWide v rows) (sym e) all) in
    subst (λ v. shape_of (row ∷ rows) ≡ some (v, w)) count
      (subst (λ v. shape_of (row ∷ rows) ≡ some (length (row ∷ rows), v)) e found)

shaped_iff : (o : Option (List Row)) (n w : ℕ) → shaped o ≡ some (n, w) ↔ HasShape n w o
shaped_iff none n w = (λ h. absurd (cc h), λ h. absurd (cc h))
shaped_iff (some rows) n w = (shape_of-HasShape rows n w, HasShape-shape_of rows n w)

-- The shape is found exactly if the statement has at least one row, and no row is empty or of
-- another width than the rest; then it is the number of the rows and their width.
pub insert_values_shape_iff :
    (s : Statement) (n w : ℕ) → insert_values_shape s ≡ some (n, w) ↔ HasShape n w (insert_rows s)
unfolding insert_values_shape
insert_values_shape_iff s n w = shaped_iff (insert_rows s) n w
