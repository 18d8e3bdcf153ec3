-- ===== src/Session/Prepared/Parameters.antt =====
-- The parameters of a prepared statement, and what a close leaves.
use swanlake.Prelude.{
  ℕ, ◌≢◌, ◌≡◌, refl, ap, ◌∙◌, ◌==◌, ==_refl, ==_iff, List, Option, none, some, arith, Bool-cases,
  Option-cases, inl, inr, if◌then◌else◌,
}
use swanlake.Error.{prepared_statement_not_found, ok, err}
use swanlake.Dict.{nat_eq, lookup, insert, lookup-insert, lookup-remove}
use swanlake.Dict.Entries.{lookup-none}
use swanlake.Session.Prepared.{
  meta_result, PreparedStatementState, PreparedStatements, get_prepared_statement_meta,
  on_statement, set_prepared_statement_parameters, take_prepared_statement_parameters, forget_last,
  close_prepared_statement,
}
use swanlake.Session.Prepared.Handles.{IsValid, some_injective}

forget_last_forgets : (h : ℕ) (last : Option ℕ) → forget_last h last ≢ some h
forget_last_forgets h none same = absurd (cc same)
forget_last_forgets h (some i) same = elim (Bool-cases (i == h)) [
  | inl hit ↦ absurd (cc (rw hit at same))
  | inr miss ↦ absurd (ground (arith, some_injective (rw miss at same)))
]

module _ {S V : Type 0} where
  on_statement_absent {ℓ} :
      {A : Type ℓ} (h : ℕ) (f : PreparedStatementState S V → A × PreparedStatementState S V)
      (p : PreparedStatements S V)
      → lookup h p.statements ≡ none
      → on_statement h f p ≡ (err prepared_statement_not_found, p)
  unfolding on_statement
  on_statement_absent h f p absent = rw (absent, on_statement) refl

  lookup_inserted :
      (h : ℕ) (x : PreparedStatementState S V) (m : List (ℕ × PreparedStatementState S V))
      → lookup h (insert h x m) ≡ some x
  lookup_inserted h x m =
      lookup-insert h h x m ∙ ap (λ b. if b then some x else lookup h m) (==_refl h)

  on_statement_there {ℓ} :
      {A : Type ℓ} (h : ℕ) (f : PreparedStatementState S V → A × PreparedStatementState S V)
      (p : PreparedStatements S V) (x : PreparedStatementState S V)
      → lookup h p.statements ≡ some x
      → ((on_statement h f p).0 ≡ ok (f x).0)
        × (lookup h (on_statement h f p).1.statements ≡ some (f x).1)
  unfolding on_statement
  on_statement_there h f p x there =
      rw (there, on_statement) (refl, lookup_inserted h (f x).1 p.statements)

  -- The parameters that were set for an open statement are taken once: the first call that takes
  -- them returns them, the next one finds none, and the statement itself stays as it was.
  pub take-set_parameters :
      (h : ℕ) (params : List V) (p : PreparedStatements S V) (x : PreparedStatementState S V)
      → lookup h p.statements ≡ some x
      → let set = set_prepared_statement_parameters h params p in
        let taken = take_prepared_statement_parameters h set.1 in
        let again = take_prepared_statement_parameters h taken.1 in
        (set.0 ≡ ok tt)
        × (taken.0 ≡ ok (some params))
        × (again.0 ≡ ok none)
        × (get_prepared_statement_meta h again.1 ≡ ok x.meta)
  unfolding set_prepared_statement_parameters take_prepared_statement_parameters
      get_prepared_statement_meta
  take-set_parameters h params p x there =
      let set = on_statement_there h _ p x there in
      let taken = on_statement_there h _ _ _ set.1 in
      let again = on_statement_there h _ _ _ taken.1 in
      (set.0, taken.0, again.0, ap meta_result again.1)

  lookup-close :
      (h j : ℕ) (p : PreparedStatements S V)
      → lookup j (close_prepared_statement h p).1.statements
        ≡ (if j == h then none else lookup j p.statements)
  unfolding close_prepared_statement
  lookup-close h j p = elim (Option-cases (lookup h p.statements)) [
    | inr (x, there) ↦ rw (there, close_prepared_statement) (lookup-remove h j p.statements)
    | inl absent ↦
        rw (absent, close_prepared_statement)
          (elim (Bool-cases (j == h)) [
            | inl hit ↦ rw hit (ap (λ k. lookup k p.statements) ((==_iff j h).0 hit) ∙ absent)
            | inr miss ↦ rw miss refl
          ])
  ]

  closed_unknown :
      (h : ℕ) (params : List V) (q : PreparedStatements S V)
      → lookup h q.statements ≡ none
      → (get_prepared_statement_meta h q ≡ err prepared_statement_not_found)
        × (set_prepared_statement_parameters h params q ≡ (err prepared_statement_not_found, q))
        × (take_prepared_statement_parameters h q ≡ (err prepared_statement_not_found, q))
        × (close_prepared_statement h q ≡ (err prepared_statement_not_found, q))
  unfolding get_prepared_statement_meta set_prepared_statement_parameters
      take_prepared_statement_parameters close_prepared_statement
  closed_unknown h params q absent = (
    ap meta_result absent,
    on_statement_absent h _ q absent,
    on_statement_absent h _ q absent,
    rw (absent, close_prepared_statement) refl,
  )

  last-close :
      (h : ℕ) (p : PreparedStatements S V)
      → IsValid p
      → (close_prepared_statement h p).1.last_handle ≢ some h
  unfolding close_prepared_statement
  last-close h p v = elim (Option-cases (lookup h p.statements)) [
    | inl absent ↦
        rw (absent, close_prepared_statement)
          (λ same. absurd (cc (v.last_open h same, lookup-none h p.statements absent)))
    | inr (x, there) ↦ rw (there, close_prepared_statement) (forget_last_forgets h p.last_handle)
  ]

  -- Behind a close, its handle is unknown to every call, and it is not the last handle; the other
  -- handles are as they were.
  pub close_prepared_statement_forgets :
      (h j : ℕ) (params : List V) (p : PreparedStatements S V)
      → IsValid p
      → let closed = close_prepared_statement h p in
        (get_prepared_statement_meta h closed.1 ≡ err prepared_statement_not_found)
        × (set_prepared_statement_parameters h params closed.1
            ≡ (err prepared_statement_not_found, closed.1))
        × (take_prepared_statement_parameters h closed.1
            ≡ (err prepared_statement_not_found, closed.1))
        × (close_prepared_statement h closed.1 ≡ (err prepared_statement_not_found, closed.1))
        × (closed.1.last_handle ≢ some h)
        × (lookup j closed.1.statements ≡ (if j == h then none else lookup j p.statements))
  close_prepared_statement_forgets h j params p v =
      let absent =
        lookup-close h h p ∙ ap (λ b. if b then none else lookup h p.statements) (==_refl h) in
      let unknown = closed_unknown h params (close_prepared_statement h p).1 absent in
      (unknown.0, unknown.1, unknown.2, unknown.3, last-close h p v, lookup-close h j p)
