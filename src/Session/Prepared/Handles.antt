-- ===== src/Session/Prepared/Handles.antt =====
-- The handles of prepared statements: fresh, and the last one is open.
use swanlake.Prelude.{
  ℕ, ◌+◌, ◌<◌, ◌≡◌, refl, ◌>>=◌, panicked, IfDone, Bool, true, ◌==◌, List, Option, none, some,
  arith, Bool-cases, Option-cases, inl, inr, Checked, done, if◌then◌else◌,
}
use swanlake.Text.{Bytes}
use swanlake.Error.{ServerError, ok, err}
use swanlake.Dict.{nat_eq, lookup, remove, has_key, lookup-insert, has_key-lookup}
use swanlake.Dict.Entries.{lookup-some}
use swanlake.Dict.Sizes.{has_key-insert, has_key-remove}
use swanlake.Session.Admission.{validate_user_sql}
use swanlake.Session.State.{Session, u64_mod, touch}
use swanlake.Session.Prepared.{
  PreparedStatementState, PreparedStatementOptions, PreparedStatements, meta_of, new_state,
  prepared, registered_statement, create_prepared_statement, on_statement,
  cache_prepared_statement_schema, set_prepared_statement_parameters,
  take_prepared_statement_parameters, forget_last, close_prepared_statement,
}

-- The last handle is open, and all handles were issued.
pub record IsValid {S V : Type 0} (p : PreparedStatements S V) : Type 0 where
  pub last_open : (h : ℕ) → p.last_handle ≡ some h → has_key h p.statements ≡ true
  pub issued : (h : ℕ) → has_key h p.statements ≡ true → h < p.next_handle

pub some_injective : {a b : ℕ} → some a ≡ some b → a ≡ b
some_injective q = cc q

module _ {S V : Type 0} where
  abbrev pub Created :
      {W : Type 0}
      → ℕ
      → Bytes
      → Bool
      → PreparedStatementOptions S
      → Session W S
      → PreparedStatements S V
      → ℕ
      → Option ServerError
      → Type 0
  Created now sql is_query o s p j (some e) =
      create_prepared_statement now sql is_query o s p ≡ done (err e, (s, p))
  Created now sql is_query o s p j none =
      let h = p.next_handle in
      let p' = (prepared (meta_of sql is_query o) p).1 in
      (create_prepared_statement now sql is_query o s p ≡ done (ok h, (touch now s, p')))
      × (lookup h p.statements ≡ none)
      × (p'.last_handle ≡ some h)
      × (lookup j p'.statements
          ≡ (if j == h then some (new_state (meta_of sql is_query o)) else lookup j p.statements))

  pub prepared-IsValid :
      (p : PreparedStatements S V) (meta : _)
      → p.next_handle + 1 < u64_mod
      → IsValid p
      → IsValid (prepared meta p).1
  unfolding prepared
  prepared-IsValid p meta bound v = record {
    last_open = λ h same.
        ground (
          arith,
          some_injective same,
          has_key-insert p.next_handle h (new_state meta) p.statements,
        );
    issued = λ h there.
        ground (arith, v.issued h, has_key-insert p.next_handle h (new_state meta) p.statements);
  }

  on_statement-IsValid {ℓ} :
      {A : Type ℓ} (h : ℕ) (f : PreparedStatementState S V → A × PreparedStatementState S V)
      (p : PreparedStatements S V)
      → IsValid p
      → IsValid (on_statement h f p).1
  unfolding on_statement
  on_statement-IsValid h f p v = elim (Option-cases (lookup h p.statements)) [
    | inl absent ↦ rw (absent, on_statement) v
    | inr (x, there) ↦
        rw (there, on_statement)
          (record {
            last_open = λ j same.
                ground (arith, has_key-insert h j (f x).1 p.statements, v.last_open j same);
            issued = λ j open_. ground (
              arith,
              has_key-insert h j (f x).1 p.statements,
              v.issued j,
              v.issued h (lookup-some h x p.statements there),
            );
          })
  ]

  close-IsValid :
      (h : ℕ) (p : PreparedStatements S V) → IsValid p → IsValid (close_prepared_statement h p).1
  unfolding close_prepared_statement
  close-IsValid h p v = elim (Option-cases (lookup h p.statements)) [
    | inl absent ↦ rw (absent, close_prepared_statement) v
    | inr (x, there) ↦
        rw (there, close_prepared_statement)
          (record {
            last_open = λ j. kept j p.last_handle refl;
            issued = λ j open_. ground (arith, has_key-remove h j p.statements, v.issued j);
          })
  ]
    where
      kept :
          (j : ℕ) (last : Option ℕ)
          → p.last_handle ≡ last
          → forget_last h last ≡ some j
          → has_key j (remove h p.statements) ≡ true
      kept j none e same = absurd (cc same)
      kept j (some i) e same = elim (Bool-cases (i == h)) [
        | inl hit ↦ absurd (cc (rw hit at same))
        | inr miss ↦ ground (
          arith,
          has_key-remove h j p.statements,
          v.last_open i e,
          some_injective (rw miss at same),
        )
      ]

  -- Every call keeps the prepared statements valid, while the handle generator has not wrapped
  -- around: the last handle is open, and every open handle was issued before.
  pub prepared_statements-IsValid :
      {W : Type 0} (now h : ℕ) (sql : Bytes) (is_query : Bool) (o : PreparedStatementOptions S)
      (schema : S) (params : List V) (s : Session W S) (p : PreparedStatements S V)
      → IsValid p
      → p.next_handle + 1 < u64_mod
      → IfDone (λ x. IsValid x.1.1) (create_prepared_statement now sql is_query o s p)
        × IsValid (cache_prepared_statement_schema h schema p).1
        × IsValid (set_prepared_statement_parameters h params p).1
        × IsValid (take_prepared_statement_parameters h p).1
        × IsValid (close_prepared_statement h p).1
  unfolding create_prepared_statement cache_prepared_statement_schema
      set_prepared_statement_parameters take_prepared_statement_parameters
  prepared_statements-IsValid now h sql is_query o schema params s p v bound = (
    created (validate_user_sql s.auth sql),
    on_statement-IsValid h _ p v,
    on_statement-IsValid h _ p v,
    on_statement-IsValid h _ p v,
    close-IsValid h p v,
  )
    where
      created :
          (verdict : Checked (Option ServerError))
          → IfDone
              (λ x. IsValid x.1.1)
              (verdict >>= λ w. done (registered_statement now (meta_of sql is_query o) s p w))
      created panicked = tt
      created (done none) = prepared-IsValid p (meta_of sql is_query o) bound v
      created (done (some w)) = v

  -- A statement that admission refuses gets the error and changes nothing. An admitted one gets a
  -- handle that is not open yet; behind it the handle is the last one and gives the statement's
  -- text, kind and options, without parameters, and every other handle is as it was.
  pub create_prepared_statement_registers :
      {W : Type 0} (now j : ℕ) (sql : Bytes) (is_query : Bool) (o : PreparedStatementOptions S)
      (s : Session W S) (p : PreparedStatements S V) (verdict : Option ServerError)
      → IsValid p
      → validate_user_sql s.auth sql ≡ done verdict
      → Created now sql is_query o s p j verdict
  unfolding create_prepared_statement prepared
  create_prepared_statement_registers now j sql is_query o s p (some e) v checked =
      rw (checked, create_prepared_statement) refl
  create_prepared_statement_registers now j sql is_query o s p none v checked =
      let h = p.next_handle in
      (
        rw (checked, create_prepared_statement) refl,
        elim (Bool-cases (has_key h p.statements)) [
          | inl there ↦ absurd (ground (arith, v.issued h there))
          | inr absent ↦ has_key-lookup h p.statements absent
        ],
        refl,
        lookup-insert h j (new_state (meta_of sql is_query o)) p.statements,
      )
