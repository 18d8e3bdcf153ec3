-- ===== src/Session/Prepared.antt =====
-- session/mod.rs: the prepared statements of a session.
pub mod Handles
pub mod Parameters
mod Tests
use swanlake.Prelude.{
  ℕ, ◌+◌, ◌%◌, Bool, true, false, List, [], ◌∷◌, Option, none, some, ◌==◌, if◌then◌else◌, Checked,
  done, panicked, ◌>>=◌,
}
use swanlake.Text.{Bytes}
use swanlake.Error.{ServerError, prepared_statement_not_found, Result, ok, err}
use swanlake.Dict.{nat_eq, lookup, insert, remove}
use swanlake.Session.Admission.{validate_user_sql}
use swanlake.Session.State.{Session, u64_mod, touch}

pub record PreparedStatementMeta (S : Type 0) : Type 0 where
  pub sql : Bytes
  pub is_query : Bool
  pub schema : Option S
  pub ephemeral : Bool

pub record PreparedStatementOptions (S : Type 0) : Type 0 where
  pub cached_schema : Option S
  pub ephemeral : Bool

-- `V` is the type of DuckDB's values.
pub record PreparedStatementState (S V : Type 0) : Type 0 where
  pub meta : PreparedStatementMeta S
  pub pending_parameters : Option (List V)

-- The fields of a `Session` for them, and its handle generator.
pub record PreparedStatements (S V : Type 0) : Type 0 where
  pub statements : List (ℕ × PreparedStatementState S V)
  pub last_handle : Option ℕ
  pub next_handle : ℕ

abbrev pub forget_last : ℕ → Option ℕ → Option ℕ
forget_last handle none = none
forget_last handle (some h) = if h == handle then none else some h

module _ {S : Type 0} where
  abbrev pub new_options : PreparedStatementOptions S
  new_options = record { cached_schema = none; ephemeral = false }

  abbrev pub with_cached_schema : Option S → PreparedStatementOptions S → PreparedStatementOptions S
  with_cached_schema schema o = record o { cached_schema = schema }

  abbrev pub ephemeral_options : PreparedStatementOptions S → PreparedStatementOptions S
  ephemeral_options o = record o { ephemeral = true }

  abbrev pub meta_of : Bytes → Bool → PreparedStatementOptions S → PreparedStatementMeta S
  meta_of sql is_query o = record {
    sql = sql;
    is_query = is_query;
    schema = o.cached_schema;
    ephemeral = o.ephemeral;
  }

module _ {S V : Type 0} where
  abbrev pub no_statements : PreparedStatements S V
  no_statements = record { statements = []; last_handle = none; next_handle = 1 }

  abbrev pub new_state : PreparedStatementMeta S → PreparedStatementState S V
  new_state meta = record { meta = meta; pending_parameters = none }

  unfoldable pub prepared :
      PreparedStatementMeta S → PreparedStatements S V → ℕ × PreparedStatements S V
  unfolding insert
  prepared meta p = (
    p.next_handle,
    record {
      statements = insert p.next_handle (new_state meta) p.statements;
      last_handle = some p.next_handle;
      next_handle = (p.next_handle + 1) % u64_mod;
    },
  )

  -- What a call does behind the admission of its statement.
  abbrev pub registered_statement :
      {W : Type 0}
      → ℕ
      → PreparedStatementMeta S
      → Session W S
      → PreparedStatements S V
      → Option ServerError
      → Result ℕ × (Session W S × PreparedStatements S V)
  registered_statement now meta s p (some e) = (err e, (s, p))
  registered_statement now meta s p none =
      (ok (prepared meta p).0, (touch now s, (prepared meta p).1))

  unfoldable pub create_prepared_statement :
      {W : Type 0}
      → ℕ
      → Bytes
      → Bool
      → PreparedStatementOptions S
      → Session W S
      → PreparedStatements S V
      → Checked (Result ℕ × (Session W S × PreparedStatements S V))
  unfolding prepared touch validate_user_sql
  create_prepared_statement now sql is_query o s p = validate_user_sql s.auth sql >>= λ verdict.
      done (registered_statement now (meta_of sql is_query o) s p verdict)

  abbrev pub meta_result : Option (PreparedStatementState S V) → Result (PreparedStatementMeta S)
  meta_result none = err prepared_statement_not_found
  meta_result (some x) = ok x.meta

  unfoldable pub get_prepared_statement_meta :
      ℕ → PreparedStatements S V → Result (PreparedStatementMeta S)
  unfolding lookup
  get_prepared_statement_meta handle p = meta_result (lookup handle p.statements)

  -- `get_mut`: the statement is changed, and something is read of it.
  unfoldable pub on_statement {ℓ} :
      {A : Type ℓ}
      → ℕ
      → (PreparedStatementState S V → A × PreparedStatementState S V)
      → PreparedStatements S V
      → Result A × PreparedStatements S V
  unfolding lookup insert
  on_statement handle f p = elim (lookup handle p.statements) [
    | none ↦ (err prepared_statement_not_found, p)
    | some x ↦ (ok (f x).0, record p { statements = insert handle (f x).1 p.statements })
  ]

  unfoldable pub cache_prepared_statement_schema :
      ℕ → S → PreparedStatements S V → Result (Unit {0}) × PreparedStatements S V
  unfolding on_statement
  cache_prepared_statement_schema handle schema =
      on_statement handle (λ x. (tt, record x { meta = record x.meta { schema = some schema } }))

  unfoldable pub set_prepared_statement_parameters :
      ℕ → List V → PreparedStatements S V → Result (Unit {0}) × PreparedStatements S V
  unfolding on_statement
  set_prepared_statement_parameters handle params =
      on_statement handle (λ x. (tt, record x { pending_parameters = some params }))

  unfoldable pub take_prepared_statement_parameters :
      ℕ → PreparedStatements S V → Result (Option (List V)) × PreparedStatements S V
  unfolding on_statement
  take_prepared_statement_parameters handle =
      on_statement handle (λ x. (x.pending_parameters, record x { pending_parameters = none }))

  unfoldable pub close_prepared_statement :
      ℕ → PreparedStatements S V → Result (Unit {0}) × PreparedStatements S V
  unfolding lookup remove
  close_prepared_statement handle p = elim (lookup handle p.statements) [
    | none ↦ (err prepared_statement_not_found, p)
    | some x ↦ (
      ok tt,
      record p {
        statements = remove handle p.statements;
        last_handle = forget_last handle p.last_handle;
      },
    )
  ]
