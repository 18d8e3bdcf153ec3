-- ===== src/Session/Prepared/Tests.antt =====
-- Prepared statements of the fixture's session.
use swanlake.Prelude.{ℕ, ◌≡◌, refl, true, [], ◌∷◌, some, arith}
use swanlake.Text.{Bytes, codes}
use swanlake.Error.{ok}
use swanlake.Dict.{nat_eq, lookup, insert, has_key}
use swanlake.Session.Fixture.{two_transactions}
use swanlake.Session.Prepared.{
  PreparedStatements, new_options, with_cached_schema, ephemeral_options, no_statements, meta_of,
  new_state, prepared, get_prepared_statement_meta, set_prepared_statement_parameters,
  take_prepared_statement_parameters, cache_prepared_statement_schema, close_prepared_statement,
}
use swanlake.Session.Prepared.Handles.{IsValid, prepared-IsValid, prepared_statements-IsValid}
use swanlake.Session.Prepared.Parameters.{take-set_parameters}

abbrev select : Bytes
select = codes "SELECT ?"

abbrev one_open : PreparedStatements ℕ ℕ
one_open =
    (prepared (meta_of select true (ephemeral_options (with_cached_schema (some 4) new_options)))
      no_statements).1

one_open-IsValid : IsValid one_open
unfolding has_key
one_open-IsValid =
    prepared-IsValid no_statements _ (omega arith)
      (record { last_open = λ h same. absurd (cc same); issued = λ h there. absurd (cc there) })

prepared_statements-IsValid_example : IsValid (close_prepared_statement 1 one_open).1
unfolding prepared
prepared_statements-IsValid_example =
    (prepared_statements-IsValid 5 1 select true new_options 9 (3 ∷ []) two_transactions one_open
      one_open-IsValid (omega arith)).4

take-set_parameters_example :
    (take_prepared_statement_parameters 1
      (set_prepared_statement_parameters 1 (7 ∷ 8 ∷ []) one_open).1).0
    ≡ ok (some (7 ∷ 8 ∷ []))
unfolding prepared lookup insert
take-set_parameters_example =
    (take-set_parameters 1 (7 ∷ 8 ∷ []) one_open
      (new_state
        (meta_of select true (ephemeral_options (with_cached_schema (some 4) new_options))))
      refl).1

schema_is_cached :
    get_prepared_statement_meta 1 (cache_prepared_statement_schema 1 6 one_open).1
    ≡ ok (record { sql = select; is_query = true; schema = some 6; ephemeral = true })
unfolding prepared lookup insert get_prepared_statement_meta cache_prepared_statement_schema
schema_is_cached = refl
