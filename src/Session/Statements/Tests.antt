-- ===== src/Session/Statements/Tests.antt =====
-- A non-writer's session in front of the toy engine, whose world lists what it was given.
use swanlake.Prelude.{
  ℕ, ◌≡◌, refl, true, List, [], ◌∷◌, Option, none, some, length, Checked, done, panicked,
}
use swanlake.Text.{Bytes, codes}
use swanlake.Error.{ServerError, attach_not_permitted, Result, ok, err}
use swanlake.Session.Fixture.{toy, guarded}
use swanlake.Session.Admission.{validate_user_sql}
use swanlake.Session.State.{Session}
use swanlake.Session.Statements.{
  ensure_lockdown, user_call, execute_user_statement, schema_cache_key,
  should_invalidate_schema_cache,
}
use swanlake.Session.Statements.Gate.{user_call_gated}

abbrev given : Checked (Result ℕ × Session (List Bytes) ℕ) → ℕ
given (done (r, s)) = length s.world
given panicked = 99

-- The lockdown goes before the first statement, and only once.
first_statement :
    given
      (execute_user_statement toy 5 (codes "SELECT 1") (λ w. (ok 1, codes "SELECT 1" ∷ w)) guarded)
    ≡ 2
unfolding execute_user_statement
first_statement = refl

abbrev locked_down : Session (List Bytes) ℕ
locked_down = (ensure_lockdown toy guarded).1

abbrev raw : Bytes
raw = codes "attach 'x.db'"

abbrev runs : Session (List Bytes) ℕ → Result ℕ × Session (List Bytes) ℕ
runs s = (ok 1, record s { world = raw ∷ s.world })

abbrev if_admitted :
    Checked (Option ServerError) → Session (List Bytes) ℕ → Result ℕ × Session (List Bytes) ℕ
if_admitted (done none) s = runs s
if_admitted (done (some e)) s = (err e, s)
if_admitted panicked s = (ok 7, s)

user_call_gated_example :
    user_call toy raw runs guarded
    ≡ user_call toy raw (λ s. if_admitted (validate_user_sql s.auth raw) s) guarded
user_call_gated_example =
    user_call_gated toy raw runs (λ s. if_admitted (validate_user_sql s.auth raw) s) guarded
      (λ t locked_ admitted. rw admitted refl)

raw_attach_is_refused : user_call toy raw runs guarded ≡ done (err attach_not_permitted, guarded)
unfolding user_call
raw_attach_is_refused = refl

-- U+017F is an `S` in upper case.
long_s_invalidates : should_invalidate_schema_cache (32 ∷ 117 ∷ 197 ∷ 191 ∷ 101 ∷ []) ≡ true
unfolding should_invalidate_schema_cache
long_s_invalidates = refl

key_of_probe : schema_cache_key (codes "select 1 ; ;;") ≡ codes "select 1 ;"
unfolding schema_cache_key
key_of_probe = refl
