-- ===== src/Session/Registry/Tests.antt =====
-- Two requests for the same id race for the places of a registry of two sessions.
use swanlake.Prelude.{ℕ, ◌≡◌, refl, [], ◌∷◌, some, length}
use swanlake.Text.{Bytes, codes, bytes_eq}
use swanlake.Error.{ok, max_sessions_reached}
use swanlake.Dict.{lookup, insert}
use swanlake.Session.Fixture.{scratch, reader}
use swanlake.Session.Registry.{
  SessionRegistry, refused, new_registry, begin_get_or_create, finish_get_or_create, register,
  permit_dropped, secret_directory_sql,
}
use swanlake.Session.Registry.Steps.{
  Request, System, waiting, begins, finishes, Steps, stays, goes, IsValid,
}
use swanlake.Session.Registry.Capacity.{registry-IsValid}

abbrev ask : Request
ask = record { id = codes "a"; auth = some reader }

abbrev asked : System ℕ ℕ → System ℕ ℕ
asked x = ((begin_get_or_create ask.id x.0).1, waiting ask x.1 (begin_get_or_create ask.id x.0).0)

abbrev connected : Bytes → SessionRegistry ℕ ℕ → SessionRegistry ℕ ℕ
connected nonce r = (finish_get_or_create 7 ask.id nonce ask.auth (ok 0) r).1

abbrev empty : SessionRegistry ℕ ℕ
empty = new_registry 2 1000 scratch

abbrev two_asked : SessionRegistry ℕ ℕ
two_asked = (asked (asked (empty, []))).0

abbrev raced : SessionRegistry ℕ ℕ
raced = connected (codes "n2") (connected (codes "n1") two_asked)

both_wait : (asked (asked (empty, []))).1 ≡ ask ∷ ask ∷ []
unfolding begin_get_or_create lookup
both_wait = refl

-- The second connection is dropped, with its permit.
raced_permits : (raced.session_permits ≡ 1) × (length raced.sessions ≡ 1)
unfolding begin_get_or_create finish_get_or_create lookup register insert permit_dropped bytes_eq
raced_permits = (refl, refl)

third_is_refused : (begin_get_or_create (codes "b") two_asked).0 ≡ refused max_sessions_reached
unfolding begin_get_or_create lookup
third_is_refused = refl

race : Steps (empty, []) (raced, [])
unfolding begin_get_or_create lookup
race =
    goes _ (connected (codes "n1") two_asked, ask ∷ []) _
      (goes _ (two_asked, ask ∷ ask ∷ []) _
        (goes _ (asked (empty, [])) _ (goes _ (empty, []) _ (stays _) (begins ask empty []))
          (begins ask (asked (empty, [])).0 (ask ∷ [])))
        (finishes 7 (codes "n1") (ok 0) ask two_asked [] (ask ∷ [])))
      (finishes 7 (codes "n2") (ok 0) ask (connected (codes "n1") two_asked) [] [])

registry-IsValid_example : IsValid 2 scratch (raced, [])
registry-IsValid_example = registry-IsValid 2 scratch 1000 (raced, []) race

secret_directory :
    secret_directory_sql scratch (codes "a'b")
    ≡ codes "SET secret_directory = '/tmp/s/secrets/a''b'"
unfolding secret_directory_sql
secret_directory = refl
