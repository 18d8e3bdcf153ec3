-- ===== src/Session/Registry/Steps.antt =====
-- Requests to the registry in any interleaving, as a step relation.
use swanlake.Prelude.{ℕ, ◌+◌, ◌≡◌, List, ◌∷◌, ◌++◌, Option, some, length, All}
use swanlake.Text.{Bytes}
use swanlake.Error.{Result}
use swanlake.Dict.{bytes_key, lookup, insert}
use swanlake.Dict.Sizes.{IsDistinct}
use swanlake.Session.Admission.{SessionAuth}
use swanlake.Session.Lockdown.{LockdownTemplate}
use swanlake.Session.State.{Session}
use swanlake.Session.Registry.{
  SessionRegistry, Lookup, found, refused, permitted, cleanup_idle_sessions, remove_session,
  begin_get_or_create, stamped, finish_get_or_create,
}

-- A request that holds a permit and waits for its connection.
pub record Request : Type 0 where
  pub id : Bytes
  pub auth : Option SessionAuth

abbrev pub System : Type 0 → Type 0 → Type 0
System W S = SessionRegistry W S × List Request

module _ {W S : Type 0} where
  abbrev pub waiting : Request → List Request → Lookup W S → List Request
  waiting t ps (found s) = ps
  waiting t ps (refused e) = ps
  waiting t ps permitted = t ∷ ps

  -- `runs` is what a client does with the session that it holds; the fields that no code changes
  -- stay.
  pub data Step : System W S → System W S → Type 0 where
    begins :
        (t : Request) (r : SessionRegistry W S) (ps : List Request)
        → Step (r, ps) ((begin_get_or_create t.id r).1, waiting t ps (begin_get_or_create t.id r).0)
    finishes :
        (now : ℕ) (nonce : Bytes) (world : Result W) (t : Request) (r : SessionRegistry W S)
        (ps qs : List Request)
        → Step (r, ps ++ t ∷ qs) ((finish_get_or_create now t.id nonce t.auth world r).1, ps ++ qs)
    cleans :
        (now : ℕ) (r : SessionRegistry W S) (ps : List Request)
        → Step (r, ps) ((cleanup_idle_sessions now r).1, ps)
    removes :
        (id nonce : Bytes) (r : SessionRegistry W S) (ps : List Request)
        → Step (r, ps) ((remove_session id nonce r).1, ps)
    runs :
        (s s' : Session W S) (r : SessionRegistry W S) (ps : List Request)
        → lookup s.id r.sessions ≡ some s
        → s'.id ≡ s.id
        → s'.auth ≡ s.auth
        → s'.lockdown ≡ s.lockdown
        → Step (r, ps) (record r { sessions = insert s.id s' r.sessions }, ps)

  pub data Steps : System W S → System W S → Type 0 where
    stays : (x : System W S) → Steps x x
    goes : (x y z : System W S) → Steps x y → Step y z → Steps x z

  -- A registered session stands under its own id, and has the template exactly if it has a binding.
  abbrev pub IsStamped : LockdownTemplate → Bytes × Session W S → Type 0
  IsStamped template (id, s) = (s.id ≡ id) × (s.lockdown ≡ stamped template s.auth)

  abbrev pub IsValid : ℕ → LockdownTemplate → System W S → Type 0
  IsValid max template (r, ps) =
      (r.template ≡ template)
      × (r.session_permits + (length r.sessions + length ps) ≡ max)
      × IsDistinct r.sessions
      × All (IsStamped template) r.sessions
