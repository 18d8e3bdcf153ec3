-- ===== src/Service/Requests.antt =====
-- service/mod.rs: the session of a request. The token and the authorization are asked of an
-- `Authority`; other requests may change the registry between the steps, so each step has its own.
pub mod Rests
pub mod Gate
pub mod EndToEnd
pub mod Statuses
mod Tests
use swanlake.Prelude.{
  ℕ, ◌≡◌, Bool, true, false, ◌&&◌, ◌||◌, not, List, [], ◌∷◌, ◌++◌, Option, none, some, ◌==◌, leb,
  if◌then◌else◌, all, is_empty,
}
use swanlake.Text.{Bytes, codes, bytes_eq, trim, strip_prefix}
use swanlake.Dict.{bytes_key, lookup}
use swanlake.Error.{ServerError, Result}
use swanlake.Duckvis.{
  DuckvisError, unauthenticated, permission_denied, invalid_argument, session_subject_mismatch,
  session_project_mismatch, session_bind_race, Outcome, Code, Status, into_status,
}
use swanlake.Duckvis.Jwt.{DuckvisClaims, and_then, non_empty}
use swanlake.Session.Admission.{SessionAuth}
use swanlake.Session.State.{Session}
use swanlake.Session.Registry.{
  SessionRegistry, Lookup, found, refused, permitted, get_by_id, begin_get_or_create,
  finish_get_or_create,
}

-- `remote_addr` is the text of the peer's address, and of its IP alone.
pub record Request : Type 0 where
  pub metadata : List (Bytes × Bytes)
  pub remote_addr : Option (Bytes × Bytes)

pub data SessionIdMode : Type 0 where
  peer_addr : SessionIdMode
  peer_ip : SessionIdMode

-- `HeaderValue::to_str`: visible ASCII and tabs only.
abbrev to_str : Bytes → Option Bytes
to_str value = if all (λ c. (leb 32 c && leb c 126) || c == 9) value then some value else none

unfoldable pub header : Bytes → Request → Option Bytes
unfolding lookup
header name request = and_then (lookup name request.metadata) to_str

abbrev or_else : Option Bytes → Option Bytes → Option Bytes
or_else none other = other
or_else (some s) other = some s

abbrev given_or : Bytes → Option Bytes → Bytes
given_or d none = d
given_or d (some s) = s

abbrev peer_of : SessionIdMode → Bytes × Bytes → Bytes
peer_of peer_addr a = a.0
peer_of peer_ip a = a.1

-- `uuid` is the fresh one of a request without a peer.
unfoldable pub extract_session_id : SessionIdMode → Bytes → Request → Bytes
unfolding header non_empty
extract_session_id mode uuid request = given_or uuid (
    or_else (non_empty (header (codes "airport-client-session-id") request)) (
      or_else (non_empty (header (codes "x-session-id") request))
        (and_then request.remote_addr (λ a. some (peer_of mode a)))))

unfoldable pub duckvis_project_header : Request → Option Bytes
unfolding header trim non_empty
duckvis_project_header request =
    non_empty (and_then (header (codes "x-duckvis-project-id") request) (λ v. some (trim v)))

unfoldable pub bearer_of : Request → Option Bytes
unfolding header trim non_empty strip_prefix
bearer_of request = non_empty (
    and_then
      (and_then (header (codes "authorization") request)
        (λ s. or_else (strip_prefix (codes "Bearer ") s) (strip_prefix (codes "bearer ") s)))
      (λ s. some (trim s)))

abbrev pub expected_nonce : Request → Option Bytes
expected_nonce = header (codes "x-expected-session-nonce")

-- The calls of `DuckvisAuth`: a subject and a project for the two permissions.
pub record Authority : Type 0 where
  pub validate : Bytes → Outcome DuckvisClaims
  pub view : Bytes → Bytes → Outcome Bool
  pub mutate_data : Bytes → Bytes → Outcome Bool
  pub read_only : Bool

-- What a status is made of: an error of either kind, a session that is not the one the client
-- expects, with the nonce of the one there is, or a session without a binding.
pub data Rejection : Type 0 where
  duckvis : DuckvisError → Rejection
  server : ServerError → Rejection
  recreated : Bytes → Option Bytes → Rejection
  missing_binding : Rejection

pub data Prepared {ℓ} (A : Type ℓ) : Type ℓ where
  ok : A → Prepared A
  err : Rejection → Prepared A

abbrev pub same_auth : SessionAuth → SessionAuth → Bool
same_auth a b =
    bytes_eq a.subject b.subject
    && bytes_eq a.project_id b.project_id
    && (if a.writer then b.writer else not b.writer)

-- What the gate comes to: a session that is there, or the binding of one that is to be made.
pub data Binding (W S : Type 0) : Type 0 where
  bound : Session W S → Binding W S
  opens : SessionAuth → Binding W S

abbrev pub as_prepared {ℓ} : {A : Type ℓ} → Outcome A → Prepared A
as_prepared (Outcome.ok a) = ok a
as_prepared (Outcome.err e) = err (duckvis e)

abbrev pub from_option {ℓ} : {A : Type ℓ} → Rejection → Option A → Prepared A
from_option e none = err e
from_option e (some a) = ok a

infixl 5 ◌>>=◌
abbrev pub ◌>>=◌ {ℓ κ} : {A : Type ℓ} {B : Type κ} → Prepared A → (A → Prepared B) → Prepared B
ok a >>= f = f a
err e >>= f = err e

abbrev pub writer_of : Authority → Bytes → Bytes → Prepared Bool
writer_of a subject project =
    if a.read_only then ok false else as_prepared (a.mutate_data subject project)

-- What happens to the registry while a request waits: its states at the lookup, at the permit
-- and when the connection is there, with the clock, the nonce and the connection.
pub record Course (W S : Type 0) : Type 0 where
  pub at_lookup : SessionRegistry W S
  pub at_permit : SessionRegistry W S
  pub at_finish : SessionRegistry W S
  pub now : ℕ
  pub nonce : Bytes
  pub connection : Result W

module _ {W S : Type 0} where
  -- (3) An existing session has to have the subject, and the project if one is named.
  abbrev pub matched : Bytes → Option Bytes → Session W S → SessionAuth → Prepared (Binding W S)
  matched subject project s auth =
      if not (bytes_eq auth.subject subject)
      then err (duckvis session_subject_mismatch)
      else elim project [
        | none ↦ ok (bound s)
        | some p ↦
            if bytes_eq p auth.project_id
            then ok (bound s)
            else err (duckvis session_project_mismatch)
      ]

  -- (4) A new session: the project, the permission to view, and the capability to write.
  abbrev pub opened : Authority → Bytes → Option Bytes → Prepared (Binding W S)
  opened a subject project = do
    p ← from_option (duckvis invalid_argument) project
    allowed ← as_prepared (a.view subject p)
    if allowed
        then (writer_of a subject p >>= λ writer.
            ok (opens (record { subject = subject; project_id = p; writer = writer })))
        else err (duckvis permission_denied)

  -- (2) A client that expects a session that is not there is told so, before (4).
  abbrev pub gate_at : Authority → Request → Bytes → Option (Session W S) → Prepared (Binding W S)
  gate_at a request subject none = elim (expected_nonce request) [
    | some expected ↦ err (recreated expected none)
    | none ↦ opened a subject (duckvis_project_header request)
  ]
  gate_at a request subject (some s) = do
    auth ← from_option missing_binding s.auth
    matched subject (duckvis_project_header request) s auth

  -- `prepare_request_duckvis` up to the creation of the session.
  unfoldable pub gate : Authority → Request → Bytes → SessionRegistry W S → Prepared (Binding W S)
  unfolding bearer_of duckvis_project_header header get_by_id bytes_eq
  gate a request id r = do
    bearer ← from_option (duckvis unauthenticated) (bearer_of request)
    claims ← as_prepared (a.validate bearer)
    gate_at a request claims.sub (get_by_id id r)

  -- The client that lost a race for the id finds another binding.
  abbrev pub confirmed : SessionAuth → Session W S → Prepared (Session W S)
  confirmed new_auth s = elim s.auth [
    | none ↦ err (duckvis session_bind_race)
    | some auth ↦ if same_auth auth new_auth then ok s else err (duckvis session_bind_race)
  ]

  abbrev pub from_result : Result (Session W S) → Prepared (Session W S)
  from_result (Result.ok s) = ok s
  from_result (Result.err e) = err (server e)

  -- `get_or_create_by_id_with_auth`
  unfoldable pub get_or_create : Course W S → Bytes → Option SessionAuth → Prepared (Session W S)
  unfolding begin_get_or_create finish_get_or_create
  get_or_create c id auth = elim (begin_get_or_create id c.at_permit).0 [
    | found s ↦ ok s
    | refused e ↦ err (server e)
    | permitted ↦
        from_result (finish_get_or_create c.now id c.nonce auth c.connection c.at_finish).0
  ]

  abbrev pub entered : Course W S → Bytes → Binding W S → Prepared (Session W S)
  entered c id (bound s) = ok s
  entered c id (opens auth) = get_or_create c id (some auth) >>= confirmed auth

  unfoldable pub prepare_request_duckvis :
      Authority → Course W S → Request → Bytes → Prepared (Session W S)
  unfolding gate get_or_create bytes_eq
  prepare_request_duckvis a c request id = gate a request id c.at_lookup >>= entered c id

  abbrev pub nonce_checked : Option Bytes → Session W S → Prepared (Session W S)
  nonce_checked none s = ok s
  nonce_checked (some expected) s =
      if bytes_eq expected s.nonce then ok s else err (recreated expected (some s.nonce))

  abbrev pub session_for : Option Authority → Course W S → Request → Bytes → Prepared (Session W S)
  session_for none c request id = get_or_create c id none
  session_for (some a) c request id = prepare_request_duckvis a c request id

  unfoldable pub prepare_request :
      Option Authority → SessionIdMode → Bytes → Course W S → Request → Prepared (Session W S)
  unfolding extract_session_id prepare_request_duckvis get_or_create header bytes_eq
  prepare_request a mode uuid c request =
      session_for a c request (extract_session_id mode uuid request)
      >>= nonce_checked (expected_nonce request)
