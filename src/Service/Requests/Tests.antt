-- ===== src/Service/Requests/Tests.antt =====
-- A client opens a session with the right to write, and a second instance of the client meets it.
use swanlake.Prelude.{ℕ, ◌≡◌, refl, true, false, List, [], ◌∷◌, none, some, if◌then◌else◌}
use swanlake.Text.{Bytes, codes, bytes_eq, trim, strip_prefix}
use swanlake.Dict.{bytes_key, lookup, insert}
use swanlake.Error.{Result}
use swanlake.Duckvis.{Outcome, unauthenticated, session_project_mismatch}
use swanlake.Duckvis.Fixture.{ada}
use swanlake.Duckvis.Jwt.{non_empty}
use swanlake.Session.Admission.{SessionAuth}
use swanlake.Session.Fixture.{scratch}
use swanlake.Session.State.{Session}
use swanlake.Session.Registry.{
  SessionRegistry, new_registry, get_by_id, begin_get_or_create, finish_get_or_create, register,
  permit_dropped, new_with_id_and_auth,
}
use swanlake.Service.Requests.{
  Request, peer_addr, peer_ip, Authority, duckvis, recreated, ok, err, Course, prepare_request,
  extract_session_id, prepare_request_duckvis, get_or_create, gate, header, bearer_of,
  duckvis_project_header,
}
use swanlake.Service.Requests.Gate.{IsAdmitted, prepare_request-IsAdmitted}

abbrev writers : Authority
writers = record {
  validate = λ bearer.
      if bytes_eq bearer (codes "t1") then Outcome.ok ada else Outcome.err unauthenticated;
  view = λ subject project. Outcome.ok (bytes_eq project (codes "p"));
  mutate_data = λ subject project. Outcome.ok true;
  read_only = false;
}

abbrev asks : List (Bytes × Bytes) → Request
asks more = record {
  metadata = (codes "authorization", codes "Bearer t1") ∷ (codes "x-session-id", codes "s") ∷ more;
  remote_addr = some (codes "10.0.0.1:77", codes "10.0.0.1");
}

abbrev first : Request
first = asks ((codes "x-duckvis-project-id", codes " p ") ∷ [])

abbrev again : Request
again = asks ((codes "x-expected-session-nonce", codes "n1") ∷ [])

abbrev elsewhere : Request
elsewhere = asks ((codes "x-duckvis-project-id", codes "q") ∷ [])

abbrev at_rest : SessionRegistry ℕ ℕ → Course ℕ ℕ
at_rest r = record {
  at_lookup = r;
  at_permit = r;
  at_finish = r;
  now = 5;
  nonce = codes "n1";
  connection = Result.ok 0;
}

abbrev none_yet : SessionRegistry ℕ ℕ
none_yet = new_registry 4 1000 scratch

abbrev auth : SessionAuth
auth = record { subject = ada.sub; project_id = codes "p"; writer = true }

abbrev opened_session : Session ℕ ℕ
opened_session = new_with_id_and_auth 5 (codes "s") (codes "n1") (some auth) (some scratch) 0

abbrev one_there : SessionRegistry ℕ ℕ
one_there = record none_yet { sessions = (codes "s", opened_session) ∷ [] }

opens_one :
    prepare_request (some writers) peer_addr (codes "u") (at_rest none_yet) first
    ≡ ok opened_session
unfolding prepare_request extract_session_id prepare_request_duckvis get_or_create gate header
    bearer_of duckvis_project_header bytes_eq trim strip_prefix non_empty lookup insert get_by_id
    begin_get_or_create finish_get_or_create register permit_dropped new_with_id_and_auth
opens_one = refl

meets_it :
    prepare_request (some writers) peer_addr (codes "u") (at_rest one_there) again
    ≡ ok opened_session
unfolding prepare_request extract_session_id prepare_request_duckvis get_or_create gate header
    bearer_of duckvis_project_header bytes_eq trim strip_prefix non_empty lookup get_by_id
    new_with_id_and_auth
meets_it = refl

-- The session is gone: the client is told so, whatever its rights are.
is_told :
    prepare_request (some writers) peer_ip (codes "u") (at_rest none_yet) again
    ≡ err (recreated (codes "n1") none)
unfolding prepare_request extract_session_id prepare_request_duckvis get_or_create gate header
    bearer_of duckvis_project_header bytes_eq trim strip_prefix non_empty lookup get_by_id
is_told = refl

other_project :
    prepare_request (some writers) peer_ip (codes "u") (at_rest one_there) elsewhere
    ≡ err (duckvis session_project_mismatch)
unfolding prepare_request extract_session_id prepare_request_duckvis get_or_create gate header
    bearer_of duckvis_project_header bytes_eq trim strip_prefix non_empty lookup get_by_id
    new_with_id_and_auth
other_project = refl

prepare_request-IsAdmitted_example :
    IsAdmitted writers first
      (get_by_id (extract_session_id peer_addr (codes "u") first) none_yet)
      opened_session
prepare_request-IsAdmitted_example =
    prepare_request-IsAdmitted writers peer_addr (codes "u") (at_rest none_yet) first opened_session
      opens_one
