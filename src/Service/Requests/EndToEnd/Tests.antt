-- ===== src/Service/Requests/EndToEnd/Tests.antt =====
-- A client opens a session through the key server and the API, with the right to write.
use swanlake.Prelude.{ℕ, ◌≡◌, ◌⊎◌, refl, true, false, [], ◌∷◌, ◌++◌, none, some, pos, wrap_i64}
use swanlake.Text.{Bytes, codes, bytes_eq, trim, strip_prefix}
use swanlake.Dict.{bytes_key, lookup, insert}
use swanlake.Error.{Result}
use swanlake.Duckvis.Fixture.{toy, token, ada}
use swanlake.Duckvis.Jwt.{non_empty, DuckvisClaims}
use swanlake.Duckvis.Jwt.Spec.{IsValidToken}
use swanlake.Duckvis.Jwks.{Cache, failed, seconds, get}
use swanlake.Duckvis.Validate.{validate_token}
use swanlake.Duckvis.Validate.Sound.{Published}
use swanlake.Duckvis.Sa.{replied}
use swanlake.Duckvis.Api.{
  CallTimes, Reply, check_project, check_project_view, check_project_mutate_data,
}
use swanlake.Session.Admission.{SessionAuth}
use swanlake.Session.Fixture.{scratch}
use swanlake.Session.State.{Session}
use swanlake.Session.Registry.{
  SessionRegistry, new_registry, get_by_id, begin_get_or_create, finish_get_or_create, register,
  permit_dropped, new_with_id_and_auth,
}
use swanlake.Service.Requests.{
  Request, peer_addr, Prepared, Course, prepare_request, extract_session_id,
  prepare_request_duckvis, get_or_create, gate, header, bearer_of, duckvis_project_header,
}
use swanlake.Service.Requests.EndToEnd.{
  Services, duckvis_authority, IsEntitled, prepare_request_entitles,
}

abbrev times : CallTimes
times = record {
  fresh_at = 4;
  first_mint = record { now_secs = pos 4; minted_at = 5 };
  sent_at = 6;
  second_mint = record { now_secs = pos 7; minted_at = 7 };
  resent_at = 8;
}

abbrev services : Services
services = record {
  jose = toy;
  auth = record { api_url = codes "https://api"; issuer = codes "iss" };
  key_server = λ at r. failed;
  moments = record {
    now_secs = pos 1000;
    stale_at = seconds 110;
    refreshed_at = seconds 110;
    force_at = seconds 111;
    forced_at = seconds 112;
  };
  keys = record {
    keys = (codes "k1", 7) ∷ [];
    etag = none;
    fetched_at = some (seconds 100);
    last_forced_refresh = none;
    max_age = seconds 300;
  };
  account = record {
    api_url = codes "https://api/";
    client_id = codes "swanlake";
    issuer = codes "iss";
    signer = record { claims_text = λ a b c d e. a ++ c; encode = λ s. s; sign = λ s. [] };
  };
  endpoint = λ at r. replied 200 (some (codes "t1", none));
  api = λ at p. Reply.replied 200 (some (record { allow = true }));
  view_times = times;
  mutate_times = times;
  sa_token = none;
  read_only = false;
}

abbrev request : Request
request = record {
  metadata =
      (codes "authorization", codes "Bearer " ++ token)
      ∷ (codes "x-session-id", codes "s")
      ∷ (codes "x-duckvis-project-id", codes "p")
      ∷ [];
  remote_addr = none;
}

abbrev none_yet : SessionRegistry ℕ ℕ
none_yet = new_registry 4 1000 scratch

abbrev course : Course ℕ ℕ
course = record {
  at_lookup = none_yet;
  at_permit = none_yet;
  at_finish = none_yet;
  now = 5;
  nonce = codes "n1";
  connection = Result.ok 0;
}

abbrev opened_session : Session ℕ ℕ
opened_session =
    new_with_id_and_auth 5 (codes "s") (codes "n1")
      (some (record { subject = ada.sub; project_id = codes "p"; writer = true })) (some scratch) 0

opens_one :
    prepare_request (some (duckvis_authority services)) peer_addr (codes "u") course request
    ≡ Prepared.ok opened_session
unfolding prepare_request extract_session_id prepare_request_duckvis get_or_create gate header
    bearer_of duckvis_project_header bytes_eq trim strip_prefix non_empty lookup insert get_by_id
    begin_get_or_create finish_get_or_create register permit_dropped new_with_id_and_auth
    duckvis_authority validate_token wrap_i64 get check_project check_project_view
    check_project_mutate_data
opens_one = refl

prepare_request_entitles_example :
    (bearer : Bytes) × (claims : DuckvisClaims) × (auth : SessionAuth) × (keys : Cache toy)
    × (bearer_of request ≡ some bearer)
    × IsValidToken toy bearer (codes "iss") (pos 1000) (get toy keys) claims
    × Published toy services.auth services.key_server services.moments services.keys keys
    × (opened_session.auth ≡ some auth)
    × (auth.subject ≡ claims.sub)
    × ((get_by_id (extract_session_id peer_addr (codes "u") request) none_yet ≡ some opened_session)
        ⊎ IsEntitled services claims.sub auth)
prepare_request_entitles_example =
    prepare_request_entitles services peer_addr (codes "u") course request opened_session opens_one
