-- ===== src/Service/Requests/EndToEnd.antt =====
-- service/mod.rs with duckvis/mod.rs and duckvis/api.rs: the gate on the real calls of `DuckvisAuth`.
mod Tests
use swanlake.Prelude.{
  ℕ, ◌≡◌, ◌⊎◌, inl, inr, refl, sym, subst, Bool, true, false, Option, none, some, if◌then◌else◌,
  Bool-cases,
}
use swanlake.Text.{Bytes, codes}
use swanlake.Duckvis.{Outcome, ok, unavailable, Ends}
use swanlake.Duckvis.Jwt.{Jose, DuckvisClaims}
use swanlake.Duckvis.Jwt.Spec.{IsValidToken}
use swanlake.Duckvis.Jwks.{Cache, KeyRequest, Response, get}
use swanlake.Duckvis.Validate.{DuckvisAuth, Moments, validate_token}
use swanlake.Duckvis.Validate.Sound.{Published, validate_token-IsValidToken}
use swanlake.Duckvis.Sa.{Account, SaToken, TokenRequest, TokenReply}
use swanlake.Duckvis.Api.{
  CallTimes, CheckRequest, CheckResponse, Posted, Reply, check_project, check_project_view,
  check_project_mutate_data, endpoint_url, project_check_request,
}
use swanlake.Duckvis.Api.FailClosed.{Told, check_project-Told}
use swanlake.Session.Admission.{SessionAuth}
use swanlake.Session.State.{Session}
use swanlake.Session.Registry.{get_by_id}
use swanlake.Service.Requests.{
  Request, SessionIdMode, Authority, Prepared, Course, prepare_request, extract_session_id,
  bearer_of,
}
use swanlake.Service.Requests.Rests.{Names, CanWrite, IsGranted}
use swanlake.Service.Requests.Gate.{IsAdmitted, prepare_request-IsAdmitted}

-- The services that `DuckvisAuth` talks to, with what it holds and the instants of its calls.
pub record Services : Type 1 where
  pub jose : Jose
  pub auth : DuckvisAuth
  pub key_server : ℕ → KeyRequest → Response
  pub moments : Moments
  pub keys : Cache jose
  pub account : Account
  pub endpoint : ℕ → TokenRequest → TokenReply
  pub api : ℕ → Posted CheckRequest → Reply CheckResponse
  pub view_times : CallTimes
  pub mutate_times : CallTimes
  pub sa_token : Option SaToken
  pub read_only : Bool

-- The second permission is asked with the service account's token that the first one leaves.
unfoldable pub duckvis_authority : Services → Authority
unfolding validate_token check_project_view check_project_mutate_data
duckvis_authority d = record {
  validate = λ bearer. (validate_token d.jose d.auth d.key_server d.moments bearer d.keys).0;
  view = λ subject project.
      (check_project_view d.account d.endpoint d.api d.view_times subject project d.sa_token).0;
  mutate_data = λ subject project.
      (check_project_mutate_data d.account d.endpoint d.api d.mutate_times subject project
        (check_project_view d.account d.endpoint d.api d.view_times subject project
          d.sa_token).1).0;
  read_only = d.read_only;
}

module _ (d : Services) where
  -- The API has answered yes to this question.
  abbrev pub HasAllowed : Bytes → Bytes → Bytes → Type 0
  HasAllowed subject project permission =
      Told d.api (endpoint_url d.account d.endpoint (codes "/v1/authz/check"))
        (project_check_request d.account d.endpoint subject project permission)
        (record { allow = true })

  allowed-HasAllowed :
      (t : CallTimes) (subject project permission : Bytes) (cache : Option SaToken)
      → (check_project d.account d.endpoint d.api t subject project permission cache).0 ≡ ok true
      → HasAllowed subject project permission
  allowed-HasAllowed t subject project permission cache h =
      subst (Ends unavailable _) h
        (check_project-Told d.account d.endpoint t d.api subject project permission cache)

  -- The rights with which a new session was opened.
  abbrev pub IsEntitled : Bytes → SessionAuth → Type 0
  IsEntitled subject auth =
      HasAllowed subject auth.project_id (codes "Project.view")
      × (if auth.writer
          then (d.read_only ≡ false)
            × HasAllowed subject auth.project_id (codes "Project.mutate_data")
          else Unit)

  writes :
      (subject : Bytes) (auth : SessionAuth)
      → CanWrite (duckvis_authority d) subject auth
      → (if auth.writer
          then (d.read_only ≡ false)
            × HasAllowed subject auth.project_id (codes "Project.mutate_data")
          else Unit)
  unfolding duckvis_authority check_project_mutate_data
  writes subject auth = of auth.writer
    where
      of :
          (b : Bool)
          → (if b
              then (d.read_only ≡ false)
                × ((check_project d.account d.endpoint d.api d.mutate_times subject auth.project_id
                      (codes "Project.mutate_data")
                      (check_project_view d.account d.endpoint d.api d.view_times subject
                        auth.project_id d.sa_token).1).0
                    ≡ ok true)
              else Unit)
          → (if b
              then (d.read_only ≡ false)
                × HasAllowed subject auth.project_id (codes "Project.mutate_data")
              else Unit)
      of false h = tt
      of true h = (h.0, allowed-HasAllowed d.mutate_times subject auth.project_id _ _ h.1)

  granted-IsEntitled :
      (request : Request) (subject : Bytes) (auth : SessionAuth)
      → IsGranted (duckvis_authority d) request subject auth
      → IsEntitled subject auth
  unfolding duckvis_authority check_project_view
  granted-IsEntitled request subject auth (nonce, project, view, write) = (
    allowed-HasAllowed d.view_times subject auth.project_id _ d.sa_token view,
    writes subject auth write,
  )

  -- A request in the authenticated mode, with the calls of `DuckvisAuth` as they are, that is given
  -- a session. Its bearer token is valid now, under keys that were in the cache or that the key
  -- server has published, and the session belongs to the token's subject. The session was there, or
  -- the API has allowed the subject to view its project, and to write to it if the session may, on
  -- an instance that is not read-only.
  pub prepare_request_entitles :
      {W S : Type 0} (mode : SessionIdMode) (uuid : Bytes) (c : Course W S) (request : Request)
      (s : Session W S)
      → prepare_request (some (duckvis_authority d)) mode uuid c request ≡ Prepared.ok s
      → (bearer : Bytes) × (claims : DuckvisClaims) × (auth : SessionAuth) × (keys : Cache d.jose)
        × (bearer_of request ≡ some bearer)
        × IsValidToken d.jose bearer d.auth.issuer d.moments.now_secs (get d.jose keys) claims
        × Published d.jose d.auth d.key_server d.moments d.keys keys
        × (s.auth ≡ some auth)
        × (auth.subject ≡ claims.sub)
        × ((get_by_id (extract_session_id mode uuid request) c.at_lookup ≡ some s)
            ⊎ IsEntitled claims.sub auth)
  unfolding duckvis_authority
  prepare_request_entitles mode uuid c request s h =
      let x = prepare_request-IsAdmitted (duckvis_authority d) mode uuid c request s h in
      let (valid, published) =
        validate_token-IsValidToken d.jose d.auth d.key_server d.moments x.bearer x.claims d.keys
          x.valid in
      (
        x.bearer,
        x.claims,
        x.auth,
        (validate_token d.jose d.auth d.key_server d.moments x.bearer d.keys).1,
        x.token,
        valid,
        published,
        x.binding,
        x.own,
        elim x.source [
          | inl found ↦ inl found
          | inr (fresh, granted) ↦ inr (granted-IsEntitled request x.claims.sub x.auth granted)
        ],
      )
