-- ===== src/Duckvis/Api.antt =====
-- duckvis/api.rs: the authorization calls, with one new service-account token and one retry on 401.
-- The API is a function of the instant and of the posted request.
pub mod FailClosed
mod Tests
use swanlake.Prelude.{
  ℕ, ◌≡◌, Bool, true, false, ◌&&◌, List, [], ◌∷◌, ◌++◌, Option, none, some, ◌==◌, leb, ltb,
  if◌then◌else◌,
}
use swanlake.Text.{Bytes, codes}
use swanlake.Duckvis.{unavailable, Outcome, ok, err, ok_or}
use swanlake.Duckvis.Jwks.{trim_end_slashes}
use swanlake.Duckvis.Sa.{
  SaToken, MintTimes, Account, TokenRequest, TokenReply, get_token, force_refresh,
}

pub record AttachSecret : Type 0 where
  pub name : Bytes
  pub kind : Bytes
  pub fields : List (Bytes × Bytes)

pub record ResolvedAttachment : Type 0 where
  pub attachment_id : Bytes
  pub name : Bytes
  pub kind : Bytes
  pub secret_config : Bytes
  pub secrets : List AttachSecret

pub record CheckObject : Type 0 where
  pub kind : Bytes
  pub id : Bytes

pub record CheckRequest : Type 0 where
  pub subject : Bytes
  pub permission : Bytes
  pub object : CheckObject

pub record CheckResponse : Type 0 where
  pub allow : Bool

pub record ResolveRequest : Type 0 where
  pub subject : Bytes
  pub project_id : Bytes
  pub bind_id : Bytes

pub record ResolveResponse : Type 0 where
  pub allow : Bool
  pub attachment_id : Option Bytes
  pub name : Option Bytes
  pub kind : Option Bytes
  pub secret_config : Option Bytes
  pub secrets : Option (List AttachSecret)

-- A POST with a bearer token and a JSON body.
pub record Posted (B : Type 0) : Type 0 where
  pub url : Bytes
  pub body : B
  pub token : Bytes

-- A failed exchange, or a status and the body where it parses.
pub data Reply (R : Type 0) : Type 0 where
  failed : Reply R
  replied : ℕ → Option R → Reply R

pub record CallTimes : Type 0 where
  pub fresh_at : ℕ
  pub first_mint : MintTimes
  pub sent_at : ℕ
  pub second_mint : MintTimes
  pub resent_at : ℕ

abbrev pub is_success : ℕ → Bool
is_success status = leb 200 status && ltb status 300

unfoldable pub read_reply : {R : Type 0} → Reply R → Outcome R
read_reply failed = err unavailable
read_reply (replied status body) =
    if is_success status then ok_or unavailable body else err unavailable

abbrev pub is_unauthorized : {R : Type 0} → Reply R → Bool
is_unauthorized failed = false
is_unauthorized (replied status body) = status == 401

module _ (account : Account) (endpoint : ℕ → TokenRequest → TokenReply) where
  module _ {B R : Type 0} (api : ℕ → Posted B → Reply R) (t : CallTimes) (url : Bytes)
      (body : B) where
    abbrev pub sent : ℕ → Bytes → Reply R
    sent at token = api at (record { url = url; body = body; token = token })

    -- Behind the second token, which may be missing.
    abbrev pub resent : Outcome Bytes × Option SaToken → Outcome R × Option SaToken
    resent (err e, cache) = (err e, cache)
    resent (ok fresh, cache) = (read_reply (sent t.resent_at fresh), cache)

    -- Behind the first token.
    unfoldable pub exchange : Outcome Bytes × Option SaToken → Outcome R × Option SaToken
    unfolding read_reply force_refresh
    exchange (err e, cache) = (err e, cache)
    exchange (ok token, cache) =
        if is_unauthorized (sent t.sent_at token)
        then resent (force_refresh account endpoint t.second_mint cache)
        else (read_reply (sent t.sent_at token), cache)

    unfoldable pub post_json_with_retry : Option SaToken → Outcome R × Option SaToken
    unfolding exchange get_token
    post_json_with_retry cache = exchange (get_token account endpoint t.fresh_at t.first_mint cache)

  -- `project_check_request`
  abbrev pub project_check_request : Bytes → Bytes → Bytes → CheckRequest
  project_check_request subject project_id permission = record {
    subject = subject;
    permission = permission;
    object = record { kind = codes "project"; id = project_id };
  }

  abbrev pub allowed : Outcome CheckResponse → Outcome Bool
  allowed (err e) = err e
  allowed (ok resp) = ok resp.allow

  abbrev pub endpoint_url : Bytes → Bytes
  endpoint_url path = trim_end_slashes account.api_url ++ path

  unfoldable pub check_project :
      (ℕ → Posted CheckRequest → Reply CheckResponse)
      → CallTimes
      → Bytes
      → Bytes
      → Bytes
      → Option SaToken
      → Outcome Bool × Option SaToken
  unfolding post_json_with_retry trim_end_slashes
  check_project api t subject project_id permission cache =
      let r =
        post_json_with_retry api t (endpoint_url (codes "/v1/authz/check"))
          (project_check_request subject project_id permission) cache in
      (allowed r.0, r.1)

  unfoldable pub check_project_view :
      (ℕ → Posted CheckRequest → Reply CheckResponse)
      → CallTimes
      → Bytes
      → Bytes
      → Option SaToken
      → Outcome Bool × Option SaToken
  unfolding check_project
  check_project_view api t subject project_id =
      check_project api t subject project_id (codes "Project.view")

  unfoldable pub check_project_mutate_data :
      (ℕ → Posted CheckRequest → Reply CheckResponse)
      → CallTimes
      → Bytes
      → Bytes
      → Option SaToken
      → Outcome Bool × Option SaToken
  unfolding check_project
  check_project_mutate_data api t subject project_id =
      check_project api t subject project_id (codes "Project.mutate_data")

  abbrev pub or_default : {A : Type 0} → A → Option A → A
  or_default d none = d
  or_default d (some a) = a

  abbrev pub with_fields :
      ResolveResponse
      → Option Bytes
      → Option Bytes
      → Option Bytes
      → Outcome (Option ResolvedAttachment)
  with_fields resp (some attachment_id) (some name) (some secret_config) = ok (
      some record {
        attachment_id = attachment_id;
        name = name;
        kind = or_default (codes "connection") resp.kind;
        secret_config = secret_config;
        secrets = or_default [] resp.secrets;
      })
  with_fields resp _ _ _ = err unavailable

  unfoldable pub resolved : Outcome ResolveResponse → Outcome (Option ResolvedAttachment)
  resolved (err e) = err e
  resolved (ok resp) =
      if resp.allow
      then with_fields resp resp.attachment_id resp.name resp.secret_config
      else ok none

  unfoldable pub resolve_attachment :
      (ℕ → Posted ResolveRequest → Reply ResolveResponse)
      → CallTimes
      → Bytes
      → Bytes
      → Bytes
      → Option SaToken
      → Outcome (Option ResolvedAttachment) × Option SaToken
  unfolding post_json_with_retry resolved trim_end_slashes
  resolve_attachment api t subject project_id bind_id cache =
      let r =
        post_json_with_retry api t (endpoint_url (codes "/v1/authz/resolve-attachment"))
          (record { subject = subject; project_id = project_id; bind_id = bind_id }) cache in
      (resolved r.0, r.1)
