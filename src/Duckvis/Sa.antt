-- ===== src/Duckvis/Sa.antt =====
-- duckvis/sa.rs: the token of the service account, cached and minted again. The token endpoint is a
-- function of the instant and of the posted form; base64, JSON and signing are parameters.
use swanlake.Prelude.{
  ℕ, ◌+◌, ◌-◌, Bool, ◌&&◌, ◌∷◌, ◌++◌, Option, none, some, ltb, leb, if◌then◌else◌, ℤ, wrap_i64,
  ◌+ℤ◌,
}
use swanlake.Text.{Bytes, codes}
use swanlake.Duckvis.{unavailable, Outcome, ok, err, ◌>>=◌, ok_or}
use swanlake.Duckvis.Jwks.{seconds, or_else, trim_end_slashes}

abbrev pub refresh_margin : ℕ
refresh_margin = seconds 60

abbrev pub assertion_ttl_secs : ℕ
assertion_ttl_secs = 240

abbrev assertion_header : Bytes
assertion_header =
    codes "{"
    ++ b'"' ∷ codes "alg"
    ++ b'"' ∷ codes ":"
    ++ b'"' ∷ codes "EdDSA"
    ++ b'"' ∷ codes ","
    ++ b'"' ∷ codes "typ"
    ++ b'"' ∷ codes ":"
    ++ b'"' ∷ codes "JWT"
    ++ b'"' ∷ codes "}"

pub record SaToken : Type 0 where
  pub access_token : Bytes
  pub expires_at : ℕ

-- The remaining time is more than the margin; past the expiry there is none.
unfoldable pub is_fresh : ℕ → SaToken → Bool
is_fresh now token = leb now token.expires_at && ltb refresh_margin (token.expires_at - now)

pub record Signer : Type 0 where
  -- `json!({iss, sub, aud, iat, exp}).to_string()`
  pub claims_text : Bytes → Bytes → Bytes → ℤ → ℤ → Bytes
  pub encode : Bytes → Bytes
  pub sign : Bytes → Bytes

unfoldable pub build_client_assertion : Signer → Bytes → Bytes → ℤ → Bytes
build_client_assertion signer client_id issuer now_secs =
    let claims =
      signer.claims_text client_id client_id issuer now_secs
        (wrap_i64 (now_secs +ℤ assertion_ttl_secs)) in
    let signing_input = signer.encode assertion_header ++ (b'.' ∷ signer.encode claims) in
    signing_input ++ (b'.' ∷ signer.encode (signer.sign signing_input))

-- The form fields that vary: the rest are constants of the source.
pub record TokenRequest : Type 0 where
  pub url : Bytes
  pub client_assertion : Bytes

pub data TokenReply : Type 0 where
  failed : TokenReply
  replied : ℕ → Option (Bytes × Option ℕ) → TokenReply

pub record Account : Type 0 where
  pub api_url : Bytes
  pub client_id : Bytes
  pub issuer : Bytes
  pub signer : Signer

-- The clocks of one mint: the Unix time of the assertion, and the instant behind the reply.
pub record MintTimes : Type 0 where
  pub now_secs : ℤ
  pub minted_at : ℕ

-- `Instant::now() + Duration` would panic past the last instant.
abbrev minted : ℕ → Bytes × Option ℕ → SaToken
minted at body = record { access_token = body.0; expires_at = at + seconds (or_else 600 body.1) }

unfoldable pub read_token_reply : ℕ → TokenReply → Outcome SaToken
read_token_reply at failed = err unavailable
read_token_reply at (replied status body) =
    if leb 200 status && ltb status 300
    then (ok_or unavailable body >>= λ b. ok (minted at b))
    else err unavailable

module _ (account : Account) (endpoint : ℕ → TokenRequest → TokenReply) where
  abbrev pub token_request : ℤ → TokenRequest
  token_request now_secs = record {
    url = trim_end_slashes account.api_url ++ codes "/v1/auth/oauth/token";
    client_assertion =
        build_client_assertion account.signer account.client_id account.issuer now_secs;
  }

  unfoldable pub mint : MintTimes → Outcome SaToken
  unfolding read_token_reply build_client_assertion trim_end_slashes
  mint t = read_token_reply t.minted_at (endpoint t.minted_at (token_request t.now_secs))

  -- `*guard = Some(fresh)`, or the error with the cache as it was.
  abbrev pub stored : Option SaToken → Outcome SaToken → Outcome Bytes × Option SaToken
  stored cache (ok fresh) = (ok fresh.access_token, some fresh)
  stored cache (err e) = (err e, cache)

  unfoldable pub get_token : ℕ → MintTimes → Option SaToken → Outcome Bytes × Option SaToken
  unfolding mint is_fresh
  get_token now t none = stored none (mint t)
  get_token now t (some token) =
      if is_fresh now token
      then (ok token.access_token, some token)
      else stored (some token) (mint t)

  unfoldable pub force_refresh : MintTimes → Option SaToken → Outcome Bytes × Option SaToken
  unfolding mint
  force_refresh t cache = stored none (mint t)
