-- ===== src/Duckvis/Validate/Retry.antt =====
-- duckvis/mod.rs: the forced refresh finds a key that the issuer has started to use.
use swanlake.Prelude.{ℕ, ◌≡◌, refl, true, List, [], Option, some, ◌∙◌, ap}
use mathlib.Core.Path.{fun_ext}
use swanlake.Text.{Bytes}
use swanlake.Dict.{lookup, bytes_key}
use swanlake.Duckvis.{DuckvisError, Outcome, ok, err, unauthenticated, FailsBy}
use swanlake.Duckvis.Jwt.{Jose, DuckvisClaims, verify_and_decode}
use swanlake.Duckvis.Jwt.Accepts.{verify_and_decode_same, verify_and_decode-FailsBy}
use swanlake.Duckvis.Jwks.{
  Cache, JwkEntry, updated, jwks_request, refreshed, KeyRequest, Response, replied, get,
  can_force_refresh, usable_keys, refresh, fetch, read_response, parse_max_age, apply, mark_forced,
}
use swanlake.Duckvis.Validate.{
  DuckvisAuth, Moments, freshened, forced_refresh, attempt, retry, settled, validate_token,
}
use swanlake.Duckvis.Validate.Keys.{freshened-can_force_refresh}

module _ (jose : Jose) (auth : DuckvisAuth) (server : ℕ → KeyRequest → Response) (m : Moments) where
  module _ (etag cache_control : Option Bytes) (entries : List JwkEntry)
      (served : (r : KeyRequest)
        → server m.forced_at r ≡ replied 200 etag cache_control (some entries)) where
    fetch_served :
        (api_url : Bytes) (current_etag : Option Bytes)
        → fetch jose (server m.forced_at) api_url current_etag
          ≡ ok (updated (usable_keys jose entries []) etag (parse_max_age cache_control))
    unfolding fetch
    fetch_served api_url current_etag =
        ap (read_response jose) (served (jwks_request jose api_url current_etag))

    forced_refresh-get :
        (cache : Cache jose) (kid : Bytes)
        → get jose (forced_refresh jose auth server m cache) kid
          ≡ lookup kid (usable_keys jose entries [])
    unfolding refresh apply mark_forced get
    forced_refresh-get cache kid =
        ap (λ o. get jose (refreshed jose m.forced_at true cache o).1 kid)
          (fetch_served auth.api_url cache.etag)

    module _ (jwt : Bytes) (claims : DuckvisClaims)
        (valid : verify_and_decode jose jwt auth.issuer m.now_secs
            (λ kid. lookup kid (usable_keys jose entries []))
          ≡ ok claims) where
      settled_accepts :
          (cache : Cache jose) (o : Outcome DuckvisClaims)
          → attempt jose auth server m jwt cache ≡ o
          → can_force_refresh jose m.force_at cache ≡ true
          → (settled jose auth server m jwt cache o).0 ≡ ok claims
      unfolding retry
      settled_accepts cache (ok c) e f = ap ok (
          verify_and_decode_same jose (get jose cache)
            (λ kid. lookup kid (usable_keys jose entries [])) jwt auth.issuer m.now_secs c claims e
            valid)
      settled_accepts cache (err DuckvisError.unauthenticated) e f =
          rw (f, fun_ext (forced_refresh-get cache)) valid
      settled_accepts cache (err other) e f =
          let alike : FailsBy unauthenticated (attempt jose auth server m jwt cache) =
            verify_and_decode-FailsBy jose (get jose cache) jwt auth.issuer m.now_secs in
          absurd (cc (rw e at alike))

      -- The issuer has turned to new keys: where a forced refresh is permitted, and the key server
      -- answers it with entries under whose usable keys the token is valid, the token is accepted in
      -- this call, with its claims, whatever the cache held and however the other refresh went.
      pub validate_token_recovers :
          (cache : Cache jose)
          → can_force_refresh jose m.force_at cache ≡ true
          → (validate_token jose auth server m jwt cache).0 ≡ ok claims
      unfolding validate_token
      validate_token_recovers cache f =
          settled_accepts (freshened jose auth server m cache) _ refl
            (freshened-can_force_refresh jose server auth m m.force_at cache ∙ f)
