-- ===== src/Duckvis/Validate/Tests.antt =====
-- The cache holds an older key, and the issuer has turned to the key that signs the token.
use swanlake.Prelude.{ℕ, ◌≡◌, refl, true, [], ◌∷◌, List, none, some, pos, wrap_i64}
use swanlake.Text.{codes, bytes_eq}
use swanlake.Dict.{lookup, bytes_key}
use swanlake.Duckvis.{ok, Outcome}
use swanlake.Duckvis.Fixture.{toy, token, ada, repeated}
use swanlake.Duckvis.Jwt.{DuckvisClaims, verify_and_decode}
use swanlake.Duckvis.Jwt.Spec.{IsValidToken}
use swanlake.Duckvis.Jwks.{
  Cache, JwkEntry, KeyRequest, Response, replied, seconds, get, can_force_refresh, usable_keys,
}
use swanlake.Duckvis.Validate.{DuckvisAuth, Moments, validate_token}
use swanlake.Duckvis.Validate.Sound.{Published, validate_token-IsValidToken}
use swanlake.Duckvis.Validate.Retry.{validate_token_recovers}

abbrev old_cache : Cache toy
old_cache = record {
  keys = (codes "k0", 3) ∷ [];
  etag = some (codes "v0");
  fetched_at = some (seconds 100);
  last_forced_refresh = none;
  max_age = seconds 300;
}

abbrev rotated : List JwkEntry
rotated =
    record { kty = codes "RSA"; crv = none; kid = codes "k9"; x = [] }
    ∷ record {
      kty = codes "OKP";
      crv = some (codes "Ed25519");
      kid = codes "k1";
      x = repeated 32 b'x';
    }
    ∷ []

abbrev key_server : ℕ → KeyRequest → Response
key_server at r = replied 200 (some (codes "v1")) (some (codes "public, max-age=60")) (some rotated)

abbrev issuer_auth : DuckvisAuth
issuer_auth = record { api_url = codes "https://api"; issuer = codes "iss" }

abbrev call : Moments
call = record {
  now_secs = pos 1000;
  stale_at = seconds 110;
  refreshed_at = seconds 110;
  force_at = seconds 111;
  forced_at = seconds 112;
}

abbrev run_call : Outcome DuckvisClaims × Cache toy
run_call = validate_token toy issuer_auth key_server call token old_cache

accepted : run_call.0 ≡ ok ada
unfolding validate_token bytes_eq lookup wrap_i64 get
accepted = refl

aged : run_call.1.max_age ≡ seconds 60
unfolding validate_token bytes_eq lookup wrap_i64 get
aged = refl

validate_token-IsValidToken_example :
    IsValidToken toy token (codes "iss") (pos 1000) (get toy run_call.1) ada
    × Published toy issuer_auth key_server call old_cache run_call.1
validate_token-IsValidToken_example =
    validate_token-IsValidToken toy issuer_auth key_server call token ada old_cache accepted

permitted : can_force_refresh toy call.force_at old_cache ≡ true
unfolding can_force_refresh
permitted = refl

valid :
    verify_and_decode toy token
      (codes "iss")
      (pos 1000)
      (λ kid. lookup kid (usable_keys toy rotated []))
    ≡ ok ada
unfolding verify_and_decode usable_keys lookup bytes_eq wrap_i64
valid = refl

validate_token_recovers_example : run_call.0 ≡ ok ada
validate_token_recovers_example =
    validate_token_recovers toy issuer_auth key_server call (some (codes "v1"))
      (some (codes "public, max-age=60")) rotated (λ r. refl) token ada valid old_cache permitted
