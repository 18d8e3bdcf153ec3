-- ===== src/Duckvis/Validate.antt =====
-- duckvis/mod.rs: `DuckvisAuth::validate_token`, with a refresh of a stale cache and one forced
-- refresh and retry. The server may answer differently at each instant.
pub mod Keys
pub mod Sound
pub mod Retry
mod Tests
use swanlake.Prelude.{ℕ, Bool, true, false, if◌then◌else◌, ℤ}
use swanlake.Text.{Bytes}
use swanlake.Duckvis.{unauthenticated, Outcome, ok, err}
use swanlake.Duckvis.Jwt.{Jose, DuckvisClaims, verify_and_decode}
use swanlake.Duckvis.Jwks.{Cache, KeyRequest, Response, get, is_stale, can_force_refresh, refresh}

-- The readings of the clocks in one call, in the order in which they are taken.
pub record Moments : Type 0 where
  pub now_secs : ℤ
  pub stale_at : ℕ
  pub refreshed_at : ℕ
  pub force_at : ℕ
  pub forced_at : ℕ

pub record DuckvisAuth : Type 0 where
  pub api_url : Bytes
  pub issuer : Bytes

module _ (jose : Jose) (auth : DuckvisAuth) (server : ℕ → KeyRequest → Response) where
  -- A failed refresh leaves the cache as it is.
  unfoldable pub freshened : Moments → Cache jose → Cache jose
  unfolding is_stale refresh
  freshened m cache =
      if is_stale jose m.stale_at cache
      then (refresh jose m.refreshed_at (server m.refreshed_at) auth.api_url false cache).1
      else cache

  abbrev pub attempt : Moments → Bytes → Cache jose → Outcome DuckvisClaims
  attempt m jwt cache = verify_and_decode jose jwt auth.issuer m.now_secs (get jose cache)

  abbrev pub forced_refresh : Moments → Cache jose → Cache jose
  forced_refresh m cache = (refresh jose m.forced_at (server m.forced_at) auth.api_url true cache).1

  unfoldable pub retry : Moments → Bytes → Cache jose → Outcome DuckvisClaims × Cache jose
  unfolding can_force_refresh refresh verify_and_decode
  retry m jwt cache =
      if can_force_refresh jose m.force_at cache
      then (attempt m jwt (forced_refresh m cache), forced_refresh m cache)
      else (err unauthenticated, cache)

  abbrev pub settled :
      Moments → Bytes → Cache jose → Outcome DuckvisClaims → Outcome DuckvisClaims × Cache jose
  settled m jwt cache (ok claims) = (ok claims, cache)
  settled m jwt cache (err unauthenticated) = retry m jwt cache
  settled m jwt cache (err other) = (err other, cache)

  unfoldable pub validate_token : Moments → Bytes → Cache jose → Outcome DuckvisClaims × Cache jose
  unfolding freshened retry verify_and_decode
  validate_token m jwt cache = settled m jwt (freshened m cache) (attempt m jwt (freshened m cache))
