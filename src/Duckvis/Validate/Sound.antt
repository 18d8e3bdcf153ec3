-- ===== src/Duckvis/Validate/Sound.antt =====
-- duckvis/mod.rs: a token that `validate_token` accepts is valid under keys that the issuer has
-- published.
use swanlake.Prelude.{ℕ, ◌≡◌, ◌⊎◌, inl, inr, refl, sym, subst, ◌∙◌, true, Bool-cases}
use swanlake.Text.{Bytes}
use swanlake.Duckvis.{DuckvisError, Outcome, ok, err, unauthenticated}
use swanlake.Duckvis.Jwt.{Jose, DuckvisClaims}
use swanlake.Duckvis.Jwt.Spec.{IsValidToken}
use swanlake.Duckvis.Jwt.Accepts.{verify_and_decode-IsValidToken}
use swanlake.Duckvis.Jwks.{Cache, KeyRequest, Response, get, can_force_refresh}
use swanlake.Duckvis.Validate.{
  DuckvisAuth, Moments, freshened, forced_refresh, attempt, retry, settled, validate_token,
}
use swanlake.Duckvis.Validate.Keys.{
  Offered, KeptOrOffered, refresh-KeptOrOffered, freshened-KeptOrOffered,
}

module _ (jose : Jose) (auth : DuckvisAuth) (server : ℕ → KeyRequest → Response) (m : Moments) where
  -- The keys were in the cache at the start, or the server has offered them in this call.
  abbrev pub Published : Cache jose → Cache jose → Type 0
  Published before after =
      (after.keys ≡ before.keys)
      ⊎ Offered jose server m.refreshed_at after.keys
      ⊎ Offered jose server m.forced_at after.keys

  abbrev IsSound : Bytes → DuckvisClaims → Cache jose → Outcome DuckvisClaims × Cache jose → Type 0
  IsSound jwt claims middle r =
      IsValidToken jose jwt auth.issuer m.now_secs (get jose r.1) claims
      × KeptOrOffered jose server m.forced_at middle r.1

  attempt-IsValidToken :
      (jwt : Bytes) (claims : DuckvisClaims) (cache : Cache jose)
      → attempt jose auth server m jwt cache ≡ ok claims
      → IsValidToken jose jwt auth.issuer m.now_secs (get jose cache) claims
  attempt-IsValidToken jwt claims cache =
      verify_and_decode-IsValidToken jose (get jose cache) jwt auth.issuer m.now_secs claims

  retry-IsSound :
      (jwt : Bytes) (claims : DuckvisClaims) (cache : Cache jose)
      → (retry jose auth server m jwt cache).0 ≡ ok claims
      → IsSound jwt claims cache (retry jose auth server m jwt cache)
  unfolding retry
  retry-IsSound jwt claims cache h = elim (Bool-cases (can_force_refresh jose m.force_at cache)) [
    | inl e ↦ rw e (
      attempt-IsValidToken jwt claims (forced_refresh jose auth server m cache) (rw e at h),
      refresh-KeptOrOffered jose server m.forced_at auth.api_url true cache,
    )
    | inr e ↦
        (let stuck : ◌≡◌ {A = Outcome DuckvisClaims} (err unauthenticated) (ok claims) =
            rw e at h in
          absurd (cc stuck))
  ]

  settled-IsSound :
      (jwt : Bytes) (claims : DuckvisClaims) (cache : Cache jose) (o : Outcome DuckvisClaims)
      → attempt jose auth server m jwt cache ≡ o
      → (settled jose auth server m jwt cache o).0 ≡ ok claims
      → IsSound jwt claims cache (settled jose auth server m jwt cache o)
  settled-IsSound jwt claims cache (ok c) e h =
      (attempt-IsValidToken jwt claims cache (cc (e, h)), inl refl)
  settled-IsSound jwt claims cache (err DuckvisError.unauthenticated) e h =
      retry-IsSound jwt claims cache h
  settled-IsSound jwt claims cache (err other) e h = absurd (cc h)

  -- What the cache holds behind a call: the keys that it held, or keys that the server offered when
  -- the stale cache was refreshed, or at the forced refresh.
  published :
      (before middle after : Cache jose)
      → KeptOrOffered jose server m.refreshed_at before middle
      → KeptOrOffered jose server m.forced_at middle after
      → Published before after
  published before middle after (inl a) (inl b) = inl (b ∙ a)
  published before middle after (inr a) (inl b) =
      inr (inl (subst (Offered jose server m.refreshed_at) (sym b) a))
  published before middle after a (inr b) = inr (inr b)

  -- A token that `validate_token` accepts, with its claims, is valid at the time of the call under
  -- the keys that the call leaves in the cache; and those keys are the ones that the cache held
  -- before, or the usable ones of a successful reply of the key server to a request of this call.
  pub validate_token-IsValidToken :
      (jwt : Bytes) (claims : DuckvisClaims) (cache : Cache jose)
      → (validate_token jose auth server m jwt cache).0 ≡ ok claims
      → IsValidToken jose jwt auth.issuer m.now_secs
          (get jose (validate_token jose auth server m jwt cache).1)
          claims
        × Published cache (validate_token jose auth server m jwt cache).1
  unfolding validate_token
  validate_token-IsValidToken jwt claims cache h =
      let middle : Cache jose = freshened jose auth server m cache in
      let (valid, kept) = settled-IsSound jwt claims middle _ refl h in
      (
        valid,
        published cache middle (validate_token jose auth server m jwt cache).1
            (freshened-KeptOrOffered jose server auth m cache) kept,
      )
