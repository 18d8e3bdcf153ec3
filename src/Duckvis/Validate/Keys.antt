-- ===== src/Duckvis/Validate/Keys.antt =====
-- duckvis/jwks.rs: where the keys of a cache come from, and what a refresh leaves alone.
use swanlake.Prelude.{
  ℕ, ◌≡◌, ◌⊎◌, inl, inr, refl, Bool, true, false, List, [], Option, none, some, arith, ◌≤◌,
  Bool-cases,
}
use swanlake.Text.{Bytes}
use swanlake.Duckvis.{Outcome, ok, err}
use swanlake.Duckvis.Jwt.{Jose}
use swanlake.Duckvis.Jwks.{
  Cache, JwkEntry, FetchOutcome, not_modified, updated, KeyRequest, Response, failed, replied,
  fetch, read_response, jwks_request, refreshed, is_stale, refresh, apply, mark_forced, usable_keys,
  can_force_refresh,
}
use swanlake.Duckvis.Validate.{DuckvisAuth, Moments, freshened}

module _ (jose : Jose) (server : ℕ → KeyRequest → Response) where
  -- The server has offered these keys at `at`, in a reply that says success.
  pub record Offered (at : ℕ) (keys : List (Bytes × jose.VerifyingKey)) : Type 0 where
    pub request : KeyRequest
    pub status : ℕ
    pub etag : Option Bytes
    pub cache_control : Option Bytes
    pub entries : List JwkEntry
    pub reply : server at request ≡ replied status etag cache_control (some entries)
    pub success : (200 ≤ status) × (status ≤ 299)
    pub usable : keys ≡ usable_keys jose entries []

  abbrev pub KeptOrOffered : ℕ → Cache jose → Cache jose → Type 0
  KeptOrOffered at before after = (after.keys ≡ before.keys) ⊎ Offered at after.keys

  Offered-read_response :
      (at : ℕ) (request : KeyRequest) (r : Response) (keys : List (Bytes × jose.VerifyingKey))
      (etag : Option Bytes) (age : Option ℕ)
      → server at request ≡ r
      → read_response jose r ≡ ok (updated keys etag age)
      → Offered at keys
  unfolding read_response
  Offered-read_response at request failed keys etag age e h = absurd (cc h)
  Offered-read_response at request (replied status tag cc_ none) keys etag age e h =
      absurd (ground arith)
  Offered-read_response at request (replied status tag cc_ (some entries)) keys etag age e h =
      record {
        request = request;
        status = status;
        etag = tag;
        cache_control = cc_;
        entries = entries;
        reply = e;
        success = ground arith;
        usable = ground arith;
      }

  refreshed-KeptOrOffered :
      (at : ℕ) (request : KeyRequest) (forced : Bool) (cache : Cache jose)
      (r : Outcome (FetchOutcome jose.VerifyingKey))
      → read_response jose (server at request) ≡ r
      → KeptOrOffered at cache (refreshed jose at forced cache r).1
  unfolding apply mark_forced
  refreshed-KeptOrOffered at request forced cache (err x) e = inl refl
  refreshed-KeptOrOffered at request true cache (ok not_modified) e = inl refl
  refreshed-KeptOrOffered at request false cache (ok not_modified) e = inl refl
  refreshed-KeptOrOffered at request forced cache (ok (updated keys etag age)) e =
      inr (Offered-read_response at request _ keys etag age refl e)

  pub refresh-KeptOrOffered :
      (at : ℕ) (api_url : Bytes) (forced : Bool) (cache : Cache jose)
      → KeptOrOffered at cache (refresh jose at (server at) api_url forced cache).1
  unfolding refresh fetch
  refresh-KeptOrOffered at api_url forced cache =
      refreshed-KeptOrOffered at (jwks_request jose api_url cache.etag) forced cache _ refl

  -- A refresh that is not forced does not use up the permission to force one.
  refreshed-can_force_refresh :
      (at now : ℕ) (cache : Cache jose) (r : Outcome (FetchOutcome jose.VerifyingKey))
      → can_force_refresh jose now (refreshed jose at false cache r).1
        ≡ can_force_refresh jose now cache
  unfolding apply can_force_refresh
  refreshed-can_force_refresh at now cache (err x) = refl
  refreshed-can_force_refresh at now cache (ok not_modified) = refl
  refreshed-can_force_refresh at now cache (ok (updated keys etag age)) = refl

  module _ (auth : DuckvisAuth) where
    pub freshened-can_force_refresh :
        (m : Moments) (now : ℕ) (cache : Cache jose)
        → can_force_refresh jose now (freshened jose auth server m cache)
          ≡ can_force_refresh jose now cache
    unfolding freshened refresh fetch
    freshened-can_force_refresh m now cache = elim (Bool-cases (is_stale jose m.stale_at cache)) [
      | inl h ↦ rw h (
          refreshed-can_force_refresh m.refreshed_at now cache
            (fetch jose (server m.refreshed_at) auth.api_url cache.etag))
      | inr h ↦ rw h refl
    ]

    pub freshened-KeptOrOffered :
        (m : Moments) (cache : Cache jose)
        → KeptOrOffered m.refreshed_at cache (freshened jose auth server m cache)
    unfolding freshened
    freshened-KeptOrOffered m cache = elim (Bool-cases (is_stale jose m.stale_at cache)) [
      | inl h ↦ rw h (refresh-KeptOrOffered m.refreshed_at auth.api_url false cache)
      | inr h ↦ rw h (inl refl)
    ]
