-- ===== src/Duckvis/Jwks.antt =====
-- duckvis/jwks.rs: the cache of the issuer's keys and its refresh. The HTTP server is a function of
-- the request, and instants are numbers of nanoseconds.
use swanlake.Prelude.{
  ℕ, ◌+◌, ◌-◌, ◌*◌, ◌^◌, Bool, true, false, ◌&&◌, List, [], ◌∷◌, ◌++◌, Option, none, some, ◌==◌,
  leb, ltb, is_empty, if◌then◌else◌, length,
}
use swanlake.Text.{strip_prefix, Bytes, codes, bytes_eq, trim}
use swanlake.Dict.{insert, lookup, bytes_key}
use swanlake.Duckvis.{unavailable, Outcome, ok, err, ◌>>=◌, ok_or}
use swanlake.Duckvis.Jwt.{Jose, and_then, split}

abbrev pub seconds : ℕ → ℕ
seconds n = n * 1000000000

abbrev pub forced_refresh_floor : ℕ
forced_refresh_floor = seconds 10

pub record JwkEntry : Type 0 where
  pub kty : Bytes
  pub crv : Option Bytes
  pub kid : Bytes
  pub x : Bytes

pub record JwksCache (K : Type 0) : Type 0 where
  pub keys : List (Bytes × K)
  pub etag : Option Bytes
  pub fetched_at : Option ℕ
  pub last_forced_refresh : Option ℕ
  pub max_age : ℕ

pub data FetchOutcome (K : Type 0) : Type 0 where
  not_modified : FetchOutcome K
  updated : List (Bytes × K) → Option Bytes → Option ℕ → FetchOutcome K

pub record KeyRequest : Type 0 where
  pub url : Bytes
  pub if_none_match : Option Bytes

-- What reqwest hands back: a failed exchange, or a status, two headers and the parsed body.
pub data Response : Type 0 where
  failed : Response
  replied : ℕ → Option Bytes → Option Bytes → Option (List JwkEntry) → Response

-- `at.elapsed()` stops at zero.
abbrev elapsed_since : ℕ → Option ℕ → ℕ → Bool
elapsed_since now none span = true
elapsed_since now (some at) span = leb span (now - at)

abbrev is_digit : ℕ → Bool
is_digit c = leb 48 c && leb c 57

digits_value : ℕ → Bytes → Option ℕ
digits_value acc [] = some acc
digits_value acc (c ∷ s) =
    let rest = digits_value (acc * 10 + (c - 48)) s in
    if is_digit c && ltb (acc * 10 + (c - 48)) (2 ^ 64) then rest else none

-- `str::parse::<u64>`
unfoldable pub parse_u64 : Bytes → Option ℕ
unfolding digits_value
parse_u64 [] = none
parse_u64 (c ∷ []) = if is_digit c then some (c - 48) else none
parse_u64 (c ∷ d ∷ s) = if c == b'+' then digits_value 0 (d ∷ s) else digits_value 0 (c ∷ d ∷ s)

unfoldable pub directive_max_age : Bytes → Option ℕ
unfolding parse_u64 strip_prefix trim
directive_max_age directive =
    and_then (strip_prefix (codes "max-age=") (trim directive)) (λ rest. parse_u64 (trim rest))

unfoldable pub first_max_age : List Bytes → Option ℕ
unfolding directive_max_age
first_max_age [] = none
first_max_age (directive ∷ directives) =
    let later = first_max_age directives in
    elim (directive_max_age directive) [ none ↦ later | some secs ↦ some (seconds secs) ]

unfoldable pub parse_max_age : Option Bytes → Option ℕ
unfolding first_max_age split
parse_max_age none = none
parse_max_age (some cc) = first_max_age (split b',' cc)

-- `trim_end_matches('/')`
unfoldable pub trim_end_slashes : Bytes → Bytes
trim_end_slashes [] = []
trim_end_slashes (c ∷ s) =
    let rest = trim_end_slashes s in if is_empty rest && c == b'/' then [] else c ∷ rest

abbrev pub or_else : ℕ → Option ℕ → ℕ
or_else d none = d
or_else d (some n) = n

module _ (jose : Jose) where
  open jose use {VerifyingKey, decode, key_from_bytes}

  abbrev pub Cache : Type 0
  Cache = JwksCache VerifyingKey

  abbrev pub new_cache : ℕ → Cache
  new_cache fallback_max_age_secs = record {
    keys = [];
    etag = none;
    fetched_at = none;
    last_forced_refresh = none;
    max_age = seconds fallback_max_age_secs;
  }

  unfoldable pub get : Cache → Bytes → Option VerifyingKey
  unfolding lookup
  get cache kid = lookup kid cache.keys

  unfoldable pub is_stale : ℕ → Cache → Bool
  is_stale now cache = elapsed_since now cache.fetched_at cache.max_age

  unfoldable pub can_force_refresh : ℕ → Cache → Bool
  can_force_refresh now cache = elapsed_since now cache.last_forced_refresh forced_refresh_floor

  unfoldable pub mark_forced : ℕ → Cache → Cache
  mark_forced now cache = record cache { last_forced_refresh = some now }

  unfoldable pub apply : ℕ → FetchOutcome VerifyingKey → Cache → Cache
  apply now not_modified cache = record cache { fetched_at = some now }
  apply now (updated keys etag max_age) cache = record cache {
    keys = keys;
    etag = etag;
    fetched_at = some now;
    max_age = or_else cache.max_age max_age;
  }

  abbrev thirty_two : Bytes → Option Bytes
  thirty_two bytes = if length bytes == 32 then some bytes else none

  abbrev ed25519 : Option Bytes → Bool
  ed25519 none = true
  ed25519 (some crv) = bytes_eq crv (codes "Ed25519")

  unfoldable pub parse_okp_key : JwkEntry → Option VerifyingKey
  unfolding bytes_eq
  parse_okp_key entry =
      if bytes_eq entry.kty (codes "OKP") && ed25519 entry.crv
      then and_then (and_then (decode entry.x) thirty_two) key_from_bytes
      else none

  abbrev with_key :
      Option VerifyingKey → Bytes → List (Bytes × VerifyingKey) → List (Bytes × VerifyingKey)
  with_key none kid keys = keys
  with_key (some vk) kid keys = insert kid vk keys

  -- The loop over the entries: those that cannot be used are skipped.
  unfoldable pub usable_keys :
      List JwkEntry → List (Bytes × VerifyingKey) → List (Bytes × VerifyingKey)
  unfolding parse_okp_key insert
  usable_keys [] keys = keys
  usable_keys (entry ∷ entries) keys =
      usable_keys entries (with_key (parse_okp_key entry) entry.kid keys)

  -- 304, then any status that is not 2xx, then the body.
  unfoldable pub read_response : Response → Outcome (FetchOutcome VerifyingKey)
  unfolding usable_keys parse_max_age
  read_response failed = err unavailable
  read_response (replied status etag cache_control body) =
      if status == 304
      then ok not_modified
      else if leb 200 status && ltb status 300
      then (ok_or unavailable body >>= λ entries.
          ok (updated (usable_keys entries []) etag (parse_max_age cache_control)))
      else err unavailable

  abbrev pub jwks_request : Bytes → Option Bytes → KeyRequest
  jwks_request api_url current_etag = record {
    url = trim_end_slashes api_url ++ codes "/.well-known/jwks.json";
    if_none_match = current_etag;
  }

  unfoldable pub fetch :
      (KeyRequest → Response) → Bytes → Option Bytes → Outcome (FetchOutcome VerifyingKey)
  unfolding read_response trim_end_slashes
  fetch server api_url current_etag = read_response (server (jwks_request api_url current_etag))

  abbrev pub marked : Bool → ℕ → Cache → Cache
  marked true now cache = mark_forced now cache
  marked false now cache = cache

  abbrev pub refreshed :
      ℕ → Bool → Cache → Outcome (FetchOutcome VerifyingKey) → Outcome (Unit {0}) × Cache
  refreshed now forced cache (err e) = (err e, cache)
  refreshed now forced cache (ok outcome) = (ok tt, apply now outcome (marked forced now cache))

  unfoldable pub refresh :
      ℕ → (KeyRequest → Response) → Bytes → Bool → Cache → Outcome (Unit {0}) × Cache
  unfolding fetch apply mark_forced
  refresh now server api_url forced cache =
      refreshed now forced cache (fetch server api_url cache.etag)
