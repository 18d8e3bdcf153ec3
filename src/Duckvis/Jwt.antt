-- ===== src/Duckvis/Jwt.antt =====
-- duckvis/jwt.rs: the verification of a compact JWS and of its claims. Base64, JSON and Ed25519 are
-- the fields of `Jose`.
pub mod Split
pub mod Spec
pub mod Claims
pub mod Accepts
mod Tests
use swanlake.Prelude.{
  ℕ, ◌≡◌, Bool, true, false, ◌&&◌, ◌||◌, not, List, [], ◌∷◌, ◌++◌, Option, none, some, ◌==◌,
  if◌then◌else◌, length, is_empty, ℤ, wrap_i64, ltb_ℤ, ◌+ℤ◌, ◌-ℤ◌,
}
use swanlake.Text.{Bytes, codes, bytes_eq}
use swanlake.Duckvis.{unauthenticated, Outcome, ok, err, ◌>>=◌, ok_or}

-- What the crates base64, serde_json and ed25519_dalek offer. `decode` is `URL_SAFE_NO_PAD.decode`,
-- and a key is asked for 64 bytes of signature only.
pub record Jose : Type 1 where
  pub Value : Type 0
  pub Object : Type 0
  pub VerifyingKey : Type 0
  pub decode : Bytes → Option Bytes
  pub from_slice : Bytes → Option Value
  pub get : Bytes → Value → Option Value
  pub as_object : Value → Option Object
  pub object_get : Bytes → Object → Option Value
  pub as_str : Value → Option Bytes
  pub as_i64 : Value → Option ℤ
  pub verify_strict : VerifyingKey → Bytes → Bytes → Bool
  pub key_from_bytes : Bytes → Option VerifyingKey

pub data ActorKind : Type 0 where
  human : ActorKind
  service : ActorKind

pub record DuckvisClaims : Type 0 where
  pub sub : Bytes
  pub actor_kind : ActorKind

abbrev pub clock_skew_secs : ℕ
clock_skew_secs = 30

abbrev pub aud_swanlake : Bytes
aud_swanlake = codes "swanlake"

abbrev pub and_then {ℓ κ} : {A : Type ℓ} {B : Type κ} → Option A → (A → Option B) → Option B
and_then none f = none
and_then (some a) f = f a

abbrev pub in_front : ℕ → List Bytes → List Bytes
in_front c [] = (c ∷ []) ∷ []
in_front c (part ∷ parts) = (c ∷ part) ∷ parts

-- `str::split` at one ASCII character.
unfoldable pub split : ℕ → Bytes → List Bytes
split sep [] = [] ∷ []
split sep (c ∷ s) = let rest = split sep s in if c == sep then [] ∷ rest else in_front c rest

unfoldable pub three_parts : List Bytes → Option (Bytes × Bytes × Bytes)
three_parts (h ∷ p ∷ s ∷ []) = some (h, p, s)
three_parts _ = none

unfoldable pub is_str : Bytes → Option Bytes → Bool
unfolding bytes_eq
is_str expected none = false
is_str expected (some s) = bytes_eq s expected

-- `guard(test)?`: an early return where the test fails.
abbrev pub require : Bool → Outcome (Unit {0})
require true = ok tt
require false = err unauthenticated

unfoldable pub actor_kind_of : Option Bytes → Option ActorKind
unfolding bytes_eq
actor_kind_of none = none
actor_kind_of (some s) =
    if bytes_eq s (codes "human")
    then some human
    else if bytes_eq s (codes "service")
    then some service
    else none

unfoldable pub non_empty : Option Bytes → Option Bytes
non_empty none = none
non_empty (some s) = if is_empty s then none else some s

abbrev pub sixty_four : Bytes → Option Bytes
sixty_four bytes = if length bytes == 64 then some bytes else none

-- `exp + CLOCK_SKEW_SECS` and `nbf - CLOCK_SKEW_SECS` wrap, as in a release build.
unfoldable pub in_time : ℤ → ℤ → ℤ → Bool
in_time now_secs exp nbf =
    ltb_ℤ now_secs (wrap_i64 (exp +ℤ clock_skew_secs))
    && not (ltb_ℤ now_secs (wrap_i64 (nbf -ℤ clock_skew_secs)))

module _ (jose : Jose) where
  open jose use {
    Value, Object, VerifyingKey, decode, from_slice, get, as_object, object_get, as_str, as_i64,
    verify_strict,
  }

  unfoldable pub decode_json : Bytes → Outcome Value
  decode_json segment = do
    bytes ← ok_or unauthenticated (decode segment)
    ok_or unauthenticated (from_slice bytes)

  abbrev pub str_claim : Object → Bytes → Option Bytes
  str_claim obj k = and_then (object_get k obj) as_str

  abbrev pub int_claim : Object → Bytes → Option ℤ
  int_claim obj k = and_then (object_get k obj) as_i64

  -- The claim set, in the order of the source.
  unfoldable pub validate_claims : Bytes → ℤ → Object → Outcome DuckvisClaims
  unfolding in_time is_str actor_kind_of non_empty
  validate_claims expected_iss now_secs obj = do
    exp ← ok_or unauthenticated (int_claim obj (codes "exp"))
    nbf ← ok_or unauthenticated (int_claim obj (codes "nbf"))
    in_window ← require (in_time now_secs exp nbf)
    issued ← require (is_str expected_iss (str_claim obj (codes "iss")))
    kind ← ok_or unauthenticated (actor_kind_of (str_claim obj (codes "actor_kind")))
    sub ← ok_or unauthenticated (non_empty (str_claim obj (codes "sub")))
    meant ← require (is_str aud_swanlake (str_claim obj (codes "aud")))
    ok record { sub = sub; actor_kind = kind }

  -- The header: the key that it names.
  unfoldable pub header_key : (Bytes → Option VerifyingKey) → Bytes → Outcome VerifyingKey
  unfolding decode_json is_str
  header_key lookup_key h = do
    header ← decode_json h
    signed ← require (is_str (codes "EdDSA") (and_then (get (codes "alg") header) as_str))
    kid ← ok_or unauthenticated (and_then (get (codes "kid") header) as_str)
    ok_or unauthenticated (lookup_key kid)

  unfoldable pub verify_and_decode :
      Bytes → Bytes → ℤ → (Bytes → Option VerifyingKey) → Outcome DuckvisClaims
  unfolding split three_parts header_key decode_json validate_claims
  verify_and_decode jwt expected_iss now_secs lookup_key = do
    parts ← ok_or unauthenticated (three_parts (split b'.' jwt))
    vk ← header_key lookup_key parts.0
    sig_bytes ← ok_or unauthenticated (and_then (decode parts.2) sixty_four)
    verified ← require (verify_strict vk (parts.0 ++ b'.' ∷ parts.1) sig_bytes)
    payload ← decode_json parts.1
    obj ← ok_or unauthenticated (as_object payload)
    validate_claims expected_iss now_secs obj
