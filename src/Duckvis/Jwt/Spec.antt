-- ===== src/Duckvis/Jwt/Spec.antt =====
-- duckvis/jwt.rs: what a valid token is, by its parts, its key and its claims.
use swanlake.Prelude.{
  ◌≡◌, ◌≢◌, true, [], ◌∷◌, ◌++◌, Option, some, length, ℤ, wrap_i64, ◌+ℤ◌, ◌-ℤ◌, ◌<ℤ◌, ◌≤ℤ◌,
}
use swanlake.Text.{Bytes, codes}
use swanlake.Duckvis.Jwt.{
  Jose, ActorKind, human, service, DuckvisClaims, and_then, str_claim, int_claim, clock_skew_secs,
  aud_swanlake,
}
use swanlake.Duckvis.Jwt.Split.{IsThree}

abbrev pub kind_name : ActorKind → Bytes
kind_name human = codes "human"
kind_name service = codes "service"

-- Before `exp` and not before `nbf`, each with 30 seconds of grace.
abbrev pub InWindow : ℤ → ℤ → ℤ → Type 0
InWindow now exp nbf =
    (now <ℤ wrap_i64 (exp +ℤ clock_skew_secs)) × (wrap_i64 (nbf -ℤ clock_skew_secs) ≤ℤ now)

module _ (jose : Jose) where
  open jose use {
    Value, Object, VerifyingKey, decode, from_slice, get, as_object, as_str, verify_strict,
  }

  abbrev pub Decodes : Bytes → Value → Type 0
  Decodes segment v = (bytes : Bytes) × (decode segment ≡ some bytes) × (from_slice bytes ≡ some v)

  pub record HasClaims (expected_iss : Bytes) (now : ℤ) (obj : Object) (claims : DuckvisClaims)
      : Type 0 where
    pub exp : ℤ
    pub nbf : ℤ
    pub exp_claim : int_claim jose obj (codes "exp") ≡ some exp
    pub nbf_claim : int_claim jose obj (codes "nbf") ≡ some nbf
    pub window : InWindow now exp nbf
    pub iss_claim : str_claim jose obj (codes "iss") ≡ some expected_iss
    pub kind_claim : str_claim jose obj (codes "actor_kind") ≡ some (kind_name claims.actor_kind)
    pub sub_claim : str_claim jose obj (codes "sub") ≡ some claims.sub
    pub sub_given : claims.sub ≢ []
    pub aud_claim : str_claim jose obj (codes "aud") ≡ some aud_swanlake

  -- The key that the header names, under the algorithm EdDSA.
  pub record NamesKey (lookup_key : Bytes → Option VerifyingKey) (h : Bytes) (vk : VerifyingKey)
      : Type 0 where
    pub header : Value
    pub kid : Bytes
    pub header_json : Decodes h header
    pub alg_claim : and_then (get (codes "alg") header) as_str ≡ some (codes "EdDSA")
    pub kid_claim : and_then (get (codes "kid") header) as_str ≡ some kid
    pub known : lookup_key kid ≡ some vk

  pub record IsValidToken (jwt expected_iss : Bytes) (now : ℤ)
      (lookup_key : Bytes → Option VerifyingKey) (claims : DuckvisClaims) : Type 0 where
    pub h : Bytes
    pub p : Bytes
    pub s : Bytes
    pub parts : IsThree jwt (h, p, s)
    pub vk : VerifyingKey
    pub named : NamesKey lookup_key h vk
    pub sig : Bytes
    pub sig_bytes : decode s ≡ some sig
    pub sig_length : length sig ≡ 64
    pub signed : verify_strict vk (h ++ b'.' ∷ p) sig ≡ true
    pub payload : Value
    pub payload_json : Decodes p payload
    pub obj : Object
    pub is_object : as_object payload ≡ some obj
    pub claimed : HasClaims expected_iss now obj claims
