-- ===== src/Duckvis/Fixture.antt =====
-- A toy encoding for the tests: base64 is the identity, two texts are JSON, and one key signs all.
use swanlake.Prelude.{
  ℕ, zero, suc, ◌-◌, ◌&&◌, List, [], ◌∷◌, ◌++◌, Option, none, some, ◌==◌, length, if◌then◌else◌, ℤ,
  pos,
}
use swanlake.Text.{Bytes, codes, bytes_eq}
use swanlake.Dict.{lookup, bytes_key}
use swanlake.Duckvis.Jwt.{Jose, DuckvisClaims, human}

pub data Json : Type 0 where
  text : Bytes → Json
  int : ℤ → Json
  header : Json
  claims : Json

abbrev header_text : Bytes
header_text = codes "H"

abbrev claims_text : Bytes
claims_text = codes "P"

abbrev header_fields : List (Bytes × Json)
header_fields = (codes "alg", text (codes "EdDSA")) ∷ (codes "kid", text (codes "k1")) ∷ []

abbrev claim_fields : List (Bytes × Json)
claim_fields =
    (codes "exp", int (pos 1000))
    ∷ (codes "nbf", int (pos 900))
    ∷ (codes "iss", text (codes "iss"))
    ∷ (codes "actor_kind", text (codes "human"))
    ∷ (codes "sub", text (codes "ada"))
    ∷ (codes "aud", text (codes "swanlake"))
    ∷ []

abbrev toy_parse : Bytes → Option Json
toy_parse bytes =
    if bytes_eq bytes header_text
    then some header
    else if bytes_eq bytes claims_text
    then some claims
    else none

abbrev toy_get : Bytes → Json → Option Json
toy_get k header = lookup k header_fields
toy_get k claims = lookup k claim_fields
toy_get k _ = none

abbrev toy_object : Json → Option (Unit {0})
toy_object claims = some tt
toy_object _ = none

abbrev toy_str : Json → Option Bytes
toy_str (text s) = some s
toy_str _ = none

abbrev toy_int : Json → Option ℤ
toy_int (int n) = some n
toy_int _ = none

abbrev pub repeated : ℕ → ℕ → Bytes
repeated zero c = []
repeated (suc n) c = c ∷ repeated n c

abbrev pub toy : Jose
toy = record {
  Value = Json;
  Object = Unit {0};
  VerifyingKey = ℕ;
  decode = λ s. some s;
  from_slice = toy_parse;
  get = toy_get;
  as_object = toy_object;
  object_get = λ k o. lookup k claim_fields;
  as_str = toy_str;
  as_i64 = toy_int;
  verify_strict = λ vk message sig. vk == 7 && bytes_eq sig (repeated 64 b'S');
  key_from_bytes = λ bytes. some (length bytes - 25);
}

abbrev pub known : Bytes → Option ℕ
known kid = if bytes_eq kid (codes "k1") then some 7 else none

abbrev pub token : Bytes
token = codes "H.P." ++ repeated 64 b'S'

abbrev pub ada : DuckvisClaims
ada = record { sub = codes "ada"; actor_kind = human }
