-- ===== src/Duckvis/Jwt/Accepts.antt =====
-- duckvis/jwt.rs: `verify_and_decode` accepts the valid tokens, and fails in one way.
use swanlake.Prelude.{
  ◌≡◌, ◌↔◌, refl, Bool, true, false, ◌∷◌, ◌++◌, Option, none, some, arith, ℤ, length,
}
use swanlake.Text.{Bytes, codes}
use swanlake.Duckvis.{unauthenticated, ok, FailsBy, FailsBy-bind, FailsBy-ok_or, ok-bind, ok-ok_or}
use swanlake.Duckvis.Jwt.{
  Jose, DuckvisClaims, and_then, is_str, require, decode_json, header_key, verify_and_decode,
  validate_claims, three_parts, split, sixty_four,
}
use swanlake.Duckvis.Jwt.Split.{IsThree-three_parts, three_parts_joined}
use swanlake.Duckvis.Jwt.Spec.{Decodes, NamesKey, IsValidToken}
use swanlake.Duckvis.Jwt.Claims.{
  ok-given, ok-required, is_str_iff, validate_claims-HasClaims, HasClaims-validate_claims,
}

sixty_four_iff :
    (o : Option Bytes) (sig : Bytes)
    → (and_then o sixty_four ≡ some sig) ↔ ((o ≡ some sig) × (length sig ≡ 64))
sixty_four_iff none sig = (λ h. absurd (cc h), λ h. absurd (cc h.0))
sixty_four_iff (some bytes) sig = ground arith

require-FailsBy : (b : Bool) → FailsBy unauthenticated (require b)
require-FailsBy true = tt
require-FailsBy false = refl

ruleset fails_alike = (FailsBy-bind, FailsBy-ok_or, require-FailsBy)

module _ (jose : Jose) where
  open jose use {
    Value, Object, VerifyingKey, decode, from_slice, get, as_object, as_str, verify_strict,
  }

  decode_json_iff :
      (segment : Bytes) (v : Value) → (decode_json jose segment ≡ ok v) ↔ Decodes jose segment v
  unfolding decode_json
  decode_json_iff segment v = (
    λ h.
        let (bytes, e, h') = ok-given (decode segment) _ v h in
        (bytes, e, ok-ok_or unauthenticated (from_slice bytes) v h'),
    λ d. rw (d.1, d.2) refl,
  )

  -- The claims are those of the token, whichever keys verify it.
  pub verify_and_decode_same :
      (one two : Bytes → Option VerifyingKey) (jwt expected_iss : Bytes) (now : ℤ)
      (c d : DuckvisClaims)
      → verify_and_decode jose jwt expected_iss now one ≡ ok c
      → verify_and_decode jose jwt expected_iss now two ≡ ok d
      → c ≡ d
  unfolding verify_and_decode
  verify_and_decode_same one two jwt expected_iss now c d h0 k0 =
      let (parts, e1, h1) = ok-given (three_parts (split b'.' jwt)) _ c h0 in
      let (vk, e2, h2) = ok-bind (header_key jose one parts.0) _ c h1 in
      let (sig, e3, h3) = ok-given (and_then (decode parts.2) sixty_four) _ c h2 in
      let (e4, h4) = ok-required (verify_strict vk (parts.0 ++ b'.' ∷ parts.1) sig) _ c h3 in
      let (payload, e5, h5) = ok-bind (decode_json jose parts.1) _ c h4 in
      let (obj, e6, h6) = ok-given (as_object payload) _ c h5 in
      let (parts', f1, k1) = ok-given (three_parts (split b'.' jwt)) _ d k0 in
      let (vk', f2, k2) = ok-bind (header_key jose two parts'.0) _ d k1 in
      let (sig', f3, k3) = ok-given (and_then (decode parts'.2) sixty_four) _ d k2 in
      let (f4, k4) = ok-required (verify_strict vk' (parts'.0 ++ b'.' ∷ parts'.1) sig') _ d k3 in
      let (payload', f5, k5) = ok-bind (decode_json jose parts'.1) _ d k4 in
      let (obj', f6, k6) = ok-given (as_object payload') _ d k5 in cc

  module _ (lookup_key : Bytes → Option VerifyingKey) where
    header_key_iff :
        (h : Bytes) (vk : VerifyingKey)
        → (header_key jose lookup_key h ≡ ok vk) ↔ NamesKey jose lookup_key h vk
    unfolding header_key
    header_key_iff h vk = (
      λ h0.
          let (header, e1, h1) = ok-bind (decode_json jose h) _ vk h0 in
          let (e2, h2) =
            ok-required (is_str (codes "EdDSA") (and_then (get (codes "alg") header) as_str)) _ vk
              h1 in
          let (kid, e3, h3) = ok-given (and_then (get (codes "kid") header) as_str) _ vk h2 in
          record {
            header = header;
            kid = kid;
            header_json = (decode_json_iff h header).0 e1;
            alg_claim = (is_str_iff _ _).0 e2;
            kid_claim = e3;
            known = ok-ok_or unauthenticated (lookup_key kid) vk h3;
          },
      λ n.
          rw
            (
              (decode_json_iff h n.header).1 n.header_json,
              (is_str_iff (codes "EdDSA") (and_then (get (codes "alg") n.header) as_str)).1
                  n.alg_claim,
              n.kid_claim,
              n.known,
            )
            refl,
    )

    module _ (jwt expected_iss : Bytes) (now : ℤ) where
      pub verify_and_decode-IsValidToken :
          (claims : DuckvisClaims)
          → verify_and_decode jose jwt expected_iss now lookup_key ≡ ok claims
          → IsValidToken jose jwt expected_iss now lookup_key claims
      unfolding verify_and_decode
      verify_and_decode-IsValidToken c h0 =
          let (parts, e1, h1) = ok-given (three_parts (split b'.' jwt)) _ c h0 in
          let (vk, e2, h2) = ok-bind (header_key jose lookup_key parts.0) _ c h1 in
          let (sig, e3, h3) = ok-given (and_then (decode parts.2) sixty_four) _ c h2 in
          let (e4, h4) = ok-required (verify_strict vk (parts.0 ++ b'.' ∷ parts.1) sig) _ c h3 in
          let (payload, e5, h5) = ok-bind (decode_json jose parts.1) _ c h4 in
          let (obj, e6, h6) = ok-given (as_object payload) _ c h5 in
          let (e7, e8) = (sixty_four_iff (decode parts.2) sig).0 e3 in
          record {
            h = parts.0;
            p = parts.1;
            s = parts.2;
            parts = IsThree-three_parts jwt parts e1;
            vk = vk;
            named = (header_key_iff parts.0 vk).0 e2;
            sig = sig;
            sig_bytes = e7;
            sig_length = e8;
            signed = e4;
            payload = payload;
            payload_json = (decode_json_iff parts.1 payload).0 e5;
            obj = obj;
            is_object = e6;
            claimed = validate_claims-HasClaims jose expected_iss now obj c h6;
          }

      IsValidToken-verify_and_decode :
          (claims : DuckvisClaims)
          → IsValidToken jose jwt expected_iss now lookup_key claims
          → verify_and_decode jose jwt expected_iss now lookup_key ≡ ok claims
      unfolding verify_and_decode
      IsValidToken-verify_and_decode c t =
          rw
            (
              three_parts_joined jwt (t.h, t.p, t.s) t.parts,
              (header_key_iff t.h t.vk).1 t.named,
              (sixty_four_iff (decode t.s) t.sig).1 (t.sig_bytes, t.sig_length),
              t.signed,
              (decode_json_iff t.p t.payload).1 t.payload_json,
              t.is_object,
            )
            (HasClaims-validate_claims jose expected_iss now t.obj c t.claimed)

      validate_claims-FailsBy :
          (obj : Object) → FailsBy unauthenticated (validate_claims jose expected_iss now obj)
      unfolding validate_claims
      validate_claims-FailsBy obj = search fails_alike depth 20

      header_key-FailsBy : (h : Bytes) → FailsBy unauthenticated (header_key jose lookup_key h)
      unfolding header_key decode_json
      header_key-FailsBy h = search fails_alike depth 20

      pub verify_and_decode-FailsBy :
          FailsBy unauthenticated (verify_and_decode jose jwt expected_iss now lookup_key)
      unfolding verify_and_decode decode_json
      verify_and_decode-FailsBy =
          search (fails_alike, validate_claims-FailsBy, header_key-FailsBy) depth 20

      -- The tokens that are accepted, with the claims that are read off them, are the valid ones:
      -- three parts, a header that names EdDSA and a known key, a signature of 64 bytes by that key
      -- over the first two parts, and a claim set that is in its time window, from the issuer, for a
      -- human or a service with a name, and meant for swanlake. Every other token is refused with the
      -- one error `Unauthenticated`, whatever it lacks.
      pub verify_and_decode_iff :
          (claims : DuckvisClaims)
          → ((verify_and_decode jose jwt expected_iss now lookup_key ≡ ok claims)
              ↔ IsValidToken jose jwt expected_iss now lookup_key claims)
            × FailsBy unauthenticated (verify_and_decode jose jwt expected_iss now lookup_key)
      verify_and_decode_iff c = (
        (verify_and_decode-IsValidToken c, IsValidToken-verify_and_decode c),
        verify_and_decode-FailsBy,
      )
