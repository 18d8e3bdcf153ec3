-- ===== src/Duckvis/Jwt/Tests.antt =====
-- A token of three parts under a toy encoding: base64 is the identity, and one key signs all.
use swanlake.Prelude.{◌≡◌, ◌↔◌, refl, pos, wrap_i64}
use swanlake.Text.{codes, bytes_eq}
use swanlake.Dict.{lookup}
use swanlake.Duckvis.{unauthenticated, ok, err, FailsBy}
use swanlake.Duckvis.Jwt.{verify_and_decode}
use swanlake.Duckvis.Jwt.Spec.{IsValidToken}
use swanlake.Duckvis.Jwt.Accepts.{verify_and_decode_iff}
use swanlake.Duckvis.Fixture.{toy, known, token, ada}

accepted : verify_and_decode toy token (codes "iss") (pos 1029) known ≡ ok ada
unfolding verify_and_decode bytes_eq wrap_i64 lookup
accepted = refl

-- At `exp + 30` the grace is over.
expired : verify_and_decode toy token (codes "iss") (pos 1030) known ≡ err unauthenticated
unfolding verify_and_decode bytes_eq wrap_i64 lookup
expired = refl

verify_and_decode_iff_example :
    ((verify_and_decode toy token (codes "iss") (pos 1029) known ≡ ok ada)
      ↔ IsValidToken toy token (codes "iss") (pos 1029) known ada)
    × FailsBy unauthenticated (verify_and_decode toy token (codes "iss") (pos 1029) known)
verify_and_decode_iff_example = verify_and_decode_iff toy known token (codes "iss") (pos 1029) ada
