-- ===== src/Session/Ids/Tests.antt =====
-- Identifiers and tickets.
use swanlake.Prelude.{◌≡◌, refl, [], ◌∷◌, none}
use swanlake.Session.Ids.{to_bytes, from_bytes}

big_endian : to_bytes 4660 ≡ 0 ∷ 0 ∷ 0 ∷ 0 ∷ 0 ∷ 0 ∷ 18 ∷ 52 ∷ []
unfolding to_bytes
big_endian = refl

seven_bytes : from_bytes (0 ∷ 0 ∷ 0 ∷ 0 ∷ 0 ∷ 18 ∷ 52 ∷ []) ≡ none
unfolding from_bytes
seven_bytes = refl
