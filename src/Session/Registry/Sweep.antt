-- ===== src/Session/Registry/Sweep.antt =====
-- What a sweep of `cleanup_idle_sessions` keeps of the map.
use swanlake.Prelude.{
  ℕ, ◌-◌, ◌≤◌, ◌≡◌, refl, false, List, [], ◌∷◌, arith, ltb, length, Bool-cases, inl, inr, All,
}
use swanlake.Text.{Bytes}
use swanlake.Dict.{bytes_key, has_key}
use swanlake.Dict.Sizes.{IsDistinct}
use swanlake.Session.State.{Session}
use swanlake.Session.Registry.{retained_sessions}

module _ {W S : Type 0} where
  pub has_key-retained :
      (now timeout : ℕ) (id : Bytes) (m : List (Bytes × Session W S))
      → has_key id m ≡ false
      → has_key id (retained_sessions now timeout m) ≡ false
  unfolding has_key retained_sessions
  has_key-retained now timeout id [] h = refl
  has_key-retained now timeout id ((j, s) ∷ m) h = ground (arith, has_key-retained now timeout id m)

  pub retained-IsDistinct :
      (now timeout : ℕ) (m : List (Bytes × Session W S))
      → IsDistinct m
      → IsDistinct (retained_sessions now timeout m)
  unfolding retained_sessions
  retained-IsDistinct now timeout [] d = tt
  retained-IsDistinct now timeout ((id, s) ∷ m) (n, d) =
      ground (arith, retained-IsDistinct now timeout m d, has_key-retained now timeout id m n)

  pub retained-All :
      (P : Bytes × Session W S → Type 0) (now timeout : ℕ) (m : List (Bytes × Session W S))
      → All P m
      → All P (retained_sessions now timeout m)
  unfolding retained_sessions
  retained-All P now timeout [] h = tt
  retained-All P now timeout ((id, s) ∷ m) h =
      elim (Bool-cases (ltb timeout (now - s.last_activity))) [
        | inl old ↦ rw old (retained-All P now timeout m h.1)
        | inr recent ↦ rw recent (h.0, retained-All P now timeout m h.1)
      ]

  pub length-retained :
      (now timeout : ℕ) (m : List (Bytes × Session W S))
      → length (retained_sessions now timeout m) ≤ length m
  unfolding retained_sessions
  length-retained now timeout [] = omega arith
  length-retained now timeout ((id, s) ∷ m) = ground (arith, length-retained now timeout m)
