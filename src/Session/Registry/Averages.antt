-- ===== src/Session/Registry/Averages.antt =====
-- The idle times of a snapshot.
use native.Mathlib.Nat.{div-lt_iff_lt-mul, mul_comm}
use swanlake.Prelude.{
  ℕ, suc, zero, ◌+◌, ◌-◌, ◌*◌, ◌≤◌, List, [], ◌∷◌, arith, ltb, length, if◌then◌else◌, min,
}
use swanlake.Text.{Bytes}
use swanlake.Session.State.{Session}
use swanlake.Session.Registry.{SessionRegistry, snapshot, total_idle, oldest_idle, average}

average_bound : (n total bound : ℕ) → total ≤ n * bound → average total n ≤ bound
average_bound zero total bound h = omega arith
average_bound (suc n) total bound h = ground (
  arith,
  (div-lt_iff_lt-mul {k = suc n} {x = total} {y = suc bound} (omega arith)).1
      (ground (arith, mul_comm (suc n) bound)),
)

module _ {W S : Type 0} (now : ℕ) where
  oldest_idle_grows :
      (oldest : ℕ) (m : List (Bytes × Session W S)) → oldest ≤ oldest_idle now oldest m
  unfolding oldest_idle
  oldest_idle_grows oldest [] = omega arith
  oldest_idle_grows oldest ((id, s) ∷ m) =
      ground (arith, oldest_idle_grows oldest m, oldest_idle_grows (now - s.last_activity) m)

  total_idle_bound :
      (bound total oldest : ℕ) (m : List (Bytes × Session W S))
      → oldest_idle now oldest m ≤ bound
      → total_idle now total m ≤ total + length m * bound
  unfolding total_idle oldest_idle
  total_idle_bound bound total oldest [] h = omega arith
  total_idle_bound bound total oldest ((id, s) ∷ m) h =
      let d = now - s.last_activity in
      let next = if ltb oldest d then d else oldest in
      ground (
        arith,
        total_idle_bound bound (min (total + d) 18446744073709551615) next m h,
        oldest_idle_grows next m,
      )

  -- The average idle time of a snapshot is at most its oldest, although the sum saturates.
  pub average-oldest :
      (r : SessionRegistry W S) → (snapshot now r).average_idle_ms ≤ (snapshot now r).oldest_idle_ms
  unfolding snapshot
  average-oldest r =
      average_bound (length r.sessions) _ _ (
        omega (arith, total_idle_bound (oldest_idle now 0 r.sessions) 0 0 r.sessions (omega arith)))
