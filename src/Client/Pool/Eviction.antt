-- ===== src/Client/Pool/Eviction.antt =====
-- Which idle connections a pool closes.
use swanlake.Prelude.{
  ℕ, ◌+◌, ◌-◌, ◌≤◌, ◌≡◌, ◌≢◌, refl, ap, true, false, List, [], ◌∷◌, arith, ltb, leb, ◌==◌, length,
  Bool-cases, inl, inr, if◌then◌else◌,
}
use swanlake.Client.Pool.{IdleConnection, cutoff, evict_before, evict_idle}

module _ {C : Type 0} where
  -- The entries that were used within the last `ttl` milliseconds.
  unfoldable pub used_within : ℕ → ℕ → List (IdleConnection C) → List (IdleConnection C)
  used_within now ttl [] = []
  used_within now ttl (e ∷ es) =
      let rest = used_within now ttl es in if leb (now - e.last_used) ttl then e ∷ rest else rest

  evict_before-used :
      (now ttl : ℕ) (es : List (IdleConnection C))
      → ttl ≤ now
      → ((evict_before (now - ttl) es).1 ≡ used_within now ttl es)
        × ((evict_before (now - ttl) es).0 + length (used_within now ttl es) ≡ length es)
  unfolding evict_before used_within
  evict_before-used now ttl [] h = (refl, refl)
  evict_before-used now ttl (e ∷ es) h =
      let rest = evict_before-used now ttl es h in
      elim (Bool-cases (ltb e.last_used (now - ttl))) [
        | inl old ↦ rw (old, long_ago old) (rest.0, omega (arith, rest.1))
        | inr fresh ↦ rw (fresh, recent fresh) (ap (λ l. e ∷ l) rest.0, omega (arith, rest.1))
      ]
    where
      long_ago : ltb e.last_used (now - ttl) ≡ true → leb (now - e.last_used) ttl ≡ false
      long_ago old = ground arith

      recent : ltb e.last_used (now - ttl) ≡ false → leb (now - e.last_used) ttl ≡ true
      recent fresh = ground arith

  -- An eviction with a positive time to live keeps exactly the connections that were used within
  -- it, in their order, and returns how many it closed, where the clock has run for that long.
  pub evict_idle-used_within :
      (now ttl : ℕ) (es : List (IdleConnection C))
      → ttl ≢ 0
      → ttl ≤ now
      → ((evict_idle now ttl es).1 ≡ used_within now ttl es)
        × ((evict_idle now ttl es).0 + length (used_within now ttl es) ≡ length es)
  unfolding evict_idle cutoff
  evict_idle-used_within now ttl es positive long =
      rw (not_zero, not_early, evict_idle) (evict_before-used now ttl es long)
    where
      not_zero : (ttl == 0) ≡ false
      not_zero = ground (arith, positive)

      not_early : ltb now ttl ≡ false
      not_early = ground arith
