-- ===== src/Client/Pool/Tests.antt =====
-- A pool of at most two connections.
use swanlake.Prelude.{ℕ, ◌≡◌, refl, true, false, [], ◌∷◌, none, some, arith}
use swanlake.Text.{codes}
use swanlake.Client.Pool.{
  PoolConfig, IdleConnection, min_idle_exceeds, max_size_zero, validate, warmed, acquire_round,
  release_connection, evict_idle,
}
use swanlake.Client.Pool.Capacity.{
  System, after_round, tries, released, Steps, stays, goes, started, IsValid, pool-IsValid,
}

abbrev two : PoolConfig
two = record {
  min_idle = 1;
  max_size = 2;
  acquire_timeout_ms = 30000;
  idle_ttl_ms = 300000;
  healthcheck_sql = codes "SELECT 1";
  default_query_timeout_ms = none;
  retry_on_failure = true;
}

abbrev first : System ℕ
first = started two 1000000 (7 ∷ [])

abbrev lent : System ℕ
lent = after_round first (acquire_round 1000006 first.pool)

abbrev returned : System ℕ
returned = record { pool = release_connection 1000009 7 true false lent.pool; held = 0; making = 0 }

lent_held : (lent.held ≡ 1) × (lent.pool.total ≡ 1)
unfolding warmed acquire_round
lent_held = (refl, refl)

-- Its healthcheck failed, so it is not in the pool again.
returned_total : (returned.pool.total ≡ 0) × (returned.pool.idle ≡ [])
unfolding warmed acquire_round release_connection
returned_total = (refl, refl)

lending : Steps first returned
unfolding warmed acquire_round
lending =
    goes _ lent _ (goes _ first _ (stays _) (tries 1000006 first))
      (released 1000009 7 true false lent.pool 0 0)

pool-IsValid_example : IsValid two returned
unfolding validate
pool-IsValid_example = pool-IsValid two (omega arith) 1000000 (7 ∷ []) returned refl refl lending

abbrev used_at : ℕ → IdleConnection ℕ
used_at t = record { conn = t; last_used = t }

one_closed : (evict_idle 100 30 (used_at 90 ∷ used_at 10 ∷ [])).0 ≡ 1
unfolding evict_idle
one_closed = refl

too_many_idle : validate (record two { min_idle = 3 }) ≡ some min_idle_exceeds
unfolding validate
too_many_idle = refl

empty_pool : validate (record two { max_size = 0 }) ≡ some max_size_zero
unfolding validate
empty_pool = refl

-- A clock that has run for less than the time to live closes every connection used before now.
early_clock : (evict_idle 100 300000 (used_at 90 ∷ used_at 100 ∷ [])).0 ≡ 1
unfolding evict_idle
early_clock = refl
