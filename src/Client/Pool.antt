-- ===== src/Client/Pool.antt =====
-- swanlake-client: pool.rs and pool_shared.rs, the connections of a `FlightSQLPool`. The driver's
-- connections are opaque; what a call of it comes to is an argument.
pub mod Capacity
pub mod Eviction
mod Tests
use swanlake.Prelude.{
  ℕ, suc, ◌+◌, ◌-◌, ◌%◌, ◌^◌, Bool, true, false, ◌&&◌, ◌||◌, not, List, [], ◌∷◌, Option, none, some,
  ltb, leb, ◌==◌, length, is_empty, if◌then◌else◌,
}
use swanlake.Text.{Bytes, trim}

abbrev pub usize_mod : ℕ
usize_mod = 2 ^ 64

pub record PoolConfig : Type 0 where
  pub min_idle : ℕ
  pub max_size : ℕ
  pub acquire_timeout_ms : ℕ
  pub idle_ttl_ms : ℕ
  pub healthcheck_sql : Bytes
  pub default_query_timeout_ms : Option ℕ
  pub retry_on_failure : Bool

pub data PoolError : Type 0 where
  max_size_zero : PoolError
  min_idle_exceeds : PoolError
  timed_out : PoolError

-- `None` is `Ok(())`.
unfoldable pub validate : PoolConfig → Option PoolError
validate c =
    if c.max_size == 0
    then some max_size_zero
    else if ltb c.max_size c.min_idle
    then some min_idle_exceeds
    else none

pub record IdleConnection (C : Type 0) : Type 0 where
  pub conn : C
  pub last_used : ℕ

-- `idle` is the vector with its last entry first; `total` is the atomic counter, which wraps.
pub record Pool (C : Type 0) : Type 0 where
  pub config : PoolConfig
  pub idle : List (IdleConnection C)
  pub total : ℕ

-- A round of the loop in `acquire_connection`, before it looks at the time.
pub data Round (C : Type 0) : Type 0 where
  reused : C → Round C
  -- a new connection is to be made, outside the lock
  opening : Round C
  exhausted : Round C

abbrev pub fetch_add : ℕ → ℕ → ℕ
fetch_add n total = (total + n) % usize_mod

abbrev pub fetch_sub : ℕ → ℕ → ℕ
fetch_sub n total = (total + (usize_mod - n)) % usize_mod

-- `Instant::now().checked_sub(ttl).unwrap_or_else(Instant::now)`, where an instant is counted from
-- the origin of the clock and none lies before it.
unfoldable pub cutoff : ℕ → ℕ → ℕ
cutoff now ttl = if ltb now ttl then now else now - ttl

-- `runs` is whether the healthcheck's statement runs; an empty one counts as healthy.
unfoldable pub healthcheck : PoolConfig → Bool → Bool
unfolding trim
healthcheck config runs = is_empty (trim config.healthcheck_sql) || runs

module _ {C : Type 0} where
  -- The entries that are kept, and how many are not.
  unfoldable pub evict_before : ℕ → List (IdleConnection C) → ℕ × List (IdleConnection C)
  evict_before bound [] = (0, [])
  evict_before bound (e ∷ es) =
      let rest = evict_before bound es in
      if ltb e.last_used bound then (suc rest.0, rest.1) else (rest.0, e ∷ rest.1)

  unfoldable pub evict_idle : ℕ → ℕ → List (IdleConnection C) → ℕ × List (IdleConnection C)
  unfolding cutoff evict_before
  evict_idle now ttl es = if ttl == 0 then (0, es) else evict_before (cutoff now ttl) es

  unfoldable pub evict_idle_locked : ℕ → Pool C → Pool C
  unfolding evict_idle
  evict_idle_locked now p =
      let r = evict_idle now p.config.idle_ttl_ms p.idle in
      record p { idle = r.1; total = if ltb 0 r.0 then fetch_sub r.0 p.total else p.total }

  unfoldable pub drop_connection : Pool C → Pool C
  drop_connection p = record p { total = fetch_sub 1 p.total }

  abbrev pub taken : Pool C → List (IdleConnection C) → Round C × Pool C
  taken p (e ∷ es) = (reused e.conn, record p { idle = es })
  taken p [] =
      if ltb p.total p.config.max_size
      then (opening, record p { total = fetch_add 1 p.total })
      else (exhausted, p)

  unfoldable pub acquire_round : ℕ → Pool C → Round C × Pool C
  unfolding evict_idle_locked
  acquire_round now p = let p' = evict_idle_locked now p in taken p' p'.idle

  -- `had_error` is the mark of the `PooledConnection` that is dropped.
  unfoldable pub release_connection : ℕ → C → Bool → Bool → Pool C → Pool C
  unfolding evict_idle_locked drop_connection healthcheck
  release_connection now conn had_error runs p =
      if had_error && not (healthcheck p.config runs)
      then drop_connection p
      else (let p' = evict_idle_locked now p in
          record p' { idle = record { conn = conn; last_used = now } ∷ p'.idle })

  -- The end of `PoolInner::new`: the first connections are made before any is counted.
  unfoldable pub warmed : ℕ → List C → Pool C → Pool C
  warmed now [] p = p
  warmed now (conn ∷ cs) p = warmed now cs (record p {
    idle = record { conn = conn; last_used = now } ∷ p.idle;
    total = fetch_add 1 p.total;
  })
