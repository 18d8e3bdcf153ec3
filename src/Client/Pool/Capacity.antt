-- ===== src/Client/Pool/Capacity.antt =====
-- The counter of a pool, while its clients take and return connections in any order.
use swanlake.Prelude.{
  ℕ, suc, ◌+◌, ◌≤◌, ◌<◌, ◌≡◌, refl, ap, Bool, true, ◌&&◌, not, List, [], ◌∷◌, none, arith, ltb,
  ◌==◌, length, Bool-cases, inl, inr,
}
use swanlake.Client.Pool.{
  PoolConfig, IdleConnection, Pool, Round, reused, opening, exhausted, usize_mod, validate,
  evict_before, evict_idle, evict_idle_locked, drop_connection, taken, acquire_round, healthcheck,
  release_connection, warmed,
}

-- The pool, how many connections its clients hold, and how many are being made.
pub record System (C : Type 0) : Type 0 where
  pub pool : Pool C
  pub held : ℕ
  pub making : ℕ

module _ {C : Type 0} where
  abbrev pub after_round : System C → Round C × Pool C → System C
  after_round x (reused conn, p) = record x { pool = p; held = x.held + 1 }
  after_round x (opening, p) = record x { pool = p; making = x.making + 1 }
  after_round x (exhausted, p) = record x { pool = p }

  pub data Step : System C → System C → Type 0 where
    tries : (now : ℕ) (x : System C) → Step x (after_round x (acquire_round now x.pool))
    made :
        (p : Pool C) (held making : ℕ)
        → Step
            (record { pool = p; held = held; making = suc making })
            (record { pool = p; held = suc held; making = making })
    failed :
        (p : Pool C) (held making : ℕ)
        → Step
            (record { pool = p; held = held; making = suc making })
            (record { pool = drop_connection p; held = held; making = making })
    released :
        (now : ℕ) (conn : C) (had_error runs : Bool) (p : Pool C) (held making : ℕ)
        → Step
            (record { pool = p; held = suc held; making = making })
            (record {
              pool = release_connection now conn had_error runs p;
              held = held;
              making = making;
            })
    -- a query that failed drops its unhealthy connection and takes another one
    discarded :
        (p : Pool C) (held making : ℕ)
        → Step
            (record { pool = p; held = suc held; making = making })
            (record { pool = drop_connection p; held = held; making = making })

  pub data Steps : System C → System C → Type 0 where
    stays : (x : System C) → Steps x x
    goes : (x y z : System C) → Steps x y → Step y z → Steps x z

  abbrev pub started : PoolConfig → ℕ → List C → System C
  started config now cs = record {
    pool = warmed now cs (record { config = config; idle = []; total = 0 });
    held = 0;
    making = 0;
  }

  -- The counter is exact, so no subtraction of it wraps.
  pub record IsValid (config : PoolConfig) (x : System C) : Type 0 where
    pub same_config : x.pool.config ≡ config
    pub counted : x.pool.total ≡ length x.pool.idle + (x.held + x.making)
    pub bounded : x.pool.total ≤ config.max_size

  length-evict_before :
      (bound : ℕ) (es : List (IdleConnection C))
      → (evict_before bound es).0 + length (evict_before bound es).1 ≡ length es
  unfolding evict_before
  length-evict_before bound [] = refl
  length-evict_before bound (e ∷ es) = ground (arith, length-evict_before bound es)

  length-evict_idle :
      (now ttl : ℕ) (es : List (IdleConnection C))
      → (evict_idle now ttl es).0 + length (evict_idle now ttl es).1 ≡ length es
  unfolding evict_idle
  length-evict_idle now ttl es = elim (Bool-cases (ttl == 0)) [
    | inl never ↦ rw never (omega arith)
    | inr some_time ↦ rw some_time (length-evict_before _ es)
  ]

  module _ (config : PoolConfig) (small : config.max_size < usize_mod) where
    evict-IsValid :
        (now : ℕ) (x : System C)
        → IsValid config x
        → IsValid config (record x { pool = evict_idle_locked now x.pool })
    unfolding evict_idle_locked
    evict-IsValid now x v = record {
      same_config = v.same_config;
      counted = ground (
        arith,
        length-evict_idle now x.pool.config.idle_ttl_ms x.pool.idle,
        v.counted,
        v.bounded,
      );
      bounded = ground (
        arith,
        length-evict_idle now x.pool.config.idle_ttl_ms x.pool.idle,
        v.counted,
        v.bounded,
      );
    }

    taken-IsValid :
        (x : System C) (p : Pool C)
        → IsValid config (record x { pool = p })
        → IsValid config (after_round x (taken p p.idle))
    taken-IsValid x p v = by_idle p.idle refl
      where
        by_idle :
            (es : List (IdleConnection C))
            → p.idle ≡ es
            → IsValid config (after_round x (taken p es))
        by_idle (e ∷ es) eq = record {
          same_config = v.same_config;
          counted = omega (arith, v.counted, ap length eq);
          bounded = v.bounded;
        }
        by_idle [] eq = elim (Bool-cases (ltb p.total p.config.max_size)) [
          | inr full ↦
              rw full
                (record { same_config = v.same_config; counted = v.counted; bounded = v.bounded })
          | inl free ↦ rw free (record {
            same_config = v.same_config;
            counted = ground (arith, v.counted, below free);
            bounded = ground (arith, v.counted, below free);
          })
        ]
          where
            below : ltb p.total p.config.max_size ≡ true → p.total < config.max_size
            below free = ground (arith, ap (λ c. c.max_size) v.same_config)

    drop-IsValid :
        (p : Pool C) (held making : ℕ)
        → IsValid config (record { pool = p; held = suc held; making = making })
        → IsValid config (record { pool = drop_connection p; held = held; making = making })
    unfolding drop_connection
    drop-IsValid p held making v = record {
      same_config = v.same_config;
      counted = omega (arith, v.counted, v.bounded);
      bounded = omega (arith, v.counted, v.bounded);
    }

    release-IsValid :
        (now : ℕ) (conn : C) (had_error runs : Bool) (p : Pool C) (held making : ℕ)
        → IsValid config (record { pool = p; held = suc held; making = making })
        → IsValid config (record {
          pool = release_connection now conn had_error runs p;
          held = held;
          making = making;
        })
    unfolding release_connection
    release-IsValid now conn had_error runs p held making v =
        elim (Bool-cases (had_error && not (healthcheck p.config runs))) [
          | inl sick ↦ rw (sick, release_connection) (drop-IsValid p held making v)
          | inr well ↦
              let w = evict-IsValid now (record { pool = p; held = suc held; making = making }) v in
              rw (well, release_connection)
                (record {
                  same_config = w.same_config;
                  counted = omega (arith, w.counted);
                  bounded = w.bounded;
                })
        ]

    step-IsValid : (x y : System C) → Step x y → IsValid config x → IsValid config y
    unfolding acquire_round
    step-IsValid _ _ (tries now x) v =
        taken-IsValid x (evict_idle_locked now x.pool) (evict-IsValid now x v)
    step-IsValid _ _ (made p held making) v = record {
      same_config = v.same_config;
      counted = omega (arith, v.counted);
      bounded = v.bounded;
    }
    step-IsValid _ _ (failed p held making) v = made_then_dropped
      where
        made_then_dropped :
            IsValid config (record { pool = drop_connection p; held = held; making = making })
        made_then_dropped = drop-IsValid p held making (record {
          same_config = v.same_config;
          counted = omega (arith, v.counted);
          bounded = v.bounded;
        })
    step-IsValid _ _ (released now conn had_error runs p held making) v =
        release-IsValid now conn had_error runs p held making v
    step-IsValid _ _ (discarded p held making) v = drop-IsValid p held making v

    warmed-IsValid :
        (now : ℕ) (cs : List C) (p : Pool C)
        → p.config ≡ config
        → p.total ≡ length p.idle
        → p.total + length cs ≤ config.max_size
        → IsValid config (record { pool = warmed now cs p; held = 0; making = 0 })
    unfolding warmed
    warmed-IsValid now [] p same counted room = record {
      same_config = same;
      counted = omega (arith, counted);
      bounded = omega (arith, room);
    }
    warmed-IsValid now (conn ∷ cs) p same counted room =
        warmed-IsValid now cs _ same (omega (arith, counted, room)) (omega (arith, counted, room))

    -- A pool with a configuration that was validated starts with `min_idle` connections. From then
    -- on, whatever its clients do and in any order, the counter is the number of connections that
    -- are idle, held by a client or being made, and it is at most `max_size`, so that it never
    -- wraps. The maximum is a number of 64 bits.
    pub pool-IsValid :
        (now : ℕ) (cs : List C) (y : System C)
        → validate config ≡ none
        → length cs ≡ config.min_idle
        → Steps (started config now cs) y
        → IsValid config y
    unfolding validate
    pool-IsValid now cs y checked enough run = go _ y run (
        warmed-IsValid now cs (record { config = config; idle = []; total = 0 }) refl refl
          (ground (arith, enough, checked)))
      where
        go : (x z : System C) → Steps x z → IsValid config x → IsValid config z
        go _ _ (stays x) v = v
        go _ _ (goes x y z before step) v = step-IsValid y z step (go x y before v)
