-- ===== src/Session/Executions.antt =====
-- session/mod.rs: `register_execution` and `cancel_execution`. A request is a number; `alive` tells
-- which requests still have an owner, so that their weak references upgrade.
pub mod Reach
mod Tests
use swanlake.Prelude.{ℕ, Bool, true, false, List, [], ◌∷◌, Option, none, some, ◌==◌, if◌then◌else◌}
use swanlake.Text.{Bytes, codes}
use swanlake.Error.{internal, Result, ok, err}
use swanlake.Dict.{bytes_key, lookup, insert, has_key}
use swanlake.Engine.Cancellation.{RequestState, cancel}
use swanlake.Engine.Cancellation.Steps.{updated}

module _ (alive : ℕ → Bool) where
  unfoldable pub retain_alive : List (Bytes × ℕ) → List (Bytes × ℕ)
  retain_alive [] = []
  retain_alive ((id, r) ∷ m) = let rest = retain_alive m in if alive r then (id, r) ∷ rest else rest

  -- `executions` is the map behind `retain`.
  abbrev pub registered_in : Bytes → ℕ → List (Bytes × ℕ) → Result (Unit {0}) × List (Bytes × ℕ)
  registered_in id r executions =
      if has_key id executions
      then (err (internal (codes "execution request ID is already active")), executions)
      else (ok tt, insert id r executions)

  unfoldable pub register_execution :
      Bytes → ℕ → List (Bytes × ℕ) → Result (Unit {0}) × List (Bytes × ℕ)
  unfolding retain_alive has_key insert
  register_execution id r executions = registered_in id r (retain_alive executions)

  -- `Weak::upgrade`
  abbrev pub upgraded : Option ℕ → Option ℕ
  upgraded none = none
  upgraded (some r) = if alive r then some r else none

  unfoldable pub running : Bytes → List (Bytes × ℕ) → Option ℕ
  unfolding lookup
  running id executions = upgraded (lookup id executions)

  abbrev pub cancelled_at : Option ℕ → (ℕ → RequestState) → Bool × (ℕ → RequestState)
  cancelled_at none requests = (false, requests)
  cancelled_at (some r) requests = (true, updated requests r (cancel (requests r)))

  unfoldable pub cancel_execution :
      Bytes → List (Bytes × ℕ) → (ℕ → RequestState) → Bool × (ℕ → RequestState)
  unfolding running cancel
  cancel_execution id executions = cancelled_at (running id executions)
