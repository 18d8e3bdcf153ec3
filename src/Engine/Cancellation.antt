-- ===== src/Engine/Cancellation.antt =====
-- engine/cancellation.rs: `RequestCancellation`. Requests and connections are numbered; the handle
-- that interrupts a connection is its number.
pub mod Steps
pub mod Ownership
pub mod Refusal
mod Tests
use swanlake.Prelude.{ℕ, Bool, true, false, Option, none, some, ◌==◌, if◌then◌else◌}
use swanlake.Error.{ServerError, cancelled, Result, ok, err}

-- `interrupting` is the task that `cancel` spawns.
pub record RequestState : Type 0 where
  pub is_cancelled : Bool
  pub interrupt : Option ℕ
  pub interrupting : Bool

abbrev pub new_request : RequestState
new_request = record { is_cancelled = false; interrupt = none; interrupting = false }

unfoldable pub check : RequestState → Result (Unit {0})
check s = if s.is_cancelled then err cancelled else ok tt

unfoldable pub activate : ℕ → RequestState → Result (Unit {0}) × RequestState
activate handle s =
    if s.is_cancelled then (err cancelled, s) else (ok tt, record s { interrupt = some handle })

abbrev pub spawned : RequestState → Option ℕ → RequestState
spawned s none = s
spawned s (some handle) = record s { interrupting = true }

unfoldable pub cancel : RequestState → RequestState
cancel s = if s.is_cancelled then s else spawned (record s { is_cancelled = true }) s.interrupt

-- A round of the spawned task: the connection that it interrupts, and the state behind it.
unfoldable pub interrupt_active : RequestState → Option ℕ × RequestState
interrupt_active s = elim s.interrupt [
  | some handle ↦ (some handle, s)
  | none ↦ (none, record s { interrupting = false })
]

-- The drop of the guard `ActiveQuery`.
unfoldable pub drop_active : RequestState → RequestState
drop_active s = record s { interrupt = none }
