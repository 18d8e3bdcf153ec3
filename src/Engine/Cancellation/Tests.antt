-- ===== src/Engine/Cancellation/Tests.antt =====
-- Request 1 runs on connection 0 and is cancelled there.
use swanlake.Prelude.{◌≡◌, refl, some}
use swanlake.Error.{cancelled, err}
use swanlake.Engine.Cancellation.{new_request, activate, cancel, interrupt_active, drop_active}
use swanlake.Engine.Cancellation.Steps.{System, held, with_request, with_lock, lock_after, Steps}
use swanlake.Engine.Cancellation.Ownership.{idle_system}
use swanlake.Engine.Cancellation.Refusal.{cancel_refuses}

abbrev holding : System
holding = with_lock 0 (held 1) idle_system

abbrev active : System
active =
    with_lock 0 (lock_after 1 (activate 0 (holding.requests 1)).0)
      (with_request 1 (activate 0 (holding.requests 1)).1 holding)

abbrev stopped : System
stopped = with_request 1 (cancel (active.requests 1)) active

abbrev dropped : System
dropped = with_lock 0 (held 1) (with_request 1 (drop_active (stopped.requests 1)) stopped)

interrupted : (interrupt_active (stopped.requests 1)).0 ≡ some 0
unfolding activate cancel interrupt_active
interrupted = refl

cancel_refuses_example : (activate 3 (cancel new_request)).0 ≡ err cancelled
cancel_refuses_example = (cancel_refuses 3 new_request).1
