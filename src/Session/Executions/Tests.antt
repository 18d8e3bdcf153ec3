-- ===== src/Session/Executions/Tests.antt =====
-- Two executions, one of whose requests is gone.
use swanlake.Prelude.{ℕ, ◌≡◌, refl, Bool, false, List, [], ◌∷◌, ◌==◌, ◌||◌}
use swanlake.Text.{Bytes, codes, bytes_eq}
use swanlake.Error.{err, internal, cancelled}
use swanlake.Engine.Cancellation.{new_request, check}
use swanlake.Session.Executions.{register_execution, cancel_execution}

abbrev alive : ℕ → Bool
alive r = r == 1 || r == 3

abbrev two : List (Bytes × ℕ)
two = (codes "a", 1) ∷ (codes "b", 2) ∷ []

active_is_refused :
    (register_execution alive (codes "a") 3 two).0
    ≡ err (internal (codes "execution request ID is already active"))
unfolding register_execution bytes_eq
active_is_refused = refl

cancelled_request :
    check ((cancel_execution alive (codes "a") two (λ r. new_request)).1 1) ≡ err cancelled
unfolding cancel_execution bytes_eq check
cancelled_request = refl

gone_request : (cancel_execution alive (codes "b") two (λ r. new_request)).0 ≡ false
unfolding cancel_execution bytes_eq
gone_request = refl
