-- ===== src/Engine/Cancellation/Ownership.antt =====
-- Interrupts and cancellations reach the requests that they are meant for.
use swanlake.Prelude.{ℕ, ◌≡◌, Bool, true, Option, some}
use swanlake.Engine.Cancellation.{RequestState, new_request}
use swanlake.Engine.Cancellation.Steps.{Lock, free, guarded, System, Steps}

-- The connection that a request would interrupt is one on which it has its guard, and a request that
-- was cancelled while it ran is being interrupted.
pub record IsSafe (locks : ℕ → Lock) (r : ℕ) (s : RequestState) : Type 0 where
  pub own : (c : ℕ) → s.interrupt ≡ some c → locks c ≡ guarded r
  pub kept_up : (c : ℕ) → s.is_cancelled ≡ true → s.interrupt ≡ some c → s.interrupting ≡ true

abbrev pub IsValid : System → Type 0
IsValid x = (r : ℕ) → IsSafe x.locks r (x.requests r)

abbrev pub idle_system : System
idle_system = record { requests = λ r. new_request; locks = λ c. free }

abbrev state : Bool → Option ℕ → Bool → RequestState
state b i k = record { is_cancelled = b; interrupt = i; interrupting = k }
