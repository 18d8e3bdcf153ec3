-- ===== src/Engine/Cancellation/Steps.antt =====
-- Requests that share connections, with their cancellations, as a step relation.
use swanlake.Prelude.{ℕ, ◌≡◌, true, ◌==◌, if◌then◌else◌}
use swanlake.Error.{Result, ok, err}
use swanlake.Engine.Cancellation.{RequestState, activate, cancel, interrupt_active, drop_active}

-- How a connection is held: by nobody, by a request, or by a request whose guard `ActiveQuery` is
-- alive.
pub data Lock : Type 0 where
  free : Lock
  held : ℕ → Lock
  guarded : ℕ → Lock

pub record System : Type 0 where
  pub requests : ℕ → RequestState
  pub locks : ℕ → Lock

abbrev pub updated : {A : Type 0} → (ℕ → A) → ℕ → A → ℕ → A
updated f i x j = if j == i then x else f j

abbrev pub with_request : ℕ → RequestState → System → System
with_request r s x = record x { requests = updated x.requests r s }

abbrev pub with_lock : ℕ → Lock → System → System
with_lock c l x = record x { locks = updated x.locks c l }

-- `activate` gives a guard, or an error.
abbrev pub lock_after : ℕ → Result (Unit {0}) → Lock
lock_after r (ok u) = guarded r
lock_after r (err e) = held r

-- A request takes a free connection, activates itself there, drops its guard, and releases the
-- connection when it has no guard: the callers' order, which `activate` asks for. Whether the stored
-- handle is cleared by then is up to `drop_active`.
pub data Step : System → System → Type 0 where
  takes : (r c : ℕ) (x : System) → x.locks c ≡ free → Step x (with_lock c (held r) x)
  activates :
      (r c : ℕ) (x : System)
      → x.locks c ≡ held r
      → Step x (
          with_lock c
            (lock_after r (activate c (x.requests r)).0)
            (with_request r (activate c (x.requests r)).1 x))
  drops :
      (r c : ℕ) (x : System)
      → x.locks c ≡ guarded r
      → Step x (with_lock c (held r) (with_request r (drop_active (x.requests r)) x))
  releases : (r c : ℕ) (x : System) → x.locks c ≡ held r → Step x (with_lock c free x)
  cancels : (r : ℕ) (x : System) → Step x (with_request r (cancel (x.requests r)) x)
  interrupts :
      (r : ℕ) (x : System)
      → (x.requests r).interrupting ≡ true
      → Step x (with_request r (interrupt_active (x.requests r)).1 x)

pub data Steps : System → System → Type 0 where
  stays : (x : System) → Steps x x
  goes : (x y z : System) → Steps x y → Step y z → Steps x z
