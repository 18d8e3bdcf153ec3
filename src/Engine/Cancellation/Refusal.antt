-- ===== src/Engine/Cancellation/Refusal.antt =====
-- A cancellation is final.
use swanlake.Prelude.{ℕ, ◌≡◌, refl, Bool, true, false, Option, none, some}
use swanlake.Error.{cancelled, err}
use swanlake.Engine.Cancellation.{
  RequestState, check, activate, cancel, interrupt_active, drop_active,
}

abbrev state : Bool → Option ℕ → Bool → RequestState
state b i k = record { is_cancelled = b; interrupt = i; interrupting = k }

-- A request that was cancelled is refused whenever it checks or activates itself, on any
-- connection, and nothing that it does afterwards takes the cancellation back.
pub cancel_refuses :
    (handle : ℕ) (s : RequestState)
    → let t = cancel s in
      (check t ≡ err cancelled)
      × ((activate handle t).0 ≡ err cancelled)
      × ((activate handle t).1 ≡ t)
      × (check (drop_active t) ≡ err cancelled)
      × (check (interrupt_active t).1 ≡ err cancelled)
      × (cancel t ≡ t)
unfolding cancel check activate drop_active interrupt_active
cancel_refuses handle s = go s.is_cancelled s.interrupt s.interrupting
  where
    go :
        (b : Bool) (i : Option ℕ) (k : Bool)
        → let t = cancel (state b i k) in
          (check t ≡ err cancelled)
          × ((activate handle t).0 ≡ err cancelled)
          × ((activate handle t).1 ≡ t)
          × (check (drop_active t) ≡ err cancelled)
          × (check (interrupt_active t).1 ≡ err cancelled)
          × (cancel t ≡ t)
    go true none k = (refl, refl, refl, refl, refl, refl)
    go true (some c) k = (refl, refl, refl, refl, refl, refl)
    go false none k = (refl, refl, refl, refl, refl, refl)
    go false (some c) k = (refl, refl, refl, refl, refl, refl)
