-- ===== src/Session/State/Rules.antt =====
-- What a run with recovery keeps, and what it returns.
use swanlake.Prelude.{◌≡◌, refl, Bool, true, false, [], if◌then◌else◌, Bool-cases, inl, inr}
use swanlake.Text.{codes}
use swanlake.Error.{ServerError, Result, ok, err}
use swanlake.Dict.{nat_eq, add_all}
use swanlake.Session.Engine.{Engine}
use swanlake.Session.State.{
  Session, run_op, is_transaction_abort_error, rolled_back, recover_from_transaction_abort,
  after_failure, with_transaction_recovery,
}

module _ (engine : Engine) {S : Type 0} where
  open engine use {World, execute_batch}

  -- The session after a rollback that succeeded.
  abbrev pub cleared : Session World S → World → Session World S
  cleared s w = record s {
    world = w;
    transactions = [];
    aborted_transactions = add_all s.transactions s.aborted_transactions;
  }

  module _ {ℓ} (P : Session World S → Type ℓ)
      (on_world : (s : Session World S) (w : World) → P s → P (record s { world = w }))
      (on_rollback : (s : Session World S) (w : World) → P s → P (cleared s w)) where
    rolled_back_rule :
        (s : Session World S) (r : Result (Unit {0}) × World) → P s → P (rolled_back engine s r)
    rolled_back_rule s (ok u, w) p = on_rollback s w p
    rolled_back_rule s (err e, w) p = on_world s w p

    after_failure_rule {κ} :
        {A : Type κ} (op : World → Result A × World) (retry : Bool) (e : ServerError)
        (s : Session World S)
        → P s
        → P (after_failure engine op retry e s).1
    unfolding after_failure recover_from_transaction_abort run_op
    after_failure_rule op retry e s p = elim (Bool-cases (is_transaction_abort_error e)) [
      | inl abort ↦ rw abort (again retry)
      | inr other ↦ rw other p
    ]
      where
        s' : Session World S
        s' = recover_from_transaction_abort engine s

        back : P s'
        back = rolled_back_rule s (execute_batch (codes "ROLLBACK") s.world) p

        again : (b : Bool) → P (if b then run_op op s' else (err e, s')).1
        again true = on_world s' _ back
        again false = back

    pub recovery_rule {κ} :
        {A : Type κ} (op : World → Result A × World) (retry : Bool) (s : Session World S)
        → P s
        → P (with_transaction_recovery engine op retry s).1
    unfolding with_transaction_recovery run_op
    recovery_rule op retry s p = go (op s.world).0 refl
      where
        go : (r : Result _) → (op s.world).0 ≡ r → P (with_transaction_recovery engine op retry s).1
        go (ok v) e = rw (e, with_transaction_recovery) (on_world s _ p)
        go (err x) e =
            rw (e, with_transaction_recovery) (after_failure_rule op retry x _ (on_world s _ p))
