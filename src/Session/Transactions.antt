-- ===== src/Session/Transactions.antt =====
-- session/mod.rs: `begin_transaction`, `commit_transaction`, `rollback_transaction`.
pub mod Aborts
pub mod Reports
mod Tests
use swanlake.Prelude.{ℕ, ◌+◌, ◌%◌, Bool, true, false, List, [], ◌∷◌, if◌then◌else◌}
use swanlake.Text.{Bytes, codes}
use swanlake.Error.{ServerError, transaction_aborted, Result, ok, err}
use swanlake.Dict.{nat_eq, member, add, discard}
use swanlake.Session.Engine.{Engine}
use swanlake.Session.State.{Session, u64_mod, touch, with_transaction_recovery}

module _ {W S : Type 0} where
  -- The generator's counter wraps.
  unfoldable pub registered : Session W S → Result ℕ × Session W S
  unfolding add
  registered s = (
    ok s.next_transaction_id,
    record s {
      next_transaction_id = (s.next_transaction_id + 1) % u64_mod;
      transactions = add s.next_transaction_id s.transactions;
    },
  )

  unfoldable pub transaction_absent : ℕ → Session W S → Result (Unit {0}) × Session W S
  unfolding member discard
  transaction_absent id s =
      if member id s.aborted_transactions
      then (
        err transaction_aborted,
        record s { aborted_transactions = discard id s.aborted_transactions },
      )
      else (ok tt, s)

  unfoldable pub forgotten : ℕ → Session W S → Session W S
  unfolding discard
  forgotten id s = record s {
    transactions = discard id s.transactions;
    aborted_transactions = discard id s.aborted_transactions;
  }

module _ (engine : Engine) {S : Type 0} where
  open engine use {World, execute_batch}

  unfoldable pub begin_transaction : ℕ → Session World S → Result ℕ × Session World S
  unfolding with_transaction_recovery touch registered
  begin_transaction now s =
      let r =
        with_transaction_recovery engine (execute_batch (codes "BEGIN TRANSACTION")) true
          (touch now s) in
      elim (r.0) [ err e ↦ (err e, r.1) | ok _ ↦ registered r.1 ]

  unfoldable pub end_transaction :
      ℕ → ℕ → Bytes → Session World S → Result (Unit {0}) × Session World S
  unfolding with_transaction_recovery touch member transaction_absent forgotten
  end_transaction now id sql s =
      let s' = touch now s in
      let r = with_transaction_recovery engine (execute_batch sql) true s' in
      if member id s'.transactions
      then elim (r.0) [ err e ↦ (err e, r.1) | ok _ ↦ (ok tt, forgotten id r.1) ]
      else transaction_absent id s'

  unfoldable pub commit_transaction : ℕ → ℕ → Session World S → Result (Unit {0}) × Session World S
  unfolding end_transaction
  commit_transaction now id = end_transaction now id (codes "COMMIT")

  unfoldable pub rollback_transaction :
      ℕ → ℕ → Session World S → Result (Unit {0}) × Session World S
  unfolding end_transaction
  rollback_transaction now id = end_transaction now id (codes "ROLLBACK")
