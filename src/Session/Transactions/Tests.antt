-- ===== src/Session/Transactions/Tests.antt =====
-- Transactions of the fixture's session.
use swanlake.Prelude.{◌≡◌, refl, true, false, List, arith}
use swanlake.Text.{Bytes, codes, bytes_eq, contains}
use swanlake.Error.{duck_db, transaction_aborted, err, Result}
use swanlake.Dict.{nat_eq, member}
use swanlake.Session.Fixture.{toy, toy_batch, aborted_text, two_transactions}
use swanlake.Session.State.{is_transaction_abort_error, with_transaction_recovery}
use swanlake.Session.Transactions.{
  begin_transaction, end_transaction, commit_transaction, rollback_transaction,
}
use swanlake.Session.Transactions.Aborts.{IsValid, transactions-IsValid}
use swanlake.Session.Transactions.Reports.{
  commit-with_transaction_recovery, commit_aborted_once, end_transaction_closes,
}

two_transactions-IsValid : IsValid two_transactions
unfolding member
two_transactions-IsValid = record {
  apart = λ id h. ground arith;
  open_issued = λ id h. ground arith;
  aborted_issued = λ id h. ground arith;
}

transactions-IsValid_example :
    IsValid (begin_transaction toy 5 two_transactions).1
    × IsValid (commit_transaction toy 5 1 two_transactions).1
    × IsValid (rollback_transaction toy 5 1 two_transactions).1
transactions-IsValid_example =
    transactions-IsValid toy 5 1 two_transactions two_transactions-IsValid (omega arith)

abbrev failing : List Bytes → Result (Unit {0}) × List Bytes
failing = toy_batch (codes "fail")

commit-with_transaction_recovery_example :
    let t = (with_transaction_recovery toy failing true two_transactions).1 in
    ((commit_transaction toy 6 1 t).0 ≡ err transaction_aborted)
    × ((rollback_transaction toy 6 1 t).0 ≡ err transaction_aborted)
    × ((commit_transaction toy 6 1 t).1.world ≡ t.world)
    × ((rollback_transaction toy 6 1 t).1.world ≡ t.world)
unfolding bytes_eq is_transaction_abort_error contains member
commit-with_transaction_recovery_example =
    (commit-with_transaction_recovery toy failing true two_transactions (duck_db aborted_text) refl
        refl refl).1
      6 1 refl

commit_aborted_once_example :
    (commit_transaction toy 5 2 two_transactions).0 ≡ err transaction_aborted
unfolding member
commit_aborted_once_example =
    (commit_aborted_once toy 5 6 2 two_transactions two_transactions-IsValid refl).0

end_transaction_closes_example :
    member 1 (end_transaction toy 5 1 (codes "COMMIT") two_transactions).1.transactions ≡ false
unfolding member end_transaction with_transaction_recovery bytes_eq
end_transaction_closes_example =
    (end_transaction_closes toy 5 1 (codes "COMMIT") two_transactions refl refl).0
