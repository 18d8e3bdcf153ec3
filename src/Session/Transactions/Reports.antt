-- ===== src/Session/Transactions/Reports.antt =====
-- What a session says of a transaction that was rolled back behind the client.
use swanlake.Prelude.{
  ℕ, ◌≡◌, refl, sym, ap, ◌∙◌, subst, inl, inr, Bool, true, false, [], arith, ==_refl, Bool-cases,
  if◌then◌else◌,
}
use swanlake.Text.{Bytes, codes}
use swanlake.Error.{ServerError, transaction_aborted, Result, ok, err, Result-cases}
use swanlake.Dict.{nat_eq, member, discard, add_all, member-discard, member-add_all}
use swanlake.Session.Engine.{Engine}
use swanlake.Session.State.{
  Session, touch, run_op, is_transaction_abort_error, with_transaction_recovery,
}
use swanlake.Session.State.Rules.{cleared}
use swanlake.Session.Transactions.{
  forgotten, end_transaction, commit_transaction, rollback_transaction,
}
use swanlake.Session.Transactions.Aborts.{IsValid}

not_open :
    {W S : Type 0} (s : Session W S) (id : ℕ)
    → IsValid s
    → member id s.aborted_transactions ≡ true
    → member id s.transactions ≡ false
not_open s id v h = elim (Bool-cases (member id s.transactions)) [
  | inl here ↦ ground (arith, v.apart id here)
  | inr gone ↦ gone
]

module _ (engine : Engine) {S : Type 0} where
  open engine use {World, execute_batch}

  end_aborted :
      (now id : ℕ) (sql : Bytes) (s : Session World S)
      → member id s.transactions ≡ false
      → member id s.aborted_transactions ≡ true
      → end_transaction engine now id sql s ≡ (
        err transaction_aborted,
        record (touch now s) { aborted_transactions = discard id s.aborted_transactions },
      )
  unfolding end_transaction
  end_aborted now id sql s gone aborted = rw (gone, end_transaction, aborted)

  end_unknown :
      (now id : ℕ) (sql : Bytes) (s : Session World S)
      → member id s.transactions ≡ false
      → member id s.aborted_transactions ≡ false
      → end_transaction engine now id sql s ≡ (ok tt, touch now s)
  unfolding end_transaction
  end_unknown now id sql s gone absent = rw (gone, end_transaction, absent)

  commit_aborted :
      (now id : ℕ) (s : Session World S)
      → member id s.transactions ≡ false
      → member id s.aborted_transactions ≡ true
      → commit_transaction engine now id s ≡ (
        err transaction_aborted,
        record (touch now s) { aborted_transactions = discard id s.aborted_transactions },
      )
  unfolding commit_transaction
  commit_aborted now id s = end_aborted now id (codes "COMMIT") s

  commit_unknown :
      (now id : ℕ) (s : Session World S)
      → member id s.transactions ≡ false
      → member id s.aborted_transactions ≡ false
      → commit_transaction engine now id s ≡ (ok tt, touch now s)
  unfolding commit_transaction
  commit_unknown now id s = end_unknown now id (codes "COMMIT") s

  -- What a run with recovery comes to when the operation reports an abort and the rollback succeeds.
  recovered {κ} :
      {A : Type κ} (op : World → Result A × World) (retry : Bool) (s : Session World S)
      (e : ServerError)
      → (op s.world).0 ≡ err e
      → is_transaction_abort_error e ≡ true
      → (execute_batch (codes "ROLLBACK") (op s.world).1).0 ≡ ok tt
      → let t = cleared engine s (execute_batch (codes "ROLLBACK") (op s.world).1).1 in
        with_transaction_recovery engine op retry s ≡ (if retry then run_op op t else (err e, t))
  unfolding with_transaction_recovery
  recovered op retry s e failed abort rolled = rw (failed, with_transaction_recovery, abort, rolled)

  -- A session that lost its open transactions: each one that was open in `s` is reported by its
  -- commit and by its rollback, without a call of the engine.
  abbrev pub Reports : Session World S → Session World S → Type 0
  Reports s t =
      (now id : ℕ)
      → member id s.transactions ≡ true
      → ((commit_transaction engine now id t).0 ≡ err transaction_aborted)
        × ((rollback_transaction engine now id t).0 ≡ err transaction_aborted)
        × ((commit_transaction engine now id t).1.world ≡ t.world)
        × ((rollback_transaction engine now id t).1.world ≡ t.world)

  lost-Reports :
      (s t : Session World S)
      → t.transactions ≡ []
      → t.aborted_transactions ≡ add_all s.transactions s.aborted_transactions
      → Reports s t
  unfolding commit_transaction rollback_transaction touch
  lost-Reports s t none_open all now id here =
      let gone : member id t.transactions ≡ false = ap (member id) none_open in
      let aborted : member id t.aborted_transactions ≡ true =
        ap (member id) all
        ∙ ground (arith, member-add_all s.transactions id s.aborted_transactions, here) in
      rw
        (
          end_aborted now id (codes "COMMIT") t gone aborted,
          end_aborted now id (codes "ROLLBACK") t gone aborted,
        )
        (refl, refl, refl, refl)

  -- A run whose first try reports an aborted transaction, while the rollback succeeds, whether it is
  -- tried again or not, and whatever the second try does. Its result is the one of the second try
  -- in the engine after the rollback, or the first error if there is none. Afterwards a commit or a
  -- rollback of a transaction that was open says that it was aborted, and makes no call.
  pub commit-with_transaction_recovery {κ} :
      {A : Type κ} (op : World → Result A × World) (retry : Bool) (s : Session World S)
      (e : ServerError)
      → (op s.world).0 ≡ err e
      → is_transaction_abort_error e ≡ true
      → (execute_batch (codes "ROLLBACK") (op s.world).1).0 ≡ ok tt
      → let r = with_transaction_recovery engine op retry s in
        let w = (execute_batch (codes "ROLLBACK") (op s.world).1).1 in
        (r.0 ≡ (if retry then (op w).0 else err e)) × Reports s r.1
  unfolding run_op
  commit-with_transaction_recovery op true s e failed abort rolled =
      rw (recovered op true s e failed abort rolled) (refl, lost-Reports s _ refl refl)
  commit-with_transaction_recovery op false s e failed abort rolled =
      rw (recovered op false s e failed abort rolled) (refl, lost-Reports s _ refl refl)

  -- In a valid session a commit of an aborted transaction reports the abort and makes no call of
  -- the engine; a second commit of it succeeds, and changes nothing but the time of last activity.
  pub commit_aborted_once :
      (now later id : ℕ) (s : Session World S)
      → IsValid s
      → member id s.aborted_transactions ≡ true
      → let t = (commit_transaction engine now id s).1 in
        ((commit_transaction engine now id s).0 ≡ err transaction_aborted)
        × (t.world ≡ s.world)
        × (commit_transaction engine later id t ≡ (ok tt, touch later t))
  unfolding touch
  commit_aborted_once now later id s v aborted =
      let gone = not_open s id v aborted in
      let t = record (touch now s) { aborted_transactions = discard id s.aborted_transactions } in
      subst
        (λ r.
          (r.0 ≡ err transaction_aborted)
          × (r.1.world ≡ s.world)
          × (commit_transaction engine later id r.1 ≡ (ok tt, touch later r.1)))
        (sym (commit_aborted now id s gone aborted))
        (
          refl,
          refl,
          commit_unknown later id t gone
              (ground (arith, member-discard id id s.aborted_transactions, ==_refl id)),
        )

  -- A commit or rollback that succeeds on an open transaction closes it, and it is not an aborted
  -- one either.
  pub end_transaction_closes :
      (now id : ℕ) (sql : Bytes) (s : Session World S)
      → member id s.transactions ≡ true
      → (end_transaction engine now id sql s).0 ≡ ok tt
      → let t = (end_transaction engine now id sql s).1 in
        (member id t.transactions ≡ false) × (member id t.aborted_transactions ≡ false)
  unfolding end_transaction forgotten touch
  end_transaction_closes now id sql s here done' =
      let r = with_transaction_recovery engine (execute_batch sql) true (touch now s) in
      elim (Result-cases (r.0)) [
        | inl (u, e) ↦
            rw (here, end_transaction, e)
              (
                ground (arith, member-discard id id r.1.transactions, ==_refl id),
                ground (arith, member-discard id id r.1.aborted_transactions, ==_refl id),
              )
        | inr (x, e) ↦ absurd (cc (rw (here, end_transaction, e) at done'))
      ]
