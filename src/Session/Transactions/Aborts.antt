-- ===== src/Session/Transactions/Aborts.antt =====
-- The sets of open and of aborted transactions.
use native.Mathlib.Nat.{mod-eq_of_lt}
use swanlake.Prelude.{ℕ, ◌+◌, ◌<◌, ◌≡◌, inl, inr, Bool, true, false, arith, Bool-cases}
use swanlake.Text.{Bytes, codes}
use swanlake.Error.{Result, Result-cases}
use swanlake.Dict.{nat_eq, member, member-add, member-discard, member-add_all}
use swanlake.Session.Engine.{Engine}
use swanlake.Session.State.{Session, u64_mod, touch, with_transaction_recovery}
use swanlake.Session.State.Rules.{cleared, recovery_rule}
use swanlake.Session.Transactions.{
  registered, transaction_absent, forgotten, begin_transaction, end_transaction, commit_transaction,
  rollback_transaction,
}

-- Issued identifiers lie below the counter, and none is both open and aborted.
pub record IsValid {W S : Type 0} (s : Session W S) : Type 0 where
  pub apart : (id : ℕ) → member id s.transactions ≡ true → member id s.aborted_transactions ≡ false
  pub open_issued : (id : ℕ) → member id s.transactions ≡ true → id < s.next_transaction_id
  pub aborted_issued :
      (id : ℕ) → member id s.aborted_transactions ≡ true → id < s.next_transaction_id

module _ {W S : Type 0} where
  on_world : (s : Session W S) (w : W) → IsValid s → IsValid (record s { world = w })
  on_world s w v = record {
    apart = v.apart;
    open_issued = v.open_issued;
    aborted_issued = v.aborted_issued;
  }

  touch-IsValid : (now : ℕ) (s : Session W S) → IsValid s → IsValid (touch now s)
  unfolding touch
  touch-IsValid now s v = record {
    apart = v.apart;
    open_issued = v.open_issued;
    aborted_issued = v.aborted_issued;
  }

  touch_room :
      (now : ℕ) (s : Session W S)
      → s.next_transaction_id + 1 < u64_mod
      → (touch now s).next_transaction_id + 1 < u64_mod
  unfolding touch
  touch_room now s h = h

  registered-IsValid :
      (s : Session W S) → s.next_transaction_id + 1 < u64_mod → IsValid s → IsValid (registered s).1
  unfolding registered
  registered-IsValid s room v =
      let next = s.next_transaction_id in
      record {
        apart = λ id h.
            ground (arith, member-add next id s.transactions, v.apart id, v.aborted_issued id, h);
        open_issued = λ id h.
            ground
              (arith, member-add next id s.transactions, v.open_issued id, mod-eq_of_lt room, h);
        aborted_issued = λ id h. ground (arith, v.aborted_issued id, mod-eq_of_lt room, h);
      }

  transaction_absent-IsValid :
      (id : ℕ) (s : Session W S) → IsValid s → IsValid (transaction_absent id s).1
  unfolding transaction_absent
  transaction_absent-IsValid id s v = elim (Bool-cases (member id s.aborted_transactions)) [
    | inl e ↦ rw e (record {
      apart = λ j h. ground (arith, member-discard id j s.aborted_transactions, v.apart j, h);
      open_issued = v.open_issued;
      aborted_issued =
          λ j h. ground (arith, member-discard id j s.aborted_transactions, v.aborted_issued j, h);
    })
    | inr e ↦ rw e v
  ]

  forgotten-IsValid : (id : ℕ) (s : Session W S) → IsValid s → IsValid (forgotten id s)
  unfolding forgotten
  forgotten-IsValid id s v = record {
    apart = λ j h. ground (
      arith,
      member-discard id j s.transactions,
      member-discard id j s.aborted_transactions,
      v.apart j,
      h,
    );
    open_issued = λ j h. ground (arith, member-discard id j s.transactions, v.open_issued j, h);
    aborted_issued =
        λ j h. ground (arith, member-discard id j s.aborted_transactions, v.aborted_issued j, h);
  }

module _ (engine : Engine) {S : Type 0} where
  open engine use {World, execute_batch}

  cleared-IsValid : (s : Session World S) (w : World) → IsValid s → IsValid (cleared engine s w)
  unfolding member
  cleared-IsValid s w v = record {
    apart = λ id h. cc;
    open_issued = λ id h. cc;
    aborted_issued = λ id h. ground (
      arith,
      member-add_all s.transactions id s.aborted_transactions,
      v.open_issued id,
      v.aborted_issued id,
      h,
    );
  }

  pub recovered-IsValid {κ} :
      {A : Type κ} (op : World → Result A × World) (retry : Bool) (s : Session World S)
      → IsValid s
      → IsValid (with_transaction_recovery engine op retry s).1
  recovered-IsValid op retry s v =
      recovery_rule engine IsValid on_world cleared-IsValid op retry s v

  -- With room for one more identifier.
  abbrev HasRoom : Session World S → Type 0
  HasRoom s = IsValid s × (s.next_transaction_id + 1 < u64_mod)

  begin-IsValid :
      (now : ℕ) (s : Session World S) → HasRoom s → IsValid (begin_transaction engine now s).1
  unfolding begin_transaction
  begin-IsValid now s (v, room) =
      let op = execute_batch (codes "BEGIN TRANSACTION") in
      let r = with_transaction_recovery engine op true (touch now s) in
      let (v', room') =
        recovery_rule engine HasRoom (λ t w (a, b). (on_world t w a, b))
          (λ t w (a, b). (cleared-IsValid t w a, b)) op true (touch now s)
          (touch-IsValid now s v, touch_room now s room) in
      elim (Result-cases (r.0)) [
        | inl (u, e) ↦ rw (e, begin_transaction) (registered-IsValid r.1 room' v')
        | inr (x, e) ↦ rw (e, begin_transaction) v'
      ]

  end-IsValid :
      (now id : ℕ) (sql : Bytes) (s : Session World S)
      → IsValid s
      → IsValid (end_transaction engine now id sql s).1
  unfolding end_transaction
  end-IsValid now id sql s v =
      let r = with_transaction_recovery engine (execute_batch sql) true (touch now s) in
      let v' = recovered-IsValid (execute_batch sql) true (touch now s) (touch-IsValid now s v) in
      elim (Bool-cases (member id (touch now s).transactions)) [
        | inl here ↦ elim (Result-cases (r.0)) [
          | inl (u, e) ↦ rw (here, e, end_transaction) (forgotten-IsValid id r.1 v')
          | inr (x, e) ↦ rw (here, e, end_transaction) v'
        ]
        | inr absent ↦
            rw (absent, end_transaction)
              (transaction_absent-IsValid id (touch now s) (touch-IsValid now s v))
      ]

  -- Whatever the engine answers, beginning, committing and rolling back keep the open and the
  -- aborted transactions apart and below the counter; to begin one, the counter must not wrap.
  pub transactions-IsValid :
      (now id : ℕ) (s : Session World S)
      → IsValid s
      → s.next_transaction_id + 1 < u64_mod
      → IsValid (begin_transaction engine now s).1
        × IsValid (commit_transaction engine now id s).1
        × IsValid (rollback_transaction engine now id s).1
  unfolding commit_transaction rollback_transaction
  transactions-IsValid now id s v room = (
    begin-IsValid now s (v, room),
    end-IsValid now id (codes "COMMIT") s v,
    end-IsValid now id (codes "ROLLBACK") s v,
  )
