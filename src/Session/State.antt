-- ===== src/Session/State.antt =====
-- session/mod.rs: the state of a `Session`, `with_transaction_recovery` and what it calls.
pub mod Rules
use swanlake.Prelude.{
  ℕ, ◌+◌, ◌%◌, ◌^◌, Bool, true, false, ◌||◌, List, [], ◌∷◌, Option, none, some, if◌then◌else◌,
}
use swanlake.Text.{Bytes, codes, contains}
use swanlake.Error.{ServerError, duck_db, Result, ok, err}
use swanlake.Dict.{nat_eq, add_all}
use swanlake.Session.Engine.{Engine}
use swanlake.Session.Admission.{SessionAuth}
use swanlake.Session.Lockdown.{LockdownTemplate}
use swanlake.Session.SchemaCache.{SchemaCache}

-- `W` is the world of the engine, `S` the schema type. Locks are taken one after another and
-- released within each call; a session's calls are run one at a time.
pub record Session (W S : Type 0) : Type 0 where
  pub id : Bytes
  pub nonce : Bytes
  pub auth : Option SessionAuth
  pub lockdown : Option LockdownTemplate
  pub lockdown_applied : Bool
  pub roots : List Bytes
  pub transactions : List ℕ
  pub aborted_transactions : List ℕ
  pub next_transaction_id : ℕ
  pub schema_cache : SchemaCache S
  pub last_activity : ℕ
  pub world : W

abbrev pub u64_mod : ℕ
u64_mod = 2 ^ 64

module _ {W S : Type 0} where
  unfoldable pub touch : ℕ → Session W S → Session W S
  touch now s = record s { last_activity = now }

  -- A call of the engine.
  unfoldable pub run_op {ℓ} :
      {A : Type ℓ} → (W → Result A × W) → Session W S → Result A × Session W S
  run_op op s = let r = op s.world in (r.0, record s { world = r.1 })

unfoldable pub is_transaction_abort_error : ServerError → Bool
unfolding contains
is_transaction_abort_error (duck_db msg) =
    contains msg (codes "Current transaction is aborted")
    || contains msg (codes "TransactionContext Error")
is_transaction_abort_error _ = false

module _ (engine : Engine) {S : Type 0} where
  open engine use {World, execute_batch}

  abbrev rolled_back : Session World S → Result (Unit {0}) × World → Session World S
  rolled_back s (ok _, w) = record s {
    world = w;
    transactions = [];
    aborted_transactions = add_all s.transactions s.aborted_transactions;
  }
  rolled_back s (err e, w) = record s { world = w }

  unfoldable pub recover_from_transaction_abort : Session World S → Session World S
  unfolding add_all
  recover_from_transaction_abort s = rolled_back s (execute_batch (codes "ROLLBACK") s.world)

  unfoldable pub after_failure {ℓ} :
      {A : Type ℓ}
      → (World → Result A × World)
      → Bool
      → ServerError
      → Session World S
      → Result A × Session World S
  unfolding recover_from_transaction_abort run_op is_transaction_abort_error
  after_failure op retry e s =
      if is_transaction_abort_error e
      then (let s' = recover_from_transaction_abort s in
          if retry then run_op op s' else (err e, s'))
      else (err e, s)

  unfoldable pub with_transaction_recovery {ℓ} :
      {A : Type ℓ}
      → (World → Result A × World)
      → Bool
      → Session World S
      → Result A × Session World S
  unfolding after_failure run_op
  with_transaction_recovery op retry s =
      let r = run_op op s in
      elim (r.0) [ ok v ↦ (ok v, r.1) | err e ↦ after_failure op retry e r.1 ]
