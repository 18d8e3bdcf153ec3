-- ===== src/Session/Fixture.antt =====
-- An engine and a session for the tests. The engine's world is the list of the batches that it was
-- given; the batch `fail` is refused with an abort error, and a COMMIT in a broken world too.
use swanlake.Prelude.{ℕ, true, false, List, [], ◌∷◌, none, some, if◌then◌else◌}
use swanlake.Text.{Bytes, codes, bytes_eq}
use swanlake.Error.{duck_db, Result, ok, err}
use swanlake.Session.Engine.{Engine}
use swanlake.Session.Admission.{SessionAuth}
use swanlake.Session.Lockdown.{LockdownTemplate}
use swanlake.Session.State.{Session}

abbrev pub aborted_text : Bytes
aborted_text = codes "TransactionContext Error: Current transaction is aborted"

abbrev pub toy_batch : Bytes → List Bytes → Result (Unit {0}) × List Bytes
toy_batch sql w =
    (if bytes_eq sql (codes "fail") then err (duck_db aborted_text) else ok tt, sql ∷ w)

abbrev pub toy : Engine
toy = record {
  World = List Bytes;
  execute_batch = toy_batch;
  execute_statement = λ sql w. (ok 0, sql ∷ w);
  create_dir_all = λ dir w. (none, w);
  is_attached = λ catalog w. (ok true, w);
  data_roots = λ catalog w. (ok [], w);
}

-- Transaction 1 is open, and 2 was aborted.
abbrev pub two_transactions : Session (List Bytes) ℕ
two_transactions = record {
  id = codes "a";
  nonce = codes "n";
  auth = none;
  lockdown = none;
  lockdown_applied = false;
  roots = [];
  transactions = 1 ∷ [];
  aborted_transactions = 2 ∷ [];
  next_transaction_id = 3;
  schema_cache = record { entries = []; order = [] };
  last_activity = 0;
  world = [];
}

abbrev pub scratch : LockdownTemplate
scratch = record { scratch_directory = codes "/tmp/s"; scratch_max_size = codes "1GB" }

abbrev pub reader : SessionAuth
reader = record { subject = codes "u"; project_id = codes "p"; writer = false }

-- A non-writer's session before its lockdown.
abbrev pub guarded : Session (List Bytes) ℕ
guarded = record two_transactions { auth = some reader; lockdown = some scratch }
