-- ===== src/Error.antt =====
-- error.rs: `ServerError`. Messages of the engine and of the source are kept where code reads them.
use swanlake.Prelude.{◌≡◌, refl, ◌⊎◌, inl, inr}
use swanlake.Text.{Bytes}

pub data ServerError : Type 0 where
  cancelled : ServerError
  duck_db : Bytes → ServerError
  arrow : Bytes → ServerError
  transaction_aborted : ServerError
  transaction_not_found : ServerError
  prepared_statement_not_found : ServerError
  max_sessions_reached : ServerError
  unsupported_parameter : Bytes → ServerError
  internal : Bytes → ServerError
  attach_not_permitted : ServerError
  attachment_requires_session_recreation : ServerError
  write_not_permitted : Bytes → ServerError
  persistent_secret_not_permitted : ServerError
  reserved_name_not_permitted : ServerError

pub data Result {ℓ} (A : Type ℓ) : Type ℓ where
  ok : A → Result A
  err : ServerError → Result A

pub Result-cases {ℓ} :
    {A : Type ℓ} (r : Result A) → ((a : A) × (r ≡ ok a)) ⊎ ((e : ServerError) × (r ≡ err e))
Result-cases (ok a) = inl (a, refl)
Result-cases (err e) = inr (e, refl)
