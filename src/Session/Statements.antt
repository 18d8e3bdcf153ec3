-- ===== src/Session/Statements.antt =====
-- session/mod.rs: `ensure_lockdown` and the calls that run a user's SQL.
pub mod Gate
pub mod Schemas
mod Tests
use swanlake.Prelude.{
  ℕ, Bool, true, false, ◌&&◌, ◌||◌, not, List, [], ◌∷◌, ◌++◌, Option, none, some, any,
  if◌then◌else◌, Checked, done, panicked, ◌>>=◌, is_empty, ◌==◌,
}
use swanlake.Text.{Bytes, codes, starts_with, to_uppercase, trim_start, trim_end, trim, bytes_less}
use swanlake.Error.{ServerError, internal, attachment_requires_session_recreation, Result, ok, err}
use swanlake.Sql.Attach.{attach_data_path}
use swanlake.Session.Engine.{Engine}
use swanlake.Session.Admission.{SessionAuth, validate_user_sql}
use swanlake.Session.Lockdown.{LockdownTemplate, lockdown_sql}
use swanlake.Session.SchemaCache.{SchemaCache, clear, get, insert_schema}
use swanlake.Session.State.{Session, touch, run_op, with_transaction_recovery}

abbrev schema_keywords : List Bytes
schema_keywords =
    codes "CREATE"
    ∷ codes "ALTER"
    ∷ codes "DROP"
    ∷ codes "TRUNCATE"
    ∷ codes "RENAME"
    ∷ codes "USE"
    ∷ codes "ATTACH"
    ∷ codes "DETACH"
    ∷ []

unfoldable pub should_invalidate_schema_cache : Bytes → Bool
unfolding starts_with to_uppercase trim_start
should_invalidate_schema_cache sql =
    any (λ keyword. starts_with (to_uppercase (trim_start sql)) keyword) schema_keywords

-- `sql.trim_end_matches(';').trim()`
unfoldable pub without_semicolons : Bytes → Bytes
without_semicolons [] = []
without_semicolons (c ∷ s) =
    let rest = without_semicolons s in if is_empty rest && c == b';' then [] else c ∷ rest

unfoldable pub schema_cache_key : Bytes → Bytes
unfolding without_semicolons trim
schema_cache_key sql = trim (without_semicolons sql)

module _ (engine : Engine) {S : Type 0} where
  open engine use {World, execute_batch, execute_statement, create_dir_all, is_attached, data_roots}

  abbrev pub locked :
      Session World S → Result (Unit {0}) × World → Result (Unit {0}) × Session World S
  locked s (ok _, w) = (ok tt, record s { world = w; lockdown_applied = true })
  locked s (err e, w) = (err e, record s { world = w })

  abbrev pub scratch_made :
      LockdownTemplate
      → SessionAuth
      → Session World S
      → Option Bytes × World
      → Result (Unit {0}) × Session World S
  scratch_made template auth s (some e, w) = (
    err (internal (codes "failed to create session scratch directory: " ++ e)),
    record s { world = w },
  )
  scratch_made template auth s (none, w) =
      locked s (execute_batch (lockdown_sql template auth.writer s.roots) w)

  abbrev pub lockdown_once :
      Option LockdownTemplate
      → Option SessionAuth
      → Session World S
      → Result (Unit {0}) × Session World S
  lockdown_once none auth s = (ok tt, s)
  lockdown_once (some template) none s = (ok tt, s)
  lockdown_once (some template) (some auth) s =
      if s.lockdown_applied
      then (ok tt, s)
      else scratch_made template auth s (create_dir_all template.scratch_directory s.world)

  unfoldable pub ensure_lockdown : Session World S → Result (Unit {0}) × Session World S
  unfolding lockdown_sql
  ensure_lockdown s = lockdown_once s.lockdown s.auth s

  abbrev pub invalidated {ℓ} :
      {A : Type ℓ} → Bytes → Result A × Session World S → Result A × Session World S
  invalidated sql (err e, s) = (err e, s)
  invalidated sql (ok v, s) = (
    ok v,
    if should_invalidate_schema_cache sql
        then record s { schema_cache = clear s.schema_cache }
        else s,
  )

  unfoldable pub execute_statement_privileged :
      ℕ → Bytes → Session World S → Result ℕ × Session World S
  unfolding with_transaction_recovery touch should_invalidate_schema_cache clear
  execute_statement_privileged now sql s =
      invalidated sql (with_transaction_recovery engine (execute_statement sql) true (touch now s))

  -- The calls that run a user's text check it, lock the engine down, and run one operation of the
  -- engine on it. `op` is that operation.
  abbrev pub after_lockdown {ℓ} :
      {A : Type ℓ}
      → (Session World S → Result A × Session World S)
      → Result (Unit {0}) × Session World S
      → Result A × Session World S
  after_lockdown run (err e, s) = (err e, s)
  after_lockdown run (ok _, s) = run s

  abbrev pub checked_by {ℓ} :
      {A : Type ℓ}
      → (Session World S → Result A × Session World S)
      → Session World S
      → Option ServerError
      → Result A × Session World S
  checked_by run s (some e) = (err e, s)
  checked_by run s none = after_lockdown run (ensure_lockdown s)

  unfoldable pub user_call {ℓ} :
      {A : Type ℓ}
      → Bytes
      → (Session World S → Result A × Session World S)
      → Session World S
      → Checked (Result A × Session World S)
  unfolding validate_user_sql ensure_lockdown
  user_call sql run s = validate_user_sql s.auth sql >>= λ verdict. done (checked_by run s verdict)

  -- `execute_query` and `execute_query_with_params`
  unfoldable pub execute_query {ℓ} :
      {A : Type ℓ}
      → ℕ
      → Bytes
      → (World → Result A × World)
      → Session World S
      → Checked (Result A × Session World S)
  unfolding user_call with_transaction_recovery touch
  execute_query now sql op =
      user_call sql (λ s. with_transaction_recovery engine op true (touch now s))

  -- `execute_statement`, its form with telemetry and its form with parameters
  unfoldable pub execute_user_statement {ℓ} :
      {A : Type ℓ}
      → ℕ
      → Bytes
      → (World → Result A × World)
      → Session World S
      → Checked (Result A × Session World S)
  unfolding user_call with_transaction_recovery touch should_invalidate_schema_cache clear
  execute_user_statement now sql op =
      user_call sql (λ s. invalidated sql (with_transaction_recovery engine op true (touch now s)))

  -- `parameter_count` and, without a retry, `insert_with_appender`: no text is checked.
  unfoldable pub unchecked_call {ℓ} :
      {A : Type ℓ}
      → ℕ
      → Bool
      → (World → Result A × World)
      → Session World S
      → Result A × Session World S
  unfolding with_transaction_recovery touch ensure_lockdown
  unchecked_call now retry op s =
      after_lockdown (λ s. with_transaction_recovery engine op retry (touch now s))
        (ensure_lockdown s)

  abbrev pub cached_schema : Bytes → Result S × Session World S → Result S × Session World S
  cached_schema key (err e, s) = (err e, s)
  cached_schema key (ok schema, s) = (
    ok schema,
    if is_empty key then s else record s { schema_cache = insert_schema key schema s.schema_cache },
  )

  abbrev pub schema_miss :
      Bytes
      → (World → Result S × World)
      → Option S × SchemaCache S
      → Session World S
      → Result S × Session World S
  schema_miss key op (some schema, cache) s = (ok schema, record s { schema_cache = cache })
  schema_miss key op (none, cache) s =
      cached_schema key (with_transaction_recovery engine op true s)

  abbrev pub schema_run :
      ℕ → Bytes → (World → Result S × World) → Session World S → Result S × Session World S
  schema_run now key op s =
      if is_empty key
      then schema_miss key op (none, s.schema_cache) (touch now s)
      else schema_miss key op (get key s.schema_cache) (touch now s)

  -- Without a cancellation: the cache is asked before the engine, unless the key is empty.
  unfoldable pub schema_for_query :
      ℕ
      → Bytes
      → (World → Result S × World)
      → Session World S
      → Checked (Result S × Session World S)
  unfolding user_call with_transaction_recovery touch schema_cache_key get insert_schema
  schema_for_query now sql op = user_call sql (schema_run now (schema_cache_key sql) op)
