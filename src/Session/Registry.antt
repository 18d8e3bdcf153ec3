-- ===== src/Session/Registry.antt =====
-- session/registry.rs: `SessionRegistry`. A permit of its semaphore is counted, and a session that is
-- dropped from the map gives its permit back.
pub mod Steps
pub mod Sweep
pub mod Capacity
pub mod Lookups
pub mod Averages
mod Tests
use swanlake.Prelude.{
  ℕ, ◌+◌, ◌-◌, ◌/◌, Bool, true, false, ◌&&◌, List, [], ◌∷◌, ◌++◌, Option, none, some, ltb, ◌==◌,
  length, min, if◌then◌else◌,
}
use swanlake.Text.{Bytes, codes, bytes_eq}
use swanlake.Error.{ServerError, max_sessions_reached, Result, ok, err}
use swanlake.Dict.{bytes_key, lookup, insert, remove}
use swanlake.Session.Admission.{SessionAuth}
use swanlake.Session.Lockdown.{LockdownTemplate}
use swanlake.Session.State.{Session, u64_mod}
use swanlake.Session.SchemaCache.{new}
use swanlake.Sql.Quoting.{escape_sql_literal}

pub record SessionRegistry (W S : Type 0) : Type 0 where
  pub sessions : List (Bytes × Session W S)
  pub session_permits : ℕ
  pub max_sessions : ℕ
  pub session_timeout : ℕ
  pub template : LockdownTemplate

pub record Snapshot : Type 0 where
  pub total_sessions : ℕ
  pub oldest_idle_ms : ℕ
  pub average_idle_ms : ℕ

-- What the first part of `get_or_create_by_id_with_auth` comes to.
pub data Lookup (W S : Type 0) : Type 0 where
  found : Session W S → Lookup W S
  refused : ServerError → Lookup W S
  -- a permit was taken: a connection is to be made
  permitted : Lookup W S

abbrev saturated : ℕ → ℕ
saturated n = min n (u64_mod - 1)

abbrev pub average : ℕ → ℕ → ℕ
average total n = if n == 0 then 0 else total / n

-- The text that pins the secret directory; paths are joined by `/`.
unfoldable pub secret_directory_sql : LockdownTemplate → Bytes → Bytes
unfolding escape_sql_literal
secret_directory_sql template id =
    codes "SET secret_directory = '"
    ++ (escape_sql_literal (template.scratch_directory ++ (codes "/secrets/" ++ id)) ++ codes "'")

abbrev pub stamped : LockdownTemplate → Option SessionAuth → Option LockdownTemplate
stamped template none = none
stamped template (some auth) = some template

module _ {W S : Type 0} where
  abbrev pub new_registry : ℕ → ℕ → LockdownTemplate → SessionRegistry W S
  new_registry max timeout template = record {
    sessions = [];
    session_permits = max;
    max_sessions = max;
    session_timeout = timeout;
    template = template;
  }

  -- `Instant::elapsed`, in milliseconds.
  abbrev pub idle_duration : ℕ → Session W S → ℕ
  idle_duration now s = now - s.last_activity

  unfoldable pub total_idle : ℕ → ℕ → List (Bytes × Session W S) → ℕ
  total_idle now total [] = total
  total_idle now total ((id, s) ∷ m) = total_idle now (saturated (total + idle_duration now s)) m

  unfoldable pub oldest_idle : ℕ → ℕ → List (Bytes × Session W S) → ℕ
  oldest_idle now oldest [] = oldest
  oldest_idle now oldest ((id, s) ∷ m) =
      oldest_idle now (if ltb oldest (idle_duration now s) then idle_duration now s else oldest) m

  unfoldable pub snapshot : ℕ → SessionRegistry W S → Snapshot
  unfolding total_idle oldest_idle
  snapshot now r = record {
    total_sessions = length r.sessions;
    oldest_idle_ms = oldest_idle now 0 r.sessions;
    average_idle_ms = average (total_idle now 0 r.sessions) (length r.sessions);
  }

  unfoldable pub retained_sessions : ℕ → ℕ → List (Bytes × Session W S) → List (Bytes × Session W S)
  retained_sessions now timeout [] = []
  retained_sessions now timeout ((id, s) ∷ m) =
      let rest = retained_sessions now timeout m in
      if ltb timeout (idle_duration now s) then rest else (id, s) ∷ rest

  unfoldable pub cleanup_idle_sessions : ℕ → SessionRegistry W S → ℕ × SessionRegistry W S
  unfolding retained_sessions
  cleanup_idle_sessions now r =
      let kept = retained_sessions now r.session_timeout r.sessions in
      let removed = length r.sessions - length kept in
      (removed, record r { sessions = kept; session_permits = r.session_permits + removed })

  unfoldable pub get_by_id : Bytes → SessionRegistry W S → Option (Session W S)
  unfolding lookup
  get_by_id id r = lookup id r.sessions

  abbrev has_nonce : Bytes → Option (Session W S) → Bool
  has_nonce nonce none = false
  has_nonce nonce (some s) = bytes_eq s.nonce nonce

  unfoldable pub remove_session : Bytes → Bytes → SessionRegistry W S → Bool × SessionRegistry W S
  unfolding lookup remove bytes_eq
  remove_session id nonce r =
      if has_nonce nonce (lookup id r.sessions)
      then (
        true,
        record r { sessions = remove id r.sessions; session_permits = r.session_permits + 1 },
      )
      else (false, r)

  -- Up to the permit.
  unfoldable pub begin_get_or_create :
      Bytes → SessionRegistry W S → Lookup W S × SessionRegistry W S
  unfolding lookup
  begin_get_or_create id r = elim (lookup id r.sessions) [
    | some s ↦ (found s, r)
    | none ↦
        (if ltb 0 r.session_permits
          then (permitted, record r { session_permits = r.session_permits - 1 })
          else (refused max_sessions_reached, r))
  ]

  -- The permit is dropped with the error of `create_connection`.
  unfoldable pub permit_dropped : SessionRegistry W S → SessionRegistry W S
  permit_dropped r = record r { session_permits = r.session_permits + 1 }

  unfoldable pub new_with_id_and_auth :
      ℕ → Bytes → Bytes → Option SessionAuth → Option LockdownTemplate → W → Session W S
  new_with_id_and_auth now id nonce auth lockdown world = record {
    id = id;
    nonce = nonce;
    auth = auth;
    lockdown = lockdown;
    lockdown_applied = false;
    roots = [];
    transactions = [];
    aborted_transactions = [];
    next_transaction_id = 1;
    schema_cache = new;
    last_activity = now;
    world = world;
  }

  -- The last part: another request may have registered the id in the meantime.
  unfoldable pub register :
      Bytes → Session W S → SessionRegistry W S → Session W S × SessionRegistry W S
  unfolding lookup insert permit_dropped
  register id s r = elim (lookup id r.sessions) [
    | some other ↦ (other, permit_dropped r)
    | none ↦ (s, record r { sessions = insert id s r.sessions })
  ]

  unfoldable pub finish_get_or_create :
      ℕ
      → Bytes
      → Bytes
      → Option SessionAuth
      → Result W
      → SessionRegistry W S
      → Result (Session W S) × SessionRegistry W S
  unfolding permit_dropped register new_with_id_and_auth
  finish_get_or_create now id nonce auth (err e) r = (err e, permit_dropped r)
  finish_get_or_create now id nonce auth (ok world) r =
      let x =
        register id (new_with_id_and_auth now id nonce auth (stamped r.template auth) world) r in
      (ok (x.0), x.1)
