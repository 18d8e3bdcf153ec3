-- ===== src/Session/Catalogs.antt =====
-- session/mod.rs: `attach_catalog`.
pub mod Kept
pub mod Roots
pub mod Allowed
mod Tests
use swanlake.Prelude.{
  ℕ, Bool, true, false, ◌&&◌, not, List, [], ◌∷◌, Option, none, some, if◌then◌else◌, Checked, done,
  panicked, ◌>>=◌,
}
use swanlake.Text.{Bytes, codes, bytes_less}
use swanlake.Error.{internal, attachment_requires_session_recreation, Result, ok, err}
use swanlake.Sql.Attach.{attach_data_path}
use swanlake.Session.Engine.{Engine}
use swanlake.Session.Admission.{SessionAuth}
use swanlake.Session.Lockdown.{LockdownTemplate}
use swanlake.Session.State.{Session}
use swanlake.Session.Statements.{execute_statement_privileged}

-- `BTreeSet::insert`, in the order of the bytes.
unfoldable pub insert_root : Bytes → List Bytes → List Bytes
unfolding bytes_less
insert_root root [] = root ∷ []
insert_root root (r ∷ rs) =
    if bytes_less root r
    then root ∷ r ∷ rs
    else if bytes_less r root
    then r ∷ insert_root root rs
    else r ∷ rs

unfoldable pub insert_roots : List Bytes → List Bytes → List Bytes
unfolding insert_root
insert_roots [] roots = roots
insert_roots (r ∷ rs) roots = insert_roots rs (insert_root r roots)

abbrev pub confines : Option SessionAuth → Option LockdownTemplate → Bool
confines (some auth) (some template) = not auth.writer
confines auth template = false

abbrev pub with_root : Option Bytes → List Bytes → List Bytes
with_root none roots = roots
with_root (some root) roots = insert_root root roots

module _ (engine : Engine) {S : Type 0} where
  open engine use {World, is_attached, data_roots}

  -- The text of a failed secret is not passed on.
  abbrev pub after_secret :
      (Session World S → Result (Unit {0}) × Session World S)
      → Result ℕ × Session World S
      → Result (Unit {0}) × Session World S
  after_secret rest (err e, s) =
      (err (internal (codes "failed to create the attachment's session secret")), s)
  after_secret rest (ok _, s) = rest s

  unfoldable pub create_secrets :
      ℕ → List Bytes → Session World S → Result (Unit {0}) × Session World S
  unfolding execute_statement_privileged
  create_secrets now [] s = (ok tt, s)
  create_secrets now (q ∷ qs) s =
      after_secret (create_secrets now qs) (execute_statement_privileged engine now q s)

  abbrev pub without_count : Result ℕ × Session World S → Result (Unit {0}) × Session World S
  without_count (err e, s) = (err e, s)
  without_count (ok n, s) = (ok tt, s)

  abbrev pub select_path : ℕ → Option Bytes → Session World S → Result (Unit {0}) × Session World S
  select_path now none s = (ok tt, s)
  select_path now (some q) s = without_count (execute_statement_privileged engine now q s)

  abbrev pub with_data_roots :
      List Bytes → Result (List Bytes) × World → Session World S → Session World S
  with_data_roots roots (ok more, w) s = record s { roots = insert_roots more roots; world = w }
  with_data_roots roots (err e, w) s = record s { roots = roots; world = w }

  -- The roots of the statement and of the catalog's metadata, if the lockdown did not run.
  unfoldable pub collect_roots : Bytes → Bytes → Session World S → Checked (Session World S)
  unfolding insert_root insert_roots attach_data_path
  collect_roots catalog sql s =
      if confines s.auth s.lockdown && not s.lockdown_applied
      then (attach_data_path sql >>= λ root.
          done (with_data_roots (with_root root s.roots) (data_roots catalog s.world) s))
      else done s

  abbrev pub after_attach :
      ℕ
      → Bytes
      → Bytes
      → Option Bytes
      → Result ℕ × Session World S
      → Checked (Result (Unit {0}) × Session World S)
  after_attach now catalog sql path (err e, s) = done (err e, s)
  after_attach now catalog sql path (ok n, s) =
      collect_roots catalog sql s >>= λ s'. done (select_path now path s')

  abbrev pub after_secrets :
      ℕ
      → Bytes
      → Bytes
      → Option Bytes
      → Result (Unit {0}) × Session World S
      → Checked (Result (Unit {0}) × Session World S)
  after_secrets now catalog sql path (err e, s) = done (err e, s)
  after_secrets now catalog sql path (ok _, s) =
      after_attach now catalog sql path (execute_statement_privileged engine now sql s)

  unfoldable pub arm_catalog :
      ℕ
      → Bytes
      → List Bytes
      → Bytes
      → Option Bytes
      → Session World S
      → Checked (Result (Unit {0}) × Session World S)
  unfolding create_secrets execute_statement_privileged collect_roots
  arm_catalog now catalog secrets sql path s =
      after_secrets now catalog sql path (create_secrets now secrets s)

  abbrev pub rearm :
      (Session World S → Checked (Result (Unit {0}) × Session World S))
      → Session World S
      → Result Bool × World
      → Checked (Result (Unit {0}) × Session World S)
  rearm arm s (err e, w) = done (err e, record s { world = w })
  rearm arm s (ok false, w) =
      done (err attachment_requires_session_recreation, record s { world = w })
  rearm arm s (ok true, w) = arm (record s { world = w })

  unfoldable pub attach_catalog :
      ℕ
      → Bytes
      → List Bytes
      → Bytes
      → Option Bytes
      → Session World S
      → Checked (Result (Unit {0}) × Session World S)
  unfolding arm_catalog
  attach_catalog now catalog secrets sql path s =
      if confines s.auth s.lockdown && s.lockdown_applied
      then rearm (arm_catalog now catalog secrets sql path) s (is_attached catalog s.world)
      else arm_catalog now catalog secrets sql path s
