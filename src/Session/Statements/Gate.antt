-- ===== src/Session/Statements/Gate.antt =====
-- What stands between a user's text and the engine.
use swanlake.Prelude.{
  ◌≡◌, refl, ap, ◌∙◌, Bool, true, false, Option, none, some, if◌then◌else◌, Checked, done, panicked,
  ◌>>=◌,
}
use swanlake.Text.{Bytes}
use swanlake.Error.{ServerError, Result, ok, err}
use swanlake.Session.Engine.{Engine}
use swanlake.Session.Admission.{SessionAuth, validate_user_sql}
use swanlake.Session.Lockdown.{LockdownTemplate, lockdown_sql}
use swanlake.Session.State.{Session}
use swanlake.Session.Statements.{
  locked, scratch_made, lockdown_once, ensure_lockdown, after_lockdown, checked_by, user_call,
}

-- Sessions with a binding and a template have run the lockdown.
abbrev pub IsLockedWith : Option LockdownTemplate → Option SessionAuth → Bool → Type 0
IsLockedWith (some template) (some auth) applied = applied ≡ true
IsLockedWith lockdown auth applied = Unit

abbrev pub IsLocked : {W S : Type 0} → Session W S → Type 0
IsLocked s = IsLockedWith s.lockdown s.auth s.lockdown_applied

module _ (engine : Engine) {S : Type 0} where
  open engine use {World, execute_batch, create_dir_all}

  -- What the lockdown of `s` may come to: it keeps the binding and the template, and behind a
  -- success the session is locked down.
  abbrev pub Kept : Session World S → Result (Unit {0}) × Session World S → Type 0
  Kept s (ok u, t) =
      (t.auth ≡ s.auth) × (t.lockdown ≡ s.lockdown) × IsLocked t × (t.schema_cache ≡ s.schema_cache)
  Kept s (err e, t) =
      (t.auth ≡ s.auth) × (t.lockdown ≡ s.lockdown) × (t.lockdown_applied ≡ s.lockdown_applied)

  pub ensure_lockdown-Kept : (s : Session World S) → Kept s (ensure_lockdown engine s)
  unfolding ensure_lockdown lockdown_sql
  ensure_lockdown-Kept s = go s.lockdown s.auth refl refl
    where
      tried :
          (template : LockdownTemplate) (auth : SessionAuth)
          → s.lockdown ≡ some template
          → s.auth ≡ some auth
          → (made : Option Bytes × World) → Kept s (scratch_made engine template auth s made)
      tried template auth el ea (some e, w) = (refl, refl, refl)
      tried template auth el ea (none, w) =
          ran (execute_batch (lockdown_sql template auth.writer s.roots) w)
        where
          ran : (r : Result (Unit {0}) × World) → Kept s (locked engine s r)
          ran (err e, w') = (refl, refl, refl)
          ran (ok u, w') = (refl, refl, rw (el, ea) refl, refl)

      go :
          (l : Option LockdownTemplate) (a : Option SessionAuth)
          → s.lockdown ≡ l
          → s.auth ≡ a
          → Kept s (lockdown_once engine l a s)
      go none a el ea = (refl, refl, rw el tt, refl)
      go (some template) none el ea = (refl, refl, rw (el, ea) tt, refl)
      go (some template) (some auth) el ea = branch s.lockdown_applied refl
        where
          branch :
              (b : Bool)
              → s.lockdown_applied ≡ b
              → Kept s (
                  if b
                  then (ok tt, s)
                  else scratch_made engine template auth s
                      (create_dir_all template.scratch_directory s.world))
          branch true e = (refl, refl, rw (el, ea) e, refl)
          branch false e =
              tried template auth el ea (create_dir_all template.scratch_directory s.world)

  pub locked_already : (s : Session World S) → IsLocked s → ensure_lockdown engine s ≡ (ok tt, s)
  unfolding ensure_lockdown
  locked_already s l = go s.lockdown s.auth l
    where
      go :
          (t : Option LockdownTemplate) (a : Option SessionAuth)
          → IsLockedWith t a s.lockdown_applied
          → lockdown_once engine t a s ≡ (ok tt, s)
      go none a l = refl
      go (some template) none l = refl
      go (some template) (some auth) l = rw l refl

  -- Behind a lockdown that succeeded the session is locked down, with its binding and its template
  -- as before, and another call does nothing.
  pub ensure_lockdown_once :
      (s : Session World S)
      → (ensure_lockdown engine s).0 ≡ ok tt
      → let t = (ensure_lockdown engine s).1 in
        IsLocked t
        × (t.auth ≡ s.auth)
        × (t.lockdown ≡ s.lockdown)
        × (ensure_lockdown engine t ≡ (ok tt, t))
  ensure_lockdown_once s h = go (ensure_lockdown engine s) h (ensure_lockdown-Kept s)
    where
      go :
          (r : Result (Unit {0}) × Session World S)
          → r.0 ≡ ok tt
          → Kept s r
          → IsLocked r.1
            × (r.1.auth ≡ s.auth)
            × (r.1.lockdown ≡ s.lockdown)
            × (ensure_lockdown engine r.1 ≡ (ok tt, r.1))
      go (err e, t) h k = absurd (cc h)
      go (ok u, t) h k = (k.2, k.0, k.1, locked_already t k.2)

  -- A call with a user's text depends on its operation only at sessions that are locked down and
  -- whose binding admits the text: two operations that agree there give the same outcome. So a
  -- text that is refused, or a lockdown that fails, keeps the operation from the engine.
  pub user_call_gated {ℓ} :
      {A : Type ℓ} (sql : Bytes) (run run' : Session World S → Result A × Session World S)
      (s : Session World S)
      → ((t : Session World S)
          → IsLocked t
          → validate_user_sql t.auth sql ≡ done none
          → run t ≡ run' t)
      → user_call engine sql run s ≡ user_call engine sql run' s
  unfolding user_call
  user_call_gated sql run run' s agree = checked (validate_user_sql s.auth sql) refl
    where
      ran :
          (r : Result (Unit {0}) × Session World S)
          → Kept s r
          → validate_user_sql s.auth sql ≡ done none
          → after_lockdown engine run r ≡ after_lockdown engine run' r
      ran (err e, t) k v = refl
      ran (ok u, t) k v = agree t k.2 (ap (λ a. validate_user_sql a sql) k.0 ∙ v)

      checked :
          (v : Checked (Option ServerError))
          → validate_user_sql s.auth sql ≡ v
          → (v >>= λ w. done (checked_by engine run s w))
            ≡ (v >>= λ w. done (checked_by engine run' s w))
      checked panicked e = refl
      checked (done (some x)) e = refl
      checked (done none) e =
          ap (λ x. done x) (ran (ensure_lockdown engine s) (ensure_lockdown-Kept s) e)
