-- ===== src/Session/Catalogs/Roots.antt =====
-- The set of allowed roots while catalogs are attached.
use swanlake.Prelude.{
  ℕ, ◌≡◌, refl, Bool, true, false, ◌&&◌, not, List, [], ◌∷◌, Option, none, some, arith,
  if◌then◌else◌, Checked, done, panicked, ◌>>=◌, IfDone,
}
use swanlake.Text.{Bytes}
use swanlake.Error.{Result, ok, err}
use swanlake.Dict.{bytes_key}
use swanlake.Sql.Attach.{attach_data_path}
use swanlake.Session.Engine.{Engine}
use swanlake.Session.State.{Session}
use swanlake.Session.Statements.{execute_statement_privileged}
use swanlake.Session.Catalogs.{
  confines, after_secret, create_secrets, without_count, select_path, with_root, with_data_roots,
  collect_roots, after_attach, after_secrets, arm_catalog, rearm, attach_catalog,
}
use swanlake.Session.Catalogs.Kept.{
  member-insert_root, member-insert_roots, Extends, Confined, Confined-refl, Confined-trans,
  Confined-same, privileged-Confined,
}

and_not : (a b : Bool) → (a && not b) ≡ true → b ≡ true → ⊥
and_not a b h k = ground arith

module _ (engine : Engine) {S : Type 0} where
  open engine use {World, is_attached, data_roots}

  collect-Confined :
      (catalog sql : Bytes) (s : Session World S)
      → IfDone (λ t. Confined s t) (collect_roots engine catalog sql s)
  unfolding collect_roots
  collect-Confined catalog sql s =
      branch (confines s.auth s.lockdown && not s.lockdown_applied) refl
    where
      more : (root : Option Bytes) → Extends s.roots (with_root root s.roots)
      more none r h = h
      more (some root) r h = member-insert_root r root s.roots h

      fetched :
          (root : Option Bytes) (r : Result (List Bytes) × World)
          → (s.lockdown_applied ≡ true → ⊥)
          → Confined s (with_data_roots engine (with_root root s.roots) r s)
      fetched root (err e, w) open_ = record {
        same_auth = refl;
        same_lockdown = refl;
        same_applied = refl;
        grown = more root;
        frozen = λ h. absurd (open_ h);
      }
      fetched root (ok found, w) open_ = record {
        same_auth = refl;
        same_lockdown = refl;
        same_applied = refl;
        grown = λ r h. member-insert_roots r found (with_root root s.roots) (more root r h);
        frozen = λ h. absurd (open_ h);
      }

      parsed :
          (path : Checked (Option Bytes))
          → (s.lockdown_applied ≡ true → ⊥)
          → IfDone
              (λ t. Confined s t)
              (path >>= λ root.
                done
                  (with_data_roots engine (with_root root s.roots) (data_roots catalog s.world) s))
      parsed panicked open_ = tt
      parsed (done root) open_ = fetched root (data_roots catalog s.world) open_

      branch :
          (b : Bool)
          → (confines s.auth s.lockdown && not s.lockdown_applied) ≡ b
          → IfDone
              (λ t. Confined s t)
              (if b
                then (attach_data_path sql >>= λ root. done (
                    with_data_roots engine (with_root root s.roots) (data_roots catalog s.world) s))
                else done s)
      branch true e =
          parsed (attach_data_path sql) (and_not (confines s.auth s.lockdown) s.lockdown_applied e)
      branch false e = Confined-refl s

  secrets-Confined :
      (now : ℕ) (secrets : List Bytes) (s : Session World S)
      → Confined s (create_secrets engine now secrets s).1
  unfolding create_secrets
  secrets-Confined now [] s = Confined-refl s
  secrets-Confined now (q ∷ qs) s =
      go (execute_statement_privileged engine now q s) (privileged-Confined engine now q s)
        (secrets-Confined now qs)
    where
      go :
          (r : Result ℕ × Session World S)
          → Confined s r.1
          → ((t : Session World S) → Confined t (create_secrets engine now qs t).1)
          → Confined s (after_secret engine (create_secrets engine now qs) r).1
      go (err e, t) c rest = c
      go (ok n, t) c rest = Confined-trans s t _ c (rest t)

  path-Confined :
      (now : ℕ) (path : Option Bytes) (s : Session World S)
      → Confined s (select_path engine now path s).1
  path-Confined now none s = Confined-refl s
  path-Confined now (some q) s =
      go (execute_statement_privileged engine now q s) (privileged-Confined engine now q s)
    where
      go : (r : Result ℕ × Session World S) → Confined s r.1 → Confined s (without_count engine r).1
      go (err e, t) c = c
      go (ok n, t) c = c

  arm-Confined :
      (now : ℕ) (catalog sql : Bytes) (secrets : List Bytes) (path : Option Bytes)
      (s : Session World S)
      → IfDone (λ x. Confined s x.1) (arm_catalog engine now catalog secrets sql path s)
  unfolding arm_catalog
  arm-Confined now catalog sql secrets path s =
      go (create_secrets engine now secrets s) (secrets-Confined now secrets s)
    where
      collected :
          (t : Session World S) (r : Checked (Session World S))
          → Confined s t
          → IfDone (λ u. Confined t u) r
          → IfDone (λ x. Confined s x.1) (r >>= λ u. done (select_path engine now path u))
      collected t panicked c k = tt
      collected t (done u) c k =
          Confined-trans s t _ c (Confined-trans t u _ k (path-Confined now path u))

      attached :
          (r : Result ℕ × Session World S)
          → Confined s r.1
          → IfDone (λ x. Confined s x.1) (after_attach engine now catalog sql path r)
      attached (err e, t) c = c
      attached (ok n, t) c =
          collected t (collect_roots engine catalog sql t) c (collect-Confined catalog sql t)

      go :
          (r : Result (Unit {0}) × Session World S)
          → Confined s r.1
          → IfDone (λ x. Confined s x.1) (after_secrets engine now catalog sql path r)
      go (err e, t) c = c
      go (ok u, t) c =
          attached (execute_statement_privileged engine now sql t)
            (Confined-trans s t _ c (privileged-Confined engine now sql t))

  -- An attachment, however it ends, keeps the session's binding and the mark of its lockdown and
  -- loses no allowed root; behind the lockdown it adds none, so the set is frozen.
  pub attach_catalog-Confined :
      (now : ℕ) (catalog sql : Bytes) (secrets : List Bytes) (path : Option Bytes)
      (s : Session World S)
      → IfDone (λ x. Confined s x.1) (attach_catalog engine now catalog secrets sql path s)
  unfolding attach_catalog
  attach_catalog-Confined now catalog sql secrets path s =
      branch (confines s.auth s.lockdown && s.lockdown_applied)
    where
      answered :
          (r : Result Bool × World)
          → IfDone
              (λ x. Confined s x.1)
              (rearm engine (arm_catalog engine now catalog secrets sql path) s r)
      answered (err e, w) = Confined-same s s _ refl refl refl refl (Confined-refl s)
      answered (ok false, w) = Confined-same s s _ refl refl refl refl (Confined-refl s)
      answered (ok true, w) =
          moved (arm_catalog engine now catalog secrets sql path (record s { world = w }))
            (arm-Confined now catalog sql secrets path (record s { world = w }))
        where
          moved :
              (r : Checked (Result (Unit {0}) × Session World S))
              → IfDone (λ x. Confined (record s { world = w }) x.1) r
              → IfDone (λ x. Confined s x.1) r
          moved panicked c = tt
          moved (done x) c =
              Confined-trans s _ x.1 (Confined-same s s _ refl refl refl refl (Confined-refl s)) c

      branch :
          (b : Bool)
          → IfDone
              (λ x. Confined s x.1)
              (if b
                then rearm engine
                    (arm_catalog engine now catalog secrets sql path)
                    s
                    (is_attached catalog s.world)
                else arm_catalog engine now catalog secrets sql path s)
      branch true = answered (is_attached catalog s.world)
      branch false = arm-Confined now catalog sql secrets path s
