-- ===== src/Session/Catalogs/Kept.antt =====
-- What a catalog's statements keep of a session.
use swanlake.Prelude.{ℕ, ◌≡◌, refl, ap, ◌∙◌, Bool, true, false, List, [], ◌∷◌, arith, if◌then◌else◌}
use swanlake.Text.{Bytes}
use swanlake.Error.{Result, ok, err}
use swanlake.Dict.{bytes_key, member}
use swanlake.Session.Engine.{Engine}
use swanlake.Session.State.{Session, touch, with_transaction_recovery}
use swanlake.Session.State.Rules.{recovery_rule}
use swanlake.Session.SchemaCache.{clear}
use swanlake.Session.Statements.{
  execute_statement_privileged, invalidated, should_invalidate_schema_cache,
}
use swanlake.Session.Catalogs.{insert_root, insert_roots}

pub member-insert_root :
    (r root : Bytes) (roots : List Bytes)
    → member r roots ≡ true
    → member r (insert_root root roots) ≡ true
unfolding insert_root member
member-insert_root r root [] h = absurd (cc h)
member-insert_root r root (x ∷ xs) h = ground (arith, member-insert_root r root xs)

pub member-insert_roots :
    (r : Bytes) (more roots : List Bytes)
    → member r roots ≡ true
    → member r (insert_roots more roots) ≡ true
unfolding insert_roots
member-insert_roots r [] roots h = h
member-insert_roots r (m ∷ ms) roots h =
    member-insert_roots r ms (insert_root m roots) (member-insert_root r m roots h)

-- Each root that was allowed is allowed still.
abbrev pub Extends : List Bytes → List Bytes → Type 0
Extends roots more = (r : Bytes) → member r roots ≡ true → member r more ≡ true

-- The binding, the template and the mark of the lockdown are kept, no root is lost, and behind the
-- lockdown none is added.
pub record Confined {W S : Type 0} (s t : Session W S) : Type 0 where
  pub same_auth : t.auth ≡ s.auth
  pub same_lockdown : t.lockdown ≡ s.lockdown
  pub same_applied : t.lockdown_applied ≡ s.lockdown_applied
  pub grown : Extends s.roots t.roots
  pub frozen : s.lockdown_applied ≡ true → t.roots ≡ s.roots

module _ {W S : Type 0} where
  pub Confined-refl : (s : Session W S) → Confined s s
  Confined-refl s = record {
    same_auth = refl;
    same_lockdown = refl;
    same_applied = refl;
    grown = λ r h. h;
    frozen = λ h. refl;
  }

  pub Confined-trans : (s t u : Session W S) → Confined s t → Confined t u → Confined s u
  Confined-trans s t u p q = record {
    same_auth = q.same_auth ∙ p.same_auth;
    same_lockdown = q.same_lockdown ∙ p.same_lockdown;
    same_applied = q.same_applied ∙ p.same_applied;
    grown = λ r h. q.grown r (p.grown r h);
    frozen = λ h. q.frozen (p.same_applied ∙ h) ∙ p.frozen h;
  }

  -- A change of other fields only.
  pub Confined-same :
      (s t u : Session W S)
      → u.auth ≡ t.auth
      → u.lockdown ≡ t.lockdown
      → u.lockdown_applied ≡ t.lockdown_applied
      → u.roots ≡ t.roots
      → Confined s t
      → Confined s u
  Confined-same s t u a l p r c = record {
    same_auth = a ∙ c.same_auth;
    same_lockdown = l ∙ c.same_lockdown;
    same_applied = p ∙ c.same_applied;
    grown = λ x h. ap (member x) r ∙ c.grown x h;
    frozen = λ h. r ∙ c.frozen h;
  }

module _ (engine : Engine) {S : Type 0} where
  open engine use {World, execute_statement, is_attached, data_roots}

  invalidated-Confined {ℓ} :
      {A : Type ℓ} (sql : Bytes) (s : Session World S) (r : Result A × Session World S)
      → Confined s r.1
      → Confined s (invalidated engine sql r).1
  invalidated-Confined sql s (err e, t) c = c
  invalidated-Confined sql s (ok v, t) c = go (should_invalidate_schema_cache sql)
    where
      go :
          (b : Bool)
          → Confined s (if b then record t { schema_cache = clear t.schema_cache } else t)
      go true = Confined-same s t _ refl refl refl refl c
      go false = c

  pub privileged-Confined :
      (now : ℕ) (sql : Bytes) (s : Session World S)
      → Confined s (execute_statement_privileged engine now sql s).1
  unfolding execute_statement_privileged touch
  privileged-Confined now sql s =
      invalidated-Confined sql s
        (with_transaction_recovery engine (execute_statement sql) true (touch now s))
        (recovery_rule engine (Confined s) (λ t w. Confined-same s t _ refl refl refl refl)
          (λ t w. Confined-same s t _ refl refl refl refl) (execute_statement sql) true
          (touch now s) (Confined-same s s _ refl refl refl refl (Confined-refl s)))
