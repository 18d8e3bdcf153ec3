-- ===== src/Session/Statements/Schemas.antt =====
-- The schema cache in front of the engine.
use swanlake.Prelude.{
  ℕ, ◌≡◌, refl, sym, ap, subst, ◌∙◌, Bool, true, false, Option, none, some, is_empty, if◌then◌else◌,
  Checked, done, panicked, ◌>>=◌, Option-cases, inl, inr,
}
use swanlake.Text.{Bytes, bytes_eq}
use swanlake.Error.{ServerError, Result, ok, err}
use swanlake.Dict.{bytes_key, beq_refl, lookup}
use swanlake.Session.Engine.{Engine}
use swanlake.Session.Admission.{SessionAuth, validate_user_sql}
use swanlake.Session.SchemaCache.{SchemaCache, get, touch_key}
use swanlake.Session.SchemaCache.Bounds.{IsValid}
use swanlake.Session.SchemaCache.Recency.{lookup-insert_schema}
use swanlake.Session.State.{Session, touch, with_transaction_recovery}
use swanlake.Session.State.Rules.{recovery_rule}
use swanlake.Session.Statements.{
  ensure_lockdown, after_lockdown, checked_by, user_call, schema_cache_key, cached_schema,
  schema_miss, schema_run, schema_for_query,
}
use swanlake.Session.Statements.Gate.{IsLocked, Kept, ensure_lockdown-Kept, locked_already}

if_true {ℓ} : {A : Type ℓ} (b : Bool) (x y : A) → b ≡ true → (if b then x else y) ≡ x
if_true b x y e = rw e refl

-- Where a session may be once a text was admitted with the binding `auth`.
pub record Ready {W S : Type 0} (auth : Option SessionAuth) (s : Session W S) : Type 0 where
  pub same_auth : s.auth ≡ auth
  pub is_locked : IsLocked s
  pub valid : IsValid s.schema_cache

module _ (engine : Engine) {S : Type 0} where
  open engine use {World}

  -- A schema that is returned is in the cache.
  abbrev Stored : Option SessionAuth → Bytes → Result S × Session World S → Type 0
  Stored auth key (err e, t) = Unit
  Stored auth key (ok schema, t) =
      (t.auth ≡ auth) × IsLocked t × (lookup key t.schema_cache.entries ≡ some schema)

  Ready-recovered :
      (auth : Option SessionAuth) (op : World → Result S × World) (s : Session World S)
      → Ready auth s
      → Ready auth (with_transaction_recovery engine op true s).1
  Ready-recovered auth op s r =
      recovery_rule engine (Ready auth)
        (λ t w p. record { same_auth = p.same_auth; is_locked = p.is_locked; valid = p.valid })
        (λ t w p. record { same_auth = p.same_auth; is_locked = p.is_locked; valid = p.valid }) op
        true s r

  miss-Stored :
      (auth : Option SessionAuth) (key : Bytes) (r : Result S × Session World S)
      → is_empty key ≡ false
      → Ready auth r.1
      → Stored auth key (cached_schema engine key r)
  miss-Stored auth key (err e, t) full p = tt
  miss-Stored auth key (ok schema, t) full p = rw full (
    p.same_auth,
    p.is_locked,
    lookup-insert_schema key key schema t.schema_cache p.valid
        ∙ if_true (bytes_eq key key) (some schema) _ (beq_refl key),
  )

  get-lookup :
      (key : Bytes) (c : SchemaCache S) (schema : S)
      → lookup key c.entries ≡ some schema
      → get key c ≡ (some schema, touch_key key c)
  unfolding get
  get-lookup key c schema there = rw (there, get) refl

  get-none : (key : Bytes) (c : SchemaCache S) → lookup key c.entries ≡ none → get key c ≡ (none, c)
  unfolding get
  get-none key c absent = rw (absent, get) refl

  touched-Ready :
      (auth : Option SessionAuth) (now : ℕ) (s : Session World S)
      → Ready auth s
      → Ready auth (touch now s)
  unfolding touch
  touched-Ready auth now s r = record {
    same_auth = r.same_auth;
    is_locked = r.is_locked;
    valid = r.valid;
  }

  hit_run :
      (now : ℕ) (key : Bytes) (op : World → Result S × World) (s : Session World S) (schema : S)
      → is_empty key ≡ false
      → lookup key s.schema_cache.entries ≡ some schema
      → schema_run engine now key op s
        ≡ (ok schema, record (touch now s) { schema_cache = touch_key key s.schema_cache })
  hit_run now key op s schema full there = rw full (
      ap (λ g. schema_miss engine key op g (touch now s))
        (get-lookup key s.schema_cache schema there))

  run-Stored :
      (auth : Option SessionAuth) (now : ℕ) (key : Bytes) (op : World → Result S × World)
      (s : Session World S)
      → is_empty key ≡ false
      → Ready auth s
      → Stored auth key (schema_run engine now key op s)
  unfolding touch touch_key
  run-Stored auth now key op s full r = elim (Option-cases (lookup key s.schema_cache.entries)) [
    | inr (schema, there) ↦
        subst (Stored auth key) (sym (hit_run now key op s schema full there))
          (r.same_auth, r.is_locked, there)
    | inl absent ↦
        rw (full, get-none key s.schema_cache absent)
          (miss-Stored auth key (with_transaction_recovery engine op true (touch now s)) full
            (Ready-recovered auth op (touch now s) (touched-Ready auth now s r)))
  ]

  -- A schema that the engine or the cache gave for a text, in a session with a valid cache, is
  -- given again for the same text without the engine: the next call returns the same schema and
  -- leaves the engine as it is. The text is more than white space and semicolons.
  pub schema_for_query_repeats :
      (now later : ℕ) (sql : Bytes) (op op' : World → Result S × World) (s t : Session World S)
      (schema : S)
      → IsValid s.schema_cache
      → is_empty (schema_cache_key sql) ≡ false
      → schema_for_query engine now sql op s ≡ done (ok schema, t)
      → (u : Session World S) × (schema_for_query engine later sql op' t ≡ done (ok schema, u))
        × (u.world ≡ t.world)
  unfolding schema_for_query user_call touch
  schema_for_query_repeats now later sql op op' s t schema v full run =
      checked (validate_user_sql s.auth sql) refl run
    where
      key : Bytes
      key = schema_cache_key sql

      Again : Type 0
      Again =
          (u : Session World S) × (schema_for_query engine later sql op' t ≡ done (ok schema, u))
          × (u.world ≡ t.world)

      again : validate_user_sql s.auth sql ≡ done none → Stored s.auth key (ok schema, t) → Again
      again admitted (same, locked_, there) = (
        record (touch later t) { schema_cache = touch_key key t.schema_cache },
        ap (λ w. w >>= λ x. done (checked_by engine (schema_run engine later key op') t x))
              (ap (λ a. validate_user_sql a sql) same ∙ admitted)
            ∙ (ap (λ r. done (after_lockdown engine (schema_run engine later key op') r))
                  (locked_already engine t locked_)
                ∙ ap (λ x. done x) (hit_run later key op' t schema full there)),
        refl,
      )

      locked_then :
          (r : Result (Unit {0}) × Session World S)
          → Kept engine s r
          → validate_user_sql s.auth sql ≡ done none
          → after_lockdown engine (schema_run engine now key op) r ≡ (ok schema, t)
          → Again
      locked_then (err e, u) k admitted eq = absurd (cc eq)
      locked_then (ok _, u) k admitted eq = again admitted (
          subst (Stored s.auth key) eq (
            run-Stored s.auth now key op u full
              (record { same_auth = k.0; is_locked = k.2; valid = subst IsValid (sym k.3) v })))

      checked :
          (verdict : Checked (Option ServerError))
          → validate_user_sql s.auth sql ≡ verdict
          → (verdict >>= λ w. done (checked_by engine (schema_run engine now key op) s w))
            ≡ done (ok schema, t)
          → Again
      checked panicked e eq = absurd (cc eq)
      checked (done (some x)) e eq = absurd (cc eq)
      checked (done none) e eq =
          locked_then (ensure_lockdown engine s) (ensure_lockdown-Kept engine s) e (cc eq)
