-- ===== src/Service/Requests/Rests.antt =====
-- service/mod.rs: what the gate's answer rests on.
use swanlake.Prelude.{
  ◌≡◌, inl, inr, refl, sym, ◌∙◌, subst, Bool, true, false, Option, none, some, if◌then◌else◌,
  Bool-cases, arith,
}
use swanlake.Text.{Bytes, bytes_eq, bytes_eq_iff}
use swanlake.Duckvis.{Outcome, session_project_mismatch, permission_denied, invalid_argument}
use swanlake.Session.Admission.{SessionAuth}
use swanlake.Session.State.{Session}
use swanlake.Service.Requests.{
  Request, Authority, Rejection, duckvis, recreated, missing_binding, Prepared, ok, err, Binding,
  bound, opens, ◌>>=◌, as_prepared, from_option, same_auth, matched, writer_of, opened, gate_at,
  duckvis_project_header, expected_nonce,
}

pub ok-bind {ℓ κ} :
    {A : Type ℓ} {B : Type κ} (r : Prepared A) (f : A → Prepared B) (b : B)
    → (r >>= f) ≡ ok b
    → (a : A) × (r ≡ ok a) × (f a ≡ ok b)
ok-bind (ok a) f b h = (a, refl, h)
ok-bind (err e) f b h = absurd (cc h)

pub ok-from_option {ℓ} :
    {A : Type ℓ} (e : Rejection) (o : Option A) (a : A) → from_option e o ≡ ok a → o ≡ some a
ok-from_option e none a h = absurd (cc h)
ok-from_option e (some b) a h = cc h

pub ok-as_prepared {ℓ} :
    {A : Type ℓ} (o : Outcome A) (a : A) → as_prepared o ≡ ok a → o ≡ Outcome.ok a
ok-as_prepared (Outcome.ok b) a h = cc h
ok-as_prepared (Outcome.err e) a h = absurd (cc h)

pub same_auth-eq : (a b : SessionAuth) → same_auth a b ≡ true → a ≡ b
same_auth-eq a b h =
    ground (arith, bytes_eq_iff a.subject b.subject, bytes_eq_iff a.project_id b.project_id)

-- What a header asks for, if it is there, is what there is.
abbrev pub Names : Option Bytes → Bytes → Type 0
Names none there = Unit
Names (some named) there = named ≡ there

-- The capability to write was granted, by an instance that is not read-only.
abbrev pub CanWrite : Authority → Bytes → SessionAuth → Type 0
CanWrite a subject auth =
    if auth.writer
    then (a.read_only ≡ false) × (a.mutate_data subject auth.project_id ≡ Outcome.ok true)
    else Unit

-- The rights with which a new session is opened.
abbrev pub IsGranted : Authority → Request → Bytes → SessionAuth → Type 0
IsGranted a request subject auth =
    (expected_nonce request ≡ none)
    × (duckvis_project_header request ≡ some auth.project_id)
    × (a.view subject auth.project_id ≡ Outcome.ok true)
    × CanWrite a subject auth

writer_of-CanWrite :
    (a : Authority) (subject p : Bytes) (writer : Bool)
    → writer_of a subject p ≡ ok writer
    → CanWrite a subject (record { subject = subject; project_id = p; writer = writer })
writer_of-CanWrite a subject p false h = tt
writer_of-CanWrite a subject p true h = elim (Bool-cases a.read_only) [
  | inl r ↦ absurd (cc (rw r at h))
  | inr w ↦ (w, ok-as_prepared (a.mutate_data subject p) true (rw w at h))
]

module _ {W S : Type 0} (a : Authority) (request : Request) where
  -- What a binding rests on.
  abbrev pub Stands : Bytes → Option (Session W S) → Binding W S → Type 0
  Stands subject existing (bound s) =
      (existing ≡ some s)
      × ((auth : SessionAuth) × (s.auth ≡ some auth)
          × (auth.subject ≡ subject)
          × Names (duckvis_project_header request) auth.project_id)
  Stands subject existing (opens auth) =
      (existing ≡ none) × (auth.subject ≡ subject) × IsGranted a request subject auth

  opened-Stands :
      (subject : Bytes) (project : Option Bytes) (v : Binding W S)
      → expected_nonce request ≡ none
      → project ≡ duckvis_project_header request
      → opened a subject project ≡ ok v
      → Stands subject none v
  opened-Stands subject project v n e h0 =
      let (p, e1, h1) = ok-bind (from_option (duckvis invalid_argument) project) _ v h0 in
      let (allowed, e2, h2) = ok-bind (as_prepared (a.view subject p)) _ v h1 in
      granted p allowed (ok-from_option _ project p e1) (ok-as_prepared _ allowed e2) h2
    where
      granted :
          (p : Bytes) (allowed : Bool)
          → project ≡ some p
          → a.view subject p ≡ Outcome.ok allowed
          → (if allowed
              then (writer_of a subject p >>= λ writer.
                  ok (opens (record { subject = subject; project_id = p; writer = writer })))
              else err (duckvis permission_denied))
            ≡ ok v
          → Stands subject none v
      granted p false e1 e2 h = absurd (cc h)
      granted p true e1 e2 h =
          let (writer, e3, h3) = ok-bind (writer_of a subject p) _ v h in
          subst (Stands subject none)
            {x = opens (record { subject = subject; project_id = p; writer = writer })} (cc h3)
            (refl, refl, (n, sym e ∙ e1, e2, writer_of-CanWrite a subject p writer e3))

  matched-Stands :
      (subject : Bytes) (s : Session W S) (auth : SessionAuth) (project : Option Bytes)
      (v : Binding W S)
      → s.auth ≡ some auth
      → project ≡ duckvis_project_header request
      → matched subject project s auth ≡ ok v
      → Stands subject (some s) v
  matched-Stands subject s auth project v bind e h =
      elim (Bool-cases (bytes_eq auth.subject subject)) [
        | inr other ↦ absurd (cc (rw other at h))
        | inl same ↦ named project e ((bytes_eq_iff auth.subject subject).0 same) (rw same at h)
      ]
    where
      named :
          (o : Option Bytes)
          → o ≡ duckvis_project_header request
          → auth.subject ≡ subject
          → elim o as (λ x. Prepared (Binding W S)) [
            | none ↦ ok (bound s)
            | some p ↦
                if bytes_eq p auth.project_id
                then ok (bound s)
                else err (duckvis session_project_mismatch)
          ]
            ≡ ok v
          → Stands subject (some s) v
      named none e same h =
          subst (Stands subject (some s)) {x = bound s} (cc h)
            (refl, (auth, bind, same, subst (λ o. Names o auth.project_id) e tt))
      named (some p) e same h = elim (Bool-cases (bytes_eq p auth.project_id)) [
        | inr other ↦ absurd (cc (rw other at h))
        | inl hit ↦ subst (Stands subject (some s)) {x = bound s} (cc (rw hit at h)) (
          refl,
          (
            auth,
            bind,
            same,
            subst (λ o. Names o auth.project_id) e ((bytes_eq_iff p auth.project_id).0 hit),
          ),
        )
      ]

  pub gate_at-Stands :
      (subject : Bytes) (existing : Option (Session W S)) (v : Binding W S)
      → gate_at a request subject existing ≡ ok v
      → Stands subject existing v
  gate_at-Stands subject (some s) v h =
      let (auth, e, h') = ok-bind (from_option missing_binding s.auth) _ v h in
      matched-Stands subject s auth (duckvis_project_header request) v
        (ok-from_option _ s.auth auth e) refl h'
  gate_at-Stands subject none v h = unexpected (expected_nonce request) refl h
    where
      unexpected :
          (o : Option Bytes)
          → o ≡ expected_nonce request
          → elim o as (λ x. Prepared (Binding W S)) [
            | some expected ↦ err (recreated expected none)
            | none ↦ opened a subject (duckvis_project_header request)
          ]
            ≡ ok v
          → Stands subject none v
      unexpected (some n) e h = absurd (cc h)
      unexpected none e h = opened-Stands subject (duckvis_project_header request) v (sym e) refl h
