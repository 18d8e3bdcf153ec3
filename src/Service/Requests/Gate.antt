-- ===== src/Service/Requests/Gate.antt =====
-- service/mod.rs: the sessions that the authenticated mode hands out.
use swanlake.Prelude.{
  ◌≡◌, ◌⊎◌, inl, inr, refl, ap, sym, ◌∙◌, subst, Option, none, some, if◌then◌else◌, Bool-cases,
}
use swanlake.Text.{Bytes, bytes_eq, bytes_eq_iff}
use swanlake.Duckvis.{Outcome, session_bind_race, unauthenticated}
use swanlake.Duckvis.Jwt.{DuckvisClaims}
use swanlake.Session.Admission.{SessionAuth}
use swanlake.Session.State.{Session}
use swanlake.Session.Registry.{SessionRegistry, get_by_id}
use swanlake.Service.Requests.{
  Request, SessionIdMode, Authority, duckvis, Prepared, ok, err, Binding, bound, opens, as_prepared,
  from_option, same_auth, gate, confirmed, Course, get_or_create, entered, prepare_request_duckvis,
  nonce_checked, prepare_request, bearer_of, duckvis_project_header, expected_nonce,
  extract_session_id,
}
use swanlake.Service.Requests.Rests.{
  ok-bind, ok-from_option, ok-as_prepared, same_auth-eq, Names, IsGranted, Stands, gate_at-Stands,
}

module _ {W S : Type 0} (a : Authority) (request : Request) where
  -- A session that was handed out: its token, its binding, and where the binding comes from.
  pub record IsAdmitted (existing : Option (Session W S)) (s : Session W S) : Type 0 where
    pub bearer : Bytes
    pub claims : DuckvisClaims
    pub auth : SessionAuth
    pub token : bearer_of request ≡ some bearer
    pub valid : a.validate bearer ≡ Outcome.ok claims
    pub binding : s.auth ≡ some auth
    pub own : auth.subject ≡ claims.sub
    pub project : Names (duckvis_project_header request) auth.project_id
    pub nonce : Names (expected_nonce request) s.nonce
    pub source : (existing ≡ some s) ⊎ ((existing ≡ none) × IsGranted a request claims.sub auth)

  -- The token that the gate took, and what the binding rests on.
  abbrev Passed : Option (Session W S) → Binding W S → Type 0
  Passed existing v =
      (bearer : Bytes) × (claims : DuckvisClaims) × (bearer_of request ≡ some bearer)
      × (a.validate bearer ≡ Outcome.ok claims)
      × Stands a request claims.sub existing v

  gate-Passed :
      (id : Bytes) (r : SessionRegistry W S) (v : Binding W S)
      → gate a request id r ≡ ok v
      → Passed (get_by_id id r) v
  unfolding gate
  gate-Passed id r v h0 =
      let (bearer, e1, h1) =
        ok-bind (from_option (duckvis unauthenticated) (bearer_of request)) _ v h0 in
      let (claims, e2, h2) = ok-bind (as_prepared (a.validate bearer)) _ v h1 in
      (
        bearer,
        claims,
        ok-from_option _ (bearer_of request) bearer e1,
        ok-as_prepared _ claims e2,
        gate_at-Stands a request claims.sub (get_by_id id r) v h2,
      )

  confirmed-bound :
      (auth : SessionAuth) (t s : Session W S) → confirmed auth t ≡ ok s → s.auth ≡ some auth
  confirmed-bound auth t s h = of t.auth refl h
    where
      of :
          (o : Option SessionAuth)
          → o ≡ t.auth
          → elim o as (λ x. Prepared (Session W S)) [
            | none ↦ err (duckvis session_bind_race)
            | some other ↦ if same_auth other auth then ok t else err (duckvis session_bind_race)
          ]
            ≡ ok s
          → s.auth ≡ some auth
      of none e h = absurd (cc h)
      of (some other) e h = elim (Bool-cases (same_auth other auth)) [
        | inr lost ↦ absurd (cc (rw lost at h))
        | inl won ↦
            let e' : t ≡ s = cc (rw won at h) in
            subst (λ x. x.auth ≡ some auth) e' (sym e ∙ ap some (same_auth-eq other auth won))
      ]

  nonce_checked-Names :
      (expected : Option Bytes) (t s : Session W S)
      → nonce_checked expected t ≡ ok s
      → (t ≡ s) × Names expected s.nonce
  nonce_checked-Names none t s h = (cc h, tt)
  nonce_checked-Names (some n) t s h = elim (Bool-cases (bytes_eq n t.nonce)) [
    | inr other ↦ absurd (cc (rw other at h))
    | inl same ↦
        let e : t ≡ s = cc (rw same at h) in
        (e, subst (λ x. n ≡ x.nonce) e ((bytes_eq_iff n t.nonce).0 same))
  ]

  -- The binding was met, or it is the one the session was made with.
  entered-IsAdmitted :
      (c : Course W S) (id : Bytes) (existing : Option (Session W S)) (v : Binding W S)
      (s : Session W S)
      → Passed existing v
      → entered c id v ≡ ok s
      → Names (expected_nonce request) s.nonce
      → IsAdmitted existing s
  entered-IsAdmitted c id existing (bound t) s
        (bearer, claims, token, valid, (found, (auth, binding, own, project))) h n =
      let e : t ≡ s = cc h in
      record {
        bearer = bearer;
        claims = claims;
        auth = auth;
        token = token;
        valid = valid;
        binding = subst (λ x. x.auth ≡ some auth) e binding;
        own = own;
        project = project;
        nonce = n;
        source = inl (found ∙ ap some e);
      }
  entered-IsAdmitted c id existing (opens auth) s
        (bearer, claims, token, valid, (fresh, own, granted)) h n =
      let (t, made, h') = ok-bind (get_or_create c id (some auth)) _ s h in
      record {
        bearer = bearer;
        claims = claims;
        auth = auth;
        token = token;
        valid = valid;
        binding = confirmed-bound auth t s h';
        own = own;
        project = subst (λ o. Names o auth.project_id) (sym (granted.1)) refl;
        nonce = n;
        source = inr (fresh, granted);
      }

module _ {W S : Type 0} where
  -- In the authenticated mode a request that is given a session has a valid token, its session
  -- has the token's subject, the project and the nonce of the headers that are there, and the
  -- session is the one of its id, or there was none and the right to view the project was granted
  -- to the subject, and the right to write if the session has it.
  pub prepare_request-IsAdmitted :
      (a : Authority) (mode : SessionIdMode) (uuid : Bytes) (c : Course W S) (request : Request)
      (s : Session W S)
      → prepare_request (some a) mode uuid c request ≡ ok s
      → IsAdmitted a request (get_by_id (extract_session_id mode uuid request) c.at_lookup) s
  unfolding prepare_request prepare_request_duckvis
  prepare_request-IsAdmitted a mode uuid c request s h =
      let id = extract_session_id mode uuid request in
      let (t, e1, h1) = ok-bind (prepare_request_duckvis a c request id) _ s h in
      let (same, n) = nonce_checked-Names a request (expected_nonce request) t s h1 in
      let (v, e2, h2) = ok-bind (gate a request id c.at_lookup) _ t e1 in
      entered-IsAdmitted a request c id (get_by_id id c.at_lookup) v s
        (gate-Passed a request id c.at_lookup v e2) (h2 ∙ ap ok same) n
