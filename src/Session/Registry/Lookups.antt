-- ===== src/Session/Registry/Lookups.antt =====
-- What a registry answers after each of its operations.
use swanlake.Prelude.{
  ℕ, ◌+◌, ◌-◌, ◌≡◌, refl, ap, ◌∙◌, List, [], ◌∷◌, Option, none, some, arith, ltb, length,
  Bool-cases, Option-cases, inl, inr, if◌then◌else◌,
}
use swanlake.Text.{Bytes, bytes_eq, bytes_eq_iff}
use swanlake.Error.{ok}
use swanlake.Dict.{bytes_key, lookup, has_key, has_key-lookup, lookup-insert, lookup-remove}
use swanlake.Dict.Sizes.{IsDistinct}
use swanlake.Session.Admission.{SessionAuth}
use swanlake.Session.State.{Session}
use swanlake.Session.Registry.Sweep.{length-retained}
use swanlake.Session.Registry.{
  SessionRegistry, retained_sessions, cleanup_idle_sessions, get_by_id, remove_session, has_nonce,
  stamped, new_with_id_and_auth, register, finish_get_or_create,
}

module _ {W S : Type 0} where
  -- The session that a request which has its connection leaves under its id: the one that is
  -- there, if another request was faster, and otherwise a new one.
  abbrev pub winner : Option (Session W S) → Session W S → Session W S
  winner none s = s
  winner (some other) s = other

  register-winner :
      (id j : Bytes) (s : Session W S) (r : SessionRegistry W S)
      → ((register id s r).0 ≡ winner (get_by_id id r) s)
        × (get_by_id j (register id s r).1
            ≡ (if bytes_eq j id then some (winner (get_by_id id r) s) else get_by_id j r))
  unfolding register get_by_id
  register-winner id j s r = elim (Option-cases (lookup id r.sessions)) [
    | inr (other, there) ↦ rw (there, register, get_by_id) (refl, same other there)
    | inl absent ↦ rw (absent, register, get_by_id) (refl, lookup-insert id j s r.sessions)
  ]
    where
      same :
          (other : Session W S)
          → lookup id r.sessions ≡ some other
          → lookup j r.sessions ≡ (if bytes_eq j id then some other else lookup j r.sessions)
      same other there = elim (Bool-cases (bytes_eq j id)) [
        | inl hit ↦ rw hit (cc ((bytes_eq_iff j id).0 hit, there))
        | inr miss ↦ rw miss refl
      ]

  -- A request whose connection came up always gets a session. It is the one that the registry then
  -- holds under the id: the session of a faster request, with its own binding, or else a new
  -- session with the nonce and the binding of this request, that has applied no lockdown. All other
  -- ids answer as before.
  pub finish_get_or_create_registers :
      (now : ℕ) (id nonce j : Bytes) (auth : Option SessionAuth) (world : W)
      (r : SessionRegistry W S)
      → let s =
          winner
            (get_by_id id r)
            (new_with_id_and_auth now id nonce auth (stamped r.template auth) world) in
        let x = finish_get_or_create now id nonce auth (ok world) r in
        (x.0 ≡ ok s) × (get_by_id j x.1 ≡ (if bytes_eq j id then some s else get_by_id j r))
  unfolding finish_get_or_create
  finish_get_or_create_registers now id nonce j auth world r =
      let s = new_with_id_and_auth now id nonce auth (stamped r.template auth) world in
      let w = register-winner id j s r in (ap (λ x. ok x) w.0, w.1)

  -- A close removes a session exactly when the registry holds one under the id with the nonce that
  -- the caller saw, and says so; a session that was created again is kept, as are all other ids.
  pub get_by_id-remove_session :
      (id nonce j : Bytes) (r : SessionRegistry W S)
      → ((remove_session id nonce r).0 ≡ has_nonce nonce (get_by_id id r))
        × (get_by_id j (remove_session id nonce r).1 ≡ (
            if (remove_session id nonce r).0
            then (if bytes_eq j id then none else get_by_id j r)
            else get_by_id j r))
  unfolding get_by_id remove_session
  get_by_id-remove_session id nonce j r =
      elim (Bool-cases (has_nonce nonce (lookup id r.sessions))) [
        | inl hit ↦ rw (hit, remove_session, get_by_id) (refl, lookup-remove id j r.sessions)
        | inr miss ↦ rw (miss, remove_session, get_by_id) (refl, refl)
      ]

  abbrev pub if_recent : ℕ → ℕ → Option (Session W S) → Option (Session W S)
  if_recent now timeout none = none
  if_recent now timeout (some s) = if ltb timeout (now - s.last_activity) then none else some s

  lookup-retained :
      (now timeout : ℕ) (id : Bytes) (m : List (Bytes × Session W S))
      → IsDistinct m
      → lookup id (retained_sessions now timeout m) ≡ if_recent now timeout (lookup id m)
  unfolding lookup retained_sessions has_key
  lookup-retained now timeout id [] d = refl
  lookup-retained now timeout id ((j, s) ∷ m) (n, d) = elim (Bool-cases (bytes_eq id j)) [
    | inr other ↦ elim (Bool-cases (ltb timeout (now - s.last_activity))) [
      | inl old ↦ rw (other, old) (lookup-retained now timeout id m d)
      | inr recent ↦ rw (recent, other) (lookup-retained now timeout id m d)
    ]
    | inl hit ↦ elim (Bool-cases (ltb timeout (now - s.last_activity))) [
      | inl old ↦
          rw (hit, old) (gone (lookup-retained now timeout id m d) ((bytes_eq_iff id j).0 hit))
      | inr recent ↦ rw (recent, hit) (rw recent refl)
    ]
  ]
    where
      gone :
          lookup id (retained_sessions now timeout m) ≡ if_recent now timeout (lookup id m)
          → id ≡ j
          → lookup id (retained_sessions now timeout m) ≡ none
      gone rest same =
          rest ∙ ap (if_recent now timeout) (ap (λ k. lookup k m) same ∙ has_key-lookup j m n)

  -- A sweep drops exactly the sessions that were idle for longer than the timeout: each id answers
  -- with its session if that is recent. The sweep returns how many it dropped and frees as many
  -- permits.
  pub get_by_id-cleanup_idle_sessions :
      (now : ℕ) (id : Bytes) (r : SessionRegistry W S)
      → IsDistinct r.sessions
      → let x = cleanup_idle_sessions now r in
        (get_by_id id x.1 ≡ if_recent now r.session_timeout (get_by_id id r))
        × (x.0 + length x.1.sessions ≡ length r.sessions)
        × (x.1.session_permits ≡ r.session_permits + x.0)
  unfolding get_by_id cleanup_idle_sessions
  get_by_id-cleanup_idle_sessions now id r d = (
    lookup-retained now r.session_timeout id r.sessions d,
    omega (arith, length-retained now r.session_timeout r.sessions),
    refl,
  )
