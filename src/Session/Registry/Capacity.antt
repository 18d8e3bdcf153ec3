-- ===== src/Session/Registry/Capacity.antt =====
-- The permits of the registry are neither lost nor duplicated, whatever the interleaving.
use swanlake.Prelude.{
  ℕ, suc, ◌+◌, ◌≡◌, refl, sym, ap, ◌∙◌, List, [], ◌∷◌, ◌++◌, arith, ltb, length, length-append,
  Bool-cases, Option-cases, inl, inr, All,
}
use swanlake.Text.{Bytes, bytes_eq}
use swanlake.Error.{Result, ok, err}
use swanlake.Dict.{bytes_key, lookup}
use swanlake.Dict.Entries.{lookup-none, lookup-some, All-lookup, All-insert, All-remove}
use swanlake.Dict.Sizes.{
  IsDistinct, insert-IsDistinct, remove-IsDistinct, length-insert, length-remove,
}
use swanlake.Session.Lockdown.{LockdownTemplate}
use swanlake.Session.State.{Session}
use swanlake.Session.Registry.{
  SessionRegistry, new_registry, cleanup_idle_sessions, remove_session, begin_get_or_create,
  permit_dropped, stamped, new_with_id_and_auth, register, finish_get_or_create,
}
use swanlake.Session.Registry.Steps.{
  Request, System, waiting, Step, begins, finishes, cleans, removes, runs, Steps, stays, goes,
  IsStamped, IsValid,
}
use swanlake.Session.Registry.Sweep.{retained-IsDistinct, retained-All, length-retained}

module _ {W S : Type 0} where
  module _ (max : ℕ) (template : LockdownTemplate) where
    begins-IsValid :
        (t : Request) (r : SessionRegistry W S) (ps : List Request)
        → IsValid max template (r, ps)
        → IsValid max template
            ((begin_get_or_create t.id r).1, waiting t ps (begin_get_or_create t.id r).0)
    unfolding begin_get_or_create
    begins-IsValid t r ps (same, total, d, all) = elim (Option-cases (lookup t.id r.sessions)) [
      | inr (s, there) ↦ rw (there, begin_get_or_create) (same, total, d, all)
      | inl absent ↦ elim (Bool-cases (ltb 0 r.session_permits)) [
        | inl free ↦ rw (absent, free, begin_get_or_create) (same, ground arith, d, all)
        | inr full ↦ rw (absent, full, begin_get_or_create) (same, total, d, all)
      ]
    ]

    cleans-IsValid :
        (now : ℕ) (r : SessionRegistry W S) (ps : List Request)
        → IsValid max template (r, ps)
        → IsValid max template ((cleanup_idle_sessions now r).1, ps)
    unfolding cleanup_idle_sessions
    cleans-IsValid now r ps (same, total, d, all) = (
      same,
      omega (arith, length-retained now r.session_timeout r.sessions),
      retained-IsDistinct now r.session_timeout r.sessions d,
      retained-All (IsStamped template) now r.session_timeout r.sessions all,
    )

    removes-IsValid :
        (id nonce : Bytes) (r : SessionRegistry W S) (ps : List Request)
        → IsValid max template (r, ps)
        → IsValid max template ((remove_session id nonce r).1, ps)
    unfolding remove_session
    removes-IsValid id nonce r ps (same, total, d, all) =
        elim (Option-cases (lookup id r.sessions)) [
          | inl absent ↦ rw absent (same, total, d, all)
          | inr (s, there) ↦ elim (Bool-cases (bytes_eq s.nonce nonce)) [
            | inr other ↦ rw (there, other) (same, total, d, all)
            | inl hit ↦
                rw (there, hit)
                  (
                    same,
                    ground
                        (arith, length-remove id r.sessions d, lookup-some id s r.sessions there),
                    remove-IsDistinct id r.sessions d,
                    All-remove (IsStamped template) id r.sessions all,
                  )
          ]
        ]

    register-IsValid :
        (id : Bytes) (s : Session W S) (r : SessionRegistry W S) (ps : List Request)
        → IsStamped template (id, s)
        → r.template ≡ template
        → suc (r.session_permits + (length r.sessions + length ps)) ≡ max
        → IsDistinct r.sessions
        → All (IsStamped template) r.sessions
        → IsValid max template ((register id s r).1, ps)
    unfolding register permit_dropped
    register-IsValid id s r ps fits same total d all = elim (Option-cases (lookup id r.sessions)) [
      | inr (other, there) ↦ rw (there, register) (same, omega arith, d, all)
      | inl absent ↦
          rw (absent, register)
            (
              same,
              ground (arith, length-insert id s r.sessions, lookup-none id r.sessions absent),
              insert-IsDistinct id s r.sessions d,
              All-insert (IsStamped template) id s r.sessions fits all,
            )
    ]

    finishes-IsValid :
        (now : ℕ) (nonce : Bytes) (world : Result W) (t : Request) (r : SessionRegistry W S)
        (ps qs : List Request)
        → IsValid max template (r, ps ++ t ∷ qs)
        → IsValid max template ((finish_get_or_create now t.id nonce t.auth world r).1, ps ++ qs)
    unfolding finish_get_or_create permit_dropped new_with_id_and_auth
    finishes-IsValid now nonce (err e) t r ps qs (same, total, d, all) =
        (same, omega (arith, length-append ps (t ∷ qs), length-append ps qs), d, all)
    finishes-IsValid now nonce (ok world) t r ps qs (same, total, d, all) =
        register-IsValid t.id _ r (ps ++ qs) (refl, ap (λ x. stamped x t.auth) same) same
          (omega (arith, length-append ps (t ∷ qs), length-append ps qs)) d all

    step-IsValid : (x y : System W S) → Step x y → IsValid max template x → IsValid max template y
    step-IsValid _ _ (begins t r ps) v = begins-IsValid t r ps v
    step-IsValid _ _ (finishes now nonce world t r ps qs) v =
        finishes-IsValid now nonce world t r ps qs v
    step-IsValid _ _ (cleans now r ps) v = cleans-IsValid now r ps v
    step-IsValid _ _ (removes id nonce r ps) v = removes-IsValid id nonce r ps v
    step-IsValid _ _ (runs s s' r ps there same_id same_auth same_lockdown) (same, total, d, all) =
        let fits = All-lookup (IsStamped template) s.id s r.sessions all there in
        (
          same,
          ground (arith, length-insert s.id s' r.sessions, lookup-some s.id s r.sessions there),
          insert-IsDistinct s.id s' r.sessions d,
          All-insert (IsStamped template) s.id s' r.sessions
              (same_id, same_lockdown ∙ (fits.1 ∙ ap (stamped template) (sym same_auth))) all,
        )

    -- From an empty registry, requests, connections that come up or fail, uses, closes and sweeps
    -- in any interleaving keep the registry valid: its permits, its sessions and the requests that
    -- wait for a connection add up to the configured maximum, no id has two sessions, and each
    -- session stands under its own id, with the lockdown template exactly if it has a binding.
    pub registry-IsValid :
        (timeout : ℕ) (y : System W S)
        → Steps (new_registry max timeout template, []) y
        → IsValid max template y
    registry-IsValid timeout y run = go _ y run (refl, omega arith, tt, tt)
      where
        go : (x z : System W S) → Steps x z → IsValid max template x → IsValid max template z
        go _ _ (stays x) v = v
        go _ _ (goes x y z before step) v = step-IsValid y z step (go x y before v)
