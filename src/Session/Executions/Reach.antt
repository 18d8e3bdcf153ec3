-- ===== src/Session/Executions/Reach.antt =====
-- Which request an execution's id reaches.
use swanlake.Prelude.{
  ℕ, ◌≡◌, refl, ap, ◌∙◌, Bool, List, [], ◌∷◌, Option, none, some, Bool-cases, inl, inr,
  if◌then◌else◌,
}
use swanlake.Text.{Bytes, codes, bytes_eq, bytes_eq_iff}
use swanlake.Error.{internal, Result, ok, err}
use swanlake.Dict.{bytes_key, lookup, insert, has_key, has_key-lookup, lookup-insert}
use swanlake.Dict.Entries.{lookup-none, lookup-some}
use swanlake.Dict.Sizes.{IsDistinct}
use swanlake.Session.Executions.{retain_alive, registered_in, register_execution, upgraded, running}

module _ (alive : ℕ → Bool) where
  lookup-retain_alive :
      (id : Bytes) (m : List (Bytes × ℕ))
      → IsDistinct m
      → lookup id (retain_alive alive m) ≡ upgraded alive (lookup id m)
  unfolding lookup retain_alive has_key
  lookup-retain_alive id [] d = refl
  lookup-retain_alive id ((j, r) ∷ m) (n, d) = elim (Bool-cases (bytes_eq id j)) [
    | inr other ↦ elim (Bool-cases (alive r)) [
      | inl lives ↦ rw (other, lives, other) (lookup-retain_alive id m d)
      | inr gone ↦ rw (other, gone) (lookup-retain_alive id m d)
    ]
    | inl hit ↦ elim (Bool-cases (alive r)) [
      | inl lives ↦ rw (hit, lives, hit) refl
      | inr gone ↦ rw (hit, gone) (absent (lookup-retain_alive id m d) ((bytes_eq_iff id j).0 hit))
    ]
  ]
    where
      absent :
          lookup id (retain_alive alive m) ≡ upgraded alive (lookup id m)
          → id ≡ j
          → lookup id (retain_alive alive m) ≡ none
      absent rest same =
          rest ∙ ap (upgraded alive) (ap (λ k. lookup k m) same ∙ has_key-lookup j m n)

  upgraded_twice : (o : Option ℕ) → upgraded alive (upgraded alive o) ≡ upgraded alive o
  upgraded_twice none = refl
  upgraded_twice (some r) = elim (Bool-cases (alive r)) [
    | inl lives ↦ rw lives (rw lives refl)
    | inr gone ↦ rw gone refl
  ]

  abbrev pub registration : Option ℕ → Result (Unit {0})
  registration none = ok tt
  registration (some r) = err (internal (codes "execution request ID is already active"))

  abbrev pub reached : Bytes → Bytes → ℕ → Option ℕ → Option ℕ → Option ℕ
  reached id j r none before = if bytes_eq j id then upgraded alive (some r) else before
  reached id j r (some other) before = before

  -- An id is refused exactly while a request that is alive runs under it, and then nothing changes
  -- for any id. Otherwise it reaches the new request, as long as that is alive; every other id
  -- reaches what it reached before. Ids of requests that are gone can be used again.
  pub register_execution_reaches :
      (id j : Bytes) (r : ℕ) (m : List (Bytes × ℕ))
      → IsDistinct m
      → ((register_execution alive id r m).0 ≡ registration (running alive id m))
        × (running alive j (register_execution alive id r m).1
            ≡ reached id j r (running alive id m) (running alive j m))
  unfolding register_execution running
  register_execution_reaches id j r m d = go (running alive id m) (lookup-retain_alive id m d)
    where
      kept : running alive j (retain_alive alive m) ≡ running alive j m
      kept = ap (upgraded alive) (lookup-retain_alive j m d) ∙ upgraded_twice (lookup j m)

      go :
          (o : Option ℕ)
          → lookup id (retain_alive alive m) ≡ o
          → ((registered_in alive id r (retain_alive alive m)).0 ≡ registration o)
            × (running alive j (registered_in alive id r (retain_alive alive m)).1
                ≡ reached id j r o (running alive j m))
      go none e = rw (lookup-none id (retain_alive alive m) e) (refl, fresh)
        where
          fresh :
              running alive j (insert id r (retain_alive alive m))
              ≡ (if bytes_eq j id then upgraded alive (some r) else running alive j m)
          fresh =
              ap (upgraded alive) (lookup-insert id j r (retain_alive alive m))
              ∙ elim (Bool-cases (bytes_eq j id)) [
                | inl hit ↦ rw hit refl
                | inr miss ↦ rw miss kept
              ]
      go (some other) e = rw (lookup-some id other (retain_alive alive m) e) (refl, kept)
