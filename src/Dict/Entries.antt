-- ===== src/Dict/Entries.antt =====
-- A predicate on all entries of a dictionary, and what finding a key says.
use swanlake.Prelude.{
  ◌≡◌, refl, subst, true, false, List, [], ◌∷◌, none, some, arith, All, Bool-cases, inl, inr,
}
use swanlake.Dict.{Eq, lookup, insert, remove, has_key}

module _ {ℓ κ} {K : Type ℓ} ⦃e : Eq K⦄ {V : Type κ} where
  pub lookup-none : (k : K) (m : List (K × V)) → lookup k m ≡ none → has_key k m ≡ false
  unfolding lookup has_key
  lookup-none k [] h = refl
  lookup-none k ((j, w) ∷ m) h = ground (arith, lookup-none k m)

  pub lookup-some : (k : K) (v : V) (m : List (K × V)) → lookup k m ≡ some v → has_key k m ≡ true
  unfolding lookup has_key
  lookup-some k v [] h = absurd (cc h)
  lookup-some k v ((j, w) ∷ m) h = ground (arith, lookup-some k v m)

  pair_path : {k j : K} {v w : V} → k ≡ j → some w ≡ some v → ◌≡◌ {A = K × V} (j, w) (k, v)
  pair_path p q = cc (p, q)

  module _ {λ'} (P : K × V → Type λ') where
    pub All-lookup : (k : K) (v : V) (m : List (K × V)) → All P m → lookup k m ≡ some v → P (k, v)
    unfolding lookup
    All-lookup k v [] h found = absurd (cc found)
    All-lookup k v ((j, w) ∷ m) h found = elim (Bool-cases (e.beq k j)) [
      | inl same ↦ subst P (pair_path ((e.beq_iff k j).0 same) (rw same at found)) h.0
      | inr other ↦ All-lookup k v m h.1 (rw other at found)
    ]

    pub All-insert : (k : K) (v : V) (m : List (K × V)) → P (k, v) → All P m → All P (insert k v m)
    unfolding insert
    All-insert k v [] p h = (p, tt)
    All-insert k v ((j, w) ∷ m) p h = elim (Bool-cases (e.beq k j)) [
      | inl same ↦ rw same (subst (λ i. P (i, v)) ((e.beq_iff k j).0 same) p, h.1)
      | inr other ↦ rw other (h.0, All-insert k v m p h.1)
    ]

    pub All-remove : (k : K) (m : List (K × V)) → All P m → All P (remove k m)
    unfolding remove
    All-remove k [] h = tt
    All-remove k ((j, w) ∷ m) h = elim (Bool-cases (e.beq k j)) [
      | inl same ↦ rw same (All-remove k m h.1)
      | inr other ↦ rw other (h.0, All-remove k m h.1)
    ]
