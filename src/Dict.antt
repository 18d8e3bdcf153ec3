-- ===== src/Dict.antt =====
-- `HashMap` as an association list, and `HashSet` as a list of its members; keys by their equality.
pub mod Entries
pub mod Sizes
use swanlake.Prelude.{
  ℕ, ◌≡◌, refl, ◌↔◌, ◌⊎◌, inl, inr, Bool, true, false, ◌||◌, List, [], ◌∷◌, Option, none, some,
  arith, ◌==◌, ==_iff, if◌then◌else◌, Bool-cases,
}
use swanlake.Text.{Bytes, bytes_eq, bytes_eq_iff}

pub record Eq {ℓ} (A : Type ℓ) : Type ℓ where
  pub beq : A → A → Bool
  pub beq_iff : (a b : A) → (beq a b ≡ true) ↔ (a ≡ b)

instance abbrev pub nat_eq : Eq ℕ
nat_eq = record { beq = ◌==◌; beq_iff = ==_iff }

instance abbrev pub bytes_key : Eq Bytes
bytes_key = record { beq = bytes_eq; beq_iff = bytes_eq_iff }

module _ {ℓ} {K : Type ℓ} ⦃e : Eq K⦄ where
  pub beq_refl : (k : K) → e.beq k k ≡ true
  beq_refl k = (e.beq_iff k k).1 refl

  module _ {κ} {V : Type κ} where
    unfoldable pub lookup : K → List (K × V) → Option V
    lookup k [] = none
    lookup k ((j, v) ∷ m) = if e.beq k j then some v else lookup k m

    -- A key that is there keeps its place.
    unfoldable pub insert : K → V → List (K × V) → List (K × V)
    insert k v [] = (k, v) ∷ []
    insert k v ((j, w) ∷ m) = if e.beq k j then (j, v) ∷ m else (j, w) ∷ insert k v m

    unfoldable pub remove : K → List (K × V) → List (K × V)
    remove k [] = []
    remove k ((j, w) ∷ m) = let rest = remove k m in if e.beq k j then rest else (j, w) ∷ rest

    unfoldable pub has_key : K → List (K × V) → Bool
    has_key k [] = false
    has_key k ((j, w) ∷ m) = e.beq k j || has_key k m

    pub lookup-insert :
        (k j : K) (v : V) (m : List (K × V))
        → lookup j (insert k v m) ≡ (if e.beq j k then some v else lookup j m)
    unfolding lookup insert
    lookup-insert k j v [] = refl
    lookup-insert k j v ((i, w) ∷ m) =
        ground (arith, e.beq_iff k i, e.beq_iff j i, e.beq_iff j k, lookup-insert k j v m)

    pub lookup-remove :
        (k j : K) (m : List (K × V))
        → lookup j (remove k m) ≡ (if e.beq j k then none else lookup j m)
    unfolding lookup remove
    lookup-remove k j [] = ground arith
    lookup-remove k j ((i, w) ∷ m) =
        ground (arith, e.beq_iff k i, e.beq_iff j i, e.beq_iff j k, lookup-remove k j m)

    pub has_key-lookup : (k : K) (m : List (K × V)) → has_key k m ≡ false → lookup k m ≡ none
    unfolding lookup has_key
    has_key-lookup k [] h = refl
    has_key-lookup k ((j, w) ∷ m) h = ground (arith, has_key-lookup k m)

  -- Sets.
  unfoldable pub member : K → List K → Bool
  member k [] = false
  member k (j ∷ s) = e.beq k j || member k s

  unfoldable pub add : K → List K → List K
  unfolding member
  add k s = if member k s then s else k ∷ s

  unfoldable pub discard : K → List K → List K
  discard k [] = []
  discard k (j ∷ s) = let rest = discard k s in if e.beq k j then rest else j ∷ rest

  unfoldable pub add_all : List K → List K → List K
  unfolding add
  add_all [] s = s
  add_all (k ∷ ks) s = add_all ks (add k s)

  pub member-add : (k j : K) (s : List K) → member j (add k s) ≡ (e.beq j k || member j s)
  unfolding add member
  member-add k j s = ground (arith, e.beq_iff j k)

  pub member-discard :
      (k j : K) (s : List K) → member j (discard k s) ≡ (if e.beq j k then false else member j s)
  unfolding discard member
  member-discard k j [] = ground arith
  member-discard k j (i ∷ s) =
      ground (arith, e.beq_iff k i, e.beq_iff j i, e.beq_iff j k, member-discard k j s)

  pub member-add_all :
      (ks : List K) (j : K) (s : List K) → member j (add_all ks s) ≡ (member j ks || member j s)
  unfolding add_all member
  member-add_all [] j s = refl
  member-add_all (k ∷ ks) j s = ground (arith, member-add_all ks j (add k s), member-add k j s)
