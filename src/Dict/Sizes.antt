-- ===== src/Dict/Sizes.antt =====
-- Sizes of dictionaries whose keys are distinct.
use swanlake.Prelude.{suc, ◌≡◌, refl, false, ◌||◌, List, [], ◌∷◌, arith, length, if◌then◌else◌}
use swanlake.Dict.{Eq, insert, remove, has_key}

module _ {ℓ κ} {K : Type ℓ} ⦃e : Eq K⦄ {V : Type κ} where
  abbrev pub IsDistinct : List (K × V) → Type 0
  IsDistinct [] = Unit
  IsDistinct ((k, v) ∷ m) = (has_key k m ≡ false) × IsDistinct m

  pub has_key-insert :
      (k j : K) (v : V) (m : List (K × V)) → has_key j (insert k v m) ≡ (e.beq j k || has_key j m)
  unfolding has_key insert
  has_key-insert k j v [] = refl
  has_key-insert k j v ((i, w) ∷ m) =
      ground (arith, e.beq_iff k i, e.beq_iff j i, e.beq_iff j k, has_key-insert k j v m)

  pub has_key-remove :
      (k j : K) (m : List (K × V))
      → has_key j (remove k m) ≡ (if e.beq j k then false else has_key j m)
  unfolding has_key remove
  has_key-remove k j [] = ground arith
  has_key-remove k j ((i, w) ∷ m) =
      ground (arith, e.beq_iff k i, e.beq_iff j i, e.beq_iff j k, has_key-remove k j m)

  pub insert-IsDistinct :
      (k : K) (v : V) (m : List (K × V)) → IsDistinct m → IsDistinct (insert k v m)
  unfolding insert has_key
  insert-IsDistinct k v [] d = (refl, tt)
  insert-IsDistinct k v ((j, w) ∷ m) (n, d) =
      ground
        (arith, e.beq_iff j k, e.beq_iff k j, has_key-insert k j v m, insert-IsDistinct k v m d)

  pub remove-IsDistinct : (k : K) (m : List (K × V)) → IsDistinct m → IsDistinct (remove k m)
  unfolding remove
  remove-IsDistinct k [] d = tt
  remove-IsDistinct k ((j, w) ∷ m) (n, d) =
      ground (arith, has_key-remove k j m, remove-IsDistinct k m d)

  pub length-insert :
      (k : K) (v : V) (m : List (K × V))
      → length (insert k v m) ≡ (if has_key k m then length m else suc (length m))
  unfolding insert has_key
  length-insert k v [] = refl
  length-insert k v ((j, w) ∷ m) = ground (arith, length-insert k v m)

  remove_absent : (k : K) (m : List (K × V)) → has_key k m ≡ false → remove k m ≡ m
  unfolding remove has_key
  remove_absent k [] h = refl
  remove_absent k ((j, w) ∷ m) h = ground (arith, remove_absent k m)

  pub length-remove :
      (k : K) (m : List (K × V))
      → IsDistinct m
      → length m ≡ (if has_key k m then suc (length (remove k m)) else length (remove k m))
  unfolding remove has_key
  length-remove k [] d = refl
  length-remove k ((j, w) ∷ m) (n, d) =
      ground (arith, e.beq_iff k j, length-remove k m d, remove_absent k m)
