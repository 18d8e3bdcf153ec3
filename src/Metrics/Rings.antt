-- ===== src/Metrics/Rings.antt =====
-- metrics.rs: a ring holds the last values that were pushed.
use swanlake.Prelude.{
  ℕ, zero, suc, ◌-◌, ◌≤◌, ◌<◌, ◌≡◌, refl, sym, subst, true, false, List, [], ◌∷◌, ◌++◌, leb, length,
  length-append, arith, Bool-cases, inl, inr,
}
use swanlake.Metrics.Latency.{behind_front, push_ring}

module _ {ℓ} {A : Type ℓ} where
  abbrev pub drop : ℕ → List A → List A
  drop zero xs = xs
  drop (suc n) [] = []
  drop (suc n) (x ∷ xs) = drop n xs

  abbrev pub last_of : ℕ → List A → List A
  last_of n xs = drop (length xs - n) xs

  length-drop : (n : ℕ) (xs : List A) → length (drop n xs) ≡ length xs - n
  length-drop zero xs = omega arith
  length-drop (suc n) [] = omega arith
  length-drop (suc n) (x ∷ xs) = omega (arith, length-drop n xs)

  drop-append : (n : ℕ) (xs ys : List A) → n ≤ length xs → drop n (xs ++ ys) ≡ drop n xs ++ ys
  drop-append zero xs ys h = refl
  drop-append (suc n) [] ys h = absurd (omega arith)
  drop-append (suc n) (x ∷ xs) ys h = drop-append n xs ys (omega arith)

  behind_front-drop : (n : ℕ) (xs : List A) → behind_front (drop n xs) ≡ drop (suc n) xs
  behind_front-drop zero [] = refl
  behind_front-drop zero (x ∷ xs) = refl
  behind_front-drop (suc n) [] = refl
  behind_front-drop (suc n) (x ∷ xs) = behind_front-drop n xs

  pub length-last_of : (n : ℕ) (xs : List A) → length (last_of n xs) ≤ n
  length-last_of n xs = omega (arith, length-drop (length xs - n) xs)

  pub push_ring-last_of :
      (n : ℕ) (xs : List A) (x : A)
      → 0 < n
      → push_ring (last_of n xs) x n ≡ last_of n (xs ++ x ∷ [])
  unfolding push_ring
  push_ring-last_of n xs x h = elim (Bool-cases (leb n (length xs))) [
    | inl full ↦
        let enough : n ≤ length xs = ground arith in
        let k : ℕ = length xs - n in
        let still : leb n (length (drop k xs)) ≡ true =
          subst (λ m. leb n m ≡ true) (sym (length-drop k xs)) (ground arith) in
        let skip : length (xs ++ x ∷ []) - n ≡ suc k = omega (arith, length-append xs (x ∷ [])) in
        rw (still, behind_front-drop k xs, skip)
          (sym (drop-append (suc (length xs - n)) xs (x ∷ []) (omega arith)))
    | inr room ↦
        let none_left : length xs - n ≡ 0 = ground arith in
        let still : leb n (length xs) ≡ false = room in
        let skip : length (xs ++ x ∷ []) - n ≡ 0 = ground (arith, length-append xs (x ∷ [])) in
        rw (none_left, skip, still) refl
  ]

  drop-nil : (k : ℕ) → [] ≡ drop k []
  drop-nil zero = refl
  drop-nil (suc k) = refl

  pub last_of-nil : (n : ℕ) → [] ≡ last_of n []
  last_of-nil n = drop-nil (0 - n)
