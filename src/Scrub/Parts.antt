-- ===== src/Scrub/Parts.antt =====
-- scrub.rs: what the search finds, and where the slices of the loop begin and end.
use swanlake.Prelude.{
  ℕ, suc, ◌+◌, ◌≤◌, ◌<◌, ◌≡◌, refl, ap, ap₂, subst, Bool, true, false, [], ◌∷◌, ◌++◌, Option, none,
  some, ◌==◌, if◌then◌else◌, length, length-append, arith, All, Bool-cases, inl, inr,
}
use swanlake.Text.{Bytes, to_ascii_lowercase, to_ascii_lower, starts_with, starts_inside}
use swanlake.Scrub.{
  password_key, is_ascii_whitespace, skip_whitespace, split_at, Found, found_here, one_later,
  find_key, quoted_rest, stops_bare, bare_rest, value_rest, behind_equals, after_key,
}

-- No byte that continues a character stands behind an ASCII byte.
abbrev pub IsText : Bytes → Type 0
IsText [] = Unit
IsText (b ∷ s) = (b < 128 → starts_inside s ≡ false) × IsText s

-- What any `str` is: a text that begins_with with a character.
abbrev pub IsStr : Bytes → Type 0
IsStr s = (starts_inside s ≡ false) × IsText s

pub IsText-append_right : (s t : Bytes) → IsText (s ++ t) → IsText t
IsText-append_right [] t h = h
IsText-append_right (b ∷ s) t h = IsText-append_right s t h.1

-- A suffix that begins_with a character, no longer than the text.
abbrev pub Behind : Bytes → Bytes → Type 0
Behind s t = IsStr t × (length t ≤ length s)

split_at-append :
    (s p : Bytes)
    → starts_with (to_ascii_lowercase s) p ≡ true
    → (s ≡ (split_at (length p) s).0 ++ (split_at (length p) s).1)
      × (to_ascii_lowercase (split_at (length p) s).0 ≡ p)
unfolding starts_with to_ascii_lowercase
split_at-append s [] h = (refl, refl)
split_at-append [] (c ∷ p) h = absurd (cc h)
split_at-append (b ∷ s) (c ∷ p) h =
    let ih : starts_with (to_ascii_lowercase s) p ≡ true = ground arith in
    let (whole, lower) = split_at-append s p ih in
    (ap (λ (r : Bytes). b ∷ r) whole, ap₂ (λ (x : ℕ) (r : Bytes). x ∷ r) (ground arith) lower)

pub record IsFound (s : Bytes) (f : Found) : Type 0 where
  pub whole : s ≡ f.before ++ (f.spelled ++ f.after)
  pub spelling : to_ascii_lowercase f.spelled ≡ password_key

pub find_key-IsFound : (s : Bytes) (f : Found) → find_key s ≡ some f → IsFound s f
unfolding find_key
find_key-IsFound [] f h = absurd (cc h)
find_key-IsFound (c ∷ s) f h =
    elim (Bool-cases (starts_with (to_ascii_lowercase (c ∷ s)) password_key)) [
      | inl e ↦
          let parts = split_at-append (c ∷ s) password_key e in
          subst (IsFound (c ∷ s)) {x = found_here (c ∷ s)} (cc (rw e at h))
            (record { whole = parts.0; spelling = parts.1 })
      | inr n ↦ later (find_key s) (find_key-IsFound s) (rw n at h)
    ]
  where
    later :
        (o : Option Found)
        → ((g : Found) → o ≡ some g → IsFound s g)
        → one_later c o ≡ some f
        → IsFound (c ∷ s) f
    later none ih k = absurd (cc k)
    later (some g) ih k =
        subst (IsFound (c ∷ s)) {x = record g { before = c ∷ g.before }} (cc k) (record {
          whole = ap (λ (r : Bytes). c ∷ r) (ih g refl).whole;
          spelling = (ih g refl).spelling;
        })

pub length-spelled : (k p : Bytes) → to_ascii_lowercase k ≡ p → length k ≡ length p
unfolding to_ascii_lowercase
length-spelled [] [] h = refl
length-spelled [] (c ∷ p) h = absurd (cc h)
length-spelled (b ∷ k) [] h = absurd (cc h)
length-spelled (b ∷ k) (c ∷ p) h = ap suc (length-spelled k p (cc h))

-- Behind a word of ASCII letters a character begins_with.
ascii_ends :
    (k p a : Bytes)
    → to_ascii_lowercase k ≡ p
    → All (λ c. c < 128) p
    → 0 < length p
    → IsText (k ++ a)
    → starts_inside a ≡ false
unfolding to_ascii_lowercase to_ascii_lower
ascii_ends k [] a e h n t = absurd (omega arith)
ascii_ends [] (c ∷ p) a e h n t = absurd (cc e)
ascii_ends (b ∷ []) (c ∷ p) a e h n t =
    let lower : to_ascii_lower b ≡ c = cc e in t.0 (ground arith)
ascii_ends (b ∷ d ∷ k) (c ∷ []) a e h n t = absurd (cc e)
ascii_ends (b ∷ d ∷ k) (c ∷ g ∷ p) a e h n t =
    ascii_ends (d ∷ k) (g ∷ p) a (cc e) h.1 (omega arith) t.1

pub after-Behind :
    (s : Bytes) (f : Found)
    → IsFound s f
    → IsText s
    → IsStr f.after × (length f.after + 8 ≤ length s)
after-Behind s f i t =
    let t' : IsText (f.before ++ (f.spelled ++ f.after)) = subst IsText i.whole t in
    let t'' : IsText (f.spelled ++ f.after) = IsText-append_right f.before _ t' in
    let n : length f.spelled ≡ 8 = length-spelled f.spelled password_key i.spelling in
    (
      (
        ascii_ends f.spelled password_key f.after i.spelling (omega arith) (omega arith) t'',
        IsText-append_right f.spelled f.after t'',
      ),
      omega (
        arith,
        ap length i.whole,
        length-append f.before (f.spelled ++ f.after),
        length-append f.spelled f.after,
      ),
    )

Behind-one :
    (c : ℕ) (s t : Bytes) → (IsStr s → Behind s t) → c < 128 → IsStr (c ∷ s) → Behind (c ∷ s) t
Behind-one c s t ih a h = let (str, short) = ih (h.1.0 a, h.1.1) in (str, omega arith)

skip_whitespace-Behind : (s : Bytes) → IsStr s → Behind s (skip_whitespace s)
unfolding skip_whitespace is_ascii_whitespace
skip_whitespace-Behind [] h = (h, omega arith)
skip_whitespace-Behind (c ∷ s) h = elim (Bool-cases (is_ascii_whitespace c)) [
  | inl e ↦ rw e (Behind-one c s _ (skip_whitespace-Behind s) (ground arith) h)
  | inr n ↦ rw n (h, omega arith)
]

-- The closing quote and the stop bytes are ASCII, so a value may begin in the middle of nothing.
quoted_rest-Behind : (s : Bytes) → IsText s → Behind s (quoted_rest s)
unfolding quoted_rest
quoted_rest-Behind [] h = ((refl, tt), omega arith)
quoted_rest-Behind (c ∷ []) h = ((refl, tt), omega arith)
quoted_rest-Behind (c ∷ d ∷ s) h =
    let pair = quoted_rest-Behind s h.1.1 in
    let one = quoted_rest-Behind (d ∷ s) h.1 in
    elim (Bool-cases (c == b'\'')) [
      | inr n ↦ rw n (one.0, omega arith)
      | inl e ↦ rw e (elim (Bool-cases (d == b'\'')) [
        | inl e' ↦ rw e' (pair.0, omega arith)
        | inr n' ↦ rw n' ((h.0 (ground arith), h.1), omega arith)
      ])
    ]

bare_rest-Behind : (s : Bytes) → IsText s → Behind s (bare_rest s)
unfolding bare_rest stops_bare is_ascii_whitespace
bare_rest-Behind [] h = ((refl, tt), omega arith)
bare_rest-Behind (c ∷ s) h =
    let ih = bare_rest-Behind s h.1 in
    elim (Bool-cases (stops_bare c)) [
      | inl e ↦ rw e ((ground arith, h), omega arith)
      | inr n ↦ rw n (ih.0, omega arith)
    ]

value_rest-Behind : (s : Bytes) → IsText s → Behind s (value_rest s)
unfolding value_rest
value_rest-Behind [] h = ((refl, tt), omega arith)
value_rest-Behind (c ∷ s) h =
    either (c == b'\'') (quoted_rest-Behind s h.1) (bare_rest-Behind (c ∷ s) h)
  where
    either :
        (quote : Bool)
        → Behind s (quoted_rest s)
        → Behind (c ∷ s) (bare_rest (c ∷ s))
        → Behind (c ∷ s) (if quote then quoted_rest s else bare_rest (c ∷ s))
    either true q b = (q.0, omega arith)
    either false q b = b

behind_equals-Behind : (s v : Bytes) → IsStr s → behind_equals s ≡ some v → Behind s v
behind_equals-Behind [] v h e = absurd (cc e)
behind_equals-Behind (c ∷ s) v h e = elim (Bool-cases (c == b'=')) [
  | inr n ↦ absurd (cc (rw n at e))
  | inl y ↦
      let str : IsStr s = (h.1.0 (ground arith), h.1.1) in
      let skipped = skip_whitespace-Behind s str in
      let valued = value_rest-Behind (skip_whitespace s) skipped.0.1 in
      subst (Behind (c ∷ s)) {x = value_rest (skip_whitespace s)} (cc (rw y at e))
        (valued.0, omega arith)
]

pub after_key-Behind : (s v : Bytes) → IsStr s → after_key s ≡ some v → Behind s v
unfolding after_key
after_key-Behind s v h e =
    let skipped = skip_whitespace-Behind s h in
    let valued = behind_equals-Behind (skip_whitespace s) v skipped.0 e in (valued.0, omega arith)
