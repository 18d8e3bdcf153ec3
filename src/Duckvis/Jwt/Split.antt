-- ===== src/Duckvis/Jwt/Split.antt =====
-- duckvis/jwt.rs: a token has three parts exactly if it is three texts without dots, joined by dots.
use swanlake.Prelude.{
  ℕ, ◌≡◌, ◌≢◌, refl, List, [], ◌∷◌, ◌++◌, some, ◌==◌, All, arith, Bool-cases, inl, inr, ap, subst,
  sym,
}
use swanlake.Text.{Bytes}
use swanlake.Duckvis.Jwt.{split, in_front, three_parts}

abbrev pub Free : ℕ → Bytes → Type 0
Free sep = All (λ c. c ≢ sep)

pub split-Free : (sep : ℕ) (s : Bytes) → Free sep s → split sep s ≡ s ∷ []
unfolding split
split-Free sep [] h = refl
split-Free sep (c ∷ s) h = rw (split-Free sep s h.1) (ground arith)

pub split-append : (sep : ℕ) (s t : Bytes) → Free sep s → split sep (s ++ sep ∷ t) ≡ s ∷ split sep t
unfolding split
split-append sep [] t h = ground arith
split-append sep (c ∷ s) t h = rw (split-append sep s t h.1) (ground arith)

-- The parts, joined again.
abbrev join : ℕ → List Bytes → Bytes
join sep [] = []
join sep (part ∷ []) = part
join sep (part ∷ next ∷ parts) = part ++ (sep ∷ join sep (next ∷ parts))

abbrev Joins : ℕ → Bytes → List Bytes → Type 0
Joins sep s [] = ⊥
Joins sep s (part ∷ parts) = (join sep (part ∷ parts) ≡ s) × Free sep part × All (Free sep) parts

Joins-in_front :
    (sep c : ℕ) (s : Bytes) (parts : List Bytes)
    → c ≢ sep
    → Joins sep s parts
    → Joins sep (c ∷ s) (in_front c parts)
Joins-in_front sep c s [] h j = absurd j
Joins-in_front sep c s (part ∷ []) h j = (ap (λ (r : Bytes). c ∷ r) j.0, (h, j.1), tt)
Joins-in_front sep c s (part ∷ next ∷ parts) h j = (ap (λ (r : Bytes). c ∷ r) j.0, (h, j.1), j.2)

Joins-separator :
    (sep : ℕ) (s : Bytes) (parts : List Bytes)
    → Joins sep s parts
    → Joins sep (sep ∷ s) ([] ∷ parts)
Joins-separator sep s [] j = absurd j
Joins-separator sep s (part ∷ parts) j = (ap (λ (r : Bytes). sep ∷ r) j.0, tt, (j.1, j.2))

Joins-split : (sep : ℕ) (s : Bytes) → Joins sep s (split sep s)
unfolding split
Joins-split sep [] = (refl, tt, tt)
Joins-split sep (c ∷ s) = elim (Bool-cases (c == sep)) [
  | inl e ↦ rw e (
      subst (λ (x : ℕ). Joins sep (x ∷ s) ([] ∷ split sep s)) (ground arith)
        (Joins-separator sep s (split sep s) (Joins-split sep s)))
  | inr ne ↦ rw ne (Joins-in_front sep c s (split sep s) (ground arith) (Joins-split sep s))
]

-- The parts of a text that splits in three.
abbrev pub IsThree : Bytes → Bytes × Bytes × Bytes → Type 0
IsThree jwt (h, p, s) =
    (jwt ≡ h ++ (b'.' ∷ (p ++ (b'.' ∷ s)))) × Free b'.' h × Free b'.' p × Free b'.' s

IsThree-Joins :
    (jwt : Bytes) (parts : List Bytes) (t : Bytes × Bytes × Bytes)
    → Joins b'.' jwt parts
    → three_parts parts ≡ some t
    → IsThree jwt t
unfolding three_parts
IsThree-Joins jwt (h ∷ p ∷ s ∷ []) t j e = subst (IsThree jwt) (cc) (sym j.0, j.1, j.2.0, j.2.1.0)
IsThree-Joins jwt [] t j e = absurd j
IsThree-Joins jwt (h ∷ []) t j e = absurd (cc e)
IsThree-Joins jwt (h ∷ p ∷ []) t j e = absurd (cc e)
IsThree-Joins jwt (h ∷ p ∷ s ∷ q ∷ parts) t j e = absurd (cc e)

pub IsThree-three_parts :
    (jwt : Bytes) (t : Bytes × Bytes × Bytes)
    → three_parts (split b'.' jwt) ≡ some t
    → IsThree jwt t
IsThree-three_parts jwt t e = IsThree-Joins jwt (split b'.' jwt) t (Joins-split b'.' jwt) e

pub three_parts_joined :
    (jwt : Bytes) (t : Bytes × Bytes × Bytes)
    → IsThree jwt t
    → three_parts (split b'.' jwt) ≡ some t
unfolding three_parts
three_parts_joined jwt (h, p, s) (j, fh, fp, fs) =
    rw (j, split-append b'.' h (p ++ (b'.' ∷ s)) fh, split-append b'.' p s fp, split-Free b'.' s fs)
