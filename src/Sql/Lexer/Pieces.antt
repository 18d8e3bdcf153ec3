-- ===== src/Sql/Lexer/Pieces.antt =====
-- Nothing but separators is lost by the split, and a statement is cut off at the semicolon behind it.
use swanlake.Prelude.{
  ℕ, ◌<◌, ◌≡◌, refl, ap, ◌∙◌, ◌⊎◌, inl, inr, true, false, List, [], ◌∷◌, ◌++◌, append_assoc,
  append-nil, some, subst, arith, head?, All, All-append, All-map, Bool-cases,
}
use swanlake.Text.{Bytes, latin1, IsAscii, latin1_ascii}
use swanlake.Sql.Lexer.{
  Mode, plain, next_mode, is_separator, last_segment, split_from, split_top_level_statements,
}
use swanlake.Sql.Lexer.Ascii.{encoded, end_mode, no_separator, end_mode-append, no_separator-append}

-- The segments, each with a semicolon behind it.
unfoldable pub rejoin : List Bytes → Bytes
rejoin [] = []
rejoin (s ∷ ss) = s ++ b';' ∷ rejoin ss

abbrev Keeps : Bytes → List Bytes → Type 0
Keeps text pieces = (rejoin pieces ≡ text) ⊎ (rejoin pieces ≡ text ++ b';' ∷ [])

Keeps-piece :
    (s text : Bytes) (pieces : List Bytes)
    → Keeps text pieces
    → Keeps (s ++ b';' ∷ text) (s ∷ pieces)
unfolding rejoin
Keeps-piece s text pieces (inl e) = inl (rw e)
Keeps-piece s text pieces (inr e) = inr (rw (e, append_assoc))

is_separator-eq : (m : Mode) (c : ℕ) → is_separator m c ≡ true → c ≡ b';'
is_separator-eq m c h = ground (arith)

last_segment-Keeps : (s : Bytes) → Keeps s (last_segment s)
unfolding rejoin
last_segment-Keeps [] = inl refl
last_segment-Keeps (b ∷ s) = inr refl

split_from-Keeps :
    (m : Mode) (current rest : Bytes) → Keeps (current ++ encoded rest) (split_from m current rest)
unfolding split_from encoded
split_from-Keeps m current [] = rw append-nil (last_segment-Keeps current)
split_from-Keeps m current (c ∷ rest) = elim (Bool-cases (is_separator m c)) [
  | inl e ↦
      rw (e, split_from, is_separator-eq m c e)
        (Keeps-piece current (encoded rest) _ (split_from-Keeps plain [] rest))
  | inr e ↦
      rw (e, split_from)
        (subst (λ t. Keeps t (split_from (next_mode m c (head? rest)) (current ++ latin1 c) rest))
          (append_assoc current (latin1 c) (encoded rest))
          (split_from-Keeps (next_mode m c (head? rest)) (current ++ latin1 c) rest))
]

-- Joined with semicolons again, the segments are the text with each of its bytes read as a Latin-1
-- character, but for a last semicolon.
pub rejoin-split_top_level_statements :
    (sql : Bytes)
    → (rejoin (split_top_level_statements sql) ≡ encoded sql)
      ⊎ (rejoin (split_top_level_statements sql) ≡ encoded sql ++ b';' ∷ [])
unfolding split_top_level_statements
rejoin-split_top_level_statements sql = split_from-Keeps plain [] sql

-- ASCII text without a separator.
abbrev pub IsSingle : Bytes → Type 0
IsSingle s = IsAscii s × (no_separator plain s ≡ true)

last_segment-All : (s : Bytes) → IsSingle s → All IsSingle (last_segment s)
last_segment-All [] h = tt
last_segment-All (b ∷ s) h = (h, tt)

IsSingle-push :
    (m : Mode) (current : Bytes) (c : ℕ) (rest : Bytes)
    → c < 128
    → IsSingle current
    → end_mode plain current (some c) ≡ m
    → is_separator m c ≡ false
    → IsSingle (current ++ c ∷ [])
      × (end_mode plain (current ++ c ∷ []) (head? rest) ≡ next_mode m c (head? rest))
unfolding no_separator end_mode
IsSingle-push m current c rest ac (a, h) e f =
    let pushed = no_separator-append plain current (c ∷ []) in
    let ended = end_mode-append plain current (c ∷ []) (head? rest) in
    (
      (All-append (λ b. b < 128) current (c ∷ []) a (ac, tt), ground arith),
      ended ∙ ap (λ k. next_mode k c (head? rest)) e,
    )

split_from-All-IsSingle :
    (m : Mode) (current rest : Bytes)
    → IsAscii rest
    → IsSingle current
    → end_mode plain current (head? rest) ≡ m
    → All IsSingle (split_from m current rest)
unfolding split_from no_separator end_mode
split_from-All-IsSingle m current [] a h e = last_segment-All current h
split_from-All-IsSingle m current (c ∷ rest) (ac, a) h e = elim (Bool-cases (is_separator m c)) [
  | inl f ↦ rw (f, split_from) (h, split_from-All-IsSingle plain [] rest a (tt, refl) refl)
  | inr f ↦
      let (h', e') = IsSingle-push m current c rest ac h e f in
      rw (f, split_from, latin1_ascii c ac)
        (split_from-All-IsSingle (next_mode m c (head? rest)) (current ++ c ∷ []) rest a h' e')
]

pub split_from_single :
    (m : Mode) (current s : Bytes)
    → IsAscii s
    → no_separator m s ≡ true
    → split_from m current s ≡ last_segment (current ++ s)
unfolding split_from no_separator
split_from_single m current [] a h = rw append-nil
split_from_single m current (c ∷ s) (ac, a) h = elim (Bool-cases (is_separator m c)) [
  | inl f ↦ ground arith
  | inr f ↦
      rw (f, split_from, latin1_ascii c ac)
        (split_from_single (next_mode m c (head? s)) (current ++ c ∷ []) s a (ground arith)
          ∙ ap last_segment (append_assoc current (c ∷ []) s))
]

pub split_top_level_statements-All-IsAscii :
    (sql : Bytes) → IsAscii sql → All IsAscii (split_top_level_statements sql)
unfolding split_top_level_statements no_separator end_mode
split_top_level_statements-All-IsAscii sql a =
    All-map (λ s h. h.0) _ (split_from-All-IsSingle plain [] sql a (tt, refl) refl)

pub split_from-push :
    (m : Mode) (current : Bytes) (c : ℕ) (rest : Bytes)
    → c < 128
    → is_separator m c ≡ false
    → split_from m current (c ∷ rest)
      ≡ split_from (next_mode m c (head? rest)) (current ++ c ∷ []) rest
unfolding split_from
split_from-push m current c rest h f = rw (f, split_from, latin1_ascii c h)

split_from-cut :
    (current rest : Bytes)
    → split_from plain current (b';' ∷ rest) ≡ current ∷ split_from plain [] rest
unfolding split_from
split_from-cut current rest = refl

-- A statement that ends outside quotes and comments is cut off at the semicolon behind it.
pub split_from-statement :
    (m : Mode) (current s rest : Bytes)
    → IsAscii s
    → no_separator m s ≡ true
    → end_mode m s (some b';') ≡ plain
    → split_from m current (s ++ b';' ∷ rest) ≡ (current ++ s) ∷ split_from plain [] rest
unfolding no_separator end_mode
split_from-statement m current [] rest a h e = rw (e, append-nil) (split_from-cut current rest)
split_from-statement m current (c ∷ []) rest (ac, a) h e =
    split_from-push m current c (b';' ∷ rest) ac (ground arith)
    ∙ split_from-statement (next_mode m c (some b';')) (current ++ c ∷ []) [] rest tt refl e
    ∙ ap (λ t. t ∷ split_from plain [] rest) (append_assoc current (c ∷ []) [])
split_from-statement m current (c ∷ d ∷ s) rest (ac, a) h e =
    split_from-push m current c (d ∷ s ++ b';' ∷ rest) ac (ground arith)
    ∙ split_from-statement (next_mode m c (some d)) (current ++ c ∷ []) (d ∷ s) rest a
        (ground arith) e
    ∙ ap (λ t. t ∷ split_from plain [] rest) (append_assoc current (c ∷ []) (d ∷ s))
