-- ===== src/Sql/Ascii.antt =====
-- No slice of an ASCII statement falls inside a character: keyword and tokens never panic there.
use swanlake.Prelude.{
  ℕ, ◌<◌, ◌≡◌, refl, inl, inr, List, [], ◌∷◌, ◌++◌, Option, none, some, arith, head?, done, IsDone,
  All-append, Bool-cases, ◌==◌,
}
use swanlake.Text.{Bytes, IsAscii, latin1_ascii, slice, to_uppercase}
use swanlake.Sql.Lexer.{Mode, plain, next_mode, next_is}
use swanlake.Sql.Comments.{pushed, strip_from, strip_comments}
use swanlake.Sql.Keyword.{stops, skip_blank, word_front, word_back, keyword_at, leading_keyword}
use swanlake.Sql.Tokens.{
  TokenState, idle, in_quote, in_escape, bare, begins, ends_bare, token_step, token_end,
  tokenize_from, tokenize,
}

pub slice_ascii : (t r : Bytes) → IsAscii t → IsAscii r → slice t r ≡ done t
unfolding slice
slice_ascii [] [] a b = refl
slice_ascii [] (d ∷ r) a (b, bs) = ground arith
slice_ascii (c ∷ t) [] (a, as') b = ground arith
slice_ascii (c ∷ t) (d ∷ r) (a, as') (b, bs) = ground arith

pushed-IsAscii : (m : Mode) (c : ℕ) (next : Option ℕ) → c < 128 → IsAscii (pushed m c next)
unfolding pushed
pushed-IsAscii m c next h = ground (arith, latin1_ascii c h)

strip_from-IsAscii : (m : Mode) (s : Bytes) → IsAscii s → IsAscii (strip_from m s)
unfolding strip_from
strip_from-IsAscii m [] a = tt
strip_from-IsAscii m (c ∷ s) (h, a) =
    All-append (λ b. b < 128) (pushed m c (head? s)) _ (pushed-IsAscii m c (head? s) h)
      (strip_from-IsAscii (next_mode m c (head? s)) s a)

pub strip_comments-IsAscii : (s : Bytes) → IsAscii s → IsAscii (strip_comments s)
unfolding strip_comments
strip_comments-IsAscii s = strip_from-IsAscii plain s

skip_blank-IsAscii : (m : Mode) (s : Bytes) → IsAscii s → IsAscii (skip_blank m s)
unfolding skip_blank
skip_blank-IsAscii m [] a = tt
skip_blank-IsAscii m (c ∷ s) (h, a) = elim (Bool-cases (stops m c (head? s))) [
  | inl e ↦ rw (e, skip_blank) (h, a)
  | inr e ↦ rw (e, skip_blank) (skip_blank-IsAscii (next_mode m c (head? s)) s a)
]

word_front-IsAscii : (s : Bytes) → IsAscii s → IsAscii (word_front s)
unfolding word_front
word_front-IsAscii [] a = tt
word_front-IsAscii (c ∷ s) (h, a) = ground (arith, word_front-IsAscii s a)

word_back-IsAscii : (s : Bytes) → IsAscii s → IsAscii (word_back s)
unfolding word_back
word_back-IsAscii [] a = tt
word_back-IsAscii (c ∷ s) (h, a) = ground (arith, word_back-IsAscii s a)

keyword_at-IsDone : (s : Bytes) → IsAscii s → IsDone (keyword_at s)
unfolding keyword_at
keyword_at-IsDone s a = go (word_front s) refl
  where
    go : (w : Bytes) → word_front s ≡ w → IsDone (keyword_at s)
    go [] e = rw (e, keyword_at) (none, refl)
    go (c ∷ w) e =
        rw
          (
            e,
            keyword_at,
            slice_ascii (c ∷ w) (word_back s) (rw e at (word_front-IsAscii s a))
                (word_back-IsAscii s a),
          )
          (some (to_uppercase (c ∷ w)), refl)

pub leading_keyword-IsDone : (s : Bytes) → IsAscii s → IsDone (leading_keyword s)
unfolding leading_keyword
leading_keyword-IsDone s a = keyword_at-IsDone (skip_blank plain s) (skip_blank-IsAscii plain s a)

-- A bare token in progress is ASCII.
abbrev IsAsciiState : TokenState → Type 0
IsAsciiState (bare t) = IsAscii t
IsAsciiState _ = Unit

begins-IsAscii : (c : ℕ) → c < 128 → IsAsciiState (begins c).1
unfolding begins
begins-IsAscii c h = ground arith

token_step-IsDone :
    (st : TokenState) (c : ℕ) (next : Option ℕ)
    → c < 128
    → IsAsciiState st
    → (r : List Bytes × TokenState) × (token_step st c next ≡ done r) × IsAsciiState r.1
unfolding token_step
token_step-IsDone idle c next h a = (begins c, refl, begins-IsAscii c h)
token_step-IsDone (in_quote q t) c next h a = elim (Bool-cases (c == q)) [
  | inl e ↦ elim (Bool-cases (next_is q next)) [
    | inl f ↦ rw (e, token_step, f) (_, refl, tt)
    | inr f ↦ rw (e, token_step, f) (_, refl, tt)
  ]
  | inr e ↦ rw (e, token_step) (_, refl, tt)
]
token_step-IsDone (in_escape q t) c next h a = (_, refl, tt)
token_step-IsDone (bare t) c next h a = elim (Bool-cases (ends_bare c)) [
  | inl e ↦
      rw (e, token_step, slice_ascii t (c ∷ []) a (h, tt))
        ((t ∷ (begins c).0, (begins c).1), refl, begins-IsAscii c h)
  | inr e ↦
      rw (e, token_step)
        (([], bare (t ++ c ∷ [])), refl, All-append (λ b. b < 128) t (c ∷ []) a (h, tt))
]

token_end-IsDone : (st : TokenState) → IsAsciiState st → IsDone (token_end st)
unfolding token_end
token_end-IsDone idle a = (_, refl)
token_end-IsDone (in_quote q t) a = (_, refl)
token_end-IsDone (in_escape q t) a = (_, refl)
token_end-IsDone (bare t) a = rw (slice_ascii t [] a tt) (t ∷ [], refl)

tokenize_from-IsDone :
    (st : TokenState) (s : Bytes) → IsAscii s → IsAsciiState st → IsDone (tokenize_from st s)
unfolding tokenize_from
tokenize_from-IsDone st [] a h = token_end-IsDone st h
tokenize_from-IsDone st (c ∷ s) (b, a) h =
    let (r, e, h') = token_step-IsDone st c (head? s) b h in
    let (ts, f) = tokenize_from-IsDone r.1 s a h' in rw (e, f) (r.0 ++ ts, refl)

pub tokenize-IsDone : (s : Bytes) → IsAscii s → IsDone (tokenize s)
unfolding tokenize
tokenize-IsDone s a = tokenize_from-IsDone idle s a tt
