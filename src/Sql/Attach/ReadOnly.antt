-- ===== src/Sql/Attach/ReadOnly.antt =====
-- The options that `enforce_read_only` leaves.
use swanlake.Prelude.{
  ◌≡◌, refl, sym, ap, ◌∙◌, append_assoc, append-nil, Bool, false, not, if◌then◌else◌, List, [], ◌∷◌,
  ◌++◌, arith, is_empty, All, All-append, done, Bool-cases, inl, inr,
}
use swanlake.Text.{Bytes, codes, bytes_eq, trim, to_ascii_lowercase, eq_ignore_ascii_case}
use swanlake.Sql.Tokens.{tokenize, ends_bare}
use swanlake.Sql.Attach.{rebuild_options}
use swanlake.Sql.Attach.Normalize.{
  but_last, entries_of, keeps_entry, retained, read_only_entries, with_commas, enforce_read_only,
}
use swanlake.Sql.Attach.Rebuild.{IsToken, mark, word, tokenize-rebuild_options}

abbrev pub read_only_flag : Bytes
read_only_flag = codes "READ_ONLY"

-- The tokens of an option block: its entries with a comma between two, in parentheses.
abbrev pub separated : List (List Bytes) → List Bytes
separated [] = []
separated (entry ∷ []) = entry
separated (entry ∷ e ∷ es) = entry ++ (codes "," ∷ separated (e ∷ es))

abbrev pub option_tokens : List (List Bytes) → List Bytes
option_tokens entries = codes "(" ∷ (separated entries ++ codes ")" ∷ [])

-- The entries that say something else: the first word is not `read_only`, in any case of its letters.
unfoldable pub says_other : List Bytes → Bool
unfolding bytes_eq to_ascii_lowercase
says_other [] = false
says_other (t ∷ ts) = not (bytes_eq (to_ascii_lowercase t) (codes "read_only"))

unfoldable pub others : List (List Bytes) → List (List Bytes)
unfolding says_other
others [] = []
others (e ∷ es) = let rest = others es in if says_other e then e ∷ rest else rest

keeps_entry-says_other : (e : List Bytes) → keeps_entry e ≡ says_other e
unfolding keeps_entry says_other eq_ignore_ascii_case to_ascii_lowercase
keeps_entry-says_other [] = refl
keeps_entry-says_other (t ∷ ts) = refl

retained-others : (es : List (List Bytes)) → retained es ≡ others es
unfolding retained others
retained-others [] = refl
retained-others (e ∷ es) = rw (keeps_entry-says_other e, retained-others es) refl

with_commas-separated : (es : List (List Bytes)) → with_commas es ≡ separated es
unfolding with_commas
with_commas-separated [] = refl
with_commas-separated (e ∷ []) = refl
with_commas-separated (e ∷ f ∷ es) = ap (λ t. e ++ (codes "," ∷ t)) (with_commas-separated (f ∷ es))

-- No token of an entry is a comma.
abbrev pub HasNoComma : List Bytes → Type 0
HasNoComma = All (λ t. bytes_eq t (codes ",") ≡ false)

entries_of-append :
    (entry ts rest : List Bytes)
    → HasNoComma ts
    → entries_of entry (ts ++ rest) ≡ entries_of (entry ++ ts) rest
unfolding entries_of
entries_of-append entry [] rest h = rw append-nil refl
entries_of-append entry (t ∷ ts) rest (ne, h) = rw ne (
    entries_of-append (entry ++ t ∷ []) ts rest h
    ∙ ap (λ e. entries_of e rest) (append_assoc entry (t ∷ []) ts))

entries_of-separated :
    (e : List Bytes) (es : List (List Bytes))
    → All HasNoComma (e ∷ es)
    → entries_of [] (separated (e ∷ es)) ≡ e ∷ es
unfolding entries_of bytes_eq
entries_of-separated e [] (h, hs) =
    ap (λ t. entries_of [] t) (sym (append-nil e)) ∙ entries_of-append [] e [] h
entries_of-separated e (f ∷ es) (h, hs) =
    entries_of-append [] e (codes "," ∷ separated (f ∷ es)) h
    ∙ ap (λ t. e ∷ t) (entries_of-separated f es hs)

but_last-append : (ts : List Bytes) (t : Bytes) → but_last (ts ++ t ∷ []) ≡ ts
unfolding but_last
but_last-append [] t = refl
but_last-append (u ∷ []) t = refl
but_last-append (u ∷ v ∷ ts) t = ap (λ x. u ∷ x) (but_last-append (v ∷ ts) t)

others-tokens : (es : List (List Bytes)) → All (All IsToken) es → All (All IsToken) (others es)
unfolding others
others-tokens [] h = tt
others-tokens (e ∷ es) (t, h) = elim (Bool-cases (says_other e)) [
  | inl keep ↦ rw keep (t, others-tokens es h)
  | inr drop ↦ rw drop (others-tokens es h)
]

separated-tokens : (es : List (List Bytes)) → All (All IsToken) es → All IsToken (separated es)
separated-tokens [] h = tt
separated-tokens (e ∷ []) (t, h) = t
separated-tokens (e ∷ f ∷ es) (t, h) =
    All-append IsToken e _ t (mark 44 refl, separated-tokens (f ∷ es) h)

flag-IsToken : IsToken read_only_flag
unfolding ends_bare
flag-IsToken = word 82 (codes "EAD_ONLY") (ground arith) (ground arith)

abbrev with_flag : List (List Bytes) → List (List Bytes)
with_flag es = others es ++ (read_only_flag ∷ []) ∷ []

option-tokens :
    (es : List (List Bytes)) → All (All IsToken) es → All IsToken (option_tokens (with_flag es))
option-tokens es all = (
  mark 40 refl,
  All-append IsToken (separated (with_flag es)) (codes ")" ∷ [])
      (separated-tokens (with_flag es) (
        All-append (All IsToken) (others es) ((read_only_flag ∷ []) ∷ []) (others-tokens es all)
          ((flag-IsToken, tt), tt)))
      (mark 41 refl, tt),
)

-- The tokens of an option block that is not blank are entries between commas, in parentheses; they
-- are marks, quoted ASCII texts and ASCII words. Then the text that read-only is enforced with has
-- the tokens of the same entries, in their order, without the empty ones and the ones that begin
-- with the word `read_only` in any case of its letters, and of the flag `READ_ONLY` by itself behind
-- them. (A first token in quotes is no such word.)
pub enforce_read_only_flags :
    (options trimmed : Bytes) (e : List Bytes) (es : List (List Bytes))
    → trim options ≡ trimmed
    → is_empty trimmed ≡ false
    → tokenize trimmed ≡ done (option_tokens (e ∷ es))
    → All (All IsToken) (e ∷ es)
    → All HasNoComma (e ∷ es)
    → (text : Bytes) × (enforce_read_only options ≡ done text)
      × (tokenize text ≡ done (option_tokens (others (e ∷ es) ++ (codes "READ_ONLY" ∷ []) ∷ [])))
unfolding enforce_read_only read_only_entries
enforce_read_only_flags options [] e es trims full read all plain_tokens = absurd (cc full)
enforce_read_only_flags options (c ∷ s) e es trims full read all plain_tokens =
    let tokens = option_tokens (with_flag (e ∷ es)) in
    let entries : read_only_entries (option_tokens (e ∷ es)) ≡ with_flag (e ∷ es) =
      ap (λ ts. retained (entries_of [] ts) ++ (codes "READ_ONLY" ∷ []) ∷ [])
        (but_last-append (separated (e ∷ es)) (codes ")"))
      ∙ ap (λ xs. retained xs ++ (codes "READ_ONLY" ∷ []) ∷ [])
          (entries_of-separated e es plain_tokens)
      ∙ ap (λ xs. xs ++ (codes "READ_ONLY" ∷ []) ∷ []) (retained-others (e ∷ es)) in
    (
      rebuild_options tokens,
      rw (trims, read, enforce_read_only)
          (ap (λ xs. done (rebuild_options (codes "(" ∷ (xs ++ codes ")" ∷ []))))
            (ap with_commas entries ∙ with_commas-separated (with_flag (e ∷ es)))),
      tokenize-rebuild_options tokens (option-tokens (e ∷ es) all),
    )
