-- ===== src/Scrub.antt =====
-- swanlake-core/src/scrub.rs: the passwords of connection strings, taken out of error texts. The
-- indices of the loop are the texts between them: `pending` is `text[emitted..search]`, and `rest`
-- is `text[search..]`.
pub mod Parts
pub mod Ends
pub mod Values
pub mod Redacts
mod Tests
use swanlake.Prelude.{
  ℕ, zero, suc, ◌+◌, ◌≡◌, Bool, true, false, ◌&&◌, ◌||◌, List, [], ◌∷◌, ◌++◌, Option, none, some,
  ◌==◌, if◌then◌else◌, length, Checked, done, panicked, ◌>>=◌,
}
use swanlake.Text.{Bytes, codes, to_ascii_lowercase, starts_with, starts_inside, slice}

abbrev pub password_key : Bytes
password_key = codes "password"

abbrev pub redacted : Bytes
redacted = codes "=[redacted]"

-- `u8::is_ascii_whitespace`
unfoldable pub is_ascii_whitespace : ℕ → Bool
is_ascii_whitespace c = c == 32 || c == 9 || c == 10 || c == 12 || c == 13

unfoldable pub skip_whitespace : Bytes → Bytes
unfolding is_ascii_whitespace
skip_whitespace [] = []
skip_whitespace (c ∷ s) =
    let rest = skip_whitespace s in if is_ascii_whitespace c then rest else c ∷ s

-- `split_at`: the first bytes, and the others.
abbrev pub split_at : ℕ → Bytes → Bytes × Bytes
split_at zero s = ([], s)
split_at (suc n) [] = ([], [])
split_at (suc n) (c ∷ s) = (c ∷ (split_at n s).0, (split_at n s).1)

-- What stands before the key, the key as it is spelled, and what stands behind it.
pub record Found : Type 0 where
  pub before : Bytes
  pub spelled : Bytes
  pub after : Bytes

abbrev pub found_here : Bytes → Found
found_here s = record { before = []; spelled = (split_at 8 s).0; after = (split_at 8 s).1 }

abbrev pub one_later : ℕ → Option Found → Option Found
one_later c none = none
one_later c (some f) = some (record f { before = c ∷ f.before })

-- `lower[search..].find(KEY)`
unfoldable pub find_key : Bytes → Option Found
unfolding starts_with to_ascii_lowercase
find_key [] = none
find_key (c ∷ s) =
    let later = find_key s in
    if starts_with (to_ascii_lowercase (c ∷ s)) password_key
    then some (found_here (c ∷ s))
    else one_later c later

-- Behind the opening quote: past the first quote that is not doubled, or at the end.
unfoldable pub quoted_rest : Bytes → Bytes
quoted_rest [] = []
quoted_rest (c ∷ []) = []
quoted_rest (c ∷ d ∷ s) =
    let pair = quoted_rest s in
    let one = quoted_rest (d ∷ s) in
    if c == b'\'' then (if d == b'\'' then pair else d ∷ s) else one

unfoldable pub stops_bare : ℕ → Bool
unfolding is_ascii_whitespace
stops_bare c = is_ascii_whitespace c || c == b'\'' || c == b'"'

unfoldable pub bare_rest : Bytes → Bytes
unfolding stops_bare
bare_rest [] = []
bare_rest (c ∷ s) = let rest = bare_rest s in if stops_bare c then c ∷ s else rest

-- `text[value_end..]`
unfoldable pub value_rest : Bytes → Bytes
unfolding quoted_rest bare_rest
value_rest [] = []
value_rest (c ∷ s) = if c == b'\'' then quoted_rest s else bare_rest (c ∷ s)

abbrev pub behind_equals : Bytes → Option Bytes
behind_equals [] = none
behind_equals (c ∷ s) = if c == b'=' then some (value_rest (skip_whitespace s)) else none

-- Behind the key: the text behind its value, if it has one.
unfoldable pub after_key : Bytes → Option Bytes
unfolding skip_whitespace value_rest
after_key after = behind_equals (skip_whitespace after)

-- Behind a key: `continue` past a bare word, or a redaction; `next` is the rest of the loop.
abbrev pub at_key : (Bytes → Bytes → Checked Bytes) → Bytes → Found → Option Bytes → Checked Bytes
at_key next pending f none = next (pending ++ (f.before ++ f.spelled)) f.after
at_key next pending f (some value_end) =
    slice (pending ++ (f.before ++ f.spelled)) f.after >>= λ kept.
    next [] value_end >>= λ tail. done (kept ++ (redacted ++ tail))

-- The body of the loop, or what stands behind it.
abbrev pub searched : (Bytes → Bytes → Checked Bytes) → Bytes → Bytes → Option Found → Checked Bytes
searched next pending rest none = slice (pending ++ rest) []
searched next pending rest (some f) = at_key next pending f (after_key f.after)

-- One round of the loop for each unit of the first argument, which `Ends` shows to be enough.
unfoldable pub scrub_from : ℕ → Bytes → Bytes → Checked Bytes
unfolding find_key after_key slice
scrub_from zero pending rest = panicked
scrub_from (suc rounds) pending rest =
    slice rest [] >>= λ text. searched (scrub_from rounds) pending text (find_key text)

unfoldable pub scrub_error_text : Bytes → Checked Bytes
unfolding scrub_from
scrub_error_text text = scrub_from (suc (length text)) [] text
