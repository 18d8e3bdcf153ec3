-- ===== src/Sql/Tokens.antt =====
-- duckvis/attach.rs: `tokenize` and `unquote`, over bytes.
use swanlake.Prelude.{
  ℕ, Bool, ◌&&◌, ◌||◌, List, [], ◌∷◌, ◌++◌, Option, none, some, ◌==◌, if◌then◌else◌, head?, Checked,
  done, ◌>>=◌,
}
use swanlake.Text.{Bytes, latin1, is_whitespace, slice}
use swanlake.Sql.Lexer.{next_is, is_quote}

pub data TokenState : Type 0 where
  idle : TokenState
  in_quote : ℕ → Bytes → TokenState
  in_escape : ℕ → Bytes → TokenState
  bare : Bytes → TokenState

abbrev pub is_punctuation : ℕ → Bool
is_punctuation c = c == b'(' || c == b')' || c == b','

unfoldable pub begins : ℕ → List Bytes × TokenState
unfolding is_whitespace
begins c =
    if is_whitespace c
    then ([], idle)
    else if is_quote c
    then ([], in_quote c (latin1 c))
    else if is_punctuation c
    then ((c ∷ []) ∷ [], idle)
    else ([], bare (c ∷ []))

unfoldable pub ends_bare : ℕ → Bool
unfolding is_whitespace
ends_bare c = is_whitespace c || is_punctuation c || is_quote c

-- A round: the tokens that end before or at `c`, and the state behind it. A bare token is a slice.
unfoldable pub token_step : TokenState → ℕ → Option ℕ → Checked (List Bytes × TokenState)
unfolding begins ends_bare slice
token_step idle c next = done (begins c)
token_step (in_quote q token) c next =
    if c == q
    then (if next_is q next
        then done ([], in_escape q (token ++ latin1 q ++ latin1 q))
        else done ((token ++ latin1 c) ∷ [], idle))
    else done ([], in_quote q (token ++ latin1 c))
token_step (in_escape q token) c next = done ([], in_quote q token)
token_step (bare token) c next =
    if ends_bare c
    then (do text ← slice token (c ∷ []); done (text ∷ (begins c).0, (begins c).1))
    else done ([], bare (token ++ c ∷ []))

unfoldable pub token_end : TokenState → Checked (List Bytes)
unfolding slice
token_end idle = done []
token_end (in_quote q token) = done (token ∷ [])
token_end (in_escape q token) = done (token ∷ [])
token_end (bare token) = do text ← slice token []; done (text ∷ [])

unfoldable pub tokenize_from : TokenState → Bytes → Checked (List Bytes)
unfolding token_step token_end
tokenize_from state [] = token_end state
tokenize_from state (c ∷ rest) = do
  r ← token_step state c (head? rest)
  tokens ← tokenize_from r.1 rest
  done (r.0 ++ tokens)

unfoldable pub tokenize : Bytes → Checked (List Bytes)
unfolding tokenize_from
tokenize sql = tokenize_from idle sql

-- `inner.replace("''", "'")`, from the left.
unfoldable pub collapse : ℕ → Bytes → Bytes
collapse q [] = []
collapse q (a ∷ []) = a ∷ []
collapse q (a ∷ b ∷ rest) =
    let both = collapse q rest in
    let one = collapse q (b ∷ rest) in if a == q && b == q then q ∷ both else a ∷ one

-- The text without its last byte, if that byte is `q`.
unfoldable pub drop_last : ℕ → Bytes → Option Bytes
drop_last q [] = none
drop_last q (a ∷ []) = if a == q then some [] else none
drop_last q (a ∷ b ∷ rest) = elim (drop_last q (b ∷ rest)) [
  | none ↦ none
  | some inner ↦ some (a ∷ inner)
]

abbrev collapsed : ℕ → Bytes → Option Bytes → Bytes
collapsed q token none = token
collapsed q token (some inner) = collapse q inner

unfoldable pub unquote : Bytes → Bytes
unfolding collapse drop_last
unquote [] = []
unquote (q ∷ rest) = if is_quote q then collapsed q (q ∷ rest) (drop_last q rest) else q ∷ rest
