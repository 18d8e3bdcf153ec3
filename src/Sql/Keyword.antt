-- ===== src/Sql/Keyword.antt =====
-- duckvis/attach.rs: `leading_keyword`.
use swanlake.Prelude.{
  ℕ, Bool, true, false, ◌||◌, not, [], ◌∷◌, Option, none, some, ◌==◌, if◌then◌else◌, head?, Checked,
  done, ◌>>=◌,
}
use swanlake.Text.{Bytes, is_whitespace, is_alphanumeric, to_uppercase, slice}
use swanlake.Sql.Lexer.{Mode, plain, next_mode}
use swanlake.Sql.Comments.{opens_comment}

-- The skipping loop ends at a byte that is neither white space nor the start of a comment.
unfoldable pub stops : Mode → ℕ → Option ℕ → Bool
unfolding is_whitespace
stops plain c next = not (is_whitespace c || opens_comment c next)
stops _ c next = false

unfoldable pub skip_blank : Mode → Bytes → Bytes
skip_blank m [] = []
skip_blank m (c ∷ rest) = elim (stops m c (head? rest)) [
  | true ↦ c ∷ rest
  | false ↦ skip_blank (next_mode m c (head? rest)) rest
]

abbrev pub is_word_byte : ℕ → Bool
is_word_byte c = is_alphanumeric c || c == b'_'

-- The bytes of the word at the front, and those behind it.
unfoldable pub word_front : Bytes → Bytes
word_front [] = []
word_front (c ∷ rest) = if is_word_byte c then c ∷ word_front rest else []

unfoldable pub word_back : Bytes → Bytes
word_back [] = []
word_back (c ∷ rest) = if is_word_byte c then word_back rest else c ∷ rest

-- `statement[start..i].to_uppercase()`, and `None` where `start` is `i`.
unfoldable pub keyword_at : Bytes → Checked (Option Bytes)
keyword_at text = elim (word_front text) [
  | [] ↦ done none
  | c ∷ word ↦ slice (c ∷ word) (word_back text) >>= λ s. done (some (to_uppercase s))
]

unfoldable pub leading_keyword : Bytes → Checked (Option Bytes)
unfolding skip_blank stops next_mode word_front word_back keyword_at slice to_uppercase
    is_alphanumeric
leading_keyword statement = keyword_at (skip_blank plain statement)
