-- ===== src/Sql/Comments.antt =====
-- duckvis/attach.rs: `strip_comments`. Its loops are those of the split, with other pushes: the
-- space for a comment is pushed where the comment opens, and nothing while it lasts.
use swanlake.Prelude.{ℕ, Bool, ◌&&◌, ◌||◌, [], ◌∷◌, ◌++◌, Option, ◌==◌, if◌then◌else◌, head?}
use swanlake.Text.{Bytes, latin1}
use swanlake.Sql.Lexer.{Mode, plain, quoted, quote_escape, line, next_is, next_mode}

abbrev pub opens_comment : ℕ → Option ℕ → Bool
opens_comment c next = (c == b'-' && next_is b'-' next) || (c == b'/' && next_is b'*' next)

-- What a round pushes.
unfoldable pub pushed : Mode → ℕ → Option ℕ → Bytes
pushed plain c next = if opens_comment c next then 32 ∷ [] else latin1 c
pushed (quoted q) c next = latin1 c
pushed (quote_escape q) c next = latin1 c
pushed line c next = if c == 10 then latin1 c else []
pushed _ c next = []

unfoldable pub strip_from : Mode → Bytes → Bytes
unfolding pushed
strip_from m [] = []
strip_from m (c ∷ rest) = pushed m c (head? rest) ++ strip_from (next_mode m c (head? rest)) rest

unfoldable pub strip_comments : Bytes → Bytes
unfolding strip_from next_mode
strip_comments sql = strip_from plain sql
