-- ===== src/Sql/Lexer.antt =====
-- duckvis/attach.rs: `split_top_level_statements`. The index of the byte loops is the list that is
-- left; which of the nested loops runs is the mode. A pair of bytes that the loops take at once
-- (`--`, `/*`, `*/`, a doubled quote) is taken in two rounds, with a mode in between.
pub mod Pieces
pub mod Parts
pub mod Ascii
mod Tests
use swanlake.Prelude.{
  ℕ, Bool, true, false, ◌&&◌, List, [], ◌∷◌, ◌++◌, Option, none, some, ◌==◌, if◌then◌else◌, head?,
}
use swanlake.Text.{Bytes, latin1}

pub data Mode : Type 0 where
  plain : Mode
  quoted : ℕ → Mode
  quote_escape : ℕ → Mode
  line_open : Mode
  line : Mode
  block_open : Mode
  block : Mode
  block_close : Mode

abbrev pub next_is : ℕ → Option ℕ → Bool
next_is b none = false
next_is b (some c) = c == b

abbrev pub is_quote : ℕ → Bool
is_quote c = if c == 39 then true else c == 34

-- The mode after the byte `c` with `next` behind it.
unfoldable pub next_mode : Mode → ℕ → Option ℕ → Mode
next_mode plain c next =
    if is_quote c
    then quoted c
    else if c == b'-' && next_is b'-' next
    then line_open
    else if c == b'/' && next_is b'*' next
    then block_open
    else plain
next_mode (quoted q) c next =
    if c == q then (if next_is q next then quote_escape q else plain) else quoted q
next_mode (quote_escape q) c next = quoted q
next_mode line_open c next = line
next_mode line c next = if c == 10 then plain else line
next_mode block_open c next = block
next_mode block c next = if c == b'*' && next_is b'/' next then block_close else block
next_mode block_close c next = plain

abbrev pub is_separator : Mode → ℕ → Bool
is_separator plain c = c == b';'
is_separator _ c = false

-- An empty last segment is not returned.
abbrev pub last_segment : Bytes → List Bytes
last_segment [] = []
last_segment (b ∷ current) = (b ∷ current) ∷ []

-- The loop, with `current`.
unfoldable pub split_from : Mode → Bytes → Bytes → List Bytes
split_from m current [] = last_segment current
split_from m current (c ∷ rest) = elim (is_separator m c) [
  | true ↦ current ∷ split_from plain [] rest
  | false ↦ split_from (next_mode m c (head? rest)) (current ++ latin1 c) rest
]

unfoldable pub split_top_level_statements : Bytes → List Bytes
unfolding split_from next_mode
split_top_level_statements sql = split_from plain [] sql
