-- ===== src/Sql/Lexer/Ascii.antt =====
-- The automaton of `split_top_level_statements` by itself, and the encoding that its pushes make.
use swanlake.Prelude.{
  ℕ, ◌≡◌, refl, Bool, true, ◌&&◌, not, [], ◌∷◌, ◌++◌, Option, some, arith, head?,
}
use swanlake.Text.{Bytes, latin1, IsAscii, latin1_ascii}
use swanlake.Sql.Lexer.{Mode, next_mode, is_separator}

-- Each byte read as a Latin-1 character and encoded as UTF-8.
unfoldable pub encoded : Bytes → Bytes
encoded [] = []
encoded (c ∷ s) = latin1 c ++ encoded s

pub encoded_ascii : (s : Bytes) → IsAscii s → encoded s ≡ s
unfolding encoded
encoded_ascii [] h = refl
encoded_ascii (c ∷ s) (h, hs) = rw (latin1_ascii c h, encoded_ascii s hs)

unfoldable pub head_or : Option ℕ → Bytes → Option ℕ
head_or next [] = next
head_or next (c ∷ s) = some c

-- The mode behind `s`, with `next` behind it.
unfoldable pub end_mode : Mode → Bytes → Option ℕ → Mode
unfolding head_or
end_mode m [] next = m
end_mode m (c ∷ s) next = end_mode (next_mode m c (head_or next s)) s next

-- No byte of `s` separates statements.
unfoldable pub no_separator : Mode → Bytes → Bool
no_separator m [] = true
no_separator m (c ∷ s) = not (is_separator m c) && no_separator (next_mode m c (head? s)) s

pub end_mode-append :
    (m : Mode) (s t : Bytes) (next : Option ℕ)
    → end_mode m (s ++ t) next ≡ end_mode (end_mode m s (head_or next t)) t next
unfolding end_mode
end_mode-append m [] t next = refl
end_mode-append m (c ∷ []) [] next = refl
end_mode-append m (c ∷ []) (d ∷ t) next = refl
end_mode-append m (c ∷ d ∷ s) t next = end_mode-append (next_mode m c (some d)) (d ∷ s) t next

pub no_separator-append :
    (m : Mode) (s t : Bytes)
    → no_separator m (s ++ t) ≡ (no_separator m s && no_separator (end_mode m s (head? t)) t)
unfolding no_separator end_mode
no_separator-append m [] t = refl
no_separator-append m (c ∷ []) [] = ground arith
no_separator-append m (c ∷ []) (d ∷ t) = ground arith
no_separator-append m (c ∷ d ∷ s) t =
    ground (arith, no_separator-append (next_mode m c (some d)) (d ∷ s) t)
