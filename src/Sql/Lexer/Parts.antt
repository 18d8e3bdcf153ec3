-- ===== src/Sql/Lexer/Parts.antt =====
-- duckvis/attach.rs: what `split_top_level_statements` makes of text that is written as code, quoted
-- texts and comments.
use swanlake.Prelude.{
  ℕ, ◌<◌, ◌≡◌, refl, ap, ◌∙◌, true, false, ◌&&◌, List, [], ◌∷◌, ◌++◌, map, Option, none, some,
  arith, ◌==◌, ==_refl, Bool-cases, inl, inr, All, All-append,
}
use swanlake.Text.{Bytes, IsAscii}
use swanlake.Sql.Lexer.{
  Mode, plain, quoted, quote_escape, line_open, line, block_open, block, block_close, next_is,
  is_quote, next_mode, is_separator, last_segment, split_from, split_top_level_statements,
}
use swanlake.Sql.Lexer.Ascii.{end_mode, head_or, no_separator}
use swanlake.Sql.Lexer.Pieces.{split_from-statement, split_from_single}
use swanlake.Sql.Quoting.{doubled}
use swanlake.Sql.Quoting.Laws.{Passes, doubled-IsAscii}

-- A byte of code, a text in quotes, a comment up to the end of a line, and one in `/*` and `*/`.
pub data Part : Type 0 where
  code : ℕ → Part
  quoted_text : ℕ → Bytes → Part
  line_comment : Bytes → Part
  block_comment : Bytes → Part

unfoldable pub then_written : Part → Bytes → Bytes
unfolding doubled
then_written (code c) rest = c ∷ rest
then_written (quoted_text q s) rest = q ∷ doubled q s ++ q ∷ rest
then_written (line_comment s) rest = 45 ∷ 45 ∷ s ++ 10 ∷ rest
then_written (block_comment s) rest = 47 ∷ 42 ∷ s ++ 42 ∷ 47 ∷ rest

unfoldable pub written : List Part → Bytes
unfolding then_written
written [] = []
written (p ∷ ps) = then_written p (written ps)

abbrev HasNo : ℕ → Bytes → Type 0
HasNo b = All (λ c. (c == b) ≡ false)

-- `*` and `/` do not stand together.
abbrev HasNoEnd : Bytes → Type 0
HasNoEnd [] = Unit
HasNoEnd (c ∷ []) = Unit
HasNoEnd (c ∷ d ∷ s) = ((c == 42 && d == 47) ≡ false) × HasNoEnd (d ∷ s)

-- Code has no quote, no semicolon and no start of a comment; a quoted text has any ASCII text, and
-- is not followed by its quote; a comment has not its end inside.
abbrev pub Stands : Part → Option ℕ → Type 0
Stands (code c) next =
    (c < 128)
    × (is_quote c ≡ false)
    × ((c == 59) ≡ false)
    × ((c == 45 && next_is 45 next) ≡ false)
    × ((c == 47 && next_is 42 next) ≡ false)
Stands (quoted_text q s) next = (is_quote q ≡ true) × IsAscii s × (next_is q next ≡ false)
Stands (line_comment s) next = IsAscii s × HasNo 10 s
Stands (block_comment s) next = IsAscii s × HasNoEnd s

-- Each part stands before the next one, and the last before `next`.
abbrev pub Stand : Option ℕ → List Part → Type 0
Stand next [] = Unit
Stand next (p ∷ ps) = Stands p (head_or next (written ps)) × Stand next ps

-- Statements with a semicolon behind each, and what follows the last semicolon.
unfoldable pub script : List (List Part) → List Part → Bytes
unfolding written
script [] last = written last
script (s ∷ ss) last = written s ++ 59 ∷ script ss last

-- A last text that is empty is none.
unfoldable pub unless_empty : Bytes → List Bytes
unless_empty [] = []
unless_empty (c ∷ s) = (c ∷ s) ∷ []

step-Passes :
    (m k n : Mode) (c : ℕ) (t : Bytes) (next : Option ℕ)
    → is_separator m c ≡ false
    → next_mode m c (head_or next t) ≡ k
    → Passes k t next n
    → Passes m (c ∷ t) next n
unfolding no_separator end_mode head_or
step-Passes m k n c [] next h e p = record { whole = rw h; ends = rw (e, end_mode) p.ends }
step-Passes m k n c (d ∷ t) next h e p = record {
  whole = rw (h, e) p.whole;
  ends = rw (e, end_mode) p.ends;
}

inside_quotes-Passes :
    (q : ℕ) (s t : Bytes) (next : Option ℕ) (n : Mode)
    → next_is q (head_or next t) ≡ false
    → Passes plain t next n
    → Passes (quoted q) (doubled q s ++ q ∷ t) next n
unfolding doubled next_mode head_or
inside_quotes-Passes q [] t next n h p =
    step-Passes (quoted q) plain n q t next refl (rw (==_refl q, h) refl) p
inside_quotes-Passes q (c ∷ s) t next n h p = elim (Bool-cases (c == q)) [
  | inl e ↦ rw e (
      step-Passes (quoted q) (quote_escape q) n q _ next refl (rw (==_refl q) refl) (
        step-Passes (quote_escape q) (quoted q) n q _ next refl refl
          (inside_quotes-Passes q s t next n h p)))
  | inr e ↦ rw e (
      step-Passes (quoted q) (quoted q) n c _ next refl (rw e refl)
        (inside_quotes-Passes q s t next n h p))
]

line-Passes :
    (s t : Bytes) (next : Option ℕ) (n : Mode)
    → HasNo 10 s
    → Passes plain t next n
    → Passes line (s ++ 10 ∷ t) next n
unfolding next_mode
line-Passes [] t next n h p = step-Passes line plain n 10 t next refl refl p
line-Passes (c ∷ s) t next n (e, h) p =
    step-Passes line line n c _ next refl (rw e refl) (line-Passes s t next n h p)

stays_block : (c : ℕ) → next_mode block c (some 42) ≡ block
unfolding next_mode
stays_block c = ground arith

block-Passes :
    (s t : Bytes) (next : Option ℕ) (n : Mode)
    → HasNoEnd s
    → Passes plain t next n
    → Passes block (s ++ 42 ∷ 47 ∷ t) next n
unfolding next_mode head_or
block-Passes [] t next n h p =
    step-Passes block block_close n 42 _ next refl refl
      (step-Passes block_close plain n 47 t next refl refl p)
block-Passes (c ∷ []) t next n h p =
    step-Passes block block n c _ next refl (stays_block c) (block-Passes [] t next n tt p)
block-Passes (c ∷ d ∷ s) t next n (e, h) p =
    step-Passes block block n c _ next refl (rw e refl) (block-Passes (d ∷ s) t next n h p)

quote_opens : (q : ℕ) → is_quote q ≡ true → (q == 59) ≡ false
quote_opens q h = ground arith

part-Passes :
    (p : Part) (t : Bytes) (next : Option ℕ) (n : Mode)
    → Stands p (head_or next t)
    → Passes plain t next n
    → Passes plain (then_written p t) next n
unfolding then_written next_mode head_or
part-Passes (code c) t next n (a, quote, semicolon, dash, slash) r =
    step-Passes plain plain n c t next semicolon (rw (quote, dash, slash) refl) r
part-Passes (quoted_text q s) t next n (quote, a, ends) r =
    step-Passes plain (quoted q) n q _ next (quote_opens q quote) (rw quote refl)
      (inside_quotes-Passes q s t next n ends r)
part-Passes (line_comment s) t next n (a, h) r =
    step-Passes plain line_open n 45 _ next refl refl
      (step-Passes line_open line n 45 _ next refl refl (line-Passes s t next n h r))
part-Passes (block_comment s) t next n (a, h) r =
    step-Passes plain block_open n 47 _ next refl refl
      (step-Passes block_open block n 42 _ next refl refl (block-Passes s t next n h r))

written-Passes :
    (next : Option ℕ) (ps : List Part) → Stand next ps → Passes plain (written ps) next plain
unfolding written no_separator end_mode
written-Passes next [] h = record { whole = refl; ends = refl }
written-Passes next (p ∷ ps) (h, hs) =
    part-Passes p (written ps) next plain h (written-Passes next ps hs)

quote-ascii : (q : ℕ) → is_quote q ≡ true → q < 128
quote-ascii q h = ground arith

append-IsAscii : (s t : Bytes) → IsAscii s → IsAscii t → IsAscii (s ++ t)
append-IsAscii s t = All-append (λ c. c < 128) s t

part-IsAscii :
    (p : Part) (t : Bytes) (next : Option ℕ)
    → Stands p next
    → IsAscii t
    → IsAscii (then_written p t)
unfolding then_written
part-IsAscii (code c) t next (a, quote, semicolon, dash, slash) at = (a, at)
part-IsAscii (quoted_text q s) t next (quote, a, ends) at =
    let small = quote-ascii q quote in
    (small, append-IsAscii (doubled q s) _ (doubled-IsAscii q s small a) (small, at))
part-IsAscii (line_comment s) t next (a, h) at =
    (omega arith, (omega arith, append-IsAscii s _ a (omega arith, at)))
part-IsAscii (block_comment s) t next (a, h) at =
    (omega arith, (omega arith, append-IsAscii s _ a (omega arith, (omega arith, at))))

written-IsAscii : (next : Option ℕ) (ps : List Part) → Stand next ps → IsAscii (written ps)
unfolding written
written-IsAscii next [] h = tt
written-IsAscii next (p ∷ ps) (h, hs) = part-IsAscii p (written ps) _ h (written-IsAscii next ps hs)

last_segment-unless_empty : (s : Bytes) → last_segment s ≡ unless_empty s
unfolding unless_empty
last_segment-unless_empty [] = refl
last_segment-unless_empty (c ∷ s) = refl

split_from-script :
    (ss : List (List Part)) (last : List Part)
    → All (Stand (some 59)) ss
    → Stand none last
    → split_from plain [] (script ss last) ≡ map written ss ++ unless_empty (written last)
unfolding script
split_from-script [] last h l =
    split_from_single plain [] (written last) (written-IsAscii none last l)
      (written-Passes none last l).whole
    ∙ last_segment-unless_empty (written last)
split_from-script (s ∷ ss) last (h, hs) l =
    let p = written-Passes (some 59) s h in
    split_from-statement plain [] (written s) (script ss last) (written-IsAscii (some 59) s h)
      p.whole p.ends
    ∙ ap (◌∷◌ (written s)) (split_from-script ss last hs l)

-- Of statements with a semicolon behind each and a last one without, the split returns exactly the
-- texts, the last if it is not empty, when each is written as code, texts in single or double
-- quotes with the quotes inside doubled, and closed comments, all ASCII. Semicolons stand anywhere
-- in the quoted texts and the comments.
pub split_top_level_statements-script :
    (ss : List (List Part)) (last : List Part)
    → All (Stand (some 59)) ss
    → Stand none last
    → split_top_level_statements (script ss last) ≡ map written ss ++ unless_empty (written last)
unfolding split_top_level_statements
split_top_level_statements-script ss last h l = split_from-script ss last h l
