-- ===== src/Session/Lockdown/Closed.antt =====
-- Statements joined with `;` and a line break, and split again.
use swanlake.Sql.Quoting.{join}
use swanlake.Prelude.{ℕ, ◌≡◌, refl, ap, ◌∙◌, List, [], ◌∷◌, ◌++◌, map, some, arith, All}
use swanlake.Text.{Bytes, codes, IsAscii}
use swanlake.Sql.Lexer.{plain, next_mode, last_segment, split_from, split_top_level_statements}
use swanlake.Sql.Lexer.Ascii.{end_mode, no_separator}
use swanlake.Sql.Lexer.Pieces.{split_from-push, split_from-statement, split_from_single}
use swanlake.Sql.Quoting.Laws.{Passes}

-- A text that is one statement before a semicolon.
pub record IsClosed (s : Bytes) : Type 0 where
  pub ascii : IsAscii s
  pub passes : Passes plain s (some b';') plain
  pub some_text : (c : ℕ) × (t : Bytes) × (s ≡ c ∷ t)

abbrev pub new_line : Bytes → Bytes
new_line s = 10 ∷ s

new_line-IsClosed : (s : Bytes) → IsClosed s → IsClosed (new_line s)
unfolding no_separator end_mode next_mode
new_line-IsClosed [] p = absurd (cc p.some_text.2)
new_line-IsClosed (c ∷ s) p = record {
  ascii = (omega arith, p.ascii);
  passes = record { whole = p.passes.whole; ends = p.passes.ends };
  some_text = (10, c ∷ s, refl);
}

last_segment-append :
    (current s : Bytes) → IsClosed s → last_segment (current ++ s) ≡ (current ++ s) ∷ []
last_segment-append [] [] p = absurd (cc p.some_text.2)
last_segment-append [] (c ∷ s) p = refl
last_segment-append (b ∷ current) s p = refl

split_from-join :
    (current s : Bytes) (ss : List Bytes)
    → IsClosed s
    → All IsClosed ss
    → split_from plain current (join (codes ";\n") (s ∷ ss)) ≡ (current ++ s) ∷ map new_line ss
unfolding join next_mode
split_from-join current s [] p ps =
    split_from_single plain current s p.ascii p.passes.whole ∙ last_segment-append current s p
split_from-join current s (t ∷ ss) p (q, qs) =
    split_from-statement plain current s (10 ∷ join (codes ";\n") (t ∷ ss)) p.ascii p.passes.whole
      p.passes.ends
    ∙ ap (◌∷◌ (current ++ s)) (
        split_from-push plain [] 10 (join (codes ";\n") (t ∷ ss)) (omega arith) refl
        ∙ split_from-join (10 ∷ []) t ss q qs)

-- The statements, each but the first behind the line break of the join.
abbrev pub on_lines : List Bytes → List Bytes
on_lines [] = []
on_lines (s ∷ ss) = s ∷ map new_line ss

pub split_from-join_each :
    (ss : List Bytes)
    → All IsClosed ss
    → split_top_level_statements (join (codes ";\n") ss) ≡ on_lines ss
unfolding split_top_level_statements join
split_from-join_each [] p = refl
split_from-join_each (s ∷ ss) (p, ps) = split_from-join [] s ss p ps
