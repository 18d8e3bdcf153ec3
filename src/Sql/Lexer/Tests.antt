-- ===== src/Sql/Lexer/Tests.antt =====
-- Runs of the split, and its theorems at a text with quotes and comments.
use swanlake.Prelude.{◌≡◌, refl, ◌⊎◌, ◌++◌, List, [], ◌∷◌, map, arith}
use swanlake.Text.{codes}
use swanlake.Sql.Lexer.{split_top_level_statements}
use swanlake.Sql.Lexer.Ascii.{encoded, head_or}
use swanlake.Sql.Lexer.Parts.{
  Part, code, quoted_text, line_comment, block_comment, written, script, unless_empty,
  split_top_level_statements-script,
}
use swanlake.Sql.Lexer.Pieces.{rejoin, rejoin-split_top_level_statements}

quotes_and_comments :
    split_top_level_statements (codes "a ';''' -- ;\n; /* ; */ \"x;\"; b")
    ≡ codes "a ';''' -- ;\n" ∷ codes " /* ; */ \"x;\"" ∷ codes " b" ∷ []
unfolding split_top_level_statements
quotes_and_comments = refl

-- The letter U+00E9 comes back as two characters.
accent : split_top_level_statements (195 ∷ 169 ∷ []) ≡ (195 ∷ 131 ∷ 194 ∷ 169 ∷ []) ∷ []
unfolding split_top_level_statements
accent = refl

rejoin-split_top_level_statements_example :
    (rejoin (split_top_level_statements (codes "a; b;")) ≡ encoded (codes "a; b;"))
    ⊎ (rejoin (split_top_level_statements (codes "a; b;")) ≡ encoded (codes "a; b;") ++ 59 ∷ [])
rejoin-split_top_level_statements_example = rejoin-split_top_level_statements (codes "a; b;")

abbrev parts : List Part
parts =
    code 97
    ∷ quoted_text 39 (codes ";'")
    ∷ line_comment (codes " ;")
    ∷ block_comment (codes " ; *")
    ∷ []

abbrev quoted_parts : List Part
quoted_parts = quoted_text 34 (codes "x;") ∷ []

parts-written : script (parts ∷ []) quoted_parts ≡ codes "a';'''-- ;\n/* ; **/;\"x;\""
unfolding script
parts-written = refl

split_top_level_statements-script_example :
    split_top_level_statements (script (parts ∷ []) quoted_parts)
    ≡ map written (parts ∷ []) ++ unless_empty (written quoted_parts)
unfolding written head_or
split_top_level_statements-script_example =
    split_top_level_statements-script (parts ∷ []) quoted_parts (ground arith) (ground arith)
