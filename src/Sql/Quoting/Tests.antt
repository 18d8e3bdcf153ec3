-- ===== src/Sql/Quoting/Tests.antt =====
-- Quoted text at inputs with quotes inside.
use swanlake.Prelude.{◌≡◌, refl, [], ◌∷◌, ◌++◌}
use swanlake.Text.{codes}
use swanlake.Sql.Tokens.{unquote}
use swanlake.Sql.Quoting.{doubled, quote_identifier}
use swanlake.Sql.Quoting.Laws.{unquote-doubled}

identifier : quote_identifier (codes "a\"b") ≡ codes "\"a\"\"b\""
unfolding quote_identifier
identifier = refl

unquote-doubled_example : unquote (39 ∷ doubled 39 (codes "it's") ++ 39 ∷ []) ≡ codes "it's"
unquote-doubled_example = unquote-doubled 39 (codes "it's") refl
