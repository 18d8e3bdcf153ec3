-- ===== src/Sql/Quoting.antt =====
-- Quoted SQL text: `escape_sql_literal` of session/mod.rs and `quote_identifier` of
-- duckvis/attach.rs, which both double the quotes inside.
pub mod Laws
mod Tests
use swanlake.Prelude.{ℕ, List, [], ◌∷◌, ◌++◌, ◌==◌, if◌then◌else◌}
use swanlake.Text.{Bytes}

-- `value.replace(q, qq)`
unfoldable pub doubled : ℕ → Bytes → Bytes
doubled q [] = []
doubled q (c ∷ s) = let rest = doubled q s in if c == q then q ∷ q ∷ rest else c ∷ rest

unfoldable pub escape_sql_literal : Bytes → Bytes
unfolding doubled
escape_sql_literal value = doubled 39 value

unfoldable pub quote_identifier : Bytes → Bytes
unfolding doubled
quote_identifier name = 34 ∷ doubled 34 name ++ 34 ∷ []

-- `[…].join(separator)`
unfoldable pub join : Bytes → List Bytes → Bytes
join separator [] = []
join separator (s ∷ []) = s
join separator (s ∷ t ∷ ss) = s ++ (separator ++ join separator (t ∷ ss))
